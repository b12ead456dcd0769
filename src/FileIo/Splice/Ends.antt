-- ===== src/FileIo/Splice/Ends.antt =====
-- How splice.c ends: with every descriptor closed, and with a status that does not tell whether the
-- copy is complete.
use linux_system_programming.FileIo.Splice.{close_up, splice_loop, through_pipe}
use linux_system_programming.Prelude.{
  Bool-cases, arith, false, if◌then◌else◌, inl, inr, refl, suc, zero, ℕ, ◌+◌, ◌∷◌, ◌≡◌,
}
use linux_system_programming.Prelude.Int.{is_minus_one, pos, ℤ}
use linux_system_programming.Sys.{
  Outcome, Reply, Script, Trace, bind_outcome, event, exited, faulted, replaced, starved, value,
}
use linux_system_programming.Sys.Calls.{pipe, splice}
use linux_system_programming.Sys.Files.{closed, held, opened}

-- A part that never ends the process, and neither opens nor closes `x` if it comes back.
abbrev Steady : ℕ → Trace → Outcome (Unit {0}) → Type 0
Steady x t (value u n t') = (opened x t' ≡ opened x t) × (closed x t' ≡ closed x t)
Steady x t (exited c t') = ⊥
Steady x t (replaced t') = ⊥
Steady x t (starved t') = Unit
Steady x t (faulted t') = ⊥

-- The loop neither opens nor closes a descriptor.
splice_loop-Settles :
    (fuel : ℕ) (a b c d : ℤ) (s : Script) (n : ℕ) (t : Trace) (x : ℕ)
    → Steady x t (splice_loop fuel a b c d s n t)
unfolding splice_loop opened closed
splice_loop-Settles zero a b c d s n t x = tt
splice_loop-Settles (suc fuel) a b c d s n t x = ground (
  arith,
  splice_loop-Settles fuel a b c d s (suc (suc n))
      (event (splice c b (s n).ret) (s (suc n)) ∷ event (splice a d (pos 4096)) (s n) ∷ t) x,
)

-- The run has ended with status `c` and closed `k` descriptors `x` more than it opened since `t`,
-- or its loop still runs.
abbrev pub EndsIn : ℕ → ℕ → ℕ → Trace → Outcome ℕ → Type 0
EndsIn c k x t (value d n t') = (d ≡ c) × (opened x t' + closed x t + k ≡ closed x t' + opened x t)
EndsIn c k x t (exited d t') = (d ≡ c) × (opened x t' + closed x t + k ≡ closed x t' + opened x t)
EndsIn c k x t (replaced t') = ⊥
EndsIn c k x t (starved t') = Unit
EndsIn c k x t (faulted t') = ⊥

-- What the four `close` calls make of a loop that has ended.
close_up-Closes :
    (a b c d : ℤ) (s : Script) (t : Trace) (x : ℕ) (o : Outcome (Unit {0}))
    → Steady x t o
    → EndsIn 0
        (held x a + held x b + held x c + held x d)
        x
        t
        (bind_outcome o (λ _. close_up a b c d) s)
unfolding close_up opened closed
close_up-Closes a b c d s t x (value u n t') h = (refl, omega (arith, h.0, h.1))
close_up-Closes a b c d s t x (exited k t') h = absurd h
close_up-Closes a b c d s t x (replaced t') h = absurd h
close_up-Closes a b c d s t x (starved t') h = tt
close_up-Closes a b c d s t x (faulted t') h = absurd h

regroup :
    (x a b c d : ℕ) (u : Trace) (o : Outcome ℕ)
    → EndsIn 0 (a + b + c + d) x u o
    → EndsIn 0 (a + b + (c + d)) x u o
regroup x a b c d u (value e n t') h = (h.0, omega arith)
regroup x a b c d u (exited e t') h = (h.0, omega arith)
regroup x a b c d u (replaced t') h = h
regroup x a b c d u (starved t') h = h
regroup x a b c d u (faulted t') h = h

-- The two pipe ends count as opened before the loop.
EndsIn-shift :
    (x : ℕ) (k : ℕ) (t : Trace) (r : Reply) (o : Outcome ℕ)
    → is_minus_one r.ret ≡ false
    → EndsIn 0 (held x (pos r.out) + held x (pos r.out2) + k) x (event pipe r ∷ t) o
    → EndsIn 0 k x t o
unfolding opened closed
EndsIn-shift x k t r (value d n t') e h = ground arith
EndsIn-shift x k t r (exited d t') e h = ground arith
EndsIn-shift x k t r (replaced t') e h = h
EndsIn-shift x k t r (starved t') e h = h
EndsIn-shift x k t r (faulted t') e h = h

-- Once both files are open the status of splice.c says whether the pipe was made, and nothing
-- else: with a pipe it ends with 0 however `splice` fails, without one with 1; in either case it
-- has then closed both files and both pipe ends.
pub through_pipe-EndsIn :
    (fuel : ℕ) (fd_in fd_out : ℤ) (s : Script) (n : ℕ) (t : Trace) (x : ℕ)
    → EndsIn
        (if is_minus_one (s n).ret then 1 else 0)
        (held x fd_in + held x fd_out)
        x
        t
        (through_pipe fuel fd_in fd_out s n t)
unfolding through_pipe opened closed
through_pipe-EndsIn fuel fd_in fd_out s n t x = elim (Bool-cases (is_minus_one (s n).ret)) [
  | inl e ↦ rw e (ground arith)
  | inr e ↦
      let u : Trace = event pipe (s n) ∷ t in
      let a = pos (s n).out in
      let b = pos (s n).out2 in
      rw e (
        EndsIn-shift x (held x fd_in + held x fd_out) t (s n) _ e (
          regroup x _ _ _ _ u _ (
            close_up-Closes a b fd_in fd_out s u x _
              (splice_loop-Settles fuel fd_in fd_out a b s (suc n) u x))))
]
