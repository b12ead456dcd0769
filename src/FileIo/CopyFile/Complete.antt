-- ===== src/FileIo/CopyFile/Complete.antt =====
-- When copyfile.c has copied the whole file.
use linux_system_programming.FileIo.CopyFile.{copy_loop, copy_to, main}
use linux_system_programming.Prelude.{
  Bool-cases, List, [], arith, false, get_or, if◌then◌else◌, inl, inr, length, refl, suc, true,
  zero, ℕ, ◌&&◌, ◌+◌, ◌-◌, ◌<◌, ◌==◌, ◌∷◌, ◌≡◌, ◌≤◌, ◌⊎◌,
}
use linux_system_programming.Prelude.Int.{
  is_minus_one, is_pos, neg_part, negsuc, pos, pos_part, ℤ, ◌-ℤ◌, ◌≤ℤ◌,
}
use linux_system_programming.Sys.{
  Outcome, Prog, Reply, Script, Trace, bind_outcome, call, event, exit_with, exited, faulted,
  replaced, starved, trace, value, ◌>>◌,
}
use linux_system_programming.Sys.Calls.{Call, close, copy_file_range, open_path}

-- The bytes that the calls of a run copied, and how many of the calls copied nothing.
pub copied : Trace → ℕ
copied [] = 0
copied (event (copy_file_range a b len) r ∷ t) = copied t + pos_part r.ret
copied (event c r ∷ t) = copied t

pub stops : Trace → ℕ
stops [] = 0
stops (event (copy_file_range a b len) r ∷ t) = stops t + (if is_pos r.ret then 0 else 1)
stops (event c r ∷ t) = stops t

-- What `copy_file_range` documents: it never copies more than it was asked for,
-- and -1 is its only negative result.
abbrev pub HonestAt : Call → Reply → Type 0
HonestAt (copy_file_range a b len) r = (r.ret ≤ℤ len) × (negsuc 0 ≤ℤ r.ret)
HonestAt c r = Unit

abbrev pub Honest : Trace → Type 0
Honest [] = Unit
Honest (event c r ∷ t) = HonestAt c r × Honest t

-- The loop ends with nothing left or at a call that copied nothing, and the bytes add up.
abbrev pub CopyEnd : ℕ → Trace → Outcome ℤ → Type 0
CopyEnd len t (value left n t') =
    (copied t' + pos_part left ≡ copied t + len)
    × (neg_part left ≡ 0)
    × ((left ≡ pos 0) ⊎ (stops t < stops t'))
CopyEnd len t (exited c t') = c ≡ 1
CopyEnd len t (replaced t') = ⊥
CopyEnd len t (starved t') = ⊥
CopyEnd len t (faulted t') = ⊥

-- The event of a round comes before all that follows.
copy_loop-Honest :
    (fuel : ℕ) (fd_in fd_out len : ℤ) (s : Script) (n : ℕ) (t : Trace)
    → Honest (trace (copy_loop fuel fd_in fd_out len s n t))
    → Honest t
unfolding copy_loop
copy_loop-Honest zero fd_in fd_out len s n t k = k
copy_loop-Honest (suc fuel) fd_in fd_out len s n t k = elim (Bool-cases (is_minus_one (s n).ret)) [
  | inl e ↦ (rw e at k).1.1
  | inr e ↦ elim (Bool-cases (is_pos (len -ℤ (s n).ret) && is_pos (s n).ret)) [
    | inl f ↦ (copy_loop-Honest fuel fd_in fd_out (len -ℤ (s n).ret) s (suc n) _ (rw (e, f) at k)).1
    | inr f ↦ (rw (e, f) at k).1
  ]
]

CopyEnd-extend :
    (len r : ℕ) (t t' : Trace) (o : Outcome ℤ)
    → r ≤ len
    → copied t' ≡ copied t + r
    → stops t' ≡ stops t
    → CopyEnd (len - r) t' o
    → CopyEnd len t o
CopyEnd-extend len r t t' (value left n u) a b c h = ground arith
CopyEnd-extend len r t t' (exited e u) a b c h = h
CopyEnd-extend len r t t' (replaced u) a b c h = h
CopyEnd-extend len r t t' (starved u) a b c h = h
CopyEnd-extend len r t t' (faulted u) a b c h = h

-- A round that goes on has copied between 1 and all but one of the bytes left.
round_value :
    (len : ℕ) (v : ℤ)
    → (is_pos (pos len -ℤ v) && is_pos v) ≡ true
    → (r : ℕ) × (v ≡ pos r) × (0 < r) × (r < len) × (pos len -ℤ v ≡ pos (len - r))
unfolding ◌-ℤ◌
round_value len (pos r) h = (r, refl, ground arith, ground arith, ground arith)
round_value len (negsuc r) h = absurd (ground arith)

last_value :
    (len c : ℕ) (v : ℤ)
    → is_minus_one v ≡ false
    → (is_pos (pos len -ℤ v) && is_pos v) ≡ false
    → (v ≤ℤ pos len) × (negsuc 0 ≤ℤ v)
    → (c + pos_part v + pos_part (pos len -ℤ v) ≡ c + len)
      × (neg_part (pos len -ℤ v) ≡ 0)
      × ((pos len -ℤ v ≡ pos 0) ⊎ (0 < (if is_pos v then 0 else 1)))
unfolding ◌-ℤ◌
last_value len c v e f h = ground arith

copy_loop-CopyEnd :
    (fuel len : ℕ) (fd_in fd_out : ℤ) (s : Script) (n : ℕ) (t : Trace)
    → len < fuel
    → Honest (trace (copy_loop fuel fd_in fd_out (pos len) s n t))
    → CopyEnd len t (copy_loop fuel fd_in fd_out (pos len) s n t)
unfolding copy_loop copied stops
copy_loop-CopyEnd zero len fd_in fd_out s n t h k = elim h [ ]
copy_loop-CopyEnd (suc fuel) len fd_in fd_out s n t h k =
    elim (Bool-cases (is_minus_one (s n).ret)) [
      | inl e ↦ rw e refl
      | inr e ↦ elim (Bool-cases (is_pos (pos len -ℤ (s n).ret) && is_pos (s n).ret)) [
        | inl f ↦
            let (r, v, r_pos, r_lt, left) = round_value len (s n).ret f in
            let t' : Trace = event (copy_file_range fd_in fd_out (pos len)) (s n) ∷ t in
            rw (e, f)
              (rw left (
                CopyEnd-extend len r t t' _ (omega arith) (ground arith) (ground arith) (
                  copy_loop-CopyEnd fuel (len - r) fd_in fd_out s (suc n) t' (omega arith)
                    (rw left at (rw (e, f) at k)))))
        | inr f ↦
            rw (e, f)
              (let z = last_value len (copied t) (s n).ret e f (rw (e, f) at k).0 in
                (z.0, z.1, ground arith))
      ]
    ]

-- The program has ended: with 1, or with 0 and all `size` bytes copied or a call that copied
-- nothing, which is how the end of the input shows.
abbrev pub CopyDone : ℕ → Trace → Outcome ℕ → Type 0
CopyDone size t (exited c t') =
    (c ≡ 1) ⊎ ((c ≡ 0) × ((copied t' ≡ copied t + size) ⊎ (stops t < stops t')))
CopyDone size t (value c n t') = ⊥
CopyDone size t (replaced t') = ⊥
CopyDone size t (starved t') = ⊥
CopyDone size t (faulted t') = ⊥

-- The two `close` calls and the `exit` behind the loop.
finish : ℤ → ℤ → ℤ → Prog ℕ
finish fd_in fd_out _ = call (close fd_in) >> call (close fd_out) >> exit_with 0

finish-CopyDone :
    (size : ℕ) (fd_in fd_out : ℤ) (s : Script) (t : Trace) (o : Outcome ℤ)
    → CopyEnd size t o
    → CopyDone size t (bind_outcome o (finish fd_in fd_out) s)
unfolding finish copied stops
finish-CopyDone size fd_in fd_out s t (value left n t') h = inr (refl, ground arith)
finish-CopyDone size fd_in fd_out s t (exited c t') h = inl h
finish-CopyDone size fd_in fd_out s t (replaced t') h = h
finish-CopyDone size fd_in fd_out s t (starved t') h = h
finish-CopyDone size fd_in fd_out s t (faulted t') h = h

finish-Honest :
    (fd_in fd_out : ℤ) (s : Script) (o : Outcome ℤ)
    → Honest (trace (bind_outcome o (finish fd_in fd_out) s))
    → Honest (trace o)
unfolding finish
finish-Honest fd_in fd_out s (value left n t') h = h.1.1
finish-Honest fd_in fd_out s (exited c t') h = h
finish-Honest fd_in fd_out s (replaced t') h = h
finish-Honest fd_in fd_out s (starved t') h = h
finish-Honest fd_in fd_out s (faulted t') h = h

copy_to-CopyDone :
    (fuel size : ℕ) (destination : List ℕ) (fd_in : ℤ) (s : Script) (n : ℕ) (t : Trace)
    → size < fuel
    → Honest (trace (copy_to fuel destination fd_in size s n t))
    → CopyDone size t (copy_to fuel destination fd_in size s n t)
unfolding copy_to copied stops finish
copy_to-CopyDone fuel size destination fd_in s n t h k =
    elim (Bool-cases (is_minus_one (s n).ret)) [
      | inl e ↦ rw e (inl refl)
      | inr e ↦
          let u : Trace = event (open_path destination 577) (s n) ∷ t in
          let o : Outcome ℤ = copy_loop fuel fd_in (s n).ret (pos size) s (suc n) u in
          rw e (
            finish-CopyDone size fd_in (s n).ret s u o (
              copy_loop-CopyEnd fuel size fd_in (s n).ret s (suc n) u h
                (finish-Honest fd_in (s n).ret s o (rw e at k))))
    ]

-- With more fuel than the size that `fstat` gives, and a kernel that keeps to what
-- `copy_file_range` documents, copyfile.c comes to its end for all arguments and replies; it exits
-- with 1, or it exits with 0 and has copied exactly that size or met a call that copied nothing.
pub main-CopyDone :
    (fuel : ℕ) (argv : List (List ℕ)) (s : Script)
    → (s 1).out < fuel
    → Honest (trace (main fuel argv s 0 []))
    → CopyDone (s 1).out [] (main fuel argv s 0 [])
unfolding main copied stops
main-CopyDone fuel argv s h k = elim (Bool-cases (length argv == 3)) [
  | inr e ↦ rw e (inl refl)
  | inl e ↦ elim (Bool-cases (is_minus_one (s 0).ret)) [
    | inl f ↦ rw (e, f) (inl refl)
    | inr f ↦ elim (Bool-cases (is_minus_one (s 1).ret)) [
      | inl g ↦ rw (e, f, g) (inl refl)
      | inr g ↦
          rw (e, f, g)
            (copy_to-CopyDone fuel (s 1).out (get_or argv 2 []) (s 0).ret s 2 _ h
              (rw (e, f, g) at k))
    ]
  ]
]
