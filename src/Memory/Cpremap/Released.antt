-- ===== src/Memory/Cpremap/Released.antt =====
-- What cpremap.c gives back: every descriptor, and every mapping with the length that it has.
use linux_system_programming.Memory.Cpremap.{
  Mapping, copy_bytes, copy_source, copy_sources, main, open_failed, quit_word, resize, tear_down,
  with_destination,
}
use linux_system_programming.Prelude.{
  Bool-cases, List, [], arith, get_or, inl, inr, length, refl, suc, zero, ℕ, ◌+◌, ◌==◌, ◌||◌, ◌∷◌,
  ◌≡◌,
}
use linux_system_programming.Prelude.Int.{is_minus_one, is_zero, ℤ}
use linux_system_programming.Shell.Line.{same_text, until_newline}
use linux_system_programming.Sys.{
  AtEnd, Outcome, Prog, Reply, Runs, Script, Trace, bind_outcome, event, exited, faulted, replaced,
  starved, value,
}
use linux_system_programming.Sys.Blocks.{mapped, region, region_failed, unmapped}
use linux_system_programming.Sys.Calls.{
  fflush, fgets, fstat, ftruncate, mmap, mremap, open_path, printf,
}
use linux_system_programming.Sys.Files.{closed, held, held_failed, held_minus_one, opened}

-- The descriptors of value `x` and the mappings of `l` bytes at `a`, together.
abbrev pub Balanced : ℕ → ℕ → ℕ → ℕ → ℕ → ℕ → ℕ → Trace → Trace → Type 0
Balanced x a l k m k' m' t t' =
    (opened x t' + closed x t + k ≡ closed x t' + opened x t + k')
    × (mapped a l t' + unmapped a l t + m ≡ unmapped a l t' + mapped a l t + m')

module _ (s : Script) (x a l : ℕ) where
  abbrev place : Mapping → ℕ
  place m = region a l m.dst m.dst_size

  copy_bytes-Balanced :
      (fd : ℤ) (m : Mapping) (size n : ℕ) (t : Trace)
      → Runs
          (λ m' t'. Balanced x a l (held x fd) (place m) 0 (place m') t t')
          (copy_bytes fd m size s n t)
  unfolding copy_bytes opened closed mapped unmapped region
  copy_bytes-Balanced fd m size n t = ground arith

  resize-Balanced :
      (fd_dst fd : ℤ) (m : Mapping) (size n : ℕ) (t : Trace)
      → Runs
          (λ m' t'. Balanced x a l (held x fd) (place m) 0 (place m') t t')
          (resize fd_dst fd m size s n t)
  unfolding resize opened closed mapped unmapped
  resize-Balanced fd_dst fd m size n t = ground (
    arith,
    region_failed a l (s (suc n)).ret size,
    copy_bytes-Balanced fd (record { dst = (s (suc n)).ret; dst_size = size }) size (suc (suc n))
        (event (mremap m.dst m.dst_size size) (s (suc n))
          ∷ event (ftruncate fd_dst size) (s n)
          ∷ t),
  )

  copy_source-Balanced :
      (fd_dst : ℤ) (name : List ℕ) (m : Mapping) (n : ℕ) (t : Trace)
      → Runs
          (λ m' t'. Balanced x a l 0 (place m) 0 (place m') t t')
          (copy_source fd_dst name m s n t)
  unfolding copy_source opened closed mapped unmapped
  copy_source-Balanced fd_dst name m n t = ground (
    arith,
    held_minus_one x,
    resize-Balanced fd_dst (s n).ret m (s (suc n)).out (suc (suc n))
        (event (fstat (s n).ret) (s (suc n)) ∷ event (open_path name 0) (s n) ∷ t),
  )

  -- The loop and what stands behind it give back the destination and its mapping.
  abbrev Released : ℕ → ℕ → Trace → Outcome ℕ → Type 0
  Released k m t = AtEnd (λ t'. Balanced x a l k m 0 0 t t')

  Released-after :
      (k k' m m' : ℕ) (t t' : Trace) (o : Outcome ℕ)
      → Balanced x a l k m k' m' t t'
      → Released k' m' t' o
      → Released k m t o
  Released-after k k' m m' t t' (value b n u) h q = (omega arith, omega arith)
  Released-after k k' m m' t t' (exited c u) h q = (omega arith, omega arith)
  Released-after k k' m m' t t' (replaced u) h q = tt
  Released-after k k' m m' t t' (starved u) h q = tt
  Released-after k k' m m' t t' (faulted u) h q = tt

  Released-bind :
      {A : Type 0} (k k' m : ℕ) (m' : A → ℕ) (t : Trace) (o : Outcome A) (f : A → Prog ℕ)
      → Runs (λ b t'. Balanced x a l k m k' (m' b) t t') o
      → ((b : A) (n : ℕ) (t' : Trace) → Released k' (m' b) t' (f b s n t'))
      → Released k m t (bind_outcome o f s)
  Released-bind k k' m m' t (value b n t') f h q = Released-after k k' m (m' b) t t' _ h (q b n t')
  Released-bind k k' m m' t (exited c t') f h q = absurd h
  Released-bind k k' m m' t (replaced t') f h q = absurd h
  Released-bind k k' m m' t (starved t') f h q = absurd h
  Released-bind k k' m m' t (faulted t') f h q = absurd h

  -- A part that keeps no descriptor keeps those of its caller.
  Runs-frame :
      (k m : ℕ) (t : Trace) (o : Outcome Mapping)
      → Runs (λ b t'. Balanced x a l 0 m 0 (place b) t t') o
      → Runs (λ b t'. Balanced x a l k m k (place b) t t') o
  Runs-frame k m t (value b n u) h = (omega arith, h.1)
  Runs-frame k m t (exited c u) h = h
  Runs-frame k m t (replaced u) h = h
  Runs-frame k m t (starved u) h = h
  Runs-frame k m t (faulted u) h = h

  copy_sources-Released :
      (fuel : ℕ) (fd_dst : ℤ) (m : Mapping) (n : ℕ) (t : Trace)
      → Released (held x fd_dst) (place m) t (copy_sources fuel fd_dst m s n t)
  unfolding copy_sources tear_down opened closed mapped unmapped
  copy_sources-Released zero fd_dst m n t = tt
  copy_sources-Released (suc fuel) fd_dst m n t =
      let r = s (suc (suc n)) in
      let t' : Trace =
        event (fgets 256) r
        ∷ event fflush (s (suc n))
        ∷ event (printf "\nEnter source file (or 'quit'): ") (s n)
        ∷ t in
      elim (Bool-cases (is_zero r.ret || same_text (until_newline r.bytes) quit_word)) [
        | inl e ↦ rw e (omega arith, omega arith)
        | inr e ↦ rw e (
            Released-after (held x fd_dst) (held x fd_dst) (place m) (place m) t t' _
              (omega arith, omega arith)
              (Released-bind (held x fd_dst) (held x fd_dst) (place m) place t' _ _
                (Runs-frame (held x fd_dst) (place m) t' _
                  (copy_source-Balanced fd_dst (until_newline r.bytes) m (suc (suc (suc n))) t'))
                (λ b n'' t''. copy_sources-Released fuel fd_dst b n'' t'')))
      ]

  with_destination-Released :
      (fuel : ℕ) (fd_dst : ℤ) (n : ℕ) (t : Trace)
      → Released (held x fd_dst) 0 t (with_destination fuel fd_dst s n t)
  unfolding with_destination open_failed opened closed mapped unmapped
  with_destination-Released fuel fd_dst n t = elim (Bool-cases (is_minus_one (s n).ret)) [
    | inl e ↦ rw e (omega arith, omega arith)
    | inr e ↦ elim (Bool-cases (is_minus_one (s (suc n)).ret)) [
      | inl f ↦ rw (e, f) (omega arith, omega (arith, region_failed a l (s (suc n)).ret 1 f))
      | inr f ↦
          let p = (s (suc n)).ret in
          let t' : Trace =
            event (mmap 1 fd_dst) (s (suc n)) ∷ event (ftruncate fd_dst 1) (s n) ∷ t in
          rw (e, f)
            (Released-after (held x fd_dst) (held x fd_dst) 0 (region a l p 1) t t' _
              (ground arith, ground arith)
              (copy_sources-Released fuel fd_dst (record { dst = p; dst_size = 1 }) (suc (suc n))
                t'))
    ]
  ]

-- The open of the destination, and the rest of the run.
settle :
    (s : Script) (x a l : ℕ) (name : List ℕ) (r : Reply) (o : Outcome ℕ)
    → Released s x a l (held x r.ret) 0 (event (open_path name 66) r ∷ []) o
    → AtEnd (λ t. (opened x t ≡ closed x t) × (mapped a l t ≡ unmapped a l t)) o
unfolding opened closed mapped unmapped
settle s x a l name r (value b n t) h = (omega arith, omega arith)
settle s x a l name r (exited c t) h = (omega arith, omega arith)
settle s x a l name r (replaced t) h = tt
settle s x a l name r (starved t) h = tt
settle s x a l name r (faulted t) h = tt

-- When cpremap.c ends, for all arguments, input and replies, each descriptor has been closed as
-- often as it was opened, and each mapping, at its address and with its length, has been removed
-- as often as it was made, the ones that `mremap` replaced included.
pub main-Released :
    (fuel : ℕ) (argv : List (List ℕ)) (s : Script) (x a l : ℕ)
    → AtEnd
        (λ t. (opened x t ≡ closed x t) × (mapped a l t ≡ unmapped a l t))
        (main fuel argv s 0 [])
unfolding main opened closed mapped unmapped
main-Released fuel argv s x a l = elim (Bool-cases (length argv == 2)) [
  | inr e ↦ rw e (refl, refl)
  | inl e ↦ elim (Bool-cases (is_minus_one (s 0).ret)) [
    | inl f ↦ rw (e, f) (omega (arith, held_failed x (s 0).ret f), refl)
    | inr f ↦
        rw (e, f)
          (settle s x a l (get_or argv 1 []) (s 0) _
            (with_destination-Released s x a l fuel (s 0).ret 1 _))
  ]
]
