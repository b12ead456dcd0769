-- ===== src/RefCount/Safety.antt =====
-- What mutexdual.c guarantees for any number of workers.
use linux_system_programming.Prelude.{
  List, [], arith, false, inl, inr, suc, sym, true, ℕ, ◌∙◌, ◌∷◌, ◌≡◌, ◌≢◌,
}
use linux_system_programming.Prelude.Int.{pos}
use linux_system_programming.RefCount.{Pc, Reach, Shared, System, done, joining, misuse, step}
use linux_system_programming.RefCount.Invariant.{
  Last, Last-not_joining, Reach-Inv, astray, busy, has_ref,
}
use linux_system_programming.RefCount.Totals.{total}

-- No thread of the list is about to misuse the object.
abbrev pub NoneMisuses : Shared → List Pc → Type 0
NoneMisuses m [] = Unit
NoneMisuses m (p ∷ ps) = (step p m ≢ misuse) × NoneMisuses m ps

worker_fine :
    (p : Pc) (m : Shared) → m.alive ≡ true → m.linked ≡ true → astray p ≡ 0 → step p m ≢ misuse
unfolding step
worker_fine p m a l c e = ground arith

workers_fine :
    (m : Shared) (ps : List Pc)
    → m.alive ≡ true
    → m.linked ≡ true
    → total astray ps ≡ 0
    → NoneMisuses m ps
unfolding total
workers_fine m [] a l c = tt
workers_fine m (p ∷ ps) a l c =
    (worker_fine p m a l (omega arith), workers_fine m ps a l (omega arith))

main_fine : (p : Pc) (m : Shared) → Last p m → step p m ≢ misuse
unfolding step
main_fine p m v e = ground arith

idle_fine : (p : Pc) (m : Shared) → busy p ≡ 0 → step p m ≢ misuse
unfolding step
idle_fine p m h e = ground arith

idle_workers_fine : (m : Shared) (ps : List Pc) → total busy ps ≡ 0 → NoneMisuses m ps
unfolding total
idle_workers_fine m [] h = tt
idle_workers_fine m (p ∷ ps) h = (idle_fine p m (omega arith), idle_workers_fine m ps (omega arith))

joining_fine : (p : Pc) (m : Shared) → p ≡ joining → step p m ≢ misuse
unfolding step
joining_fine p m j e = ground arith

done-ne-joining : done ≢ joining
done-ne-joining e = cc

freed :
    (p : Pc) (m : Shared)
    → p ≡ done
    → Last p m
    → m
      ≡ record { hashlock = false; linked = false; alive = false; f_lock = false; f_count = pos 0 }
freed p m d v = ground arith

-- In every reachable state, for any number of workers, no step of `main` or of a worker touches
-- the object after it was freed, or unlinks it when it is not in the table.
pub Reach-no_misuse :
    {n : ℕ} {s : System} → Reach n s → NoneMisuses s.shared (s.main_pc ∷ s.workers)
Reach-no_misuse {s = s} r = elim (Reach-Inv r) [
  | inl (j, v) ↦
      (joining_fine s.main_pc s.shared j, workers_fine s.shared s.workers v.lives v.links v.calm)
  | inr (h, v) ↦ (main_fine s.main_pc s.shared v, idle_workers_fine s.shared s.workers h)
]

-- While a thread works on the object it is alive and in the table, and it is counted once for each
-- thread that has a reference, `main` included.
pub Reach-counted :
    {n : ℕ} {s : System}
    → Reach n s
    → s.main_pc ≡ joining
    → (s.shared.alive ≡ true)
      × (s.shared.linked ≡ true)
      × (s.shared.f_count ≡ pos (suc (total has_ref s.workers)))
Reach-counted {s = s} r j = elim (Reach-Inv r) [
  | inl (_, v) ↦ (v.lives, v.links, v.counts)
  | inr (h, v) ↦ absurd (Last-not_joining s.main_pc s.shared j v)
]

-- When `main` has ended, the object has been freed and is out of the table, no lock is held, and
-- every worker is done.
pub Reach-released :
    {n : ℕ} {s : System}
    → Reach n s
    → s.main_pc ≡ done
    → (s.shared ≡ record {
      hashlock = false;
      linked = false;
      alive = false;
      f_lock = false;
      f_count = pos 0;
    })
      × (total busy s.workers ≡ 0)
Reach-released {s = s} r d = elim (Reach-Inv r) [
  | inl (j, v) ↦ absurd (done-ne-joining (sym d ∙ j))
  | inr (h, v) ↦ (freed s.main_pc s.shared d v, h)
]
