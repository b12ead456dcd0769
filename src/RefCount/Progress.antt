-- ===== src/RefCount/Progress.antt =====
-- No deadlock in mutexdual.c: the table's lock is taken before the object's wherever both are held.
use linux_system_programming.Prelude.{
  Bool, List, [], arith, false, get_elem?, inl, inr, refl, set, some, true, ℕ, ◌<◌, ◌∙◌, ◌∷◌, ◌≡◌,
  ◌≢◌, ◌⊎◌,
}
use linux_system_programming.RefCount.{
  Move, Pc, Reach, Shared, Step, System, all_done, blocked, by_main, by_worker, done, joined,
  joining, misuse, rele_lock, step, to,
}
use linux_system_programming.RefCount.Invariant.{
  Last, Reach-Inv, SharedOk, astray, bit, busy, has_hash, has_obj,
}
use linux_system_programming.RefCount.Totals.{le-total, split_pos, total, total-positive}

abbrev goes : Move → Bool
goes (to m q) = true
goes blocked = false
goes misuse = false

going : (mv : Move) → goes mv ≡ true → (m : Shared) × (q : Pc) × (mv ≡ to m q)
going (to m q) h = (m, q, refl)
going blocked h = absurd (cc)
going misuse h = absurd (cc)

-- Who holds the object's lock never waits; who holds the table's waits for the object's at most.
owner_goes :
    (p : Pc) (m : Shared) → m.alive ≡ true → astray p ≡ 0 → 0 < has_obj p → goes (step p m) ≡ true
unfolding step
owner_goes p m a c o = ground arith

hash_owner_goes :
    (p : Pc) (m : Shared)
    → m.alive ≡ true
    → m.linked ≡ true
    → astray p ≡ 0
    → bit m.f_lock ≡ 0
    → 0 < has_hash p
    → goes (step p m) ≡ true
unfolding step
hash_owner_goes p m a l c f o = ground arith

free_goes :
    (p : Pc) (m : Shared)
    → m.alive ≡ true
    → m.linked ≡ true
    → astray p ≡ 0
    → bit m.f_lock ≡ 0
    → bit m.hashlock ≡ 0
    → 0 < busy p
    → goes (step p m) ≡ true
unfolding step
free_goes p m a l c f h o = ground arith

main_goes : (p : Pc) (m : Shared) → Last p m → p ≢ done → goes (step p m) ≡ true
unfolding step
main_goes p m v d = ground arith

busy-all_done : (ps : List Pc) → total busy ps ≡ 0 → all_done ps ≡ true
unfolding all_done total
busy-all_done [] h = refl
busy-all_done (p ∷ ps) h = ground (arith, busy-all_done ps)

calm-at :
    (ps : List Pc) (i : ℕ) (p : Pc) → get_elem? ps i ≡ some p → total astray ps ≡ 0 → astray p ≡ 0
calm-at ps i p g c = omega (arith, le-total astray ps i p g)

worker_moves :
    (s : System) (i : ℕ) (p : Pc)
    → get_elem? s.workers i ≡ some p
    → goes (step p s.shared) ≡ true
    → (t : System) × Step s t
worker_moves s i p g h =
    let (m, q, e) = going (step p s.shared) h in
    (record s { shared = m; workers = set s.workers i q }, by_worker i g e)

waiting_moves :
    (s : System) → s.main_pc ≡ joining → SharedOk s.shared s.workers → (t : System) × Step s t
waiting_moves s j v = elim (split_pos (total has_obj s.workers)) [
  | inl o ↦
      let (i, p, g, w) = total-positive has_obj s.workers o in
      worker_moves s i p g (owner_goes p s.shared v.lives (calm-at s.workers i p g v.calm) w)
  | inr f ↦ elim (split_pos (total has_hash s.workers)) [
    | inl o ↦
        let (i, p, g, w) = total-positive has_hash s.workers o in
        worker_moves s i p g (
          hash_owner_goes p s.shared v.lives v.links (calm-at s.workers i p g v.calm) (v.obj ∙ f) w)
    | inr h ↦ elim (split_pos (total busy s.workers)) [
      | inl o ↦
          let (i, p, g, w) = total-positive busy s.workers o in
          worker_moves s i p g (
            free_goes p s.shared v.lives v.links (calm-at s.workers i p g v.calm) (v.obj ∙ f)
              (v.hash ∙ h) w)
      | inr e ↦ (record s { main_pc = rele_lock }, joined j (busy-all_done s.workers e))
    ]
  ]
]

is_done : (p : Pc) → (p ≡ done) ⊎ (p ≢ done)
is_done p = ground arith

-- In every reachable state, for any number of workers, some thread can take a step, unless `main`
-- has ended: the locks never deadlock.
pub Reach-progress :
    {n : ℕ} {s : System} → Reach n s → (s.main_pc ≡ done) ⊎ ((t : System) × Step s t)
Reach-progress {s = s} r = elim (Reach-Inv r) [
  | inl (j, v) ↦ inr (waiting_moves s j v)
  | inr (h, v) ↦ elim (is_done s.main_pc) [
    | inl d ↦ inl d
    | inr d ↦
        let (m, q, e) = going (step s.main_pc s.shared) (main_goes s.main_pc s.shared v d) in
        inr (record s { shared = m; main_pc = q }, by_main e)
  ]
]
