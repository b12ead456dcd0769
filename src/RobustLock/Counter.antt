-- ===== src/RobustLock/Counter.antt =====
-- The counter of mutextimelock.c, and what the workers print of it.
use linux_system_programming.Prelude.{
  ap, arith, countdown, length, refl, some, sym, ℕ, ◌+◌, ◌∙◌, ◌≡◌, ◌≤◌,
}
use linux_system_programming.RobustLock.{
  Answer, Place, Reach, Shared, Step, Threads, Worker, at_exit, at_print, at_round, at_store,
  at_unlock, by_first, by_second, by_third, ended, handle_lock_result, increment, later, start,
  timedlock, worker1, worker2, worker3,
}
use linux_system_programming.RobustLock.Exclusive.{Reach-exclusive_lock, inside}

abbrev pub printing : Place → ℕ
printing at_print = 1
printing p = 0

-- The value that a worker has loaded is still the counter's.
abbrev Fresh : Place → ℕ → Type 0
Fresh (at_store v) c = v ≡ c
Fresh p c = Unit

-- The increments of each worker, at most.
abbrev gained1 : Place → ℕ
gained1 at_print = 1
gained1 at_unlock = 1
gained1 p = 0

abbrev gained2 : Place → ℕ
gained2 at_print = 1
gained2 at_exit = 1
gained2 ended = 1
gained2 p = 0

abbrev gained3 : Place → ℕ
gained3 at_print = 1
gained3 at_unlock = 1
gained3 ended = 1
gained3 p = 0

abbrev pub Lap : Place → ℕ → Type 0
Lap at_round i = i ≤ 3
Lap ended i = i ≤ 3
Lap p i = i ≤ 2

-- The printed values, `others` of which the other workers are about to print.
abbrev Shows : ℕ → Place → Shared → Type 0
Shows others p s =
    Fresh p s.counter
    × (s.printed ≡ countdown (length s.printed))
    × (s.counter ≡ length s.printed + printing p + others)

worker1-Shows :
    (others : ℕ) (a : Answer) (p : Place) (k k' : Worker) (s s' : Shared)
    → k.place ≡ p
    → worker1 a p k s ≡ some (k', s')
    → Shows others k.place s
    → (inside k.place ≡ 1 → others ≡ 0)
    → Lap k.place k.i
    → Shows others k'.place s'
      × (inside k.place ≡ 0 → s'.counter ≡ s.counter)
      × Lap k'.place k'.i
      × (s'.counter + gained1 k.place + k.i ≤ s.counter + gained1 k'.place + k'.i)
unfolding worker1 increment timedlock handle_lock_result
worker1-Shows others a p k k' s s' e h v o l = ground arith

worker2-Shows :
    (others : ℕ) (a : Answer) (p : Place) (k k' : Worker) (s s' : Shared)
    → k.place ≡ p
    → worker2 a p k s ≡ some (k', s')
    → Shows others k.place s
    → (inside k.place ≡ 1 → others ≡ 0)
    → Shows others k'.place s'
      × (inside k.place ≡ 0 → s'.counter ≡ s.counter)
      × (s'.counter + gained2 k.place ≤ s.counter + gained2 k'.place)
unfolding worker2 increment timedlock handle_lock_result
worker2-Shows others a p k k' s s' e h v o = ground arith

worker3-Shows :
    (others : ℕ) (a : Answer) (p : Place) (k k' : Worker) (s s' : Shared)
    → k.place ≡ p
    → worker3 a p k s ≡ some (k', s')
    → Shows others k.place s
    → (inside k.place ≡ 1 → others ≡ 0)
    → Shows others k'.place s'
      × (inside k.place ≡ 0 → s'.counter ≡ s.counter)
      × (s'.counter + gained3 k.place ≤ s.counter + gained3 k'.place)
unfolding worker3 increment timedlock handle_lock_result
worker3-Shows others a p k k' s s' e h v o = ground arith

printing-inside : (p : Place) → printing p ≤ inside p
printing-inside p = ground arith

Fresh-step :
    (p q : Place) (c c' : ℕ)
    → Fresh p c
    → inside p + inside q ≤ 1
    → (inside q ≡ 0 → c' ≡ c)
    → Fresh p c'
Fresh-step (at_store v) q c c' f h e = f ∙ sym (e (omega arith))
Fresh-step p q c c' f h e = tt

abbrev Correct : Threads → Type 0
Correct s =
    Fresh s.w1.place s.shared.counter
    × Fresh s.w2.place s.shared.counter
    × Fresh s.w3.place s.shared.counter
    × (s.shared.printed ≡ countdown (length s.shared.printed))
    × (s.shared.counter
        ≡ length s.shared.printed + printing s.w1.place + printing s.w2.place + printing s.w3.place)
    × Lap s.w1.place s.w1.i
    × (s.shared.counter ≤ s.w1.i + gained1 s.w1.place + gained2 s.w2.place + gained3 s.w3.place)

Step-Correct :
    {s t : Threads}
    → Step s t
    → inside s.w1.place + inside s.w2.place + inside s.w3.place ≤ 1
    → Correct s
    → Correct t
Step-Correct {s} (by_first {k} {h} a e) x (f1, f2, f3, p, c, l, g) =
    let v =
      worker1-Shows (printing s.w2.place + printing s.w3.place) a s.w1.place s.w1 k s.shared h refl
        e (f1, p, omega arith)
        (λ y. omega (arith, printing-inside s.w2.place, printing-inside s.w3.place)) l in
    (
      v.0.0,
      Fresh-step s.w2.place s.w1.place s.shared.counter h.counter f2 (omega arith) v.1,
      Fresh-step s.w3.place s.w1.place s.shared.counter h.counter f3 (omega arith) v.1,
      v.0.1,
      omega (arith, v.0.2),
      v.2,
      omega (arith, v.3),
    )
Step-Correct {s} (by_second {k} {h} a e) x (f1, f2, f3, p, c, l, g) =
    let v =
      worker2-Shows (printing s.w1.place + printing s.w3.place) a s.w2.place s.w2 k s.shared h refl
        e (f2, p, omega arith)
        (λ y. omega (arith, printing-inside s.w1.place, printing-inside s.w3.place)) in
    (
      Fresh-step s.w1.place s.w2.place s.shared.counter h.counter f1 (omega arith) v.1,
      v.0.0,
      Fresh-step s.w3.place s.w2.place s.shared.counter h.counter f3 (omega arith) v.1,
      v.0.1,
      omega (arith, v.0.2),
      l,
      omega (arith, v.2),
    )
Step-Correct {s} (by_third {k} {h} a e) x (f1, f2, f3, p, c, l, g) =
    let v =
      worker3-Shows (printing s.w1.place + printing s.w2.place) a s.w3.place s.w3 k s.shared h refl
        e (f3, p, omega arith)
        (λ y. omega (arith, printing-inside s.w1.place, printing-inside s.w2.place)) in
    (
      Fresh-step s.w1.place s.w3.place s.shared.counter h.counter f1 (omega arith) v.1,
      Fresh-step s.w2.place s.w3.place s.shared.counter h.counter f2 (omega arith) v.1,
      v.0.0,
      v.0.1,
      omega (arith, v.0.2),
      l,
      omega (arith, v.2),
    )

Reach-Correct : {n : ℕ} {s : Threads} → Reach n s → Correct s
Reach-Correct start = ground arith
Reach-Correct (later r st) = Step-Correct st (Reach-exclusive_lock r).0 (Reach-Correct r)

-- No increment is lost: in every reachable state in which no worker is between its increment and its
-- printf, the values printed are 1, 2, …, up to the counter, in this order, and there are at most
-- five.
pub Reach-counts :
    {n : ℕ} {s : Threads}
    → Reach n s
    → printing s.w1.place + printing s.w2.place + printing s.w3.place ≡ 0
    → (s.shared.printed ≡ countdown s.shared.counter) × (s.shared.counter ≤ 5)
Reach-counts {s} r h =
    let (f1, f2, f3, p, c, l, g) = Reach-Correct r in
    let e : length s.shared.printed ≡ s.shared.counter = omega arith in
    (p ∙ ap countdown e, ground arith)

-- The rounds of the first worker.
pub Reach-Lap : {n : ℕ} {s : Threads} → Reach n s → Lap s.w1.place s.w1.i
Reach-Lap {s} r = let (f1, f2, f3, p, c, l, g) = Reach-Correct r in l
