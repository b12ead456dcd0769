-- ===== src/RobustLock/Ends.antt =====
-- The workers of mutextimelock.c come to their ends.
-- The steps that a worker has left in its round, at most.
use linux_system_programming.Prelude.{arith, none, refl, some, ℕ, ◌*◌, ◌+◌, ◌-◌, ◌<◌, ◌≡◌, ◌≤◌}
use linux_system_programming.RobustLock.{
  Answer, Place, Reach, Shared, Threads, Worker, at_exit, at_load, at_lock, at_print, at_result,
  at_round, at_store, at_try, at_unlock, by_first, by_second, by_third, ended, gets,
  handle_lock_result, increment, later, start, timedlock, times_out, worker1, worker2, worker3,
}
use linux_system_programming.RobustLock.Counter.{Lap, Reach-Lap}
use linux_system_programming.RobustLock.Exclusive.{NotLost, Reach-Guards}

abbrev in_round : Place → ℕ → ℕ
in_round at_try r = 6 + 3 * r
in_round at_lock r = 8 + 3 * r
in_round (at_result ret) r = 7 + 3 * r
in_round at_load r = 5
in_round (at_store v) r = 4
in_round at_print r = 3
in_round at_unlock r = 2
in_round at_exit r = 2
in_round p r = 0

abbrev rank1 : Place → ℕ → ℕ → ℕ
rank1 at_round i r = 20 * (3 - i) + 1
rank1 ended i r = 0
rank1 p i r = 20 * (2 - i) + in_round p r

-- The second worker tries once.
abbrev rank2 : Place → ℕ
rank2 at_round = 9
rank2 ended = 0
rank2 p = in_round p 0

abbrev rank3 : Place → ℕ → ℕ
rank3 at_round r = 22
rank3 ended r = 0
rank3 p r = in_round p r

worker1-descends :
    (a : Answer) (p : Place) (k k' : Worker) (s s' : Shared)
    → k.place ≡ p
    → worker1 a p k s ≡ some (k', s')
    → Lap k.place k.i
    → rank1 k'.place k'.i k'.retries < rank1 k.place k.i k.retries
unfolding worker1 increment timedlock handle_lock_result
worker1-descends a p k k' s s' e h l = ground arith

worker2-descends :
    (a : Answer) (p : Place) (k k' : Worker) (s s' : Shared)
    → k.place ≡ p
    → worker2 a p k s ≡ some (k', s')
    → rank2 k'.place < rank2 k.place
unfolding worker2 increment timedlock handle_lock_result
worker2-descends a p k k' s s' e h = ground arith

worker3-descends :
    (a : Answer) (p : Place) (k k' : Worker) (s s' : Shared)
    → k.place ≡ p
    → worker3 a p k s ≡ some (k', s')
    → rank3 k'.place k'.retries < rank3 k.place k.retries
unfolding worker3 increment timedlock handle_lock_result
worker3-descends a p k k' s s' e h = ground arith

abbrev rank : Threads → ℕ
rank s = rank1 s.w1.place s.w1.i s.w1.retries + rank2 s.w2.place + rank3 s.w3.place s.w3.retries

Reach-rank : {n : ℕ} {s : Threads} → Reach n s → n + rank s ≤ 92
Reach-rank start = ground arith
Reach-rank (later {s} r (by_first {k} {h} a e)) =
    omega
      (arith, worker1-descends a s.w1.place s.w1 k s.shared h refl e (Reach-Lap r), Reach-rank r)
Reach-rank (later {s} r (by_second {k} {h} a e)) =
    omega (arith, worker2-descends a s.w2.place s.w2 k s.shared h refl e, Reach-rank r)
Reach-rank (later {s} r (by_third {k} {h} a e)) =
    omega (arith, worker3-descends a s.w3.place s.w3 k s.shared h refl e, Reach-rank r)

-- Whatever the locks answer, no state is reached by more than 92 steps: no worker retries for ever.
pub Reach-short : {n : ℕ} {s : Threads} → Reach n s → n ≤ 92
Reach-short r = omega (arith, Reach-rank r)

-- The places that a worker never comes to.
abbrev Proper1 : Place → Type 0
Proper1 at_exit = ⊥
Proper1 p = Unit

abbrev Proper2 : Place → Type 0
Proper2 at_try = ⊥
Proper2 at_unlock = ⊥
Proper2 p = Unit

worker1-Proper1 :
    (a : Answer) (p : Place) (k k' : Worker) (s s' : Shared)
    → worker1 a p k s ≡ some (k', s')
    → Proper1 k'.place
unfolding worker1 increment timedlock handle_lock_result
worker1-Proper1 a p k k' s s' h = ground arith

worker2-Proper2 :
    (a : Answer) (p : Place) (k k' : Worker) (s s' : Shared)
    → worker2 a p k s ≡ some (k', s')
    → Proper2 k'.place
unfolding worker2 increment timedlock handle_lock_result
worker2-Proper2 a p k k' s s' h = ground arith

worker3-Proper1 :
    (a : Answer) (p : Place) (k k' : Worker) (s s' : Shared)
    → worker3 a p k s ≡ some (k', s')
    → Proper1 k'.place
unfolding worker3 increment timedlock handle_lock_result
worker3-Proper1 a p k k' s s' h = ground arith

Reach-Proper :
    {n : ℕ} {s : Threads} → Reach n s → Proper1 s.w1.place × Proper2 s.w2.place × Proper1 s.w3.place
Reach-Proper start = (tt, tt, tt)
Reach-Proper (later {s} r (by_first {k} {h} a e)) =
    let (p1, p2, p3) = Reach-Proper r in (worker1-Proper1 a s.w1.place s.w1 k s.shared h e, p2, p3)
Reach-Proper (later {s} r (by_second {k} {h} a e)) =
    let (p1, p2, p3) = Reach-Proper r in (p1, worker2-Proper2 a s.w2.place s.w2 k s.shared h e, p3)
Reach-Proper (later {s} r (by_third {k} {h} a e)) =
    let (p1, p2, p3) = Reach-Proper r in (p1, p2, worker3-Proper1 a s.w3.place s.w3 k s.shared h e)

worker1-stuck :
    (p : Place) (k : Worker) (s : Shared)
    → Proper1 p
    → NotLost s.mutex
    → worker1 gets p k s ≡ none
    → worker1 times_out p k s ≡ none
    → p ≡ ended
unfolding worker1 increment timedlock handle_lock_result
worker1-stuck p k s q l h h' = ground arith

worker2-stuck :
    (p : Place) (k : Worker) (s : Shared)
    → Proper2 p
    → NotLost s.mutex
    → worker2 gets p k s ≡ none
    → worker2 times_out p k s ≡ none
    → p ≡ ended
unfolding worker2 increment timedlock handle_lock_result
worker2-stuck p k s q l h h' = ground arith

worker3-stuck :
    (p : Place) (k : Worker) (s : Shared)
    → Proper1 p
    → NotLost s.mutex
    → worker3 gets p k s ≡ none
    → worker3 times_out p k s ≡ none
    → p ≡ ended
unfolding worker3 increment timedlock handle_lock_result
worker3-stuck p k s q l h h' = ground arith

-- No deadlock, also after the second worker has ended with the mutex locked: a reachable state in
-- which no worker can make a step, a lock with the mutex or after the time limit included, is one in
-- which all three have ended.
pub Stuck-ended :
    {n : ℕ} {s : Threads}
    → Reach n s
    → worker1 gets s.w1.place s.w1 s.shared ≡ none
    → worker1 times_out s.w1.place s.w1 s.shared ≡ none
    → worker2 gets s.w2.place s.w2 s.shared ≡ none
    → worker2 times_out s.w2.place s.w2 s.shared ≡ none
    → worker3 gets s.w3.place s.w3 s.shared ≡ none
    → worker3 times_out s.w3.place s.w3 s.shared ≡ none
    → (s.w1.place ≡ ended) × (s.w2.place ≡ ended) × (s.w3.place ≡ ended)
Stuck-ended {s} r a a' b b' c c' =
    let (p1, p2, p3) = Reach-Proper r in
    let (g1, g2, g3, l) = Reach-Guards r in
    (
      worker1-stuck s.w1.place s.w1 s.shared p1 l a a',
      worker2-stuck s.w2.place s.w2 s.shared p2 l b b',
      worker3-stuck s.w3.place s.w3 s.shared p3 l c c',
    )
