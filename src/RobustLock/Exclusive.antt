-- ===== src/RobustLock/Exclusive.antt =====
-- The owner of the mutex in mutextimelock.c.
-- 1 for a worker that pthread_mutex_timedlock gave the mutex and that has not unlocked it.
use linux_system_programming.Prelude.{arith, refl, some, ℕ, ◌+◌, ◌==◌, ◌||◌, ◌≡◌, ◌≢◌, ◌≤◌}
use linux_system_programming.RobustLock.{
  Answer, Mutex, Place, Reach, Shared, Threads, Who, Worker, at_exit, at_load, at_print, at_result,
  at_store, at_unlock, by_first, by_second, by_third, eownerdead, first, handle_lock_result,
  increment, later, locked_by, lost, recovered_by, second, start, third, timedlock, worker1,
  worker2, worker3,
}
use linux_system_programming.Sys.Files.{one_if}

abbrev pub inside : Place → ℕ
inside at_load = 1
inside (at_store v) = 1
inside at_print = 1
inside at_unlock = 1
inside at_exit = 1
inside (at_result ret) = one_if (ret == 0 || (ret == eownerdead))
inside p = 0

-- 1 for a worker that is to mark the state consistent.
abbrev unmarked : Place → ℕ
unmarked (at_result ret) = one_if (ret == eownerdead)
unmarked p = 0

abbrev same_who : Who → Who → ℕ
same_who first first = 1
same_who second second = 1
same_who third third = 1
same_who v w = 0

abbrev owns : Who → Mutex → ℕ
owns w (locked_by v) = same_who v w
owns w (recovered_by v) = same_who v w
owns w m = 0

abbrev recovers : Who → Mutex → ℕ
recovers w (recovered_by v) = same_who v w
recovers w m = 0

abbrev pub NotLost : Mutex → Type 0
NotLost lost = ⊥
NotLost m = Unit

-- The mutex and one worker agree.
abbrev Agrees : Who → Worker → Mutex → Type 0
Agrees w k m = (inside k.place ≡ owns w m) × (unmarked k.place ≡ recovers w m)

-- After a step of `w`: they agree again, and the other two workers see no change.
abbrev Moves : Who → Who → Who → Worker → Mutex → Mutex → Type 0
Moves w u v k m m' =
    Agrees w k m'
    × NotLost m'
    × (owns u m' ≡ owns u m)
    × (recovers u m' ≡ recovers u m)
    × (owns v m' ≡ owns v m)
    × (recovers v m' ≡ recovers v m)

worker1-Moves :
    (a : Answer) (p : Place) (k k' : Worker) (s s' : Shared)
    → k.place ≡ p
    → worker1 a p k s ≡ some (k', s')
    → Agrees first k s.mutex
    → NotLost s.mutex
    → Moves first second third k' s.mutex s'.mutex
unfolding worker1 increment timedlock handle_lock_result
worker1-Moves a p k k' s s' e h g l = ground arith

worker2-Moves :
    (a : Answer) (p : Place) (k k' : Worker) (s s' : Shared)
    → k.place ≡ p
    → worker2 a p k s ≡ some (k', s')
    → Agrees second k s.mutex
    → NotLost s.mutex
    → Moves second first third k' s.mutex s'.mutex
unfolding worker2 increment timedlock handle_lock_result
worker2-Moves a p k k' s s' e h g l = ground arith

worker3-Moves :
    (a : Answer) (p : Place) (k k' : Worker) (s s' : Shared)
    → k.place ≡ p
    → worker3 a p k s ≡ some (k', s')
    → Agrees third k s.mutex
    → NotLost s.mutex
    → Moves third first second k' s.mutex s'.mutex
unfolding worker3 increment timedlock handle_lock_result
worker3-Moves a p k k' s s' e h g l = ground arith

abbrev pub Guards : Threads → Type 0
Guards s =
    Agrees first s.w1 s.shared.mutex
    × Agrees second s.w2 s.shared.mutex
    × Agrees third s.w3 s.shared.mutex
    × NotLost s.shared.mutex

pub Reach-Guards : {n : ℕ} {s : Threads} → Reach n s → Guards s
Reach-Guards start = ground arith
Reach-Guards (later {s} r (by_first {k} {h} a e)) =
    let (g1, g2, g3, l) = Reach-Guards r in
    let m = worker1-Moves a s.w1.place s.w1 k s.shared h refl e g1 l in ground arith
Reach-Guards (later {s} r (by_second {k} {h} a e)) =
    let (g1, g2, g3, l) = Reach-Guards r in
    let m = worker2-Moves a s.w2.place s.w2 k s.shared h refl e g2 l in ground arith
Reach-Guards (later {s} r (by_third {k} {h} a e)) =
    let (g1, g2, g3, l) = Reach-Guards r in
    let m = worker3-Moves a s.w3.place s.w3 k s.shared h refl e g3 l in ground arith

-- In every reachable state at most one worker has been given the mutex and has not unlocked it or
-- ended with it, and the mutex is not lost: after the second worker has ended with the mutex locked,
-- it is marked consistent before it is unlocked again.
pub Reach-exclusive_lock :
    {n : ℕ} {s : Threads}
    → Reach n s
    → (inside s.w1.place + inside s.w2.place + inside s.w3.place ≤ 1) × (s.shared.mutex ≢ lost)
Reach-exclusive_lock r = ground (arith, Reach-Guards r)
