-- ===== src/RobustLock.antt =====
-- Code/Mastering Processes and Threads/mutextimelock.c: three workers that increment `counter` under
-- a robust mutex, which they wait for with a time limit; the second ends with the mutex locked. The
-- workers are interleaved in any order. A step is one access to the counter or one call.
pub mod Exclusive
pub mod Counter
pub mod Ends
use linux_system_programming.Prelude.{
  List, Option, [], if◌then◌else◌, ltb, none, some, suc, ℕ, ◌+◌, ◌-◌, ◌==◌, ◌||◌, ◌∷◌, ◌≡◌,
}
use mathlib.Core.Option

-- EOWNERDEAD and ETIMEDOUT
abbrev pub eownerdead : ℕ
eownerdead = 130

abbrev pub etimedout : ℕ
etimedout = 110

pub data Who : Type 0 where
  first second third : Who

-- A robust mutex: locked, locked by a thread that has heard of the owner's death and has not marked
-- the state consistent, left locked by a thread that has ended, or not to be recovered any more.
pub data Mutex : Type 0 where
  unlocked owner_dead lost : Mutex
  locked_by recovered_by : Who → Mutex

-- How pthread_mutex_timedlock comes back: with the mutex, after the time limit, or with an error.
pub data Answer : Type 0 where
  gets times_out : Answer
  fails : ℕ → Answer

unfoldable pub timedlock : Who → Answer → Mutex → Option (ℕ × Mutex)
timedlock w gets unlocked = some (0, locked_by w)
timedlock w gets owner_dead = some (eownerdead, recovered_by w)
timedlock w gets m = none
timedlock w times_out (locked_by v) = some (etimedout, locked_by v)
timedlock w times_out (recovered_by v) = some (etimedout, recovered_by v)
timedlock w times_out m = none
timedlock w (fails e) m =
    if e == 0 || (e == eownerdead) || (e == etimedout) then none else some (e, m)

abbrev pub mark_consistent : Mutex → Mutex
mark_consistent (recovered_by w) = locked_by w
mark_consistent m = m

-- A mutex that is unlocked before it was marked is lost.
abbrev pub unlock : Mutex → Mutex
unlock (recovered_by w) = lost
unlock m = unlocked

-- HANDLE_OK, HANDLE_RETRY and HANDLE_ERROR
pub data Action : Type 0 where
  handle_ok handle_retry handle_error : Action

-- What the workers share, and the values that they printed for the counter, the latest first.
pub record Shared : Type 0 where
  pub mutex : Mutex
  pub counter : ℕ
  pub printed : List ℕ

unfoldable pub handle_lock_result : ℕ → Shared → Action × Shared
handle_lock_result ret s =
    if ret == 0
    then (handle_ok, s)
    else if ret == eownerdead
    then (handle_ok, record s { mutex = mark_consistent s.mutex })
    else if ret == etimedout
    then (handle_retry, s)
    else (handle_error, s)

-- Where a worker stands: at the head of a round, at the test of `retries`, before the lock, with its
-- result, before the load, the store and the printf of the increment, before the unlock or the end
-- with the mutex locked; or it has ended.
pub data Place : Type 0 where
  at_round at_try at_lock at_load at_print at_unlock at_exit ended : Place
  at_result at_store : ℕ → Place

-- `i` counts the rounds of worker1.
pub record Worker : Type 0 where
  pub place : Place
  pub i : ℕ
  pub retries : ℕ

abbrev pub with_shared : Worker → Shared → ℕ × Mutex → Worker × Shared
with_shared k s (ret, m) = (record k { place = at_result ret }, record s { mutex = m })

-- The lock and the increment, the same in all workers.
unfoldable pub increment : Who → Answer → Place → Worker → Shared → Option (Worker × Shared)
increment w a at_lock k s = Option.map (with_shared k s) (timedlock w a s.mutex)
increment w a at_load k s = some (record k { place = at_store s.counter }, s)
increment w a (at_store v) k s = some (record k { place = at_print }, record s { counter = suc v })
increment w a _ k s = none

abbrev pub next_round : Worker → Worker
next_round k = record k { place = at_round; i = k.i + 1 }

unfoldable pub worker1 : Answer → Place → Worker → Shared → Option (Worker × Shared)
worker1 a at_round k s =
    some (
      if ltb k.i 3 then record k { place = at_try; retries = 3 } else record k { place = ended },
      s,
    )
worker1 a at_try k s = some (
  if k.retries == 0 then next_round k else record k { place = at_lock; retries = k.retries - 1 },
  s,
)
worker1 a (at_result ret) k s =
    let (action, s') = handle_lock_result ret s in
    elim action [
      | handle_ok ↦ some (record k { place = at_load }, s')
      | handle_retry ↦ some (record k { place = at_try }, s')
      | handle_error ↦ some (next_round k, s')
    ]
worker1 a at_print k s =
    some (record k { place = at_unlock }, record s { printed = s.counter ∷ s.printed })
worker1 a at_unlock k s = some (next_round k, record s { mutex = unlock s.mutex })
worker1 a p k s = increment first a p k s

-- The second worker ends with the mutex locked.
unfoldable pub worker2 : Answer → Place → Worker → Shared → Option (Worker × Shared)
worker2 a at_round k s = some (record k { place = at_lock }, s)
worker2 a (at_result ret) k s =
    let (action, s') = handle_lock_result ret s in
    elim action [
      | handle_ok ↦ some (record k { place = at_load }, s')
      | _ ↦ some (record k { place = ended }, s')
    ]
worker2 a at_print k s =
    some (record k { place = at_exit }, record s { printed = s.counter ∷ s.printed })
worker2 a at_exit k s = some (record k { place = ended }, record s { mutex = owner_dead })
worker2 a p k s = increment second a p k s

unfoldable pub worker3 : Answer → Place → Worker → Shared → Option (Worker × Shared)
worker3 a at_round k s = some (record k { place = at_try; retries = 5 }, s)
worker3 a at_try k s = some (
  if k.retries == 0
      then record k { place = ended }
      else record k { place = at_lock; retries = k.retries - 1 },
  s,
)
worker3 a (at_result ret) k s =
    let (action, s') = handle_lock_result ret s in
    elim action [
      | handle_ok ↦ some (record k { place = at_load }, s')
      | handle_retry ↦ some (record k { place = at_try }, s')
      | handle_error ↦ some (record k { place = ended }, s')
    ]
worker3 a at_print k s =
    some (record k { place = at_unlock }, record s { printed = s.counter ∷ s.printed })
worker3 a at_unlock k s = some (record k { place = ended }, record s { mutex = unlock s.mutex })
worker3 a p k s = increment third a p k s

pub record Threads : Type 0 where
  pub w1 : Worker
  pub w2 : Worker
  pub w3 : Worker
  pub shared : Shared

abbrev pub new_worker : Worker
new_worker = record { place = at_round; i = 0; retries = 0 }

abbrev pub new_threads : Threads
new_threads = record {
  w1 = new_worker;
  w2 = new_worker;
  w3 = new_worker;
  shared = record { mutex = unlocked; counter = 0; printed = [] };
}

pub data Step (s : Threads) : Threads → Type 0 where
  by_first :
      {k : Worker} {h : Shared} (a : Answer)
      → worker1 a s.w1.place s.w1 s.shared ≡ some (k, h)
      → Step s (record s { w1 = k; shared = h })
  by_second :
      {k : Worker} {h : Shared} (a : Answer)
      → worker2 a s.w2.place s.w2 s.shared ≡ some (k, h)
      → Step s (record s { w2 = k; shared = h })
  by_third :
      {k : Worker} {h : Shared} (a : Answer)
      → worker3 a s.w3.place s.w3 s.shared ≡ some (k, h)
      → Step s (record s { w3 = k; shared = h })

-- The states after `n` steps.
pub data Reach : ℕ → Threads → Type 0 where
  start : Reach 0 new_threads
  later : {n : ℕ} {s t : Threads} → Reach n s → Step s t → Reach (suc n) t
