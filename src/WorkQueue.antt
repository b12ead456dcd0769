-- ===== src/WorkQueue.antt =====
-- Code/Mastering Processes and Threads/pthreadcond2.c: a thread that enqueues five messages and one
-- that processes them, with a mutex and a condition variable, interleaved in any order with `main`.
-- A step is one access to `workq` or one call that can block or wake. The messages linked from
-- `workq` are a list of their data; a message is in one place at a time.
pub mod Counts
pub mod Progress
use linux_system_programming.Prelude.{
  Bool, List, Option, [], false, if◌then◌else◌, leb, none, some, true, ℕ, ◌+◌, ◌∷◌, ◌≡◌,
}

-- The bound of the producer's loop.
abbrev pub last_message : ℕ
last_message = 5

-- Where `process_msg` stands: before pthread_mutex_lock, the test of the queue, inside
-- pthread_cond_wait, before it takes the mutex again, before the two assignments, the unlock and the
-- printf; or it has read `m_next` of a null pointer.
pub data Consumer : Type 0 where
  to_lock to_test waiting to_relock to_take : Consumer
  to_unlock to_process : ℕ → Consumer
  crashed : Consumer

-- Where `producer` stands: at the loop's test and `malloc`, and in `enqueue_msg` before the lock, the
-- two assignments, the unlock and the signal.
pub data Producer : Type 0 where
  to_make to_enter to_push to_leave to_signal finished no_memory : Producer

-- `processed` has what the consumer printed, the latest first; `alive` is false when the process is
-- gone.
pub record State : Type 0 where
  pub locked : Bool
  pub workq : List ℕ
  pub i : ℕ
  pub at_p : Producer
  pub at_c : Consumer
  pub processed : List ℕ
  pub alive : Bool

abbrev pub at_start : State
at_start = record {
  locked = false;
  workq = [];
  i = 1;
  at_p = to_make;
  at_c = to_lock;
  processed = [];
  alive = true;
}

-- A step of `process_msg`, if it is not blocked.
unfoldable pub process_msg : Consumer → State → Option State
process_msg to_lock s = if s.locked then none else some (record s { locked = true; at_c = to_test })
process_msg to_test s = elim s.workq [
  | [] ↦ some (record s { locked = false; at_c = waiting })
  | d ∷ ds ↦ some (record s { at_c = to_take })
]
process_msg waiting s = none
process_msg to_relock s =
    if s.locked then none else some (record s { locked = true; at_c = to_test })
process_msg to_take s = elim s.workq [
  | [] ↦ some (record s { at_c = crashed; alive = false })
  | d ∷ ds ↦ some (record s { workq = ds; at_c = to_unlock d })
]
process_msg (to_unlock d) s = some (record s { locked = false; at_c = to_process d })
process_msg (to_process d) s = some (record s { processed = d ∷ s.processed; at_c = to_lock })
process_msg crashed s = none

-- The signal wakes the consumer if it waits.
abbrev pub woken : Consumer → Consumer
woken waiting = to_relock
woken c = c

-- A step of `producer` and of `enqueue_msg`; `got` says whether `malloc` has memory. The store
-- through a null pointer ends the process.
unfoldable pub produce : Bool → Producer → State → Option State
produce got to_make s =
    if leb s.i last_message
    then some
        (if got then record s { at_p = to_enter } else record s { at_p = no_memory; alive = false })
    else some (record s { at_p = finished })
produce got to_enter s =
    if s.locked then none else some (record s { locked = true; at_p = to_push })
produce got to_push s = some (record s { workq = s.i ∷ s.workq; at_p = to_leave })
produce got to_leave s = some (record s { locked = false; at_p = to_signal })
produce got to_signal s = some (record s { at_c = woken s.at_c; i = s.i + 1; at_p = to_make })
produce got finished s = none
produce got no_memory s = none

-- A step of either thread, a wake-up of pthread_cond_wait without a signal, or the end of `main`,
-- which has joined the producer.
pub data Step (s : State) : State → Type 0 where
  by_consumer : {t : State} → process_msg s.at_c s ≡ some t → Step s t
  by_producer : {t : State} (got : Bool) → produce got s.at_p s ≡ some t → Step s t
  spuriously : s.at_c ≡ waiting → Step s (record s { at_c = to_relock })
  by_main : s.at_p ≡ finished → Step s (record s { alive = false })

-- Nothing happens in a process that is gone.
pub data Reach : State → Type 0 where
  start : Reach at_start
  later : {s t : State} → Reach s → s.alive ≡ true → Step s t → Reach t
