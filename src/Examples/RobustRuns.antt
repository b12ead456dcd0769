-- ===== src/Examples/RobustRuns.antt =====
-- A run of mutextimelock.c: the second worker increments the counter and ends, and the first one
-- recovers the mutex and increments the counter again.
use linux_system_programming.Prelude.{
  Option, [], countdown, none, refl, some, suc, zero, ℕ, ◌+◌, ◌∷◌, ◌≡◌, ◌≢◌, ◌≤◌,
}
use linux_system_programming.RobustLock.{
  Answer, Reach, Shared, Threads, Worker, by_first, by_second, by_third, ended, gets,
  handle_lock_result, increment, later, lost, new_threads, timedlock, worker1, worker2, worker3,
}
use linux_system_programming.RobustLock.Counter.{Reach-counts}
use linux_system_programming.RobustLock.Ends.{Reach-short, Stuck-ended}
use linux_system_programming.RobustLock.Exclusive.{Reach-exclusive_lock, inside}

record Trial : Type 0 where
  steps : ℕ
  last : Threads
  reach : Reach steps last

second_turn :
    (r : Trial) (a : Answer) (o : Option (Worker × Shared))
    → worker2 a r.last.w2.place r.last.w2 r.last.shared ≡ o
    → Trial
second_turn r a none e = r
second_turn r a (some (k, h)) e = record {
  steps = suc r.steps;
  last = record r.last { w2 = k; shared = h };
  reach = later r.reach (by_second a e);
}

first_turn :
    (r : Trial) (a : Answer) (o : Option (Worker × Shared))
    → worker1 a r.last.w1.place r.last.w1 r.last.shared ≡ o
    → Trial
first_turn r a none e = r
first_turn r a (some (k, h)) e = record {
  steps = suc r.steps;
  last = record r.last { w1 = k; shared = h };
  reach = later r.reach (by_first a e);
}

second_turns : ℕ → Trial → Trial
unfolding second_turn worker2 increment timedlock handle_lock_result
second_turns zero r = r
second_turns (suc n) r =
    let r' = second_turns n r in
    second_turn r' gets (worker2 gets r'.last.w2.place r'.last.w2 r'.last.shared) refl

first_turns : ℕ → Trial → Trial
unfolding first_turn worker1 increment timedlock handle_lock_result
first_turns zero r = r
first_turns (suc n) r =
    let r' = first_turns n r in
    first_turn r' gets (worker1 gets r'.last.w1.place r'.last.w1 r'.last.shared) refl

both : Trial
unfolding second_turns first_turns
both =
    first_turns 8 (second_turns 8 (record { steps = 0; last = new_threads; reach = Reach.start }))

both_printed : both.last.shared.printed ≡ 2 ∷ 1 ∷ []
unfolding both
both_printed = refl

Reach-exclusive_lock_example :
    (inside both.last.w1.place + inside both.last.w2.place + inside both.last.w3.place ≤ 1)
    × (both.last.shared.mutex ≢ lost)
Reach-exclusive_lock_example = Reach-exclusive_lock both.reach

Reach-counts_example :
    (both.last.shared.printed ≡ countdown both.last.shared.counter) × (both.last.shared.counter ≤ 5)
unfolding both
Reach-counts_example = Reach-counts both.reach refl

Reach-short_example : both.steps ≤ 92
Reach-short_example = Reach-short both.reach

third_turn :
    (r : Trial) (a : Answer) (o : Option (Worker × Shared))
    → worker3 a r.last.w3.place r.last.w3 r.last.shared ≡ o
    → Trial
third_turn r a none e = r
third_turn r a (some (k, h)) e = record {
  steps = suc r.steps;
  last = record r.last { w3 = k; shared = h };
  reach = later r.reach (by_third a e);
}

third_turns : ℕ → Trial → Trial
unfolding third_turn worker3 increment timedlock handle_lock_result
third_turns zero r = r
third_turns (suc n) r =
    let r' = third_turns n r in
    third_turn r' gets (worker3 gets r'.last.w3.place r'.last.w3 r'.last.shared) refl

-- All three to their ends; the counter is 5.
all_ended : Trial
unfolding both third_turns
all_ended = third_turns 8 (first_turns 17 both)

all_printed : all_ended.last.shared.printed ≡ 5 ∷ 4 ∷ 3 ∷ 2 ∷ 1 ∷ []
unfolding all_ended
all_printed = refl

Stuck-ended_example :
    (all_ended.last.w1.place ≡ ended)
    × (all_ended.last.w2.place ≡ ended)
    × (all_ended.last.w3.place ≡ ended)
unfolding all_ended
Stuck-ended_example = Stuck-ended all_ended.reach refl refl refl refl refl refl
