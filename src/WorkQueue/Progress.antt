-- ===== src/WorkQueue/Progress.antt =====
-- The mutex and the condition variable of pthreadcond2.c: the queue is read only when it has a
-- message, and no wake-up is lost.
use linux_system_programming.Prelude.{
  Bool, List, [], arith, false, length, none, refl, some, true, ℕ, ◌+◌, ◌∷◌, ◌≡◌, ◌≢◌, ◌≤◌,
}
use linux_system_programming.Sys.Files.{one_if}
use linux_system_programming.WorkQueue.{
  Consumer, Producer, Reach, State, by_consumer, by_main, by_producer, crashed, finished,
  last_message, later, no_memory, process_msg, produce, spuriously, start, to_leave, to_make,
  to_push, to_take, to_test, to_unlock, waiting,
}
use linux_system_programming.WorkQueue.Counts.{Reach-conserves, count, pushed}

-- 1 for a thread between its lock and its unlock.
abbrev pub holds_c : Consumer → ℕ
holds_c to_test = 1
holds_c to_take = 1
holds_c (to_unlock d) = 1
holds_c c = 0

abbrev pub holds_p : Producer → ℕ
holds_p to_push = 1
holds_p to_leave = 1
holds_p p = 0

-- The queue that each place of the consumer calls for, given whether a signal is to come.
abbrev Queue : Consumer → ℕ → List ℕ → Type 0
Queue to_take p q = 1 ≤ length q
Queue waiting p q = p ≡ 0 → length q ≡ 0
Queue crashed p q = ⊥
Queue c p q = Unit

-- The round that each place of the producer is in.
abbrev Round : Producer → ℕ → Type 0
Round to_make i = i ≤ last_message + 1
Round finished i = i ≡ last_message + 1
Round no_memory i = Unit
Round p i = i ≤ last_message

abbrev out_of_memory : Producer → Bool
out_of_memory no_memory = true
out_of_memory p = false

abbrev Guards : State → Type 0
Guards s =
    (one_if s.locked ≡ holds_p s.at_p + holds_c s.at_c)
    × Queue s.at_c (pushed s.at_p) s.workq
    × Round s.at_p s.i
    × (s.alive ≡ true → out_of_memory s.at_p ≡ false)

process_msg-Guards :
    (s t : State) (c : Consumer) → s.at_c ≡ c → process_msg c s ≡ some t → Guards s → Guards t
unfolding process_msg
process_msg-Guards s t c e h v = ground arith

produce-Guards :
    (s t : State) (got : Bool) (p : Producer)
    → s.at_p ≡ p
    → produce got p s ≡ some t
    → Guards s
    → Guards t
unfolding produce
produce-Guards s t got p e h v = ground arith

Reach-Guards : {s : State} → Reach s → Guards s
Reach-Guards start = ground arith
Reach-Guards (later {s} {t} r a (by_consumer h)) =
    process_msg-Guards s t s.at_c refl h (Reach-Guards r)
Reach-Guards (later {s} {t} r a (by_producer got h)) =
    produce-Guards s t got s.at_p refl h (Reach-Guards r)
Reach-Guards (later r a (spuriously e)) = ground (arith, Reach-Guards r)
Reach-Guards (later r a (by_main e)) = ground (arith, Reach-Guards r)

-- In every reachable state at most one of the two threads is between its lock and its unlock, and
-- `process_msg` has not read `m_next` of a null pointer.
pub Reach-exclusive_take :
    {s : State} → Reach s → (holds_p s.at_p + holds_c s.at_c ≤ 1) × (s.at_c ≢ crashed)
Reach-exclusive_take r = ground (arith, Reach-Guards r)

count-none : (d : ℕ) (cs : List ℕ) → length cs ≡ 0 → count d cs ≡ 0
unfolding count
count-none d [] h = refl
count-none d (c ∷ cs) h = absurd (omega arith)

-- No wake-up is lost: in a reachable state in which the process lives and neither thread can make a
-- step on its own, each of the five messages was processed once.
pub stuck-processed :
    {s : State} (d : ℕ)
    → Reach s
    → s.alive ≡ true
    → process_msg s.at_c s ≡ none
    → produce true s.at_p s ≡ none
    → 1 ≤ d
    → d ≤ last_message
    → count d s.processed ≡ 1
unfolding process_msg produce count
stuck-processed {s} d r a hc hp l h =
    ground (arith, Reach-Guards r, Reach-conserves r d, count-none d s.workq)
