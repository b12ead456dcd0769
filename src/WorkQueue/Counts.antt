-- ===== src/WorkQueue/Counts.antt =====
-- Where the messages of pthreadcond2.c are.
use linux_system_programming.Prelude.{
  Bool, List, [], arith, leb, refl, some, ℕ, ◌&&◌, ◌+◌, ◌-◌, ◌==◌, ◌∷◌, ◌≡◌, ◌≤◌,
}
use linux_system_programming.Sys.Files.{one_if}
use linux_system_programming.WorkQueue.{
  Consumer, Producer, Reach, State, by_consumer, by_main, by_producer, later, process_msg, produce,
  spuriously, start, to_leave, to_process, to_signal, to_unlock,
}

unfoldable pub count : ℕ → List ℕ → ℕ
count d [] = 0
count d (c ∷ cs) = one_if (c == d) + count d cs

-- The message that the consumer has taken and not printed.
abbrev pub in_hand : Consumer → List ℕ
in_hand (to_unlock d) = d ∷ []
in_hand (to_process d) = d ∷ []
in_hand c = []

-- The message of this round is in the queue already.
abbrev pub pushed : Producer → ℕ
pushed to_leave = 1
pushed to_signal = 1
pushed p = 0

-- The number of messages that were enqueued.
abbrev pub enqueued : State → ℕ
enqueued s = s.i + pushed s.at_p - 1

abbrev pub Conserves : ℕ → State → Type 0
Conserves d s =
    (count d s.processed + count d (in_hand s.at_c) + count d s.workq
      ≡ one_if (leb 1 d && leb d (enqueued s)))
    × (1 ≤ s.i)

process_msg-Conserves :
    (s t : State) (c : Consumer) (d : ℕ)
    → s.at_c ≡ c
    → process_msg c s ≡ some t
    → Conserves d s
    → Conserves d t
unfolding process_msg count
process_msg-Conserves s t c d e h v = ground arith

produce-Conserves :
    (s t : State) (got : Bool) (p : Producer) (d : ℕ)
    → s.at_p ≡ p
    → produce got p s ≡ some t
    → Conserves d s
    → Conserves d t
unfolding produce count
produce-Conserves s t got p d e h v = ground arith

Reach-Conserves : {s : State} → Reach s → (d : ℕ) → Conserves d s
unfolding count
Reach-Conserves start d = ground arith
Reach-Conserves (later {s} {t} r a (by_consumer h)) d =
    process_msg-Conserves s t s.at_c d refl h (Reach-Conserves r d)
Reach-Conserves (later {s} {t} r a (by_producer got h)) d =
    produce-Conserves s t got s.at_p d refl h (Reach-Conserves r d)
Reach-Conserves (later r a (spuriously e)) d = ground (arith, Reach-Conserves r d)
Reach-Conserves (later r a (by_main e)) d = Reach-Conserves r d

-- In every reachable state the messages that were processed, the one in the consumer's hand and
-- those in the queue are together the messages 1, 2, … that were enqueued so far, each of them once:
-- none is lost and none is processed twice.
pub Reach-conserves :
    {s : State}
    → Reach s
    → (d : ℕ)
    → count d s.processed + count d (in_hand s.at_c) + count d s.workq
      ≡ one_if (leb 1 d && leb d (enqueued s))
Reach-conserves r d = (Reach-Conserves r d).0
