-- ===== src/Examples/QueueRuns.antt =====
-- Runs of pthreadcond2.c and of the loop of inotify.c, and the theorems at them.
use linux_system_programming.Inotify.{walk}
use linux_system_programming.Inotify.Shown.{FileEvent, say_all, shown_all}
use linux_system_programming.Inotify.Walk.{encode_all, walk-encode_all}
use linux_system_programming.Prelude.{
  Bool, List, Option, Option-cases, [], arith, false, if◌then◌else◌, inl, inr, leb, none, refl,
  some, true, ℕ, ◌&&◌, ◌++◌, ◌+◌, ◌∷◌, ◌≡◌,
}
use linux_system_programming.Prelude.Int.{pos, ℤ}
use linux_system_programming.Sys.Files.{one_if}
use linux_system_programming.WorkQueue.{
  Reach, State, at_start, by_consumer, by_producer, later, process_msg, produce, start,
}
use linux_system_programming.WorkQueue.Counts.{Reach-conserves, count, enqueued, in_hand}
use linux_system_programming.WorkQueue.Progress.{stuck-processed}

abbrev or_stay : State → Option State → State
or_stay s none = s
or_stay s (some t) = t

-- A step of the consumer or, for `false`, of the producer, with memory; a blocked thread stays.
move : Bool → State → State
unfolding process_msg produce
move true s = or_stay s (process_msg s.at_c s)
move false s = or_stay s (produce true s.at_p s)

moves : List Bool → State → State
unfolding move
moves [] s = s
moves (b ∷ bs) s = if s.alive then moves bs (move b s) else s

move-Reach : (b : Bool) (s : State) → Reach s → s.alive ≡ true → Reach (move b s)
unfolding move
move-Reach true s r a = elim (Option-cases (process_msg s.at_c s)) [
  | inl e ↦ rw e r
  | inr (t, e) ↦ rw e (later r a (by_consumer e))
]
move-Reach false s r a = elim (Option-cases (produce true s.at_p s)) [
  | inl e ↦ rw e r
  | inr (t, e) ↦ rw e (later r a (by_producer true e))
]

test-Reach : (b : Bool) (s t : State) → (b ≡ true → Reach s) → Reach t → Reach (if b then s else t)
test-Reach true s t f r = f refl
test-Reach false s t f r = r

moves-Reach : (bs : List Bool) (s : State) → Reach s → Reach (moves bs s)
unfolding moves
moves-Reach [] s r = r
moves-Reach (b ∷ bs) s r =
    test-Reach s.alive (moves bs (move b s)) s (λ e. moves-Reach bs (move b s) (move-Reach b s r e))
      r

-- The producer enqueues a message and the consumer prints it, five times; then both stop.
abbrev message_moves : List Bool
message_moves = false ∷ false ∷ false ∷ false ∷ false ∷ true ∷ true ∷ true ∷ true ∷ true ∷ []

all_moves : List Bool
all_moves =
    message_moves
    ++ message_moves
    ++ message_moves
    ++ message_moves
    ++ message_moves
    ++ false ∷ true ∷ true ∷ []

last_state : State
unfolding moves all_moves
last_state = moves all_moves at_start

last_state-Reach : Reach last_state
unfolding last_state
last_state-Reach = moves-Reach all_moves at_start start

Reach-conserves_example :
    count 3 last_state.processed + count 3 (in_hand last_state.at_c) + count 3 last_state.workq
    ≡ one_if (leb 1 3 && leb 3 (enqueued last_state))
Reach-conserves_example = Reach-conserves last_state-Reach 3

stuck-processed_example : count 4 last_state.processed ≡ 1
unfolding last_state
stuck-processed_example =
    stuck-processed 4 last_state-Reach refl refl refl (omega arith) (omega arith)

-- A file "a" is made in the watched directory "d".
abbrev created : FileEvent
created = record { wd = pos 1; mask = 256; cookie = 0; name = 97 ∷ []; padding = 15 }

abbrev watched : List (ℤ × List ℕ)
watched = (pos 1, 100 ∷ []) ∷ []

walk-encode_all_example :
    walk 3 watched (encode_all (created ∷ created ∷ []))
    ≡ say_all (shown_all watched (created ∷ created ∷ []))
walk-encode_all_example =
    walk-encode_all (created ∷ created ∷ []) 3 watched (ground arith) (omega arith)
