-- ===== src/Examples/UringRuns.antt =====
-- Runs of the copy of uringcopyfile.c, and the theorems at them.
use linux_system_programming.Examples.{answer_with, replies}
use linux_system_programming.FileIo.UringCopy.{
  Answers, Course, Req, Result, State, after_read, before_loop, complete, failed, fill, moved,
  perform, prep_read, round, run, running, serve_one, stopped, waits, write_back,
}
use linux_system_programming.FileIo.UringCopy.Copied.{run-copies}
use linux_system_programming.FileIo.UringCopy.Ends.{run-ends}
use linux_system_programming.FileIo.UringCopy.Main.{
  alloc_all, clean_up, copy_file, free_all, leave_loop, measure_file, set_up,
}
use linux_system_programming.FileIo.UringCopy.Rounds.{fill_ok, run_ok}
use linux_system_programming.FileIo.UringCopy.Stuck.{run-stuck}
use linux_system_programming.Prelude.{
  List, [], arith, false, map, refl, replicate, some, suc, true, ℕ, ◌<◌, ◌∷◌, ◌≡◌,
}
use linux_system_programming.Prelude.Int.{pos}
use linux_system_programming.Sys.{Outcome, Script, exit_status}
use linux_system_programming.FileIo.UringCopy.Main

-- The file of the runs has the six bytes 1, …, 6, and two buffers of two bytes. The replies complete
-- the request at an index.
abbrev with_result : Result → ℕ → Answers
with_result r i = record {
  sqes = 8;
  submitted = true;
  waited = true;
  which = i;
  result = r;
  write_sqe = true;
  resubmitted = true;
}

abbrev junk : ℕ → Req
junk i = record { offset = 0; size = 0; is_read = false }

abbrev end_of : Course → State
end_of (running s) = s
end_of waits = before_loop junk
end_of stopped = before_loop junk

abbrev turns_of : List ℕ → List Answers
turns_of turns = map (with_result (moved 2)) turns

copy_with : List Answers → Course
unfolding run round fill prep_read serve_one complete after_read write_back perform
copy_with answers = run 2 2 6 suc answers (before_loop junk)

-- Each request is completed before the next one.
abbrev in_turn : List ℕ
in_turn = 1 ∷ 0 ∷ 1 ∷ 0 ∷ 0 ∷ 0 ∷ []

in_turn_end : State
unfolding copy_with
in_turn_end = end_of (copy_with (turns_of in_turn))

-- The second request is completed before the first, and its successor takes the slot of the first.
overtaking_end : State
unfolding copy_with
overtaking_end = end_of (copy_with (turns_of (0 ∷ 0 ∷ 0 ∷ 0 ∷ 0 ∷ [])))

-- All six bytes are counted, and the first two were not copied.
overtaking_loses :
    (overtaking_end.finished_bytes ≡ 6)
    × (map overtaking_end.out (0 ∷ 1 ∷ 2 ∷ 3 ∷ 4 ∷ 5 ∷ []) ≡ 0 ∷ 0 ∷ 3 ∷ 4 ∷ 5 ∷ 6 ∷ [])
unfolding overtaking_end
overtaking_loses = (refl, refl)

in_turn_bytes : map in_turn_end.out (0 ∷ 1 ∷ 2 ∷ 3 ∷ 4 ∷ 5 ∷ []) ≡ 1 ∷ 2 ∷ 3 ∷ 4 ∷ 5 ∷ 6 ∷ []
unfolding in_turn_end
in_turn_bytes = refl

run-copies_example : in_turn_end.out 5 ≡ 6
unfolding in_turn_end copy_with run_ok fill_ok
run-copies_example =
    run-copies 2 2 6 suc (turns_of in_turn) junk in_turn_end 5 refl refl (omega arith) (omega arith)

-- The first read fails.
after_failure : State
unfolding round fill prep_read serve_one complete perform
after_failure = end_of (round 2 2 6 suc (with_result failed 1) (before_loop junk))

stuck_end : State
unfolding run round fill prep_read serve_one complete after_read write_back perform
stuck_end = end_of (run 2 2 6 suc (turns_of (0 ∷ 0 ∷ 0 ∷ 0 ∷ [])) after_failure)

run-stuck_example : stuck_end.finished_bytes < 6
unfolding run round fill prep_read serve_one complete after_read write_back perform after_failure
    stuck_end
run-stuck_example =
    run-stuck 2 2 6 suc [] junk (with_result failed 1) (before_loop junk) after_failure
      (turns_of (0 ∷ 0 ∷ 0 ∷ 0 ∷ [])) stuck_end (omega arith) refl refl refl refl

run-ends_example :
    (t : State) × (run 2 2 6 suc (turns_of (replicate 21 0)) (before_loop junk) ≡ running t)
    × (t.finished_bytes ≡ 6)
run-ends_example =
    run-ends 2 2 6 suc (turns_of (replicate 21 0)) junk (omega arith) (omega arith) refl
      (omega arith)

-- The whole program: the files 3 and 4, a ring, six bytes, the array and two buffers.
abbrev open_files : Script
open_files =
    replies
      (answer_with (pos 3)
        ∷ answer_with (pos 4)
        ∷ answer_with (pos 4096)
        ∷ answer_with (pos 0)
        ∷ answer_with (pos 6)
        ∷ answer_with (pos 0)
        ∷ answer_with (pos 900)
        ∷ [])
      (answer_with (pos 0))

whole_run : Outcome ℕ
unfolding Main.main set_up measure_file copy_file alloc_all leave_loop clean_up free_all copy_with
    run round fill prep_read serve_one complete after_read write_back perform
whole_run = Main.main (λ _. pos 2) suc junk (turns_of in_turn) (replicate 5 []) open_files 0 []

whole_run_ends : exit_status whole_run ≡ some 0
unfolding whole_run
whole_run_ends = refl
