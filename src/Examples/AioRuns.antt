-- ===== src/Examples/AioRuns.antt =====
-- Runs of aiomonitor.c, and the theorems at them.
use linux_system_programming.Examples.{answer_with, replies}
use linux_system_programming.FileIo.AioMonitor.{
  cancel_all, cancel_one, cancelling, check_all, check_one, checking, look_at, monitor, report_all,
  say_cancel, say_status, start_all, start_one, try_call, watch,
}
use linux_system_programming.FileIo.AioMonitor.Phases.{Proper}
use linux_system_programming.FileIo.AioMonitor.Proper.{main-Proper}
use linux_system_programming.Prelude.{List, [], ℕ, ◌∷◌}
use linux_system_programming.Prelude.Int.{pos}
use linux_system_programming.Sys.{Outcome, Script, Throughout}
use linux_system_programming.FileIo.AioMonitor

-- Two calloc, two sigaction; the file 3, its buffer and its read; then SIGQUIT comes in the sleep.
abbrev one_file : Script
one_file =
    replies
      (answer_with (pos 9)
        ∷ answer_with (pos 9)
        ∷ answer_with (pos 0)
        ∷ answer_with (pos 0)
        ∷ answer_with (pos 3)
        ∷ answer_with (pos 30)
        ∷ answer_with (pos 9)
        ∷ answer_with (pos 0)
        ∷ record { ret = pos 0; errno = 0; out = 1; out2 = 0; bytes = [] }
        ∷ [])
      (answer_with (pos 0))

abbrev arguments : List (List ℕ)
arguments = (97 ∷ []) ∷ []

one_run : Outcome ℕ
unfolding AioMonitor.main try_call start_all start_one watch monitor cancelling cancel_all
    cancel_one say_cancel checking check_all look_at check_one say_status report_all
one_run = AioMonitor.main 3 arguments one_file 0 []

main-Proper_example : Throughout Proper one_run
unfolding one_run
main-Proper_example = main-Proper 3 arguments one_file
