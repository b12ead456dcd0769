-- ===== src/Examples/PtyRuns.antt =====
-- A run of epnewforkpt.c, and the theorems at it.
use linux_system_programming.Examples.{answer_with, replies}
use linux_system_programming.Ipc.PtyShell.{
  add_char, after_event, child_exit, clean_up, copy_output, enter_line, event_loop, handle_event,
  handle_events, parse_command, prompt, pty_output, run_child, run_parent, start_command,
  tokens_from, user_input,
}
use linux_system_programming.Ipc.PtyShell.Bounds.{main-fits}
use linux_system_programming.Ipc.PtyShell.Descriptors.{main-closes_descriptors}
use linux_system_programming.Ipc.SeqServer.{text}
use linux_system_programming.Prelude.{List, [], length, refl, ℕ, ◌∷◌, ◌≡◌}
use linux_system_programming.Prelude.Int.{negsuc, pos}
use linux_system_programming.Shell.Line.{same_text}
use linux_system_programming.Sys.{Outcome, Reply, Script, Sound, trace}
use linux_system_programming.Sys.Files.{closed, opened}
use linux_system_programming.Ipc.PtyShell

abbrev typed : List ℕ → List Reply → List Reply
typed [] rs = rs
typed (c ∷ cs) rs =
    record { ret = pos 1; errno = 0; out = 0; out2 = 0; bytes = c ∷ [] } ∷ typed cs rs

abbrev events_of : List ℕ → Reply
events_of fds = record { ret = pos (length fds); errno = 0; out = 0; out2 = 0; bytes = fds }

-- "ls", which runs on the master 5 with the pidfd 6, writes two bytes and ends; then "exit".
abbrev ls_exit : Script
ls_exit =
    replies
      (answer_with (pos 0)
        ∷ answer_with (pos 3)
        ∷ answer_with (pos 0)
        ∷ answer_with (pos 0)
        ∷ answer_with (pos 0)
        ∷ events_of (0 ∷ 0 ∷ 0 ∷ [])
        ∷ typed (108 ∷ 115 ∷ 10 ∷ []) (
            record { ret = pos 7; errno = 0; out = 5; out2 = 0; bytes = [] }
            ∷ answer_with (pos 0)
            ∷ answer_with (pos 0)
            ∷ answer_with (pos 6)
            ∷ answer_with (pos 0)
            ∷ events_of (5 ∷ 6 ∷ [])
            ∷ record { ret = pos 2; errno = 0; out = 0; out2 = 0; bytes = 97 ∷ 10 ∷ [] }
            ∷ answer_with (pos 2)
            ∷ answer_with (negsuc 0)
            ∷ answer_with (pos 7)
            ∷ answer_with (pos 0)
            ∷ answer_with (pos 0)
            ∷ answer_with (pos 0)
            ∷ answer_with (pos 0)
            ∷ answer_with (pos 0)
            ∷ answer_with (pos 0)
            ∷ events_of (0 ∷ 0 ∷ 0 ∷ 0 ∷ 0 ∷ [])
            ∷ typed (101 ∷ 120 ∷ 105 ∷ 116 ∷ 10 ∷ []) []))
      (answer_with (pos 0))

ls_run : Outcome ℕ
unfolding PtyShell.main prompt event_loop handle_events handle_event child_exit user_input
    enter_line add_char start_command parse_command run_child run_parent pty_output copy_output
    clean_up after_event same_text text tokens_from
ls_run = PtyShell.main 5 ls_exit 0 []

main-fits_example : Sound (λ _. Unit {0}) ls_run
unfolding ls_run
main-fits_example = main-fits 5 ls_exit

main-closes_descriptors_example : opened 5 (trace ls_run) ≡ closed 5 (trace ls_run)
unfolding ls_run
main-closes_descriptors_example = main-closes_descriptors 5 5 0 32 ls_exit (trace ls_run) refl refl
