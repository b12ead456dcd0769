-- ===== src/Examples/ServerRuns.antt =====
-- The servers, their clients and the small shell at concrete replies.
use linux_system_programming.Examples.{answer_with, replies}
use linux_system_programming.MiniShell.{
  init_shell, launch_process, read_lines, run_parent, session, signal_each, take_terminal,
}
use linux_system_programming.MiniShell.Foreground.{all_well, can_own, session-owner}
use linux_system_programming.Prelude.{List, [], false, refl, ℕ, ◌∷◌, ◌≡◌}
use linux_system_programming.Prelude.Int.{pos, ℤ}
use linux_system_programming.Shell.Line.{same_text, until_newline}
use linux_system_programming.Shell.Terminal.{await_foreground}
use linux_system_programming.Sys.{Reply, Script, Trace, trace}

abbrev answer_bytes : ℤ → List ℕ → Reply
answer_bytes v b = record { ret = v; errno = 0; out = 0; out2 = 0; bytes = b }

-- socket 3, setsockopt, bind, listen, the print, client 4, a request of user 1000, the file 5
abbrev request_of : ℕ → Script
request_of user =
    replies
      (answer_with (pos 3)
        ∷ answer_with (pos 0)
        ∷ answer_with (pos 0)
        ∷ answer_with (pos 0)
        ∷ answer_with (pos 8)
        ∷ answer_with (pos 4)
        ∷ record { ret = pos 1; errno = 0; out = user; out2 = 1; bytes = 97 ∷ [] }
        ∷ answer_with (pos 5)
        ∷ answer_with (pos 5)
        ∷ [])
      (answer_with (pos 0))

-- A terminal; the groups agree; setpgid works; the command `a` runs as process 41; then the end
-- of the input.
abbrev one_command : Script
one_command =
    replies
      (answer_with (pos 1)
        ∷ answer_with (pos 9)
        ∷ answer_with (pos 9)
        ∷ answer_with (pos 0)
        ∷ answer_with (pos 0)
        ∷ answer_with (pos 0)
        ∷ answer_with (pos 0)
        ∷ answer_with (pos 0)
        ∷ answer_with (pos 40)
        ∷ answer_with (pos 0)
        ∷ answer_with (pos 0)
        ∷ answer_with (pos 0)
        ∷ answer_with (pos 0)
        ∷ answer_with (pos 0)
        ∷ answer_bytes (pos 1) (97 ∷ 10 ∷ [])
        ∷ answer_with (pos 41)
        ∷ answer_with (pos 0)
        ∷ answer_with (pos 0)
        ∷ answer_with (pos 41)
        ∷ [])
      (answer_with (pos 0))

one_command_trace : Trace
one_command_trace = trace (session 2 one_command 0 [])

-- The child 41 cannot have the terminal.
session-owner_example : can_own (pos 41) one_command_trace ≡ false
unfolding session one_command_trace all_well init_shell await_foreground signal_each take_terminal
    read_lines same_text until_newline launch_process run_parent
session-owner_example = session-owner one_command 2 (pos 41) _ _ _ refl refl refl
