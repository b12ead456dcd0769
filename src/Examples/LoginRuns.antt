-- ===== src/Examples/LoginRuns.antt =====
-- loginpam.c and minisudo.c with a PAM that accepts.
use linux_system_programming.Examples.{answer_with, replies}
use linux_system_programming.Login.{Passwd}
use linux_system_programming.Login.Authorised.{Authorised, main-Authorised}
use linux_system_programming.Prelude.{List, [], none, ℕ, ◌∷◌}
use linux_system_programming.Prelude.Int.{pos}
use linux_system_programming.Shell.Line.{until_newline}
use linux_system_programming.Sudo.Authorised.{RootRun, main-RootRun}
use linux_system_programming.Sys.{Script, Throughout}
use linux_system_programming.Login
use linux_system_programming.Sudo

abbrev alice : Passwd
alice = record {
  pw_name = 97 ∷ [];
  pw_uid = 1000;
  pw_gid = 100;
  pw_dir = 47 ∷ [];
  pw_shell = 47 ∷ 115 ∷ [];
}

-- Two prints, the name, `pam_start` and three checks that succeed, the entry at 8, and no terminal.
abbrev accepting : Script
accepting =
    replies
      (answer_with (pos 0)
        ∷ answer_with (pos 0)
        ∷ record { ret = pos 1; errno = 0; out = 0; out2 = 0; bytes = 97 ∷ 10 ∷ [] }
        ∷ answer_with (pos 0)
        ∷ answer_with (pos 0)
        ∷ answer_with (pos 0)
        ∷ answer_with (pos 0)
        ∷ answer_with (pos 8)
        ∷ [])
      (answer_with (pos 0))

main-Authorised_example :
    Throughout
      (Authorised (λ _. alice) (97 ∷ []) (pos 8))
      (Login.main (λ _. alice) (λ _. []) none accepting 0 [])
unfolding until_newline
main-Authorised_example = main-Authorised accepting (λ _. alice) (λ _. []) none

-- A child of `fork`.
abbrev as_root : Script
as_root = replies (answer_with (pos 0) ∷ []) (answer_with (pos 0))

abbrev id_command : List (List ℕ)
id_command = [] ∷ (105 ∷ 100 ∷ []) ∷ []

main-RootRun_example : Throughout RootRun (Sudo.main id_command as_root 0 [])
main-RootRun_example = main-RootRun as_root id_command
