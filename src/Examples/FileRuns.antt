-- ===== src/Examples/FileRuns.antt =====
-- The copies of copyfile.c and splice.c.
use linux_system_programming.Examples.{answer_with, replies}
use linux_system_programming.FileIo.CopyFile.Complete.{CopyDone, main-CopyDone}
use linux_system_programming.Prelude.{List, [], arith, ℕ, ◌∷◌}
use linux_system_programming.Prelude.Int.{negsuc, pos, ◌-ℤ◌}
use linux_system_programming.Sys.{Script}
use linux_system_programming.FileIo.CopyFile

abbrev three_args : List (List ℕ)
three_args = [] ∷ (97 ∷ []) ∷ (98 ∷ []) ∷ []

-- open 3, a size of 10, open 4, copies of 7 and of 3
abbrev two_copies : Script
two_copies =
    replies
      (answer_with (pos 3)
        ∷ record { ret = pos 0; errno = 0; out = 10; out2 = 0; bytes = [] }
        ∷ answer_with (pos 4)
        ∷ answer_with (pos 7)
        ∷ answer_with (pos 3)
        ∷ [])
      (answer_with (pos 0))

main-CopyDone_example : CopyDone 10 [] (CopyFile.main 11 three_args two_copies 0 [])
unfolding CopyFile.main CopyFile.copy_to CopyFile.copy_loop ◌-ℤ◌
main-CopyDone_example = main-CopyDone 11 three_args two_copies (omega arith) (omega arith)

-- A pipe on 5 and 6, and a `splice` that fails at once: the status is still 0.
abbrev failing_splice : Script
failing_splice =
    replies (record { ret = pos 0; errno = 0; out = 5; out2 = 6; bytes = [] } ∷ [])
      (answer_with (negsuc 0))
