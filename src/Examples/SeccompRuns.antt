-- ===== src/Examples/SeccompRuns.antt =====
-- The filter and the supervisor of seccomp_unotify.c at concrete inputs.
use linux_system_programming.Examples.{answer_with, replies}
use linux_system_programming.Prelude.{List, [], refl, some, ℕ, ◌+◌, ◌∷◌, ◌≡◌}
use linux_system_programming.Prelude.Int.{negsuc, pos, ℤ}
use linux_system_programming.Seccomp.Filter.{SeccompData, decide, ret_kill_process}
use linux_system_programming.Seccomp.Filter.Decides.{decide_lem}
use linux_system_programming.Seccomp.Pathname.{get_target_pathname}
use linux_system_programming.Seccomp.Pathname.Fetched.{fetched_in, get_target_pathname_lem}
use linux_system_programming.Seccomp.Supervisor.{handle_loop, notif_of}
use linux_system_programming.Seccomp.Supervisor.Answers.{Answering, handle_loop-Answering}
use linux_system_programming.Seccomp.Supervisor.Confined.{UnderTmp, handle_loop-UnderTmp}
use linux_system_programming.Sys.{Reply, Runs, Script, Throughout}
use linux_system_programming.Sys.Files.{closed, opened}

-- `getpid` of the x32 ABI
abbrev x32_call : SeccompData
x32_call = record { nr = 0x40000027; arch = 0xc000003e }

decide_lem_example : decide x32_call ≡ some ret_kill_process
decide_lem_example = decide_lem x32_call

-- A request of process 7 for "/tmp/a".
abbrev asked : List ℕ
asked = 1 ∷ 7 ∷ 83 ∷ 4096 ∷ 511 ∷ []

abbrev path_bytes : List ℕ
path_bytes = 47 ∷ 116 ∷ 109 ∷ 112 ∷ 47 ∷ 97 ∷ 0 ∷ []

abbrev bytes_reply : ℤ → List ℕ → Reply
bytes_reply v b = record { ret = v; errno = 4; out = 0; out2 = 0; bytes = b }

-- open 5, valid, seven bytes, close, valid
abbrev path_of_target : Script
path_of_target =
    replies (answer_with (pos 5) ∷ answer_with (pos 0) ∷ bytes_reply (pos 7) path_bytes ∷ [])
      (answer_with (pos 0))

get_target_pathname_lem_example :
    Runs
      (λ r t'.
        (r.0 ≡ fetched_in (notif_of asked) (pos 4) r.1 t') × (opened 5 t' + 0 ≡ closed 5 t' + 0))
      (get_target_pathname (notif_of asked) (pos 4) [] path_of_target 0 [])
unfolding opened closed
get_target_pathname_lem_example =
    get_target_pathname_lem (notif_of asked) (pos 4) [] path_of_target 0 [] 5

-- sleep, memset, the notification, a print, and the fetch; then the next receive fails
abbrev one_request : Script
one_request =
    replies
      (answer_with (pos 0)
        ∷ answer_with (pos 0)
        ∷ bytes_reply (pos 0) asked
        ∷ answer_with (pos 0)
        ∷ answer_with (pos 5)
        ∷ answer_with (pos 0)
        ∷ bytes_reply (pos 7) path_bytes
        ∷ answer_with (pos 0)
        ∷ answer_with (pos 0)
        ∷ answer_with (pos 0)
        ∷ answer_with (pos 0)
        ∷ answer_with (pos 0)
        ∷ answer_with (pos 0)
        ∷ answer_with (pos 0)
        ∷ answer_with (pos 0)
        ∷ answer_with (pos 0)
        ∷ [])
      (answer_with (negsuc 0))

handle_loop-UnderTmp_example :
    Throughout UnderTmp (handle_loop 2 (pos 4) (pos 64) 80 [] one_request 0 [])
handle_loop-UnderTmp_example = handle_loop-UnderTmp one_request 2 (pos 4) (pos 64) 80 [] 0 [] tt

handle_loop-Answering_example : Answering (handle_loop 2 (pos 4) (pos 64) 80 [] one_request 0 [])
handle_loop-Answering_example = handle_loop-Answering one_request 2 (pos 4) (pos 64) 80 [] 0 [] refl

-- "/tmp/a"
abbrev tmp_path : List ℕ
tmp_path = 47 ∷ 116 ∷ 109 ∷ 112 ∷ 47 ∷ 97 ∷ []
