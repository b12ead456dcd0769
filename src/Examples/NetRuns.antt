-- ===== src/Examples/NetRuns.antt =====
-- The client and the daemon of ruptime.c and ruptimed.c with sockets that fail and work.
use linux_system_programming.Examples.{answer_with, replies, returned}
use linux_system_programming.Ipc.Ruptime.{connect_retry, retry_loop, retry_round}
use linux_system_programming.Ipc.Ruptime.Retry.{Settled, connect_retry-Settled}
use linux_system_programming.Prelude.{[], refl, some, ◌∷◌, ◌≡◌}
use linux_system_programming.Prelude.Int.{negsuc, pos}
use linux_system_programming.Sys.{Runs, Script}

-- socket 3, refused; socket 4, accepted
abbrev second_try : Script
second_try =
    replies
      (answer_with (pos 3)
        ∷ answer_with (negsuc 0)
        ∷ answer_with (pos 0)
        ∷ answer_with (pos 0)
        ∷ answer_with (pos 4)
        ∷ [])
      (answer_with (pos 0))

connect_retry_result : returned (connect_retry 2 [] second_try 0 []) ≡ some (pos 4)
unfolding connect_retry retry_loop retry_round
connect_retry_result = refl

connect_retry-Settled_example : Runs (Settled 3 127 []) (connect_retry 2 [] second_try 0 [])
connect_retry-Settled_example = connect_retry-Settled 2 [] second_try 0 [] 3
