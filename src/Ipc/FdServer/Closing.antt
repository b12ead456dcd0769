-- ===== src/Ipc/FdServer/Closing.antt =====
-- What ipc_server.c has closed at its end.
use linux_system_programming.Ipc.FdServer.{
  accept_client, bind_name, main, receive_message, share_file,
}
use linux_system_programming.Prelude.{List, [], arith, some, ℕ, ◌+◌, ◌≡◌}
use linux_system_programming.Prelude.Int.{ℤ}
use linux_system_programming.Sys.{OnSuccess, Script, Trace, exit_status, trace}
use linux_system_programming.Sys.Files.{closed, held, opened}

share_file-Closes :
    (sock client : ℤ) (s : Script) (n : ℕ) (t : Trace) (x : ℕ)
    → OnSuccess
        (λ t'. opened x t' + closed x t + (held x sock + held x client) ≡ closed x t' + opened x t)
        (share_file sock client s n t)
unfolding share_file opened closed
share_file-Closes sock client s n t x = ground arith

receive_message-Closes :
    (junk : List ℕ) (sock client : ℤ) (s : Script) (n : ℕ) (t : Trace) (x : ℕ)
    → OnSuccess
        (λ t'. opened x t' + closed x t + (held x sock + held x client) ≡ closed x t' + opened x t)
        (receive_message junk sock client s n t)
unfolding receive_message opened closed
receive_message-Closes junk sock client s n t x = grind (arith, share_file-Closes)

accept_client-Closes :
    (junk : List ℕ) (sock : ℤ) (s : Script) (n : ℕ) (t : Trace) (x : ℕ)
    → OnSuccess
        (λ t'. opened x t' + closed x t + held x sock ≡ closed x t' + opened x t)
        (accept_client junk sock s n t)
unfolding accept_client opened closed
accept_client-Closes junk sock s n t x = grind (arith, receive_message-Closes)

bind_name-Closes :
    (junk : List ℕ) (sock : ℤ) (s : Script) (n : ℕ) (t : Trace) (x : ℕ)
    → OnSuccess
        (λ t'. opened x t' + closed x t + held x sock ≡ closed x t' + opened x t)
        (bind_name junk sock s n t)
unfolding bind_name opened closed
bind_name-Closes junk sock s n t x = grind (arith, accept_client-Closes)

-- When ipc_server.c ends with status 0, its sockets and the shared file have been closed, each as
-- often as it was opened.
pub main-closes_all :
    (junk : List ℕ) (s : Script) (x : ℕ)
    → exit_status (main junk s 0 []) ≡ some 0
    → opened x (trace (main junk s 0 [])) ≡ closed x (trace (main junk s 0 []))
unfolding main opened closed
main-closes_all junk s x h = grind (arith, bind_name-Closes)
