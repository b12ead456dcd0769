-- ===== src/Ipc/OpenServer/Access.antt =====
-- Who is served by open_server.c, and what it closes.
use linux_system_programming.Ipc.OpenServer.{accept_client, deny, handle_request, main, serve_file}
use linux_system_programming.Prelude.{List, [], arith, some, ℕ, ◌+◌, ◌∷◌, ◌≡◌, ◌≢◌}
use linux_system_programming.Prelude.Int.{ℤ}
use linux_system_programming.Sys.{OnSuccess, Script, Trace, event, exit_status, trace}
use linux_system_programming.Sys.Calls.{sendmsg_fd}
use linux_system_programming.Sys.Files.{closed, held, opened}

-- How many descriptors were sent in a run.
unfoldable pub sent : Trace → ℕ
sent [] = 0
sent (event (sendmsg_fd c d) r ∷ t) = sent t + 1
sent (event _ r ∷ t) = sent t

-- A request without the credentials of user 1000 gets neither a file nor a descriptor: nothing
-- is opened or sent for it.
pub handle_request-denies :
    (sock client : ℤ) (s : Script) (n : ℕ) (t : Trace) (x : ℕ)
    → ((s n).out2 ≡ 1 → (s n).out ≢ 1000)
    → (sent (trace (handle_request sock client s n t)) ≡ sent t)
      × (opened x (trace (handle_request sock client s n t)) ≡ opened x t)
unfolding handle_request deny sent opened
handle_request-denies sock client s n t x h = ground arith

serve_file-Closes :
    (sock client : ℤ) (filename : List ℕ) (s : Script) (n : ℕ) (t : Trace) (x : ℕ)
    → OnSuccess
        (λ t'. opened x t' + closed x t + (held x sock + held x client) ≡ closed x t' + opened x t)
        (serve_file sock client filename s n t)
unfolding serve_file opened closed
serve_file-Closes sock client filename s n t x = ground arith

deny-Closes :
    (sock client : ℤ) (s : Script) (n : ℕ) (t : Trace) (x : ℕ)
    → OnSuccess
        (λ t'. opened x t' + closed x t + (held x sock + held x client) ≡ closed x t' + opened x t)
        (deny sock client s n t)
unfolding deny opened closed
deny-Closes sock client s n t x = ground arith

handle_request-Closes :
    (sock client : ℤ) (s : Script) (n : ℕ) (t : Trace) (x : ℕ)
    → OnSuccess
        (λ t'. opened x t' + closed x t + (held x sock + held x client) ≡ closed x t' + opened x t)
        (handle_request sock client s n t)
unfolding handle_request opened closed
handle_request-Closes sock client s n t x = grind (arith, serve_file-Closes, deny-Closes)

accept_client-Closes :
    (sock : ℤ) (s : Script) (n : ℕ) (t : Trace) (x : ℕ)
    → OnSuccess
        (λ t'. opened x t' + closed x t + held x sock ≡ closed x t' + opened x t)
        (accept_client sock s n t)
unfolding accept_client opened closed
accept_client-Closes sock s n t x = grind (arith, handle_request-Closes)

-- When open_server.c ends with status 0, its two sockets and the file that it opened have been
-- closed, each as often as it was opened.
pub main-closes_ends :
    (s : Script) (x : ℕ)
    → exit_status (main s 0 []) ≡ some 0
    → opened x (trace (main s 0 [])) ≡ closed x (trace (main s 0 []))
unfolding main opened closed
main-closes_ends s x h = grind (arith, accept_client-Closes)
