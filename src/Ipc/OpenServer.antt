-- ===== src/Ipc/OpenServer.antt =====
-- Code/Mastering IPC and Terminals/open_server.c: a server that opens a file for one client and
-- passes the descriptor on. The reply of `recvmsg` has the request in `bytes`; `out2` is 1 if the
-- first control message carries credentials, and then `out` is the client's user.
pub mod Access
use linux_system_programming.Prelude.{List, String, not, ℕ, ◌==◌, ◌||◌}
use linux_system_programming.Prelude.Int.{is_neg, is_pos, ℤ}
use linux_system_programming.Sys.{Prog, call, choose, exit_with, pure, when, ◌>>=◌, ◌>>◌}
use linux_system_programming.Sys.Calls.{
  accept, bind, close, listen, open_path, perror, printf, recvmsg, sendmsg_fd, setsockopt, socket,
}

abbrev pub allowed_user : ℕ
allowed_user = 1000

abbrev pub die : {A : Type 0} → String → Prog A
die what = call (perror what) >> exit_with 1

-- From the `open` on.
unfoldable pub serve_file : ℤ → ℤ → List ℕ → Prog ℕ
serve_file sock client filename = do
  o ← call (open_path filename 0)
  let pass = do
    m ← call (sendmsg_fd client o.ret)
    let finish_up = do call (close o.ret); call (close client); call (close sock); pure 0
    choose (is_neg m.ret) (die "sendmsg") finish_up
  choose (is_neg o.ret) (die "open") pass

unfoldable pub deny : ℤ → ℤ → Prog ℕ
deny sock client = do
  call (printf "Access denied\n")
  call (close client)
  call (close sock)
  pure 0

-- The request of an accepted client.
unfoldable pub handle_request : ℤ → ℤ → Prog ℕ
handle_request sock client = do
  r ← call (recvmsg client 127)
  let known = (r.out2 == 1)
  let check = do
    when known (call (printf "Client UID=%d PID=%d\n"))
    choose (not known || not (r.out == allowed_user)) (deny sock client)
        (serve_file sock client r.bytes)
  choose (not (is_pos r.ret)) (die "recvmsg") check

unfoldable pub accept_client : ℤ → Prog ℕ
accept_client sock = do
  l ← call (listen sock 5)
  let wait = do
    call (printf "Secure open server (abstract socket) running...\n")
    c ← call (accept sock)
    choose (is_neg c.ret) (die "accept") (handle_request sock c.ret)
  choose (is_neg l.ret) (die "listen") wait

unfoldable pub main : Prog ℕ
main = do
  o ← call (socket 1 1 0)
  let bound = do
    call (setsockopt o.ret)
    b ← call (bind o.ret)
    choose (is_neg b.ret) (die "bind") (accept_client o.ret)
  choose (is_neg o.ret) (die "socket") bound
