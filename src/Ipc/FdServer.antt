-- ===== src/Ipc/FdServer.antt =====
-- Code/Mastering IPC and Terminals/ipc_server.c: passes the descriptor of a new file to one client.
-- `junk` is what the message buffer holds at first; a print of it without a NUL is a fault. The
-- reply of `recvmsg` has the message in `bytes`; `out2` is 1 if it carries credentials.
pub mod Closing
use linux_system_programming.Ipc.OpenServer.{die}
use linux_system_programming.Ipc.SeqServer.{store_bytes}
use linux_system_programming.Prelude.{Bool, List, [], false, take, ℕ, ◌==◌, ◌||◌, ◌∷◌}
use linux_system_programming.Prelude.Int.{is_neg, pos_part, ℤ}
use linux_system_programming.Sys.{Prog, call, choose, fault, pure, when, ◌>>=◌, ◌>>◌}
use linux_system_programming.Sys.Calls.{
  accept, bind, close, listen, open_name, printf, printf_text, recvmsg, sendmsg_fd, setsockopt,
  socket, unlink, write,
}

-- `sizeof (buf)`
abbrev pub message_size : ℕ
message_size = 16

unfoldable pub is_terminated : List ℕ → Bool
is_terminated [] = false
is_terminated (c ∷ cs) = (c == 0) || is_terminated cs

-- The first text, "Created by server\n", by its bytes.
abbrev pub greeting : List ℕ
greeting =
    67 ∷ 114 ∷ 101 ∷ 97 ∷ 116 ∷ 101 ∷ 100 ∷ 32 ∷ 98 ∷ 121 ∷ 32 ∷ 115 ∷ 101 ∷ 114 ∷ 118 ∷ 101 ∷ 114
    ∷ 10 ∷ []

-- From the `open` on; neither it nor the `write` is checked.
unfoldable pub share_file : ℤ → ℤ → Prog ℕ
share_file sock client = do
  o ← call (open_name "shared.txt" 578)
  call (write o.ret greeting 18)
  m ← call (sendmsg_fd client o.ret)
  let finish_up = do
    call (printf "Server: sent file descriptor\n")
    call (close o.ret)
    call (close client)
    call (close sock)
    pure 0
  choose (is_neg m.ret) (die "sendmsg") finish_up

-- From `recvmsg` on.
unfoldable pub receive_message : List ℕ → ℤ → ℤ → Prog ℕ
receive_message junk sock client = do
  r ← call (recvmsg client message_size)
  let buf = store_bytes (take (pos_part r.ret) r.bytes) junk
  let show = do
    call (printf_text "Server: received message: %s\n" buf)
    when (r.out2 == 1) (call (printf "Client PID=%d UID=%d GID=%d\n"))
    share_file sock client
  choose (is_neg r.ret) (die "recvmsg") (choose (is_terminated buf) show fault)

unfoldable pub accept_client : List ℕ → ℤ → Prog ℕ
accept_client junk sock = do
  l ← call (listen sock 1)
  let wait = do
    call (printf "Server: waiting for connection...\n")
    c ← call (accept sock)
    choose (is_neg c.ret) (die "accept") (receive_message junk sock c.ret)
  choose (is_neg l.ret) (die "listen") wait

unfoldable pub bind_name : List ℕ → ℤ → Prog ℕ
bind_name junk sock = do
  e ← call (setsockopt sock)
  let named = do
    call (unlink "ipc_socket")
    b ← call (bind sock)
    choose (is_neg b.ret) (die "bind") (accept_client junk sock)
  choose (is_neg e.ret) (die "setsockopt") named

unfoldable pub main : List ℕ → Prog ℕ
main junk = do o ← call (socket 1 1 0); choose (is_neg o.ret) (die "socket") (bind_name junk o.ret)
