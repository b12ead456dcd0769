-- ===== src/Ipc/OpenClient.antt =====
-- Code/Mastering IPC and Terminals/open_client.c: asks open_server.c for a file and prints what it
-- reads from the descriptor that it gets. The reply of `recvmsg` has the descriptors of the
-- SCM_RIGHTS messages in `bytes`, in order.
pub mod Copied
use linux_system_programming.Ipc.OpenServer.{die}
use linux_system_programming.Prelude.{List, [], get_or, length, ltb, suc, take, zero, ℕ, ◌∷◌}
use linux_system_programming.Prelude.Int.{is_minus_one, is_neg, is_pos, negsuc, pos, pos_part, ℤ}
use linux_system_programming.Sys.{Prog, call, choose, exit_with, pure, starve, ◌>>=◌, ◌>>◌}
use linux_system_programming.Sys.Calls.{
  close, connect, eprintf, printf_num, read, recvmsg, setsockopt, socket, write,
}

-- The loop over the control messages: the last descriptor, or -1.
unfoldable pub last_descriptor : ℤ → List ℕ → ℤ
last_descriptor fd [] = fd
last_descriptor fd (d ∷ ds) = last_descriptor (pos d) ds

-- `while ((n = read (…)) > 0) write (…)`, with fuel.
unfoldable pub print_file : ℕ → ℤ → Prog (Unit {0})
print_file zero fd = starve
print_file (suc fuel) fd = do
  r ← call (read fd 64)
  let n = pos_part r.ret
  let again = do call (write (pos 1) (take n r.bytes) n); print_file fuel fd
  choose (is_pos r.ret) again (pure tt)

-- From `recvmsg` on.
unfoldable pub use_descriptor : ℕ → ℤ → Prog ℕ
use_descriptor fuel sock = do
  m ← call (recvmsg sock 1)
  let fd = last_descriptor (negsuc 0) m.bytes
  let show = do
    call (printf_num "Received FD=%d\n" fd)
    print_file fuel fd
    call (close fd)
    call (close sock)
    pure 0
  let missing = call (eprintf "No valid descriptor received\n") >> exit_with 1
  choose (is_neg m.ret) (die "recvmsg") (choose (is_minus_one fd) missing show)

unfoldable pub main : ℕ → List (List ℕ) → Prog ℕ
main fuel argv =
    choose (ltb (length argv) 2) (call (eprintf "Usage: %s <file>\n") >> exit_with 1) (do
      o ← call (socket 1 1 0)
      let talk = do
        call (setsockopt o.ret)
        c ← call (connect o.ret [])
        let ask = do
          call (write o.ret (get_or argv 1 []) (length (get_or argv 1 [])))
          use_descriptor fuel o.ret
        choose (is_neg c.ret) (die "connect") ask
      choose (is_neg o.ret) (die "socket") talk)
