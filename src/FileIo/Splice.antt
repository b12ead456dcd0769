-- ===== src/FileIo/Splice.antt =====
-- Code/Mastering File IO/splice.c: copies a file through a pipe by `splice`.
pub mod Ends
use linux_system_programming.Prelude.{List, [], get_or, length, suc, zero, ℕ, ◌==◌}
use linux_system_programming.Prelude.Int.{is_minus_one, is_zero, pos, ℤ}
use linux_system_programming.Sys.{Prog, call, choose, exit_with, pure, starve, ◌>>=◌, ◌>>◌}
use linux_system_programming.Sys.Calls.{close, eprintf, open_path, perror, pipe, splice}

abbrev pub splice_size : ℕ
splice_size = 4096

-- `while (1) { … }`, with fuel. Both error branches leave the loop by `break`.
unfoldable pub splice_loop : ℕ → ℤ → ℤ → ℤ → ℤ → Prog (Unit {0})
splice_loop zero fd_in fd_out read_end write_end = starve
splice_loop (suc fuel) fd_in fd_out read_end write_end = do
  n ← call (splice fd_in write_end (pos splice_size))
  let again = splice_loop fuel fd_in fd_out read_end write_end
  let push = do
    w ← call (splice read_end fd_out n.ret)
    choose (is_minus_one w.ret) (call (perror "splice write") >> pure tt) again
  choose (is_minus_one n.ret) (call (perror "splice read") >> pure tt)
      (choose (is_zero n.ret) (pure tt) push)

-- Behind the loop.
unfoldable pub close_up : ℤ → ℤ → ℤ → ℤ → Prog ℕ
close_up read_end write_end fd_in fd_out = do
  call (close read_end)
  call (close write_end)
  call (close fd_in)
  call (close fd_out)
  pure 0

-- From the pipe on.
unfoldable pub through_pipe : ℕ → ℤ → ℤ → Prog ℕ
through_pipe fuel fd_in fd_out = do
  p ← call pipe
  let no_pipe = do call (perror "pipe"); call (close fd_in); call (close fd_out); exit_with 1
  let move = do
    splice_loop fuel fd_in fd_out (pos p.out) (pos p.out2)
    close_up (pos p.out) (pos p.out2) fd_in fd_out
  choose (is_minus_one p.ret) no_pipe move

unfoldable pub open_destination : ℕ → List ℕ → ℤ → Prog ℕ
open_destination fuel destination fd_in = do
  o ← call (open_path destination 577)
  let failed = do call (perror "open destination"); call (close fd_in); exit_with 1
  choose (is_minus_one o.ret) failed (through_pipe fuel fd_in o.ret)

unfoldable pub main : ℕ → List (List ℕ) → Prog ℕ
main fuel argv =
    let run = do
      o ← call (open_path (get_or argv 1 []) 0)
      choose (is_minus_one o.ret) (call (perror "open source") >> exit_with 1)
          (open_destination fuel (get_or argv 2 []) o.ret)
    in choose (length argv == 3) run
      (call (eprintf "Usage: %s <src_file> <dst_file>\n") >> exit_with 1)
