-- ===== src/FileIo/CopyFile.antt =====
-- Code/Mastering File IO/copyfile.c: copies a file by `copy_file_range`.
pub mod Complete
use linux_system_programming.Prelude.{List, [], get_or, length, suc, zero, ℕ, ◌&&◌, ◌==◌}
use linux_system_programming.Prelude.Int.{is_minus_one, is_pos, pos, ℤ, ◌-ℤ◌}
use linux_system_programming.Sys.{Prog, call, choose, exit_with, pure, starve, ◌>>=◌, ◌>>◌}
use linux_system_programming.Sys.Calls.{close, copy_file_range, eprintf, fstat, open_path, perror}

-- `do { … } while (len > 0 && ret > 0)`, with fuel; the result is the last `len`.
unfoldable pub copy_loop : ℕ → ℤ → ℤ → ℤ → Prog ℤ
copy_loop zero fd_in fd_out len = starve
copy_loop (suc fuel) fd_in fd_out len = do
  r ← call (copy_file_range fd_in fd_out len)
  let left = len -ℤ r.ret
  let again = copy_loop fuel fd_in fd_out left
  choose (is_minus_one r.ret) (call (perror "copy_file_range") >> exit_with 1)
      (choose (is_pos left && is_pos r.ret) again (pure left))

-- From the second `open` on; `size` is `stat.st_size`.
unfoldable pub copy_to : ℕ → List ℕ → ℤ → ℕ → Prog ℕ
copy_to fuel destination fd_in size = do
  o ← call (open_path destination 577)
  let fd_out = o.ret
  let copy = do
    copy_loop fuel fd_in fd_out (pos size)
    call (close fd_in)
    call (close fd_out)
    exit_with 0
  choose (is_minus_one fd_out) (call (perror "open (argv[2])") >> exit_with 1) copy

unfoldable pub main : ℕ → List (List ℕ) → Prog ℕ
main fuel argv =
    let source = get_or argv 1 [] in
    let destination = get_or argv 2 [] in
    let run = do
      o ← call (open_path source 0)
      let measure = do
        st ← call (fstat o.ret)
        choose (is_minus_one st.ret) (call (perror "fstat") >> exit_with 1)
            (copy_to fuel destination o.ret st.out)
      choose (is_minus_one o.ret) (call (perror "open (argv[1])") >> exit_with 1) measure
    in choose (length argv == 3) run
      (call (eprintf "Usage: %s <source> <destination>\n") >> exit_with 1)
