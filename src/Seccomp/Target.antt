-- ===== src/Seccomp/Target.antt =====
-- `targetProcess`: the child under the filter; the parent gets its pid.
use linux_system_programming.Ipc.OpenServer.Access.{sent}
use linux_system_programming.Prelude.{List, [], not, ℕ, ◌∷◌}
use linux_system_programming.Prelude.Int.{is_minus_one, is_pos, is_zero, ℤ}
use linux_system_programming.Seccomp.Passing.{
  close_socket_pair, err_exit, install_notify_filter, sendfd,
}
use linux_system_programming.Sys.{Prog, call, choose, exit_with, pure, ◌>>=◌, ◌>>◌}
use linux_system_programming.Sys.Calls.{
  close, fork, getpid, mkdir, perror, prctl, printf, printf_num, printf_text,
}

-- The loop over the paths.
unfoldable pub make_directories : List (List ℕ) → Prog (Unit {0})
make_directories [] = pure tt
make_directories (path ∷ paths) = do
  call (printf_text "\nT: about to mkdir(\"%s\")\n" path)
  m ← call (mkdir path 448)
  let rest = make_directories paths
  choose (is_minus_one m.ret) (call (perror "T: ERROR: mkdir(2)") >> rest)
      (call (printf_num "T: SUCCESS: mkdir(2) returned %d\n" m.ret) >> rest)

-- From the filter on.
unfoldable pub filtered : {A : Type 0} → ℤ → ℤ → List (List ℕ) → Prog A
filtered sock0 sock1 paths = do
  notify_fd ← install_notify_filter
  sent ← sendfd sock0 notify_fd
  let go_on = do
    c ← call (close notify_fd)
    let run_paths = do
      close_socket_pair sock0 sock1
      make_directories paths
      call (printf "\nT: terminating\n")
      exit_with 0
    choose (is_minus_one c.ret) (err_exit "close-target-notify-fd") run_paths
  choose (is_minus_one sent) (err_exit "sendfd") go_on

unfoldable pub run_target : {A : Type 0} → ℤ → ℤ → List (List ℕ) → Prog A
run_target sock0 sock1 paths = do
  p ← call getpid
  call (printf_num "T: PID = %ld\n" p.ret)
  n ← call (prctl 38 1)
  choose (not (is_zero n.ret)) (err_exit "prctl") (filtered sock0 sock1 paths)

unfoldable pub target_process : ℤ → ℤ → List (List ℕ) → Prog ℤ
target_process sock0 sock1 paths = do
  f ← call fork
  choose (is_minus_one f.ret) (err_exit "fork")
      (choose (is_pos f.ret) (pure f.ret) (run_target sock0 sock1 paths))
