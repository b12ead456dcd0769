-- ===== src/Shell/Launch.antt =====
-- The start of a job in minishell_glibc.c: `launch_process` in the child, `launch_job` in the
-- shell. The child's branch of `fork` is a run that ends in `execvp` or `exit`.
pub mod Child
pub mod Pipes
use linux_system_programming.Prelude.{Bool, List, [], false, if◌then◌else◌, not, ℕ, ◌∷◌}
use linux_system_programming.Prelude.Int.{eq_ℤ, is_neg, is_zero, negsuc, pos, ℤ}
use linux_system_programming.Shell.Jobs.{Job, Process, Shell, format_job_info}
use linux_system_programming.Shell.Status.{WaitMacros, wait_for_job}
use linux_system_programming.Shell.Terminal.{
  put_job_in_background, put_job_in_foreground, sig_dfl, signal_all,
}
use linux_system_programming.Sys.{Prog, call, exit_with, pure, replace, when, ◌>>=◌, ◌>>◌}
use linux_system_programming.Sys.Calls.{
  close, dup2, execvp, fork, getpid, perror, pipe, setpgid, tcsetpgrp,
}

-- `if (fd != target) { dup2 (fd, target); close (fd); }`
abbrev pub move_fd : ℤ → ℕ → Prog (Unit {0})
move_fd fd target =
    when (not (eq_ℤ fd (pos target))) (call (dup2 fd (pos target)) >> call (close fd))

unfoldable pub redirect : ℤ → ℤ → ℤ → Prog (Unit {0})
redirect infile outfile errfile = do move_fd infile 0; move_fd outfile 1; move_fd errfile 2

join_group : Shell → ℤ → Bool → Prog (Unit {0})
join_group sh pgid foreground = do
  p ← call getpid
  let g = if is_zero pgid then p.ret else pgid
  call (setpgid p.ret g)
  when foreground (call (tcsetpgrp sh.shell_terminal g))
  signal_all sig_dfl

unfoldable pub launch_process : {A : Type 0} → Shell → Process → ℤ → ℤ → ℤ → ℤ → Bool → Prog A
unfolding redirect join_group
launch_process sh p pgid infile outfile errfile foreground = do
  when sh.shell_is_interactive (join_group sh pgid foreground)
  redirect infile outfile errfile
  e ← call (execvp p.argv)
  if is_neg e.ret then call (perror "execvp") >> exit_with 1 else replace

-- `if (infile != j->stdin) close (infile); if (outfile != j->stdout) close (outfile);`
unfoldable pub close_ends : Job → ℤ → ℤ → Prog (Unit {0})
close_ends j infile outfile = do
  when (not (eq_ℤ infile j.stdin)) (call (close infile))
  when (not (eq_ℤ outfile j.stdout)) (call (close outfile))

-- The parent's part after a successful `fork`: the job's group is its first child.
unfoldable pub adopt : Shell → ℤ → ℤ → Prog ℤ
adopt sh pgid pid =
    let g = if is_zero pgid then pid else pgid in
    if sh.shell_is_interactive then call (setpgid pid g) >> pure g else pure pgid

-- The pipe before a process that is not the last: its read end and the process's `outfile`.
unfoldable pub make_pipe : Job → List Process → ℤ → Prog (ℤ × ℤ)
make_pipe j [] read_end = pure (read_end, j.stdout)
make_pipe j (_ ∷ _) read_end = do
  r ← call pipe
  if is_neg r.ret then call (perror "pipe") >> exit_with 1 else pure (pos r.out, pos r.out2)

unfoldable pub spawn : Shell → Job → Process → ℤ → ℤ → ℤ → Bool → Prog (ℤ × ℤ)
unfolding adopt
spawn sh j p pgid infile outfile foreground = do
  f ← call fork
  if is_zero f.ret
      then launch_process sh p pgid infile outfile j.stderr foreground
      else if is_neg f.ret
      then call (perror "fork") >> exit_with 1
      else do g ← adopt sh pgid f.ret; pure (f.ret, g)

-- The loop over the processes left. `read_end` is `mypipe[0]`; the processes get their pids.
unfoldable pub launch_each : Shell → Job → ℤ → ℤ → ℤ → Bool → List Process → Prog (List Process × ℤ)
launch_each sh j pgid infile read_end foreground [] = pure ([], pgid)
launch_each sh j pgid infile read_end foreground (p ∷ ps) = do
  ends ← make_pipe j ps read_end
  child ← spawn sh j p pgid infile ends.1 foreground
  close_ends j infile ends.1
  rest ← launch_each sh j child.1 ends.0 ends.0 foreground ps
  pure (record p { pid = child.0 } ∷ rest.0, rest.1)

module _ (w : WaitMacros) (fuel : ℕ) where
  -- `launch_job` of the job at the head of the list. `mypipe` is not initialised before the first
  -- `pipe`, and its value is not read then: -1 stands for it.
  unfoldable pub launch_job : Shell → Job → List Job → Bool → Prog Shell
  launch_job sh j others foreground = do
    started ← launch_each sh j j.pgid j.stdin (negsuc 0) foreground j.first_process
    let j' = record j { first_process = started.0; pgid = started.1 }
    let sh' = record sh { first_job = j' ∷ others }
    format_job_info j' "launched"
    if not sh.shell_is_interactive
        then wait_for_job w fuel 0 sh'
        else if foreground
        then put_job_in_foreground w fuel 0 j' false sh'
        else put_job_in_background w fuel j' false sh'
