-- ===== src/Shell/Main/Reaped.antt =====
-- What becomes of a foreground job while SIGCHLD is ignored: the kernel then reaps the children
-- itself, and `waitpid` fails with ECHILD once all have ended.
use linux_system_programming.Prelude.{
  Bool, List, [], arith, false, not, suc, true, ℕ, ◌&&◌, ◌+◌, ◌∷◌, ◌≡◌,
}
use linux_system_programming.Prelude.Int.{eq_ℤ, negsuc, pos, ℤ}
use linux_system_programming.Shell.Jobs.{
  Job, Notice, Shell, completed_notice, do_job_notification, format_job_info, job_is_completed,
  job_is_stopped, print_notices, stopped_notice,
}
use linux_system_programming.Shell.Jobs.Notify.{do_job_notification_lem, remaining}
use linux_system_programming.Shell.Launch.{close_ends, launch_each, launch_job, make_pipe, spawn}
use linux_system_programming.Shell.Line.{left_of_line}
use linux_system_programming.Shell.Main.{new_job, start_job}
use linux_system_programming.Shell.Status.{WaitMacros, echild, mark_process_status, wait_for_job}
use linux_system_programming.Shell.Terminal.{come_back, put_job_in_foreground}
use linux_system_programming.Sys.{Returns, Script, Trace}
use linux_system_programming.Sys.Rules.{Returns-bind}

-- The newest job belongs to group `pgid` and counts as neither stopped nor completed.
abbrev pub newest_runs : ℤ → List Job → Bool
newest_runs pgid [] = false
newest_runs pgid (j ∷ js) = eq_ℤ j.pgid pgid && (not (job_is_completed j) && not (job_is_stopped j))

newest_runs-remaining :
    (g : ℤ) (js : List Job) → newest_runs g js ≡ true → newest_runs g (remaining js) ≡ true
unfolding remaining job_is_completed job_is_stopped
newest_runs-remaining g [] h = h
newest_runs-remaining g (j ∷ js) h = ground arith

print_notices-Returns :
    (out : List Notice) (s : Script) (n : ℕ) (t : Trace)
    → Returns (λ _. Unit {0}) (print_notices out s n t)
unfolding print_notices format_job_info
print_notices-Returns [] s n t = tt
print_notices-Returns (completed_notice j ∷ out) s n t = print_notices-Returns out s _ _
print_notices-Returns (stopped_notice j ∷ out) s n t = print_notices-Returns out s _ _

module _ (w : WaitMacros) (f : ℕ) (argv : List (List ℕ)) (line : List ℕ) (sh : Shell) (p n : ℕ)
    (s : Script) (t : Trace) (terminal : sh.shell_is_interactive ≡ true)
    (forked : (s n).ret ≡ pos (suc p)) (none_left : (s (4 + n)).ret ≡ negsuc 0)
    (why : (s (4 + n)).errno ≡ echild) where
  launch_job-keeps :
      Returns
        (λ sh'. newest_runs (pos (suc p)) sh'.first_job ≡ true)
        (launch_job w (suc f) sh (new_job argv (left_of_line line)) sh.first_job true s n t)
  unfolding launch_job launch_each make_pipe spawn close_ends format_job_info new_job
      put_job_in_foreground come_back wait_for_job mark_process_status job_is_completed
      job_is_stopped
  launch_job-keeps = ground arith

  -- In an interactive shell whose fourth call after the `fork` of a command, `waitpid`, fails with
  -- ECHILD, the round ends with the new job in the list, neither stopped nor completed: a
  -- finished command is never removed.
  pub start_job-keeps_reaped :
      Returns
        (λ sh'. newest_runs (pos (suc p)) sh'.first_job ≡ true)
        (start_job w (suc f) argv line sh s n t)
  unfolding start_job
  start_job-keeps_reaped =
      Returns-bind _ _
        (launch_job w (suc f) sh (new_job argv (left_of_line line)) sh.first_job true s n t) _ s
        launch_job-keeps
        λ sh' n' t' h.
          Returns-bind _ _ (print_notices (do_job_notification sh').1 s n' t') _ s
            (print_notices-Returns (do_job_notification sh').1 s n' t')
            λ _ _ _ _.
              rw (do_job_notification_lem sh') (newest_runs-remaining (pos (suc p)) sh'.first_job h)
