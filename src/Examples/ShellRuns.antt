-- ===== src/Examples/ShellRuns.antt =====
-- The job control of minishell_glibc.c at concrete jobs and lines.
use linux_system_programming.Examples.{answer_with, replies}
use linux_system_programming.Prelude.{
  Bool, List, Option, [], arith, false, if◌then◌else◌, inl, inr, ltb, none, refl, some, true, ℕ,
  ◌%◌, ◌&&◌, ◌+◌, ◌<◌, ◌==◌, ◌||◌, ◌∷◌, ◌≡◌,
}
use linux_system_programming.Prelude.Int.{negsuc, pos}
use linux_system_programming.Shell.Jobs.{Job, Process, Shell, do_job_notification}
use linux_system_programming.Shell.Jobs.Notify.{do_job_notification_lem, remaining, reports}
use linux_system_programming.Shell.Launch.{close_ends, launch_each, make_pipe, redirect, spawn}
use linux_system_programming.Shell.Launch.Child.{after, all_duplicated, redirect_lem}
use linux_system_programming.Shell.Launch.Pipes.{launch_each-Settles, new_pipes}
use linux_system_programming.Shell.Line.{parse_args, words}
use linux_system_programming.Shell.Line.Words.{parse_args-fits, unwords, words-unwords}
use linux_system_programming.Shell.Status.{WaitMacros, echild, mark_process_status}
use linux_system_programming.Shell.Status.Marks.{Recorded, mark_process_status_lem}
use linux_system_programming.Sys.{Returns, Script, Trace, trace}
use linux_system_programming.Sys.Files.{closed, opened}

abbrev proc : ℕ → Bool → Bool → Process
proc pid completed halted = record {
  argv = [];
  pid = pos pid;
  completed = completed;
  stopped = halted;
  status = 0;
}

abbrev job_of : ℕ → List Process → Job
job_of pgid ps = record {
  command = 108 ∷ 115 ∷ [];
  first_process = ps;
  pgid = pos pgid;
  notified = false;
  tmodes = 0;
  stdin = pos 0;
  stdout = pos 1;
  stderr = pos 2;
}

-- A job that has ended, one that is stopped and one that runs.
abbrev three_jobs : Shell
three_jobs = record {
  first_job =
      job_of 10 (proc 10 true false ∷ [])
      ∷ job_of 20 (proc 20 false true ∷ [])
      ∷ job_of 30 (proc 30 true false ∷ proc 31 false false ∷ [])
      ∷ [];
  shell_pgid = pos 5;
  shell_tmodes = 7;
  shell_terminal = pos 0;
  shell_is_interactive = true;
}

do_job_notification_lem_example : do_job_notification three_jobs ≡ (
  record three_jobs { first_job = remaining three_jobs.first_job },
  reports three_jobs.first_job,
)
do_job_notification_lem_example = do_job_notification_lem three_jobs

-- Statuses as Linux encodes them.
abbrev linux_macros : WaitMacros
linux_macros = record {
  wifstopped = λ st. st % 256 == 127;
  wifsignaled = λ st. ltb 0 (st % 128) && ltb (st % 128) 127;
  wtermsig = λ st. st % 128;
}

abbrev quiet : Script
quiet = replies [] (answer_with (pos 0))

mark_process_status_lem_example :
    Returns
      (λ (b, sh'). Recorded linux_macros (pos 31) 9 three_jobs b sh')
      (mark_process_status linux_macros (pos 31) 9 0 three_jobs quiet 0 [])
mark_process_status_lem_example =
    mark_process_status_lem linux_macros (pos 31) 9 0 three_jobs quiet 0 [] refl

-- A pipeline of two processes: pipe, fork and setpgid, fork and setpgid.
abbrev two_stage : Script
two_stage = replies [] (record { ret = pos 40; errno = 0; out = 3; out2 = 4; bytes = [] })

two_stage_trace : Trace
two_stage_trace = trace (
    launch_each three_jobs (job_of 0 []) (pos 0) (pos 0) (negsuc 0) true
      (proc 0 false false ∷ proc 0 false false ∷ []) two_stage 0 [])

launch_each-Settles_example :
    opened 4 two_stage_trace + closed 4 [] + 0 ≡ closed 4 two_stage_trace + opened 4 []
unfolding launch_each new_pipes two_stage_trace make_pipe spawn close_ends
launch_each-Settles_example =
    launch_each-Settles two_stage three_jobs (job_of 0 []) true 4 (proc 0 false false ∷ [])
      (proc 0 false false) (pos 0) (pos 0) (negsuc 0) 0 [] _ _ _ refl refl

abbrev table : ℕ → Option ℕ
table x = some (100 + x)

redirect_lem_example :
    let g = after (trace (redirect (pos 5) (pos 6) (pos 2) quiet 0 [])) table in
    (g 0 ≡ table 5)
    × (g 1 ≡ table 6)
    × (g 2 ≡ table 2)
    × ((x : ℕ) → 2 < x → g x ≡ (if (x == 5) || (x == 6) || (x == 2) then none else table x))
unfolding redirect all_duplicated
redirect_lem_example =
    redirect_lem 5 6 2 quiet 0 table (inr (omega arith)) (inr (omega arith)) (inl refl)
      (omega arith) (omega arith) (omega arith) refl

-- "ls" and "-l"
abbrev ls_l : List (List ℕ)
ls_l = (108 ∷ 115 ∷ []) ∷ (45 ∷ 108 ∷ []) ∷ []

words-unwords_example : words (unwords ls_l) ≡ ls_l
words-unwords_example = words-unwords ls_l (omega arith)

parse_args-fits_example : parse_args (unwords ls_l) ≡ some (words (unwords ls_l))
parse_args-fits_example = parse_args-fits (unwords ls_l) (omega arith)

-- fork, setpgid, the report, tcsetpgrp, and a waitpid that fails with ECHILD
abbrev reaped : Script
reaped =
    replies
      (answer_with (pos 41) ∷ answer_with (pos 0) ∷ answer_with (pos 0) ∷ answer_with (pos 0) ∷ [])
      (record { ret = negsuc 0; errno = echild; out = 0; out2 = 0; bytes = [] })
