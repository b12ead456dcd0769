-- ===== src/Shell/Status.antt =====
-- The wait statuses of minishell_glibc.c: `mark_process_status`, `wait_for_job`, `update_status`.
-- The macros of <sys/wait.h> are a parameter.
pub mod Marks
use linux_system_programming.Prelude.{
  Bool, List, Option, [], false, get_elem?, if◌then◌else◌, none, not, some, suc, true, zero, ℕ,
  ◌&&◌, ◌==◌, ◌||◌, ◌∷◌,
}
use linux_system_programming.Prelude.Int.{eq_ℤ, is_pos, is_zero, pos, ℤ}
use linux_system_programming.Shell.Jobs.{Job, Process, Shell, job_is_completed, job_is_stopped}
use linux_system_programming.Sys.{Prog, call, pure, starve, when, ◌>>=◌, ◌>>◌}
use linux_system_programming.Sys.Calls.{eprintf_num, perror, waitpid}
use mathlib.Core.Option

pub record WaitMacros : Type 0 where
  pub wifstopped : ℕ → Bool
  pub wifsignaled : ℕ → Bool
  pub wtermsig : ℕ → ℕ

abbrev pub echild : ℕ
echild = 10

module _ (w : WaitMacros) where
  -- The update of the process that a status is for.
  unfoldable pub mark_process : ℕ → Process → Process
  mark_process status p =
      if w.wifstopped status
      then record p { status = status; stopped = true }
      else record p { status = status; completed = true }

  unfoldable pub mark_in_processes : ℤ → ℕ → List Process → Option (List Process)
  mark_in_processes pid status [] = none
  mark_in_processes pid status (p ∷ ps) =
      if eq_ℤ p.pid pid
      then some (mark_process status p ∷ ps)
      else Option.map (λ qs. p ∷ qs) (mark_in_processes pid status ps)

  -- The two nested loops, up to the first process with that pid.
  unfoldable pub mark_in_jobs : ℤ → ℕ → List Job → Option (List Job)
  mark_in_jobs pid status [] = none
  mark_in_jobs pid status (j ∷ js) = elim (mark_in_processes pid status j.first_process) [
    | some ps ↦ some (record j { first_process = ps } ∷ js)
    | none ↦ Option.map (λ ks. j ∷ ks) (mark_in_jobs pid status js)
  ]

  -- What is printed of a process that was found.
  unfoldable pub report_signal : ℕ → Prog (Unit {0})
  report_signal status =
      when (not (w.wifstopped status) && w.wifsignaled status)
        (call (eprintf_num "%d: Terminated by signal %d.\n" (pos (w.wtermsig status))))

  unfoldable pub report_missing : ℤ → Prog (Bool × Shell) → Prog (Bool × Shell)
  report_missing pid k = call (eprintf_num "No child process %d.\n" pid) >> k

  -- `true` is the C function's 0.
  unfoldable pub mark_process_status : ℤ → ℕ → ℕ → Shell → Prog (Bool × Shell)
  unfolding report_signal report_missing
  mark_process_status pid status errno sh =
      if is_pos pid
      then elim (mark_in_jobs pid status sh.first_job) [
        | some js ↦ report_signal status >> pure (true, record sh { first_job = js })
        | none ↦ report_missing pid (pure (false, sh))
      ]
      else if is_zero pid || (errno == echild)
      then pure (false, sh)
      else call (perror "waitpid") >> pure (false, sh)

  -- The job at position `i`; a position past the end stands for no job, and ends the loops.
  abbrev pub job_at : ℕ → Shell → Option Job
  job_at i sh = get_elem? sh.first_job i

  abbrev pub is_settled : Option Job → Bool
  is_settled none = true
  is_settled (some j) = job_is_stopped j || job_is_completed j

  -- `waitpid (WAIT_ANY, &status, WUNTRACED)` until the job at `i` is stopped or completed, or a
  -- status could not be recorded.
  unfoldable pub wait_for_job : ℕ → ℕ → Shell → Prog Shell
  wait_for_job zero i sh = starve
  wait_for_job (suc fuel) i sh = do
    r ← call (waitpid 2)
    m ← mark_process_status r.ret r.out r.errno sh
    let rest = wait_for_job fuel i m.1
    if m.0 && not (is_settled (job_at i m.1)) then rest else pure m.1

  -- `waitpid (WAIT_ANY, &status, WUNTRACED | WNOHANG)` until no status is left. Nothing calls it.
  pub update_status : ℕ → Shell → Prog Shell
  update_status zero sh = starve
  update_status (suc fuel) sh = do
    r ← call (waitpid 3)
    m ← mark_process_status r.ret r.out r.errno sh
    let rest = update_status fuel m.1
    if m.0 then rest else pure m.1
