-- ===== src/Shell/Status/Marks.antt =====
-- `mark_process_status` against a description over the processes of all jobs in order.
use linux_system_programming.Prelude.{
  Bool, List, [], arith, false, if◌then◌else◌, none, not, refl, some, true, ℕ, ◌++◌, ◌||◌, ◌∷◌, ◌≡◌,
}
use linux_system_programming.Prelude.Int.{eq_ℤ, is_pos, ℤ}
use linux_system_programming.Shell.Jobs.{Job, Process, Shell}
use linux_system_programming.Shell.Status.{
  WaitMacros, mark_in_jobs, mark_in_processes, mark_process, mark_process_status,
}
use linux_system_programming.Sys.{Returns, Script, Trace}
use mathlib.Core.Option

-- Every process of every job, in the order of the nested loops.
pub processes : List Job → List Process
processes [] = []
processes (j ∷ js) = j.first_process ++ processes js

module _ (w : WaitMacros) where
  -- The process with the status: stopped or else completed, and otherwise as it was.
  abbrev pub with_status : ℕ → Process → Process
  with_status status p = record {
    argv = p.argv;
    pid = p.pid;
    completed = not (w.wifstopped status) || p.completed;
    stopped = w.wifstopped status || p.stopped;
    status = status;
  }

  mark_process_lem : (status : ℕ) (p : Process) → mark_process w status p ≡ with_status status p
  unfolding mark_process
  mark_process_lem status p = ground arith

  -- Exactly the first process with that pid gets the status.
  pub update_first : ℤ → ℕ → List Process → List Process
  update_first pid status [] = []
  update_first pid status (p ∷ ps) =
      if eq_ℤ p.pid pid then with_status status p ∷ ps else p ∷ update_first pid status ps

  pub has_pid : ℤ → List Process → Bool
  has_pid pid [] = false
  has_pid pid (p ∷ ps) = eq_ℤ p.pid pid || has_pid pid ps

  mark_in_processes_lem :
      (pid : ℤ) (status : ℕ) (ps : List Process)
      → mark_in_processes w pid status ps
        ≡ (if has_pid pid ps then some (update_first pid status ps) else none)
  unfolding mark_in_processes update_first has_pid
  mark_in_processes_lem pid status [] = refl
  mark_in_processes_lem pid status (p ∷ ps) =
      ground (arith, mark_in_processes_lem pid status ps, mark_process_lem status p)

  has_pid-append :
      (pid : ℤ) (ps qs : List Process) → has_pid pid (ps ++ qs) ≡ (has_pid pid ps || has_pid pid qs)
  unfolding has_pid
  has_pid-append pid [] qs = refl
  has_pid-append pid (p ∷ ps) qs = ground (arith, has_pid-append pid ps qs)

  update_first-append :
      (pid : ℤ) (status : ℕ) (ps qs : List Process)
      → update_first pid status (ps ++ qs) ≡ (
          if has_pid pid ps
          then update_first pid status ps ++ qs
          else ps ++ update_first pid status qs)
  unfolding has_pid update_first
  update_first-append pid status [] qs = refl
  update_first-append pid status (p ∷ ps) qs = ground (arith, update_first-append pid status ps qs)

  mark_in_jobs_lem :
      (pid : ℤ) (status : ℕ) (js : List Job)
      → Option.map processes (mark_in_jobs w pid status js) ≡ (
          if has_pid pid (processes js)
          then some (update_first pid status (processes js))
          else none)
  unfolding mark_in_jobs processes update_first has_pid
  mark_in_jobs_lem pid status [] = refl
  mark_in_jobs_lem pid status (j ∷ js) = ground (
    arith,
    mark_in_processes_lem pid status j.first_process,
    has_pid-append pid j.first_process (processes js),
    update_first-append pid status j.first_process (processes js),
    mark_in_jobs_lem pid status js,
  )

  -- The answer and the shell after a status has been handed over.
  pub record Recorded (pid : ℤ) (status : ℕ) (sh : Shell) (b : Bool) (sh' : Shell) : Type 0 where
    pub found : b ≡ has_pid pid (processes sh.first_job)
    pub marked : processes sh'.first_job ≡ (
        if has_pid pid (processes sh.first_job)
        then update_first pid status (processes sh.first_job)
        else processes sh.first_job)
    pub modes : sh'.shell_tmodes ≡ sh.shell_tmodes
    pub group : sh'.shell_pgid ≡ sh.shell_pgid

  -- For a positive pid `mark_process_status` always returns; it says "all well" exactly if some
  -- process has that pid, and then the first such process, over all jobs in order, has the status
  -- stored and is marked as stopped if the status says so, or else as completed, and no other
  -- process changes; the shell's group and terminal modes stay.
  pub mark_process_status_lem :
      (pid : ℤ) (status errno : ℕ) (sh : Shell) (s : Script) (n : ℕ) (t : Trace)
      → is_pos pid ≡ true
      → Returns
          (λ (b, sh'). Recorded pid status sh b sh')
          (mark_process_status w pid status errno sh s n t)
  unfolding mark_process_status
  mark_process_status_lem pid status errno sh s n t h =
      ground (arith, mark_in_jobs_lem pid status sh.first_job)
