-- ===== src/Shell/Jobs.antt =====
-- The records of minishell_glibc.c and the functions that only read or mark a job. A pointer to a
-- job is its position in `first_job`'s list.
pub mod Notify
use linux_system_programming.Prelude.{
  Bool, List, Option, String, [], drop, false, if◌then◌else◌, map, none, not, reverse, some, true,
  ℕ, ◌&&◌, ◌∷◌,
}
use linux_system_programming.Prelude.Int.{eq_ℤ, ℤ}
use linux_system_programming.Sys.{Prog, call, pure, ◌>>◌}
use linux_system_programming.Sys.Calls.{eprintf_job}

pub record Process : Type 0 where
  pub argv : List (List ℕ)
  pub pid : ℤ
  pub completed : Bool
  pub stopped : Bool
  pub status : ℕ

pub record Job : Type 0 where
  pub command : List ℕ
  pub first_process : List Process
  pub pgid : ℤ
  pub notified : Bool
  pub tmodes : ℕ
  pub stdin : ℤ
  pub stdout : ℤ
  pub stderr : ℤ

-- The global variables.
pub record Shell : Type 0 where
  pub first_job : List Job
  pub shell_pgid : ℤ
  pub shell_tmodes : ℕ
  pub shell_terminal : ℤ
  pub shell_is_interactive : Bool

unfoldable pub find_job : ℤ → List Job → Option Job
find_job pgid [] = none
find_job pgid (j ∷ js) = if eq_ℤ j.pgid pgid then some j else find_job pgid js

unfoldable pub all_stopped : List Process → Bool
all_stopped [] = true
all_stopped (p ∷ ps) = if not p.completed && not p.stopped then false else all_stopped ps

unfoldable pub job_is_stopped : Job → Bool
unfolding all_stopped
job_is_stopped j = all_stopped j.first_process

unfoldable pub all_completed : List Process → Bool
all_completed [] = true
all_completed (p ∷ ps) = if not p.completed then false else all_completed ps

unfoldable pub job_is_completed : Job → Bool
unfolding all_completed
job_is_completed j = all_completed j.first_process

unfoldable pub format_job_info : Job → String → Prog (Unit {0})
format_job_info j status = call (eprintf_job j.pgid status j.command) >> pure tt

abbrev pub resume : Process → Process
resume p = record p { stopped = false }

unfoldable pub mark_job_as_running : Job → Job
mark_job_as_running j = record j { first_process = map resume j.first_process; notified = false }

-- What the loop of `do_job_notification` reports of one job.
pub data Notice : Type 0 where
  completed_notice : Job → Notice
  stopped_notice : Job → Notice

-- The loop over the list: `kept` holds the jobs up to `jlast`, the last first. A completed job is
-- unlinked: the job before it, or `first_job`, gets its successor.
pub notify_loop : List Job → List Job → List Notice → List Job × List Notice
notify_loop kept [] out = (reverse kept, reverse out)
notify_loop kept (j ∷ js) out =
    let drop = notify_loop kept js (completed_notice j ∷ out) in
    let mark = notify_loop (record j { notified = true } ∷ kept) js (stopped_notice j ∷ out) in
    let skip = notify_loop (j ∷ kept) js out in
    if job_is_completed j then drop else if job_is_stopped j && not j.notified then mark else skip

pub do_job_notification : Shell → Shell × List Notice
do_job_notification sh =
    let (js, out) = notify_loop [] sh.first_job [] in (record sh { first_job = js }, out)

-- The reports are printed by `format_job_info`.
unfoldable pub print_notices : List Notice → Prog (Unit {0})
print_notices [] = pure tt
print_notices (completed_notice j ∷ out) = format_job_info j "completed" >> print_notices out
print_notices (stopped_notice j ∷ out) = format_job_info j "stopped" >> print_notices out
