-- ===== src/Shell/Main.antt =====
-- `main` of minishell_glibc.c.
pub mod Reaped
use linux_system_programming.Prelude.{
  List, [], false, if◌then◌else◌, length, none, some, suc, true, zero, ℕ, ◌==◌, ◌||◌, ◌∷◌,
}
use linux_system_programming.Prelude.Int.{is_zero, pos}
use linux_system_programming.Shell.Jobs.{Job, Shell, do_job_notification, print_notices}
use linux_system_programming.Shell.Launch.{launch_job}
use linux_system_programming.Shell.Line.{left_of_line, parse_args, same_text, until_newline}
use linux_system_programming.Shell.Status.{WaitMacros}
use linux_system_programming.Shell.Terminal.{init_shell}
use linux_system_programming.Sys.{Prog, call, fault, pure, starve, ◌>>=◌, ◌>>◌}
use linux_system_programming.Sys.Calls.{fflush, fgets, malloc, memset, printf}

abbrev pub exit_word : List ℕ
exit_word = 101 ∷ 120 ∷ 105 ∷ 116 ∷ []

-- `malloc` and the `memset` behind it, which faults on NULL.
unfoldable pub fresh : ℕ → Prog (Unit {0})
fresh size = do
  m ← call (malloc size)
  if is_zero m.ret then fault else call (memset m.ret 0 size) >> pure tt

unfoldable pub new_job : List (List ℕ) → List ℕ → Job
new_job argv command = record {
  command = command;
  first_process =
      record { argv = argv; pid = pos 0; completed = false; stopped = false; status = 0 } ∷ [];
  pgid = pos 0;
  notified = false;
  tmodes = 0;
  stdin = pos 0;
  stdout = pos 1;
  stderr = pos 2;
}

module _ (w : WaitMacros) (fuel : ℕ) where
  -- `launch_job (j, 1)` of the new job at the head of the list, and `do_job_notification ()`.
  unfoldable pub start_job : List (List ℕ) → List ℕ → Shell → Prog Shell
  start_job argv line sh = do
    let j = new_job argv (left_of_line line)
    sh' ← launch_job w fuel sh j sh.first_job true
    let r = do_job_notification sh'
    print_notices r.1
    pure r.0

  -- One line that is neither empty nor "exit". `argv`, like the copies that `strdup` makes, is
  -- taken to be allocated.
  unfoldable pub run_line : List ℕ → Shell → Prog Shell
  run_line line sh = do
    fresh 104
    fresh 32
    call (malloc 512)
    elim (parse_args line) [ none ↦ fault | some argv ↦ start_job argv line sh ]

  -- The loop of `main`, a round for each line read.
  unfoldable pub read_lines : ℕ → Shell → Prog ℕ
  read_lines zero sh = starve
  read_lines (suc rounds) sh = do
    call (printf "job-shell$ ")
    call fflush
    r ← call (fgets 1024)
    let line = until_newline r.bytes
    let again = read_lines rounds sh
    let next = do sh' ← run_line line sh; read_lines rounds sh'
    if is_zero r.ret || same_text line exit_word
        then pure 0
        else if length line == 0
        then again
        else next

  pub main : Prog ℕ
  main = do sh ← init_shell fuel; read_lines fuel sh
