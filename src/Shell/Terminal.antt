-- ===== src/Shell/Terminal.antt =====
-- The foreground and the background of minishell_glibc.c: `put_job_in_foreground`,
-- `put_job_in_background`, `continue_job` and `init_shell`. A job that is passed as a pointer is
-- the position in the list; out of the list nothing is done.
use linux_system_programming.Prelude.{
  Bool, List, [], false, if◌then◌else◌, set, suc, true, zero, ℕ, ◌∷◌,
}
use linux_system_programming.Prelude.Int.{eq_ℤ, is_neg, is_zero, pos, ℤ, ◌-ℤ◌}
use linux_system_programming.Shell.Jobs.{Job, Shell, mark_job_as_running}
use linux_system_programming.Shell.Status.{WaitMacros, wait_for_job}
use linux_system_programming.Sys.{Prog, call, exit_with, pure, starve, when, ◌>>=◌, ◌>>◌}
use linux_system_programming.Sys.Calls.{
  getpgrp, getpid, isatty, kill, perror, setpgid, signal, tcgetattr, tcgetpgrp, tcsetattr,
  tcsetpgrp,
}

abbrev pub sigint : ℕ
sigint = 2

abbrev pub sigquit : ℕ
sigquit = 3

abbrev pub sigchld : ℕ
sigchld = 17

abbrev pub sigcont : ℕ
sigcont = 18

abbrev pub sigtstp : ℕ
sigtstp = 20

abbrev pub sigttin : ℕ
sigttin = 21

abbrev pub sigttou : ℕ
sigttou = 22

-- SIG_DFL and SIG_IGN, and `tcsetattr` with TCSADRAIN
abbrev pub sig_dfl : ℕ
sig_dfl = 0

abbrev pub sig_ign : ℕ
sig_ign = 1

abbrev pub neg_ℤ : ℤ → ℤ
neg_ℤ a = pos 0 -ℤ a

-- `if (kill (- j->pgid, SIGCONT) < 0) perror (…)`
wake : Job → Prog (Unit {0})
wake j = do
  r ← call (kill (neg_ℤ j.pgid) sigcont)
  when (is_neg r.ret) (call (perror "kill (SIGCONT)"))

abbrev pub save_modes : ℕ → ℕ → List Job → List Job
save_modes i m [] = []
save_modes zero m (j ∷ js) = record j { tmodes = m } ∷ js
save_modes (suc i) m (j ∷ js) = j ∷ save_modes i m js

module _ (w : WaitMacros) (fuel : ℕ) where
  -- From the wait to the end; the job's saved modes are what `tcgetattr` stores.
  unfoldable pub come_back : ℕ → Shell → Prog Shell
  come_back i sh = do
    sh' ← wait_for_job w fuel i sh
    call (tcsetpgrp sh'.shell_terminal sh'.shell_pgid)
    m ← call (tcgetattr sh'.shell_terminal)
    call (tcsetattr sh'.shell_terminal sh'.shell_tmodes)
    pure (record sh' { first_job = save_modes i m.out sh'.first_job })

  unfoldable pub put_job_in_foreground : ℕ → Job → Bool → Shell → Prog Shell
  unfolding wake
  put_job_in_foreground i j cont sh = do
    call (tcsetpgrp sh.shell_terminal j.pgid)
    when cont (call (tcsetattr sh.shell_terminal j.tmodes) >> wake j)
    come_back i sh

  pub put_job_in_background : Job → Bool → Shell → Prog Shell
  unfolding wake
  put_job_in_background j cont sh = do when cont (wake j); pure sh

  -- Nothing calls it.
  pub continue_job : ℕ → Job → Bool → Shell → Prog Shell
  continue_job i j foreground sh =
      let j' = mark_job_as_running j in
      let sh' = record sh { first_job = set sh.first_job i j' } in
      if foreground then put_job_in_foreground i j' true sh' else put_job_in_background j' true sh'

-- The loop until the shell's group is the terminal's: the last `getpgrp` is the shell's group.
unfoldable pub await_foreground : ℕ → ℤ → Prog ℤ
await_foreground zero terminal = starve
await_foreground (suc fuel) terminal = do
  a ← call (tcgetpgrp terminal)
  b ← call getpgrp
  let again = await_foreground fuel terminal
  if eq_ℤ a.ret b.ret then pure b.ret else call (kill (neg_ℤ b.ret) sigttin) >> again

abbrev pub signal_all : ℕ → Prog (Unit {0})
signal_all how = do
  call (signal sigint how)
  call (signal sigquit how)
  call (signal sigtstp how)
  call (signal sigttin how)
  call (signal sigttou how)
  call (signal sigchld how)
  pure tt

-- The globals after start-up; `first_job` is NULL, and the terminal is descriptor 0.
abbrev pub shell : ℤ → ℕ → Bool → Shell
shell pgid modes interactive = record {
  first_job = [];
  shell_pgid = pgid;
  shell_tmodes = modes;
  shell_terminal = pos 0;
  shell_is_interactive = interactive;
}

own_terminal : ℤ → Prog Shell
own_terminal pid = do
  call (tcsetpgrp (pos 0) pid)
  m ← call (tcgetattr (pos 0))
  pure (shell pid m.out true)

-- `fuel` bounds the rounds of the first loop.
pub init_shell : ℕ → Prog Shell
init_shell fuel = do
  i ← call (isatty (pos 0))
  if is_zero i.ret then pure (shell (pos 0) 0 false) else do
    g ← await_foreground fuel (pos 0)
    signal_all sig_ign
    p ← call getpid
    c ← call (setpgid p.ret p.ret)
    if is_neg c.ret
        then call (perror "Couldn't put the shell in its own process group") >> exit_with 1
        else own_terminal p.ret
