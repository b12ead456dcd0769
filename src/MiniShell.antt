-- ===== src/MiniShell.antt =====
-- Code/Mastering Processes and Threads/minishell.c: a shell that runs one command at a time in the
-- foreground. The terminal is descriptor 0.
pub mod Foreground
use linux_system_programming.Prelude.{Bool, List, [], false, length, ltb, suc, true, zero, ℕ, ◌∷◌}
use linux_system_programming.Prelude.Int.{is_neg, is_zero, pos, ℤ}
use linux_system_programming.Shell.Line.{same_text, until_newline}
use linux_system_programming.Shell.Terminal.{
  await_foreground, sig_dfl, sig_ign, sigint, sigquit, sigtstp, sigttin, sigttou,
}
use linux_system_programming.Sys.{
  Prog, call, choose, exit_with, pure, replace, starve, when, ◌>>=◌, ◌>>◌,
}
use linux_system_programming.Sys.Calls.{
  execlp, fflush, fgets, fork, getpid, isatty, perror, printf, setpgid, signal, tcgetattr,
  tcsetattr, tcsetpgrp, waitpid_of,
}

-- The global variables.
pub record Globals : Type 0 where
  pub shell_pgid : ℤ
  pub shell_tmodes : ℕ
  pub shell_is_interactive : Bool

abbrev pub exit_word : List ℕ
exit_word = 101 ∷ 120 ∷ 105 ∷ 116 ∷ []

-- The five `signal` calls.
unfoldable pub signal_each : ℕ → Prog (Unit {0})
signal_each how = do
  call (signal sigint how)
  call (signal sigquit how)
  call (signal sigtstp how)
  call (signal sigttin how)
  call (signal sigttou how)
  pure tt

-- From `getpid` on.
unfoldable pub take_terminal : Prog Globals
take_terminal = do
  p ← call getpid
  c ← call (setpgid p.ret p.ret)
  let own = do
    call (tcsetpgrp (pos 0) p.ret)
    m ← call (tcgetattr (pos 0))
    pure (record { shell_pgid = p.ret; shell_tmodes = m.out; shell_is_interactive = true })
  choose (is_neg c.ret) (call (perror "Couldn't put shell in its own process group") >> exit_with 1)
      own

unfoldable pub init_shell : ℕ → Prog Globals
init_shell fuel = do
  i ← call (isatty (pos 0))
  let own = do await_foreground fuel (pos 0); signal_each sig_ign; take_terminal
  choose (is_zero i.ret)
      (pure (record { shell_pgid = pos 0; shell_tmodes = 0; shell_is_interactive = false })) own

-- The child's branch of `fork`; `execlp` comes back only when it fails. The trace of the shell has
-- the calls of the parent's branch: that the child takes the terminal beside it is in `can_own` of
-- Foreground.
unfoldable pub run_child : {A : Type 0} → List ℕ → Prog A
run_child cmd = do
  call (setpgid (pos 0) (pos 0))
  p ← call getpid
  call (tcsetpgrp (pos 0) p.ret)
  signal_each sig_dfl
  e ← call (execlp cmd)
  choose (is_neg e.ret) (call (perror "exec failed") >> exit_with 1) replace

unfoldable pub run_parent : Globals → ℤ → Prog (Unit {0})
run_parent g pid = do
  call (setpgid pid pid)
  call (tcsetpgrp (pos 0) pid)
  call (waitpid_of pid 2)
  call (tcsetpgrp (pos 0) g.shell_pgid)
  call (tcsetattr (pos 0) g.shell_tmodes)
  pure tt

unfoldable pub launch_process : Globals → List ℕ → Prog (Unit {0})
launch_process g cmd = do
  f ← call fork
  choose (is_zero f.ret) (run_child cmd)
      (choose (is_neg f.ret) (call (perror "fork failed") >> pure tt) (run_parent g f.ret))

-- `while (1)`, with fuel. `fgets` returns 0 for NULL.
unfoldable pub read_lines : ℕ → Globals → Prog (Unit {0})
read_lines zero g = starve
read_lines (suc fuel) g = do
  call (printf "mini-shell$ ")
  call fflush
  l ← call (fgets 1024)
  let line = until_newline l.bytes
  let again = read_lines fuel g
  let run = do when (ltb 0 (length line)) (launch_process g line); again
  choose (is_zero l.ret) (pure tt) (choose (same_text line exit_word) (pure tt) run)

-- `main` up to its `return`, with the globals it ends with.
unfoldable pub session : ℕ → Prog Globals
session fuel = do g ← init_shell fuel; read_lines fuel g; pure g

pub main : ℕ → Prog ℕ
main fuel = session fuel >> pure 0
