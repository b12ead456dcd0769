-- ===== src/Ipc/Ruptimed.antt =====
-- Code/Mastering IPC and Terminals/ruptimed.c: a daemon that sends the uptime to each client. The
-- text that `snprintf` makes of a report is a parameter; of the `double` that `fscanf` reads only
-- the whole seconds matter, the reply's `out`.
pub mod Uptime
pub mod Clients
use linux_system_programming.Prelude.{List, if◌then◌else◌, suc, zero, ℕ, ◌%◌, ◌+◌, ◌/◌}
use linux_system_programming.Prelude.Int.{eq_ℤ, is_neg, is_pos, is_zero, negsuc, pos, ℤ}
use linux_system_programming.Sys.{Prog, call, choose, exit_with, pure, starve, when, ◌>>=◌, ◌>>◌}
use linux_system_programming.Sys.Calls.{
  accept, bind, chdir, close, closelog, dup, fclose, fopen, fork, fscanf, listen, open_name,
  openlog, send, setsid, setsockopt, signal, socket, syslog, umask,
}

-- `for (i = 0; i < 64; i++) close (i)`, with the rounds left.
close_all : ℕ → ℕ → Prog (Unit {0})
close_all zero i = pure tt
close_all (suc left) i = do call (close (pos i)); close_all left (i + 1)

-- The child goes on, the parent exits.
fork_on : Prog (Unit {0})
fork_on = do
  p ← call fork
  choose (is_neg p.ret) (exit_with 1) (choose (is_pos p.ret) (exit_with 0) (pure tt))

daemonize : Prog (Unit {0})
daemonize = do
  fork_on
  s ← call setsid
  choose (is_neg s.ret) (exit_with 1) (do
    call (signal 1 1)
    fork_on
    call (umask 0)
    call (chdir "/")
    close_all 64 0
    call (open_name "/dev/null" 2)
    call (dup (pos 0))
    call (dup (pos 0))
    pure tt)

-- `goto err`
unfoldable pub give_up : ℤ → Prog ℤ
give_up fd = call (close fd) >> pure (negsuc 0)

unfoldable pub initserver : Prog ℤ
unfolding give_up
initserver = do
  o ← call (socket 2 1 0)
  let fd = o.ret
  let bound = do
    call (setsockopt fd)
    b ← call (bind fd)
    let listening = do l ← call (listen fd 10); choose (is_neg l.ret) (give_up fd) (pure fd)
    choose (is_neg b.ret) (give_up fd) listening
  choose (is_neg fd) (pure (negsuc 0)) bound

-- What `get_uptime` writes into its buffer.
pub data Report : Type 0 where
  uptime : ℕ → ℕ → ℕ → Report
  open_error : ℕ → Report
  read_error : Report

-- `int days`, `hours` and `mins` of a whole number of seconds that an `int` holds.
unfoldable pub split_uptime : ℕ → Report
split_uptime secs = uptime (secs / 86400) (secs % 86400 / 3600) (secs % 3600 / 60)

unfoldable pub get_uptime : Prog Report
get_uptime = do
  f ← call (fopen "/proc/uptime")
  let scan = do
    r ← call (fscanf f.ret)
    call (fclose f.ret)
    pure (if eq_ℤ r.ret (pos 1) then split_uptime r.out else read_error)
  choose (is_zero f.ret) (pure (open_error f.errno)) scan

module _ (format : Report → List ℕ) where
  -- One accepted client.
  unfoldable pub answer : ℤ → Prog (Unit {0})
  answer fd = do
    r ← get_uptime
    n ← call (send fd (format r))
    when (is_neg n.ret) (call (syslog "send error: %s"))
    call (close fd)
    pure tt

  -- `for (;;)`, with fuel for the rounds.
  unfoldable pub serve : ℕ → ℤ → Prog (Unit {0})
  serve zero fd = starve
  serve (suc fuel) fd = do
    c ← call (accept fd)
    let failed = call (syslog "accept error: %s") >> pure tt
    choose (is_neg c.ret) failed (answer c.ret)
    serve fuel fd

  pub main : ℕ → Prog ℕ
  main fuel = do
    call (openlog "ruptimed")
    daemonize
    fd ← initserver
    choose (is_neg fd) (call (syslog "initserver failed: %s") >> exit_with 1) (do
      call (syslog "server started on port %d")
      serve fuel fd
      call (close fd)
      call closelog
      pure 0)
