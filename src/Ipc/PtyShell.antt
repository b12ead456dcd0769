-- ===== src/Ipc/PtyShell.antt =====
-- Code/Mastering IPC and Terminals/epnewforkpt.c and what it uses of epollnewpt.h: a shell whose
-- commands run on a pseudoterminal, driven by `epoll`. The descriptors of the events that
-- `epoll_wait` stores are the bytes of its reply; `forkpty` stores the master.
pub mod Bounds
pub mod Descriptors
pub mod Pair
use linux_system_programming.Ipc.SeqServer.{ended, text}
use linux_system_programming.Prelude.{
  Bool, List, String, [], false, get_or, if◌then◌else◌, length, ltb, not, suc, take, true, zero, ℕ,
  ◌++◌, ◌-◌, ◌==◌, ◌||◌, ◌∷◌,
}
use linux_system_programming.Prelude.Int.{
  eq_ℤ, is_minus_one, is_pos, is_zero, negsuc, pos, pos_part, ℤ,
}
use linux_system_programming.Shell.Line.{emit, same_text}
use linux_system_programming.Sys.{
  Prog, call, choose, exit_with, fault, pure, replace, starve, when, ◌>>=◌, ◌>>◌,
}
use linux_system_programming.Sys.Calls.{
  close, epoll_create1, epoll_ctl, epoll_wait, execvp, fcntl, fflush, forkpty, perror, pidfd_open,
  printf, read, waitpid_of, write,
}

-- MAX_CMD, MAX_ARGS and MAX_EVENTS
abbrev pub max_cmd : ℕ
max_cmd = 64

abbrev pub max_args : ℕ
max_args = 64

abbrev pub max_events : ℕ
max_events = 15

abbrev pub no_descriptor : ℤ
no_descriptor = negsuc 0

-- `cmd_buf` up to `cmd_ptr`, and the variables of the loop.
pub record Shell : Type 0 where
  pub cmd : List ℕ
  pub master : ℤ
  pub current_pidfd : ℤ
  pub current_pid : ℤ

-- A space or a newline.
abbrev pub separates : ℕ → Bool
separates c = (c == 32) || (c == 10)

-- The tokens of `strtok (input, " \n")`; `word` is the token being read.
unfoldable pub tokens_from : List ℕ → List ℕ → List (List ℕ)
unfolding emit
tokens_from word [] = emit word []
tokens_from word (c ∷ cs) =
    let ended = emit word (tokens_from [] cs) in
    let longer = tokens_from (word ++ c ∷ []) cs in if separates c then ended else longer

-- The buffer that `strtok` leaves: the separator that ends a token is 0. `in_word` says that a
-- token is being read.
unfoldable pub cut_from : Bool → List ℕ → List ℕ
cut_from in_word [] = []
cut_from in_word (c ∷ cs) =
    let outside = cut_from false cs in
    let inside = cut_from true cs in
    if c == 0
    then c ∷ cs
    else if separates c
    then (if in_word then 0 else c) ∷ outside
    else c ∷ inside

-- A store at or past `argv[max_args]` is a fault.
unfoldable pub parse_command : List ℕ → Prog (List (List ℕ))
parse_command input =
    choose (ltb (length (tokens_from [] input)) max_args) (pure (tokens_from [] input)) fault

-- How an event ends: `continue`, the next test, or `goto cleanup`.
pub data Next : Type 0 where
  next_event : Shell → Next
  next_test : Shell → Next
  cleanup : Shell → Next

unfoldable pub prompt : String → Prog (Unit {0})
prompt what = do call (printf what); call fflush; pure tt

-- The child has exited. EPOLL_CTL_DEL is 2.
unfoldable pub child_exit : ℤ → Shell → Prog Next
child_exit epoll_fd st = do
  call (waitpid_of st.current_pid 0)
  call (epoll_ctl epoll_fd 2 st.current_pidfd)
  call (close st.current_pidfd)
  let stop = do call (epoll_ctl epoll_fd 2 st.master); call (close st.master)
  when (not (is_minus_one st.master)) stop
  prompt "\n> "
  pure (
      next_event (record st {
        master = no_descriptor;
        current_pidfd = no_descriptor;
        current_pid = no_descriptor;
      }))

-- `execvp` comes back only when it fails.
unfoldable pub run_child : List (List ℕ) → Prog Next
run_child argv = do
  e ← call (execvp argv)
  let failed_exec = do call (perror "execvp"); exit_with 1
  choose (is_minus_one e.ret) failed_exec replace

-- F_SETFL is 4, O_NONBLOCK 2048 and EPOLL_CTL_ADD 1.
unfoldable pub run_parent : ℤ → ℤ → ℤ → Prog Next
run_parent epoll_fd pid master = do
  call (fcntl master 4 2048)
  call (epoll_ctl epoll_fd 1 master)
  p ← call (pidfd_open pid)
  let watched = do
    call (epoll_ctl epoll_fd 1 p.ret)
    pure
        (next_test (record { cmd = []; master = master; current_pidfd = p.ret; current_pid = pid }))
  choose (is_minus_one p.ret) (call (perror "pidfd_open") >> exit_with 1) watched

unfoldable pub start_command : ℤ → Shell → Prog Next
start_command epoll_fd st = do
  argv ← parse_command (text st.cmd)
  f ← call forkpty
  let no_pty = do
    call (perror "forkpty")
    pure (next_event (record st { cmd = cut_from false st.cmd }))
  choose (is_minus_one f.ret) no_pty
      (choose (is_zero f.ret) (run_child argv) (run_parent epoll_fd f.ret (pos f.out)))

-- "exit"
abbrev pub exit_word : List ℕ
exit_word = 101 ∷ 120 ∷ 105 ∷ 116 ∷ []

-- A store at or past `cmd_buf[max_cmd]` is a fault.
unfoldable pub enter_line : ℤ → Shell → Prog Next
enter_line epoll_fd st = choose (not (ltb (length st.cmd) max_cmd)) fault (
    choose (length st.cmd == 0) (prompt "> " >> pure (next_event st))
      (choose (same_text (text st.cmd) exit_word) (pure (cleanup st)) (start_command epoll_fd st)))

unfoldable pub add_char : Shell → ℕ → Prog Next
add_char st c =
    choose (ltb (length st.cmd) (max_cmd - 1))
      (choose (ltb (length st.cmd) max_cmd)
        (pure (next_test (record st { cmd = st.cmd ++ c ∷ [] }))) fault)
      (pure (next_test st))

unfoldable pub user_input : ℤ → Shell → Prog Next
user_input epoll_fd st = do
  r ← call (read (pos 0) 1)
  let c = get_or r.bytes 0 0
  choose (not (is_pos r.ret)) (pure (next_event st))
      (choose (c == 10) (enter_line epoll_fd st) (add_char st c))

-- `while (1)` over the output of the pseudoterminal, with fuel.
unfoldable pub copy_output : ℕ → ℤ → Prog (Unit {0})
copy_output zero master = starve
copy_output (suc fuel) master = do
  r ← call (read master 1024)
  let again = do call (write (pos 1) r.bytes (pos_part r.ret)); copy_output fuel master
  choose (is_pos r.ret) again (pure tt)

-- The last test of an event.
unfoldable pub pty_output : ℕ → ℤ → Next → Prog Next
pty_output fuel fd (next_test st) = do
  when (eq_ℤ fd st.master) (copy_output fuel st.master)
  pure (next_event st)
pty_output fuel fd next = pure next

unfoldable pub handle_event : ℕ → ℤ → ℤ → Shell → Prog Next
handle_event fuel epoll_fd fd st = do
  let rest = do
    next ← choose (eq_ℤ fd (pos 0)) (user_input epoll_fd st) (pure (next_test st))
    pty_output fuel fd next
  choose (eq_ℤ fd st.current_pidfd) (child_exit epoll_fd st) rest

unfoldable pub clean_up : ℤ → Shell → Prog ℕ
clean_up epoll_fd st = do
  when (not (is_minus_one st.master)) (call (close st.master))
  when (not (is_minus_one st.current_pidfd)) (call (close st.current_pidfd))
  call (close epoll_fd)
  pure 0

-- What follows an event, given the events after it; and whether `cleanup` was reached.
unfoldable pub after_event : (Shell → Prog (Shell × Bool)) → Next → Prog (Shell × Bool)
after_event others (next_event st) = others st
after_event others (next_test st) = others st
after_event others (cleanup st) = pure (st, true)

-- The events of a round in order.
unfoldable pub handle_events : ℕ → ℤ → List ℕ → Shell → Prog (Shell × Bool)
handle_events fuel epoll_fd [] st = pure (st, false)
handle_events fuel epoll_fd (fd ∷ fds) st = do
  next ← handle_event fuel epoll_fd (pos fd) st
  after_event (handle_events fuel epoll_fd fds) next

-- `while (1)`, with fuel.
unfoldable pub event_loop : ℕ → ℤ → Shell → Prog ℕ
event_loop zero epoll_fd st = starve
event_loop (suc fuel) epoll_fd st = do
  w ← call (epoll_wait epoll_fd max_events)
  (st', over) ← handle_events fuel epoll_fd (take (pos_part w.ret) w.bytes) st
  let again = event_loop fuel epoll_fd st'
  choose over (clean_up epoll_fd st') again

abbrev pub new_shell : Shell
new_shell = record {
  cmd = [];
  master = no_descriptor;
  current_pidfd = no_descriptor;
  current_pid = no_descriptor;
}

unfoldable pub main : ℕ → Prog ℕ
main fuel = do
  call (fcntl (pos 0) 4 2048)
  e ← call epoll_create1
  let begin = do
    call (epoll_ctl e.ret 1 (pos 0))
    prompt "PTY-Shell (forkpty) Ready.\n> "
    event_loop fuel e.ret new_shell
  choose (is_minus_one e.ret) (call (perror "epoll_create1") >> exit_with 1) begin
