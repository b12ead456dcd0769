-- ===== src/Ipc/PtyShell/Bounds.antt =====
-- The two buffers of epnewforkpt.c: `cmd_buf`, and the `argv` of parse_command.
use linux_system_programming.Ipc.PtyShell.{
  Next, Shell, add_char, after_event, child_exit, clean_up, cleanup, copy_output, cut_from,
  enter_line, event_loop, handle_event, handle_events, main, max_events, new_shell, next_event,
  next_test, parse_command, prompt, pty_output, run_child, run_parent, start_command, tokens_from,
  user_input,
}
use linux_system_programming.Ipc.SeqServer.{text}
use linux_system_programming.Prelude.{
  Bool, Bool-cases, List, [], arith, false, get_or, inl, inr, length, length-append, refl, suc,
  take, true, zero, ℕ, ◌*◌, ◌++◌, ◌+◌, ◌∷◌, ◌≡◌, ◌≤◌,
}
use linux_system_programming.Prelude.Int.{eq_ℤ, is_minus_one, pos, pos_part, ℤ}
use linux_system_programming.Shell.Line.Words.{length-emit, slack, slack-append}
use linux_system_programming.Sys.{
  Prog, Script, Sound, Trace, choose, event, pure, when, ◌>>=◌, ◌>>◌,
}
use linux_system_programming.Sys.Calls.{epoll_wait, forkpty, read, write}
use linux_system_programming.Sys.Rules.{Sound-bind, Sound-choose}

abbrev pub shell_of : Next → Shell
shell_of (next_event st) = st
shell_of (next_test st) = st
shell_of (cleanup st) = st

abbrev Short : Shell → Type 0
Short st = length st.cmd ≤ 63

-- Two tokens have a separator between them.
length-tokens_from :
    (input word : List ℕ) → 2 * length (tokens_from word input) ≤ length input + slack word
unfolding tokens_from
length-tokens_from [] word = ground (arith, length-emit word [])
length-tokens_from (c ∷ cs) word = ground (
  arith,
  length-emit word (tokens_from [] cs),
  length-tokens_from cs [],
  length-tokens_from cs (word ++ c ∷ []),
  slack-append word c,
)

length-text : (cs : List ℕ) → length (text cs) ≤ length cs
unfolding text
length-text [] = omega arith
length-text (c ∷ cs) = ground (arith, length-text cs)

length-cut_from : (in_word : Bool) (cs : List ℕ) → length (cut_from in_word cs) ≡ length cs
unfolding cut_from
length-cut_from in_word [] = refl
length-cut_from in_word (c ∷ cs) = ground (arith, length-cut_from true cs, length-cut_from false cs)

module _ (s : Script) where
  parse_command-Sound :
      (input : List ℕ) (n : ℕ) (t : Trace)
      → length input ≤ 63
      → Sound (λ _. Unit {0}) (parse_command input s n t)
  unfolding parse_command
  parse_command-Sound input n t h = ground (arith, length-tokens_from input [])

  run_child-Sound :
      (argv : List (List ℕ)) (n : ℕ) (t : Trace)
      → Sound (λ next. Short (shell_of next)) (run_child argv s n t)
  unfolding run_child
  run_child-Sound argv n t = ground arith

  run_parent-Sound :
      (epoll_fd pid master : ℤ) (n : ℕ) (t : Trace)
      → Sound (λ next. Short (shell_of next)) (run_parent epoll_fd pid master s n t)
  unfolding run_parent
  run_parent-Sound epoll_fd pid master n t = ground arith

  start_command-Sound :
      (epoll_fd : ℤ) (st : Shell) (n : ℕ) (t : Trace)
      → Short st
      → Sound (λ next. Short (shell_of next)) (start_command epoll_fd st s n t)
  unfolding start_command
  start_command-Sound epoll_fd st n t h =
      Sound-bind (λ _. Unit {0}) (λ next. Short (shell_of next)) (parse_command (text st.cmd) s n t)
        _ s (parse_command-Sound (text st.cmd) n t (omega (arith, length-text st.cmd)))
        λ argv n1 t1 _. ground (
          arith,
          length-cut_from false st.cmd,
          run_child-Sound argv (suc n1) (event forkpty (s n1) ∷ t1),
          run_parent-Sound epoll_fd (s n1).ret (pos (s n1).out) (suc n1)
              (event forkpty (s n1) ∷ t1),
        )

  user_input-Sound :
      (epoll_fd : ℤ) (st : Shell) (n : ℕ) (t : Trace)
      → Short st
      → Sound (λ next. Short (shell_of next)) (user_input epoll_fd st s n t)
  unfolding user_input enter_line add_char prompt
  user_input-Sound epoll_fd st n t h = ground (
    arith,
    start_command-Sound epoll_fd st (suc n) (event (read (pos 0) 1) (s n) ∷ t),
    length-append st.cmd (get_or (s n).bytes 0 0 ∷ []),
  )

  copy_output-Sound :
      (fuel : ℕ) (master : ℤ) (n : ℕ) (t : Trace)
      → Sound (λ _. Unit {0}) (copy_output fuel master s n t)
  unfolding copy_output
  copy_output-Sound zero master n t = tt
  copy_output-Sound (suc fuel) master n t = ground (
    arith,
    copy_output-Sound fuel master (suc (suc n)) (
        event (write (pos 1) (s n).bytes (pos_part (s n).ret)) (s (suc n))
        ∷ event (read master 1024) (s n)
        ∷ t),
  )

  child_exit-Sound :
      (epoll_fd : ℤ) (st : Shell) (n : ℕ) (t : Trace)
      → Short st
      → Sound (λ next. Short (shell_of next)) (child_exit epoll_fd st s n t)
  unfolding child_exit prompt
  child_exit-Sound epoll_fd st n t h = ground arith

  pty_output-Sound :
      (fuel : ℕ) (fd : ℤ) (next : Next) (n : ℕ) (t : Trace)
      → Short (shell_of next)
      → Sound (λ next'. Short (shell_of next')) (pty_output fuel fd next s n t)
  unfolding pty_output
  pty_output-Sound fuel fd (next_event st) n t h = h
  pty_output-Sound fuel fd (cleanup st) n t h = h
  pty_output-Sound fuel fd (next_test st) n t h =
      Sound-bind (λ _. Unit {0}) (λ next'. Short (shell_of next'))
        (when (eq_ℤ fd st.master) (copy_output fuel st.master) s n t) (λ _. pure (next_event st)) s
        (Sound-choose (λ _. Unit {0}) (eq_ℤ fd st.master) (copy_output fuel st.master >> pure tt)
          (pure tt) s n t
          (λ _.
            Sound-bind (λ _. Unit {0}) (λ _. Unit {0}) (copy_output fuel st.master s n t)
              (λ _. pure tt) s (copy_output-Sound fuel st.master n t) (λ _ _ _ _. tt))
          (λ _. tt))
        (λ _ _ _ _. h)

  handle_event-Sound :
      (fuel : ℕ) (epoll_fd fd : ℤ) (st : Shell) (n : ℕ) (t : Trace)
      → Short st
      → Sound (λ next. Short (shell_of next)) (handle_event fuel epoll_fd fd st s n t)
  unfolding handle_event
  handle_event-Sound fuel epoll_fd fd st n t h =
      Sound-choose (λ next. Short (shell_of next)) (eq_ℤ fd st.current_pidfd)
        (child_exit epoll_fd st)
        (choose (eq_ℤ fd (pos 0)) (user_input epoll_fd st) (pure (next_test st))
          >>= pty_output fuel fd)
        s n t (λ _. child_exit-Sound epoll_fd st n t h)
        (λ _.
          Sound-bind (λ next. Short (shell_of next)) (λ next. Short (shell_of next))
            (choose (eq_ℤ fd (pos 0)) (user_input epoll_fd st) (pure (next_test st)) s n t)
            (pty_output fuel fd) s
            (Sound-choose (λ next. Short (shell_of next)) (eq_ℤ fd (pos 0)) (user_input epoll_fd st)
              (pure (next_test st)) s n t (λ _. user_input-Sound epoll_fd st n t h) (λ _. h))
            (λ next n1 t1 h1. pty_output-Sound fuel fd next n1 t1 h1))

  after_event-Sound :
      (others : Shell → Prog (Shell × Bool)) (next : Next) (n : ℕ) (t : Trace)
      → Short (shell_of next)
      → ((st : Shell) (n : ℕ) (t : Trace)
          → Short st
          → Sound (λ (st', over). Short st') (others st s n t))
      → Sound (λ (st', over). Short st') (after_event others next s n t)
  unfolding after_event
  after_event-Sound others (next_event st) n t h f = f st n t h
  after_event-Sound others (next_test st) n t h f = f st n t h
  after_event-Sound others (cleanup st) n t h f = h

  handle_events-Sound :
      (fuel : ℕ) (epoll_fd : ℤ) (fds : List ℕ) (st : Shell) (n : ℕ) (t : Trace)
      → Short st
      → Sound (λ (st', over). Short st') (handle_events fuel epoll_fd fds st s n t)
  unfolding handle_events
  handle_events-Sound fuel epoll_fd [] st n t h = h
  handle_events-Sound fuel epoll_fd (fd ∷ fds) st n t h =
      Sound-bind (λ next. Short (shell_of next)) (λ (st', over). Short st')
        (handle_event fuel epoll_fd (pos fd) st s n t)
        (after_event (handle_events fuel epoll_fd fds)) s
        (handle_event-Sound fuel epoll_fd (pos fd) st n t h)
        λ next n1 t1 h1.
          after_event-Sound (handle_events fuel epoll_fd fds) next n1 t1 h1
            (λ st' n2 t2 h2. handle_events-Sound fuel epoll_fd fds st' n2 t2 h2)

  event_loop-Sound :
      (fuel : ℕ) (epoll_fd : ℤ) (st : Shell) (n : ℕ) (t : Trace)
      → Short st
      → Sound (λ _. Unit {0}) (event_loop fuel epoll_fd st s n t)
  unfolding event_loop clean_up
  event_loop-Sound zero epoll_fd st n t h = tt
  event_loop-Sound (suc fuel) epoll_fd st n t h =
      Sound-bind (λ (st', over). Short st') (λ _. Unit {0})
        (handle_events fuel epoll_fd (take (pos_part (s n).ret) (s n).bytes) st s (suc n)
          (event (epoll_wait epoll_fd max_events) (s n) ∷ t))
        (λ (st', over). choose over (clean_up epoll_fd st') (event_loop fuel epoll_fd st')) s
        (handle_events-Sound fuel epoll_fd (take (pos_part (s n).ret) (s n).bytes) st (suc n)
          (event (epoll_wait epoll_fd max_events) (s n) ∷ t) h)
        λ (st', over) n1 t1 h1.
          Sound-choose (λ _. Unit {0}) over (clean_up epoll_fd st') (event_loop fuel epoll_fd st') s
            n1 t1 (λ _. ground arith) (λ _. event_loop-Sound fuel epoll_fd st' n1 t1 h1)

-- Whatever is typed, and however the calls are answered, epnewforkpt.c never writes past the end of
-- `cmd_buf`, and `parse_command` never past the end of its `argv`.
pub main-fits : (fuel : ℕ) (s : Script) → Sound (λ _. Unit {0}) (main fuel s 0 [])
unfolding main prompt
main-fits fuel s = elim (Bool-cases (is_minus_one (s 1).ret)) [
  | inl e ↦ rw e tt
  | inr e ↦ rw e (event_loop-Sound s fuel (s 1).ret new_shell 5 _ (omega arith))
]
