-- ===== src/Ipc/PtyShell/Descriptors.antt =====
-- The descriptors of epnewforkpt.c: the `epoll` instance, and the master and the pidfd of the
-- command that runs.
use linux_system_programming.Ipc.PtyShell.{
  Next, Shell, add_char, after_event, child_exit, clean_up, cleanup, copy_output, enter_line,
  event_loop, handle_event, handle_events, main, max_args, max_events, new_shell, next_event,
  next_test, parse_command, prompt, pty_output, run_child, run_parent, start_command, tokens_from,
  user_input,
}
use linux_system_programming.Ipc.PtyShell.Bounds.{shell_of}
use linux_system_programming.Ipc.SeqServer.{text}
use linux_system_programming.Prelude.{
  Bool, Bool-cases, List, [], arith, false, inl, inr, length, ltb, not, subst, suc, take, true,
  zero, ℕ, ◌&&◌, ◌+◌, ◌||◌, ◌∷◌, ◌≡◌,
}
use linux_system_programming.Prelude.Int.{eq_ℤ, is_minus_one, is_pos, pos, pos_part, ℤ}
use linux_system_programming.Sys.{
  IfReturns, Prog, Script, Trace, call, choose, event, fault, pure, value, when, ◌>>=◌, ◌>>◌,
}
use linux_system_programming.Sys.Calls.{epoll_wait, forkpty, read, waitpid_of, write}
use linux_system_programming.Sys.Files.{
  closed, has_child, held, held_failed, held_minus_one, opened,
}
use linux_system_programming.Sys.Rules.{IfReturns-bind, IfReturns-choose}

-- A command has been started and not been waited for.
abbrev pub running : Trace → Bool
running [] = false
running (event forkpty r ∷ t) = has_child r || running t
running (event (waitpid_of p o) r ∷ t) = false
running (event c r ∷ t) = running t

-- No command was started while another one ran.
abbrev pub alone : Trace → Bool
alone [] = true
alone (event forkpty r ∷ t) = alone t && not (has_child r && running t)
alone (event c r ∷ t) = alone t

-- The open descriptors are those that the variables hold, which are free while nothing runs.
abbrev Owns : ℕ → ℤ → Shell → Trace → Type 0
Owns x epoll_fd st t =
    alone t ≡ true
    → (opened x t ≡ closed x t + held x st.master + held x st.current_pidfd + held x epoll_fd)
      × (running t ≡ false → held x st.master + held x st.current_pidfd ≡ 0)

module _ (x : ℕ) (s : Script) (epoll_fd : ℤ) where
  copy_output-Owns :
      (fuel : ℕ) (master : ℤ) (st : Shell) (n : ℕ) (t : Trace)
      → Owns x epoll_fd st t
      → IfReturns (λ _ t'. Owns x epoll_fd st t') (copy_output fuel master s n t)
  unfolding copy_output opened closed
  copy_output-Owns zero master st n t h = tt
  copy_output-Owns (suc fuel) master st n t h =
      IfReturns-choose (λ _ t'. Owns x epoll_fd st t') (is_pos (s n).ret)
        (call (write (pos 1) (s n).bytes (pos_part (s n).ret)) >> copy_output fuel master) (pure tt)
        s (suc n) (event (read master 1024) (s n) ∷ t)
        (λ _.
          copy_output-Owns fuel master st (suc (suc n))
            (event (write (pos 1) (s n).bytes (pos_part (s n).ret)) (s (suc n))
              ∷ event (read master 1024) (s n)
              ∷ t)
            (ground arith))
        (λ _. ground arith)

  run_parent-Owns :
      (pid master : ℤ) (n : ℕ) (t : Trace)
      → (alone t ≡ true
          → (opened x t ≡ closed x t + held x master + held x epoll_fd) × (running t ≡ true))
      → IfReturns
          (λ next t'. Owns x epoll_fd (shell_of next) t')
          (run_parent epoll_fd pid master s n t)
  unfolding run_parent opened closed
  run_parent-Owns pid master n t h = ground arith

  run_child-Owns :
      (argv : List (List ℕ)) (n : ℕ) (t : Trace)
      → IfReturns (λ next t'. Owns x epoll_fd (shell_of next) t') (run_child argv s n t)
  unfolding run_child
  run_child-Owns argv n t = ground arith

  start_command-Owns :
      (st : Shell) (n : ℕ) (t : Trace)
      → Owns x epoll_fd st t
      → IfReturns (λ next t'. Owns x epoll_fd (shell_of next) t') (start_command epoll_fd st s n t)
  unfolding start_command parse_command opened closed
  start_command-Owns st n t h =
      IfReturns-bind (λ _ t'. Owns x epoll_fd st t') (λ next t'. Owns x epoll_fd (shell_of next) t')
        (parse_command (text st.cmd) s n t) _ s
        (IfReturns-choose (λ _ t'. Owns x epoll_fd st t')
          (ltb (length (tokens_from [] (text st.cmd))) max_args)
          (pure (tokens_from [] (text st.cmd))) fault s n t (λ _. h) (λ _. tt))
        λ argv n1 t1 h1. ground (
          arith,
          run_child-Owns argv (suc n1) (event forkpty (s n1) ∷ t1),
          run_parent-Owns (s n1).ret (pos (s n1).out) (suc n1) (event forkpty (s n1) ∷ t1),
        )

  user_input-Owns :
      (st : Shell) (n : ℕ) (t : Trace)
      → Owns x epoll_fd st t
      → IfReturns (λ next t'. Owns x epoll_fd (shell_of next) t') (user_input epoll_fd st s n t)
  unfolding user_input enter_line add_char prompt opened closed
  user_input-Owns st n t h =
      ground (arith, start_command-Owns st (suc n) (event (read (pos 0) 1) (s n) ∷ t))

  child_exit-Owns :
      (st : Shell) (n : ℕ) (t : Trace)
      → Owns x epoll_fd st t
      → IfReturns (λ next t'. Owns x epoll_fd (shell_of next) t') (child_exit epoll_fd st s n t)
  unfolding child_exit prompt opened closed
  child_exit-Owns st n t h = ground (arith, held_failed x st.master, held_minus_one x)

  pty_output-Owns :
      (fuel : ℕ) (fd : ℤ) (next : Next) (n : ℕ) (t : Trace)
      → Owns x epoll_fd (shell_of next) t
      → IfReturns (λ next' t'. Owns x epoll_fd (shell_of next') t') (pty_output fuel fd next s n t)
  unfolding pty_output
  pty_output-Owns fuel fd (next_event st) n t h = h
  pty_output-Owns fuel fd (cleanup st) n t h = h
  pty_output-Owns fuel fd (next_test st) n t h =
      IfReturns-bind (λ _ t'. Owns x epoll_fd st t')
        (λ next' t'. Owns x epoll_fd (shell_of next') t')
        (when (eq_ℤ fd st.master) (copy_output fuel st.master) s n t) (λ _. pure (next_event st)) s
        (IfReturns-choose (λ _ t'. Owns x epoll_fd st t') (eq_ℤ fd st.master)
          (copy_output fuel st.master >> pure tt) (pure tt) s n t
          (λ _.
            IfReturns-bind (λ _ t'. Owns x epoll_fd st t') (λ _ t'. Owns x epoll_fd st t')
              (copy_output fuel st.master s n t) (λ _. pure tt) s
              (copy_output-Owns fuel st.master st n t h) (λ _ _ _ h1. h1))
          (λ _. h))
        (λ _ _ _ h1. h1)

  handle_event-Owns :
      (fuel : ℕ) (fd : ℤ) (st : Shell) (n : ℕ) (t : Trace)
      → Owns x epoll_fd st t
      → IfReturns
          (λ next t'. Owns x epoll_fd (shell_of next) t')
          (handle_event fuel epoll_fd fd st s n t)
  unfolding handle_event
  handle_event-Owns fuel fd st n t h =
      IfReturns-choose (λ next t'. Owns x epoll_fd (shell_of next) t') (eq_ℤ fd st.current_pidfd)
        (child_exit epoll_fd st)
        (choose (eq_ℤ fd (pos 0)) (user_input epoll_fd st) (pure (next_test st))
          >>= pty_output fuel fd)
        s n t (λ _. child_exit-Owns st n t h)
        (λ _.
          IfReturns-bind (λ next t'. Owns x epoll_fd (shell_of next) t')
            (λ next t'. Owns x epoll_fd (shell_of next) t')
            (choose (eq_ℤ fd (pos 0)) (user_input epoll_fd st) (pure (next_test st)) s n t)
            (pty_output fuel fd) s
            (IfReturns-choose (λ next t'. Owns x epoll_fd (shell_of next) t') (eq_ℤ fd (pos 0))
              (user_input epoll_fd st) (pure (next_test st)) s n t (λ _. user_input-Owns st n t h)
              (λ _. h))
            (λ next n1 t1 h1. pty_output-Owns fuel fd next n1 t1 h1))

  after_event-Owns :
      (others : Shell → Prog (Shell × Bool)) (next : Next) (n : ℕ) (t : Trace)
      → Owns x epoll_fd (shell_of next) t
      → ((st : Shell) (n : ℕ) (t : Trace)
          → Owns x epoll_fd st t
          → IfReturns (λ (st', over) t'. Owns x epoll_fd st' t') (others st s n t))
      → IfReturns (λ (st', over) t'. Owns x epoll_fd st' t') (after_event others next s n t)
  unfolding after_event
  after_event-Owns others (next_event st) n t h f = f st n t h
  after_event-Owns others (next_test st) n t h f = f st n t h
  after_event-Owns others (cleanup st) n t h f = h

  handle_events-Owns :
      (fuel : ℕ) (fds : List ℕ) (st : Shell) (n : ℕ) (t : Trace)
      → Owns x epoll_fd st t
      → IfReturns
          (λ (st', over) t'. Owns x epoll_fd st' t')
          (handle_events fuel epoll_fd fds st s n t)
  unfolding handle_events
  handle_events-Owns fuel [] st n t h = h
  handle_events-Owns fuel (fd ∷ fds) st n t h =
      IfReturns-bind (λ next t'. Owns x epoll_fd (shell_of next) t')
        (λ (st', over) t'. Owns x epoll_fd st' t') (handle_event fuel epoll_fd (pos fd) st s n t)
        (after_event (handle_events fuel epoll_fd fds)) s (handle_event-Owns fuel (pos fd) st n t h)
        λ next n1 t1 h1.
          after_event-Owns (handle_events fuel epoll_fd fds) next n1 t1 h1
            (λ st' n2 t2 h2. handle_events-Owns fuel fds st' n2 t2 h2)

  clean_up-closes :
      (st : Shell) (n : ℕ) (t : Trace)
      → Owns x epoll_fd st t
      → IfReturns (λ _ t'. alone t' ≡ true → opened x t' ≡ closed x t') (clean_up epoll_fd st s n t)
  unfolding clean_up opened closed
  clean_up-closes st n t h = ground (arith, held_failed x st.master, held_failed x st.current_pidfd)

  event_loop-closes :
      (fuel : ℕ) (st : Shell) (n : ℕ) (t : Trace)
      → Owns x epoll_fd st t
      → IfReturns
          (λ _ t'. alone t' ≡ true → opened x t' ≡ closed x t')
          (event_loop fuel epoll_fd st s n t)
  unfolding event_loop opened closed
  event_loop-closes zero st n t h = tt
  event_loop-closes (suc fuel) st n t h =
      IfReturns-bind (λ (st', over) t'. Owns x epoll_fd st' t')
        (λ _ t'. alone t' ≡ true → opened x t' ≡ closed x t')
        (handle_events fuel epoll_fd (take (pos_part (s n).ret) (s n).bytes) st s (suc n)
          (event (epoll_wait epoll_fd max_events) (s n) ∷ t))
        (λ (st', over). choose over (clean_up epoll_fd st') (event_loop fuel epoll_fd st')) s
        (handle_events-Owns fuel (take (pos_part (s n).ret) (s n).bytes) st (suc n)
          (event (epoll_wait epoll_fd max_events) (s n) ∷ t) (ground arith))
        λ (st', over) n1 t1 h1.
          IfReturns-choose (λ _ t'. alone t' ≡ true → opened x t' ≡ closed x t') over
            (clean_up epoll_fd st') (event_loop fuel epoll_fd st') s n1 t1
            (λ _. clean_up-closes st' n1 t1 h1) (λ _. event_loop-closes fuel st' n1 t1 h1)

main-Owns :
    (fuel x : ℕ) (s : Script)
    → IfReturns (λ _ t'. alone t' ≡ true → opened x t' ≡ closed x t') (main fuel s 0 [])
unfolding main prompt opened closed
main-Owns fuel x s = elim (Bool-cases (is_minus_one (s 1).ret)) [
  | inl e ↦ rw e tt
  | inr e ↦
      rw e (event_loop-closes x s (s 1).ret fuel new_shell 5 _ (ground (arith, held_minus_one x)))
]

-- If epnewforkpt.c returns from `main` and no command was started while another one ran, then each
-- descriptor, that of the `epoll` instance, a master or a pidfd, was closed as often as it was
-- opened.
pub main-closes_descriptors :
    (fuel x c n : ℕ) (s : Script) (t : Trace)
    → main fuel s 0 [] ≡ value c n t
    → alone t ≡ true
    → opened x t ≡ closed x t
main-closes_descriptors fuel x c n s t e h =
    subst (IfReturns (λ _ t'. alone t' ≡ true → opened x t' ≡ closed x t')) e (main-Owns fuel x s) h
