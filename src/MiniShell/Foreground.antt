-- ===== src/MiniShell/Foreground.antt =====
-- Who has the terminal while minishell.c reads a line.
use linux_system_programming.MiniShell.{
  Globals, exit_word, init_shell, launch_process, read_lines, run_child, run_parent, session,
  signal_each, take_terminal,
}
use linux_system_programming.Prelude.{
  Bool, Bool-cases, List, [], arith, false, if◌then◌else◌, inl, inr, length, ltb, not, refl, subst,
  suc, true, zero, ℕ, ◌&&◌, ◌||◌, ◌∷◌, ◌≡◌,
}
use linux_system_programming.Prelude.Int.{eq_ℤ, is_neg, is_pos, is_zero, negsuc, pos, ℤ}
use linux_system_programming.Shell.Line.{same_text, until_newline}
use linux_system_programming.Shell.Terminal.{await_foreground, sig_ign}
use linux_system_programming.Sys.{IfReturns, Script, Trace, event, value, when}
use linux_system_programming.Sys.Calls.{fork, isatty, tcsetpgrp, waitpid_of}
use linux_system_programming.Sys.Rules.{IfReturns-bind}

-- The child `x` was forked and no wait has returned it.
pub pending : ℤ → Trace → Bool
pending x [] = false
pending x (event fork r ∷ t) = (is_pos r.ret && eq_ℤ r.ret x) || pending x t
pending x (event (waitpid_of p flags) r ∷ t) = not (eq_ℤ r.ret x) && pending x t
pending x (event _ r ∷ t) = pending x t

-- The group `x` can have the terminal after the calls of the shell. A call of `tcsetpgrp` that
-- succeeds gives it to one group and one that fails changes nothing; and a child that is pending
-- can take it by the `tcsetpgrp` of `run_child` at any time; one that a wait has returned is past
-- that call. Before the first call any group can have it.
pub can_own : ℤ → Trace → Bool
can_own x [] = true
can_own x (event (tcsetpgrp d g) r ∷ t) =
    (if is_neg r.ret then can_own x t else eq_ℤ g x) || pending x t
can_own x (event fork r ∷ t) = (is_pos r.ret && eq_ℤ r.ret x) || can_own x t
can_own x (event _ r ∷ t) = can_own x t

-- No `tcsetpgrp` of the shell failed, and each wait returned the child that it was for.
unfoldable pub all_well : Trace → Bool
all_well [] = true
all_well (event (tcsetpgrp d g) r ∷ t) = not (is_neg r.ret) && all_well t
all_well (event (waitpid_of p flags) r ∷ t) = eq_ℤ r.ret p && all_well t
all_well (event _ r ∷ t) = all_well t

eq_ℤ-true : (a b : ℤ) → eq_ℤ a b ≡ true → a ≡ b
eq_ℤ-true (pos a) (pos b) h = ground arith
eq_ℤ-true (pos a) (negsuc b) h = absurd (ground arith)
eq_ℤ-true (negsuc a) (pos b) h = absurd (ground arith)
eq_ℤ-true (negsuc a) (negsuc b) h = ground arith

same_owner : Bool → Bool → Bool
same_owner true b = b
same_owner false b = not b

module _ (s : Script) (x : ℤ) where
  -- If all went well, no child is left, and the shell's group is the one that can have the terminal.
  owned : Globals → Trace → Bool
  owned g t =
      not (all_well t) || (not (pending x t) && same_owner (can_own x t) (eq_ℤ g.shell_pgid x))

  launch_process-owner :
      (g : Globals) (cmd : List ℕ) (n : ℕ) (t : Trace)
      → owned g t ≡ true
      → IfReturns (λ _ t'. owned g t' ≡ true) (launch_process g cmd s n t)
  unfolding launch_process run_child run_parent signal_each owned all_well pending can_own
      same_owner
  launch_process-owner g cmd n t h = ground (arith, eq_ℤ-true (s (suc (suc (suc n)))).ret (s n).ret)

  launch-owner :
      (g : Globals) (cmd : List ℕ) (b : Bool) (n : ℕ) (t : Trace)
      → owned g t ≡ true
      → IfReturns (λ _ t'. owned g t' ≡ true) (when b (launch_process g cmd) s n t)
  launch-owner g cmd true n t h =
      IfReturns-bind (λ _ t'. owned g t' ≡ true) (λ _ t'. owned g t' ≡ true)
        (launch_process g cmd s n t) _ s (launch_process-owner g cmd n t h) λ _ _ _ p. p
  launch-owner g cmd false n t h = h

  read_lines-owner :
      (fuel : ℕ) (g : Globals) (n : ℕ) (t : Trace)
      → owned g t ≡ true
      → IfReturns (λ _ t'. owned g t' ≡ true) (read_lines fuel g s n t)
  unfolding read_lines owned all_well pending can_own
  read_lines-owner zero g n t h = tt
  read_lines-owner (suc fuel) g n t h =
      let line : List ℕ = until_newline (s (suc (suc n))).bytes in
      elim (Bool-cases (is_zero (s (suc (suc n))).ret)) [
        | inl e ↦ rw e h
        | inr e ↦ rw e (elim (Bool-cases (same_text line exit_word)) [
          | inl e2 ↦ rw e2 h
          | inr e2 ↦ rw e2 (
              IfReturns-bind (λ _ t'. owned g t' ≡ true) (λ _ t'. owned g t' ≡ true) _ _ s
                (launch-owner g line (ltb 0 (length line)) (suc (suc (suc n))) _ h)
                λ _ n2 t2 h2. read_lines-owner fuel g n2 t2 h2)
        ])
      ]

  await_foreground-none :
      (fuel n : ℕ) (t : Trace)
      → pending x t ≡ false
      → IfReturns (λ _ t'. pending x t' ≡ false) (await_foreground fuel (pos 0) s n t)
  unfolding await_foreground pending
  await_foreground-none zero n t h = tt
  await_foreground-none (suc fuel) n t h = elim (Bool-cases (eq_ℤ (s n).ret (s (suc n)).ret)) [
    | inl e ↦ rw e h
    | inr e ↦ rw e (await_foreground-none fuel (suc (suc (suc n))) _ h)
  ]

  signal_each-none :
      (how n : ℕ) (t : Trace)
      → pending x t ≡ false
      → IfReturns (λ _ t'. pending x t' ≡ false) (signal_each how s n t)
  unfolding signal_each pending
  signal_each-none how n t h = h

  take_terminal-owner :
      (n : ℕ) (t : Trace)
      → pending x t ≡ false
      → IfReturns (λ g t'. owned g t' ≡ true) (take_terminal s n t)
  unfolding take_terminal owned all_well pending can_own same_owner
  take_terminal-owner n t h = ground arith

  init_shell-owner :
      (fuel n : ℕ) (t : Trace)
      → is_zero (s n).ret ≡ false
      → pending x t ≡ false
      → IfReturns (λ g t'. owned g t' ≡ true) (init_shell fuel s n t)
  unfolding init_shell pending
  init_shell-owner fuel n t e h =
      let P : Globals → Trace → Type 0 = λ g t'. owned g t' ≡ true in
      let t1 : Trace = event (isatty (pos 0)) (s n) ∷ t in
      rw e (
        IfReturns-bind (λ _ t'. pending x t' ≡ false) P (await_foreground fuel (pos 0) s (suc n) t1)
          _ s (await_foreground-none fuel (suc n) t1 h)
          λ _ n2 t2 h2.
            IfReturns-bind (λ _ t'. pending x t' ≡ false) P (signal_each sig_ign s n2 t2) _ s
              (signal_each-none sig_ign n2 t2 h2) λ _ n3 t3 h3. take_terminal-owner n3 t3 h3)

  session-owned :
      (fuel : ℕ)
      → is_zero (s 0).ret ≡ false
      → IfReturns (λ g t'. owned g t' ≡ true) (session fuel s 0 [])
  unfolding session pending
  session-owned fuel e =
      let P : Globals → Trace → Type 0 = λ g t'. owned g t' ≡ true in
      IfReturns-bind P P (init_shell fuel s 0 []) _ s (init_shell-owner fuel 0 [] e refl) λ g n t h.
        IfReturns-bind (λ _ t'. owned g t' ≡ true) P (read_lines fuel g s n t) _ s
          (read_lines-owner fuel g n t h) λ _ _ _ p. p

  owned-can_own :
      (g : Globals) (t : Trace)
      → owned g t ≡ true
      → all_well t ≡ true
      → can_own x t ≡ eq_ℤ g.shell_pgid x
  unfolding owned same_owner
  owned-can_own g t h w = ground arith

-- If the input is a terminal, and minishell.c stops reading lines after any number of commands,
-- then, if each wait returned its child and no `tcsetpgrp` of the shell failed, the shell's group is
-- the one group that can have the terminal: whenever a child took it, between its fork and the wait
-- that returned it, the shell has it back.
pub session-owner :
    (s : Script) (fuel : ℕ) (x : ℤ) (g : Globals) (n : ℕ) (t : Trace)
    → is_zero (s 0).ret ≡ false
    → session fuel s 0 [] ≡ value g n t
    → all_well t ≡ true
    → can_own x t ≡ eq_ℤ g.shell_pgid x
session-owner s fuel x g n t e h well =
    owned-can_own s x g t
      (subst (IfReturns λ g' t'. owned s x g' t' ≡ true) h (session-owned s x fuel e)) well
