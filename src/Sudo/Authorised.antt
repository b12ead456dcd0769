-- ===== src/Sudo/Authorised.antt =====
-- When minisudo.c runs the command.
use linux_system_programming.Login.{end_failed}
use linux_system_programming.Login.Authorised.{is_acct_mgmt, is_authenticate, passed}
use linux_system_programming.Prelude.{
  Bool-cases, List, [], arith, inl, inr, refl, suc, true, ℕ, ◌∷◌, ◌≡◌,
}
use linux_system_programming.Prelude.Int.{is_neg, is_pos, is_zero}
use linux_system_programming.Sudo.{
  authenticate, clean_up, establish, fork_and_wait, main, run_command,
}
use linux_system_programming.Sys.{Script, Throughout, Trace, event}
use linux_system_programming.Sys.Calls.{execvp, setuid}

-- Each command of the run was started after PAM had accepted the user and after the `setuid` to
-- root was made.
abbrev pub RootRun : Trace → Type 0
RootRun [] = Unit
RootRun (event (execvp args) r ∷ event (setuid u) q ∷ t) =
    (u ≡ 0) × (passed is_authenticate t ≡ true) × (passed is_acct_mgmt t ≡ true) × RootRun t
RootRun (event (execvp args) r ∷ t) = ⊥
RootRun (event _ r ∷ t) = RootRun t

run_command-RootRun :
    (A : Type 0) (args : List (List ℕ)) (s : Script) (n : ℕ) (t : Trace)
    → passed is_authenticate t ≡ true
    → passed is_acct_mgmt t ≡ true
    → RootRun t
    → Throughout RootRun (run_command {A = A} args s n t)
unfolding run_command
run_command-RootRun A args s n t a m h = elim (Bool-cases (is_neg (s (suc n)).ret)) [
  | inl e ↦ rw e (refl, a, m, h)
  | inr e ↦ rw e (refl, a, m, h)
]

-- From the `fork` on.
fork-RootRun :
    (args : List (List ℕ)) (s : Script) (n : ℕ) (t : Trace)
    → passed is_authenticate t ≡ true
    → passed is_acct_mgmt t ≡ true
    → RootRun t
    → Throughout RootRun (fork_and_wait args s n t)
unfolding fork_and_wait clean_up
fork-RootRun args s n t a m h = elim (Bool-cases (is_zero (s n).ret)) [
  | inl e ↦ rw e (run_command-RootRun ℕ args s (suc n) _ a m h)
  | inr e ↦ rw e (elim (Bool-cases (is_pos (s n).ret)) [ inl e2 ↦ rw e2 h | inr e2 ↦ rw e2 h ])
]

establish-RootRun :
    (args : List (List ℕ)) (s : Script) (n : ℕ) (t : Trace)
    → passed is_authenticate t ≡ true
    → passed is_acct_mgmt t ≡ true
    → RootRun t
    → Throughout RootRun (establish args s n t)
unfolding establish
establish-RootRun args s n t a m h = elim (Bool-cases (is_zero (s n).ret)) [
  | inl e ↦ rw e (fork-RootRun args s (suc (suc n)) _ a m h)
  | inr e ↦ rw e (fork-RootRun args s (suc (suc n)) _ a m h)
]

authenticate-RootRun :
    (args : List (List ℕ)) (s : Script) (n : ℕ) (t : Trace)
    → RootRun t
    → Throughout RootRun (authenticate args s n t)
unfolding authenticate end_failed
authenticate-RootRun args s n t h = grind (arith, establish-RootRun)

-- However PAM and the system calls answer, every command that minisudo.c runs was started after
-- PAM had authenticated the user and accepted the account, right after the call `setuid (0)`.
pub main-RootRun : (s : Script) (argv : List (List ℕ)) → Throughout RootRun (main argv s 0 [])
unfolding main
main-RootRun s argv = grind (arith, authenticate-RootRun)
