-- ===== src/Seccomp/Main.antt =====
-- `main` and `sigchldHandler` of seccomp_unotify.c.
use linux_system_programming.Prelude.{List, [], drop, length, ltb, ℕ, ◌∷◌}
use linux_system_programming.Prelude.Int.{is_minus_one, pos, ℤ}
use linux_system_programming.Seccomp.Passing.{err_exit}
use linux_system_programming.Seccomp.Supervisor.{supervisor}
use linux_system_programming.Seccomp.Target.{target_process}
use linux_system_programming.Sys.{Prog, call, choose, exit_with, ◌>>=◌, ◌>>◌}
use linux_system_programming.Sys.Calls.{eprintf, sigaction, socketpair, write}

-- "\tS: target has terminated; bye\n"
abbrev pub farewell : List ℕ
farewell =
    9 ∷ 83 ∷ 58 ∷ 32 ∷ 116 ∷ 97 ∷ 114 ∷ 103 ∷ 101 ∷ 116 ∷ 32 ∷ 104 ∷ 97 ∷ 115 ∷ 32 ∷ 116 ∷ 101 ∷ 114
    ∷ 109 ∷ 105 ∷ 110 ∷ 97 ∷ 116 ∷ 101 ∷ 100 ∷ 59 ∷ 32 ∷ 98 ∷ 121 ∷ 101 ∷ 10 ∷ []

-- Runs when the signal arrives, at any point of the supervisor.
pub sigchld_handler : {A : Type 0} → Prog A
sigchld_handler = call (write (pos 1) farewell 31) >> exit_with 0

-- From `targetProcess` on.
unfoldable pub start_both : ℕ → List ℕ → List (List ℕ) → ℤ → ℤ → Prog ℕ
start_both fuel junk paths sock0 sock1 = do
  target_process sock0 sock1 paths
  a ← call (sigaction 17)
  choose (is_minus_one a.ret) (err_exit "sigaction") (supervisor fuel junk sock0 sock1)

unfoldable pub main : ℕ → List ℕ → List (List ℕ) → Prog ℕ
main fuel junk argv =
    let run_all = do
      p ← call socketpair
      choose (is_minus_one p.ret) (err_exit "socketpair")
          (start_both fuel junk (drop 1 argv) (pos p.out) (pos p.out2))
    in choose (ltb (length argv) 2)
      (call (eprintf "At least one pathname argument is required\n") >> exit_with 1) run_all
