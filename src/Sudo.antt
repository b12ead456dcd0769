-- ===== src/Sudo.antt =====
-- Code/Mastering the Linux Runtime Environment/minisudo.c: runs a command as root after PAM has
-- accepted the user. Its `conv_func` is in Login.Conversation.
pub mod Authorised
use linux_system_programming.Login.{end_failed}
use linux_system_programming.Prelude.{List, drop, length, ltb, not, ℕ}
use linux_system_programming.Prelude.Int.{is_neg, is_pos, is_zero, pos}
use linux_system_programming.Sys.{Prog, call, choose, exit_with, pure, replace, ◌>>=◌, ◌>>◌}
use linux_system_programming.Sys.Calls.{
  eprintf, execvp, fork, getenv, pam_acct_mgmt, pam_authenticate, pam_end, pam_setcred, pam_start,
  perror, printf, setuid, waitpid_of,
}

-- The child; `execvp` comes back only when it fails.
unfoldable pub run_command : {A : Type 0} → List (List ℕ) → Prog A
run_command args = do
  call (setuid 0)
  e ← call (execvp args)
  choose (is_neg e.ret) (call (perror "execvp") >> exit_with 1) replace

-- PAM_DELETE_CRED is 4.
unfoldable pub clean_up : Prog ℕ
clean_up = do call (pam_setcred 4); call (pam_end (pos 0)); pure 0

unfoldable pub fork_and_wait : List (List ℕ) → Prog ℕ
fork_and_wait args = do
  f ← call fork
  choose (is_zero f.ret) (run_command args) (
      choose (is_pos f.ret) (call (waitpid_of f.ret 0) >> clean_up)
        (call (perror "fork") >> clean_up))

-- From `pam_setcred` on; PAM_ESTABLISH_CRED is 2.
unfoldable pub establish : List (List ℕ) → Prog ℕ
establish args = do
  c ← call (pam_setcred 2)
  choose (not (is_zero c.ret)) (call (eprintf "pam_setcred failed: %s\n") >> pure tt)
      (call (printf "Credentials established successfully.\n") >> pure tt)
  fork_and_wait args

unfoldable pub authenticate : List (List ℕ) → Prog ℕ
authenticate args = do
  a ← call pam_authenticate
  let account = do
    m ← call pam_acct_mgmt
    choose (not (is_zero m.ret)) (end_failed "Account check failed: %s\n" m.ret) (establish args)
  choose (not (is_zero a.ret)) (end_failed "Authentication failed: %s\n" a.ret) account

unfoldable pub main : List (List ℕ) → Prog ℕ
main argv = do
  u ← call (getenv "USER")
  let begin = do
    r ← call (pam_start "sudo" u.bytes)
    choose (not (is_zero r.ret)) (call (eprintf "pam_start: %s\n") >> pure 1)
        (authenticate (drop 1 argv))
  choose (ltb (length argv) 2) (call (eprintf "Usage: %s <command> [args...]\n") >> pure 1) begin
