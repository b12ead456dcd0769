-- ===== src/Login.antt =====
-- Code/Mastering the Linux Runtime Environment/loginpam.c: a login by PAM. PAM, the user database
-- and the lists behind their pointers are parameters or replies; PAM_SUCCESS is 0. Conversation is
-- the callback, and this file the rest.
pub mod Conversation
pub mod Authorised
use linux_system_programming.FileIo.UringCopy.{failed}
use linux_system_programming.MiniShell.{session}
use linux_system_programming.Prelude.{List, Option, String, [], none, not, some, ℕ, ◌==◌, ◌||◌, ◌∷◌}
use linux_system_programming.Prelude.Int.{is_neg, is_zero, pos, ℤ}
use linux_system_programming.Shell.Line.{until_newline}
use linux_system_programming.Shell.Terminal.{shell}
use linux_system_programming.Sys.{Prog, call, choose, pure, replace, when, ◌>>=◌, ◌>>◌}
use linux_system_programming.Sys.Calls.{
  Call, chdir_path, endutent, eprintf, execlp, execlp_name, fflush, fgets, free, free_text, getpid,
  getpwnam, initgroups, login, logout, pam_acct_mgmt, pam_authenticate, pam_close_session, pam_end,
  pam_get_item, pam_getenvlist, pam_open_session, pam_set_item, pam_start, perror, printf,
  printf_text, putenv, setenv, setgid, setuid, time, ttyname,
}

-- `struct passwd`, less what the program does not read.
pub record Passwd : Type 0 where
  pub pw_name : List ℕ
  pub pw_uid : ℕ
  pub pw_gid : ℕ
  pub pw_dir : List ℕ
  pub pw_shell : List ℕ

unfoldable pub do_login_record : Prog (Unit {0})
do_login_record = do
  y ← call ttyname
  when (not (is_zero y.ret)) (do call getpid; call time; call login)

unfoldable pub do_logout_record : Prog (Unit {0})
do_logout_record = do
  y ← call ttyname
  when (not (is_zero y.ret)) (call logout)
  call endutent
  pure tt

-- `fprintf (stderr, what); pam_end (pamh, pam_result); return 1;`
unfoldable pub end_failed : String → ℤ → Prog ℕ
end_failed what pam_result = do call (eprintf what); call (pam_end pam_result); pure 1

-- `pam_close_session (pamh, 0); pam_end (pamh, PAM_SUCCESS); return 1;`
unfoldable pub close_all : Prog ℕ
close_all = do call pam_close_session; call (pam_end (pos 0)); pure 1

abbrev pub shell_call : List ℕ → Call
shell_call [] = execlp_name "/bin/sh"
shell_call (c ∷ cs) = execlp (c ∷ cs)

-- `execlp` comes back only when it fails.
unfoldable pub exec_shell : List ℕ → Prog ℕ
exec_shell shell = do
  e ← call (shell_call shell)
  let failed = do call (perror "Failed to exec shell"); do_logout_record; close_all
  choose (is_neg e.ret) failed replace

-- From `chdir` on.
unfoldable pub run_shell : List ℕ → Passwd → Prog ℕ
run_shell username pw = do
  d ← call (chdir_path pw.pw_dir)
  when (is_neg d.ret) (call (eprintf "Warning: Failed to change to home directory %s\n"))
  call (printf_text "\nWelcome %s!\n" username)
  exec_shell pw.pw_shell

-- `pam_get_item`; an error ends the handle, and the program goes on.
unfoldable pub show_item : ℕ → String → Prog (Unit {0})
show_item item what = do
  r ← call (pam_get_item item)
  choose (not (is_zero r.ret) || (r.out == 0))
      (call (eprintf "pam_get_item failed: %s\n") >> call (pam_end r.ret) >> pure tt)
      (call (printf what) >> pure tt)

-- PAM_AUTHTOK is 6; `captured` is what the conversations left in `captured_password`.
unfoldable pub use_password : Option (List ℕ) → Prog (Unit {0})
use_password none = call (printf "\nPassword not captured.\n") >> pure tt
use_password (some password) = do
  call (printf_text "\nPassword captured: %s\n" password)
  call (pam_set_item 6 password)
  call (free_text password)
  pure tt

unfoldable pub put_all : List (List ℕ) → Prog (Unit {0})
put_all [] = pure tt
put_all (e ∷ es) = do call (printf_text "  %s\n" e); call (putenv e); put_all es

module _ (passwd : ℤ → Passwd) (environment : ℤ → List (List ℕ)) (captured : Option (List ℕ)) where
  unfoldable pub set_environment : Passwd → Prog (Unit {0})
  set_environment pw = do
    call (setenv "HOME" pw.pw_dir)
    call (setenv "USER" pw.pw_name)
    call (setenv "LOGNAME" pw.pw_name)
    call (setenv "SHELL" pw.pw_shell)
    l ← call pam_getenvlist
    when (not (is_zero l.ret)) (put_all (environment l.ret) >> call (free l.ret))

  -- From the second `setuid` on; PAM_USER is 2 and PAM_SERVICE 1.
  unfoldable pub as_user : List ℕ → Passwd → Prog ℕ
  as_user username pw = do
    call (setuid pw.pw_uid)
    set_environment pw
    show_item 2 "\nPAM USER: %s"
    show_item 1 "\nPAM SERVICE: %s"
    use_password captured
    run_shell username pw

  -- `initgroups (…) < 0 || setgid (…) < 0 || setuid (…) < 0`
  unfoldable pub drop_privileges : List ℕ → Passwd → Prog ℕ
  drop_privileges username pw = do
    call (setgid pw.pw_gid)
    i ← call (initgroups username pw.pw_gid)
    let failed = call (perror "Failed to drop privileges") >> close_all
    let group = do
      g ← call (setgid pw.pw_gid)
      let user = do u ← call (setuid pw.pw_uid); choose (is_neg u.ret) failed (as_user username pw)
      choose (is_neg g.ret) failed user
    choose (is_neg i.ret) failed group

  -- From `getpwnam` on.
  unfoldable pub start_session : List ℕ → Prog ℕ
  start_session username = do
    p ← call (getpwnam username)
    let unknown = call (eprintf "getpwnam failed.\n") >> close_all
    let known = do do_login_record; drop_privileges username (passwd p.ret)
    choose (is_zero p.ret) unknown known

  -- From `pam_authenticate` on.
  unfoldable pub check_user : List ℕ → Prog ℕ
  check_user username = do
    a ← call pam_authenticate
    let account = do
      m ← call pam_acct_mgmt
      let session = do
        o ← call pam_open_session
        choose (not (is_zero o.ret)) (end_failed "Failed to open PAM session: %s\n" o.ret)
            (start_session username)
      choose (not (is_zero m.ret)) (end_failed "Account check failed: %s\n" m.ret) session
    choose (not (is_zero a.ret)) (end_failed "Authentication failed: %s\n" a.ret) account

  unfoldable pub main : Prog ℕ
  main = do
    call (printf "Login: ")
    call fflush
    l ← call (fgets 64)
    let username = until_newline l.bytes
    let begin = do
      r ← call (pam_start "loginpam" username)
      choose (not (is_zero r.ret)) (call (eprintf "pam_start failed: %s\n") >> pure 1)
          (check_user username)
    choose (is_zero l.ret) (pure 1) begin
