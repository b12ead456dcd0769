-- ===== src/Seccomp/Passing.antt =====
-- `sendfd`, `recvfd`, `closeSocketPair` and `installNotifyFilter`. The reply of `recvmsg` has the
-- first control message in `bytes`: its length, level and type and the descriptor, or nothing.
use linux_system_programming.Prelude.{
  List, Option, String, if◌then◌else◌, none, some, ℕ, ◌&&◌, ◌==◌, ◌∷◌,
}
use linux_system_programming.Prelude.Int.{is_minus_one, negsuc, pos, ℤ}
use linux_system_programming.Seccomp.Filter.{filter}
use linux_system_programming.Sys.{Prog, call, choose, exit_with, pure, ◌>>=◌, ◌>>◌}
use linux_system_programming.Sys.Calls.{close, eprintf, recvmsg, seccomp, sendmsg_fd}

-- `err (EXIT_FAILURE, what)`
abbrev pub err_exit : {A : Type 0} → String → Prog A
err_exit what = call (eprintf what) >> exit_with 1

unfoldable pub sendfd : ℤ → ℤ → Prog ℤ
sendfd sockfd fd = do
  m ← call (sendmsg_fd sockfd fd)
  choose (is_minus_one m.ret) (pure (negsuc 0)) (pure (pos 0))

-- CMSG_LEN (sizeof (int)), SOL_SOCKET and SCM_RIGHTS; a control message that is NULL is `[]`.
unfoldable pub passed_fd : List ℕ → Option ℕ
passed_fd (len ∷ level ∷ kind ∷ fd ∷ _) =
    if (len == 20) && (level == 1) && (kind == 1) then some fd else none
passed_fd _ = none

unfoldable pub recvfd : ℤ → Prog ℤ
recvfd sockfd = do
  m ← call (recvmsg sockfd 4)
  choose (is_minus_one m.ret) (pure (negsuc 0))
      (elim (passed_fd m.bytes) [ some fd ↦ pure (pos fd) | none ↦ pure (negsuc 0) ])

unfoldable pub close_socket_pair : ℤ → ℤ → Prog (Unit {0})
close_socket_pair a b = do
  c ← call (close a)
  let second = do
    d ← call (close b)
    choose (is_minus_one d.ret) (err_exit "closeSocketPair-close-1") (pure tt)
  choose (is_minus_one c.ret) (err_exit "closeSocketPair-close-0") second

-- SECCOMP_SET_MODE_FILTER with SECCOMP_FILTER_FLAG_NEW_LISTENER
unfoldable pub install_notify_filter : Prog ℤ
install_notify_filter = do
  r ← call (seccomp 1 8 filter)
  choose (is_minus_one r.ret) (err_exit "seccomp-install-notify-filter") (pure r.ret)
