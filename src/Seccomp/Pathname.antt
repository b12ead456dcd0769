-- ===== src/Seccomp/Pathname.antt =====
-- `cookieIsValid` and `getTargetPathname`: the path that the target gave to `mkdir`, read from its
-- memory into a buffer that keeps what it held before.
pub mod Fetched
use linux_system_programming.Ipc.SeqServer.{store_bytes}
use linux_system_programming.Prelude.{
  Bool, List, [], false, not, suc, take, zero, ℕ, ◌==◌, ◌||◌, ◌∷◌,
}
use linux_system_programming.Prelude.Int.{is_minus_one, is_pos, is_zero, pos_part, ℤ}
use linux_system_programming.Sys.{Prog, call, choose, pure, ◌>>=◌, ◌>>◌}
use linux_system_programming.Sys.Calls.{close, notif_id_valid, open_proc_mem, perror, pread}

-- `struct seccomp_notif`
pub record Notif : Type 0 where
  pub id : ℕ
  pub pid : ℕ
  pub nr : ℕ
  pub path_arg : ℕ
  pub mode_arg : ℕ

-- PATH_MAX
abbrev pub path_max : ℕ
path_max = 4096

unfoldable pub cookie_is_valid : ℤ → ℕ → Prog Bool
cookie_is_valid notify_fd id = do r ← call (notif_id_valid notify_fd id); pure (is_zero r.ret)

-- `strnlen (path, nread) < nread`
unfoldable pub has_nul : ℕ → List ℕ → Bool
has_nul zero path = false
has_nul (suc n) [] = false
has_nul (suc n) (c ∷ path) = let rest = has_nul n path in (c == 0) || rest

-- The second check of the identifier, and the one of the text.
unfoldable pub check_again : ℤ → ℕ → ℕ → List ℕ → Prog (Bool × List ℕ)
check_again notify_fd id nread path = do
  again ← cookie_is_valid notify_fd id
  choose (not again) (call (perror "\tS: notification ID check failed!!!") >> pure (false, path))
      (pure (has_nul nread path, path))

unfoldable pub read_pathname : Notif → ℤ → ℤ → List ℕ → Prog (Bool × List ℕ)
read_pathname req notify_fd mem_fd path = do
  r ← call (pread mem_fd path_max req.path_arg)
  call (close mem_fd)
  let nread = pos_part r.ret
  let path' = store_bytes (take nread r.bytes) path
  choose (not (is_pos r.ret)) (pure (false, path')) (check_again notify_fd req.id nread path')

unfoldable pub get_target_pathname : Notif → ℤ → List ℕ → Prog (Bool × List ℕ)
get_target_pathname req notify_fd path = do
  o ← call (open_proc_mem req.pid)
  let check = do
    valid ← cookie_is_valid notify_fd req.id
    choose (not valid) (call (close o.ret) >> pure (false, path))
        (read_pathname req notify_fd o.ret path)
  choose (is_minus_one o.ret) (pure (false, path)) check
