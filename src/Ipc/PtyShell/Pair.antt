-- ===== src/Ipc/PtyShell/Pair.antt =====
-- `open_pty_pair` of Code/Mastering IPC and Terminals/epollnewpt.h. O_RDWR is 2 and O_NOCTTY 256.
-- The path that `ptsname` gives is the bytes of its reply.
-- `*amaster` and `*aslave`, unless the function returns -1.
use linux_system_programming.Prelude.{Option, arith, none, some, suc, ℕ, ◌+◌, ◌∷◌, ◌≡◌}
use linux_system_programming.Prelude.Int.{is_minus_one, is_neg, is_zero, ℤ}
use linux_system_programming.Sys.{Prog, Runs, Script, Trace, call, choose, event, pure, ◌>>=◌, ◌>>◌}
use linux_system_programming.Sys.Calls.{close, grantpt, open_path, posix_openpt, ptsname, unlockpt}
use linux_system_programming.Sys.Files.{closed, held, held_failed, opened}

unfoldable pub open_slave : ℤ → Prog (Option (ℤ × ℤ))
open_slave master = do
  p ← call (ptsname master)
  let failed_pair = do call (close master); pure none
  let named = do
    sl ← call (open_path p.bytes 2)
    choose (is_minus_one sl.ret) failed_pair (pure (some (master, sl.ret)))
  choose (is_zero p.ret) failed_pair named

unfoldable pub open_pty_pair : Prog (Option (ℤ × ℤ))
open_pty_pair = do
  m ← call (posix_openpt 258)
  let failed_pair = do call (close m.ret); pure none
  let granted = do u ← call (unlockpt m.ret); choose (is_neg u.ret) failed_pair (open_slave m.ret)
  let opened_master = do g ← call (grantpt m.ret); choose (is_neg g.ret) failed_pair granted
  choose (is_neg m.ret) (pure none) opened_master

abbrev pair_held : ℕ → Option (ℤ × ℤ) → ℕ
pair_held x none = 0
pair_held x (some (master, slave)) = held x master + held x slave

open_slave-holds :
    (x : ℕ) (master : ℤ) (s : Script) (n : ℕ) (t : Trace)
    → Runs
        (λ o t'.
          opened x t' + closed x t + held x master ≡ closed x t' + opened x t + pair_held x o)
        (open_slave master s n t)
unfolding open_slave opened closed
open_slave-holds x master s n t = ground (arith, held_failed x (s (suc n)).ret)

-- `open_pty_pair` always returns, and leaves open the two descriptors that it hands out, or none if
-- it hands out none.
pub open_pty_pair-holds :
    (x : ℕ) (s : Script) (n : ℕ) (t : Trace)
    → Runs
        (λ o t'. opened x t' + closed x t ≡ closed x t' + opened x t + pair_held x o)
        (open_pty_pair s n t)
unfolding open_pty_pair opened closed held
open_pty_pair-holds x s n t = ground (
  arith,
  open_slave-holds x (s n).ret s (suc (suc (suc n))) (
      event (unlockpt (s n).ret) (s (suc (suc n)))
      ∷ event (grantpt (s n).ret) (s (suc n))
      ∷ event (posix_openpt 258) (s n)
      ∷ t),
)
