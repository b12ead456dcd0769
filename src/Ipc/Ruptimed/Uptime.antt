-- ===== src/Ipc/Ruptimed/Uptime.antt =====
-- The figures of `get_uptime`.
use linux_system_programming.Ipc.Ruptimed.{
  Report, get_uptime, open_error, read_error, split_uptime, uptime,
}
use linux_system_programming.Prelude.{arith, false, suc, ℕ, ◌*◌, ◌+◌, ◌<◌, ◌≡◌, ◌≤◌}
use linux_system_programming.Prelude.Int.{is_zero, pos}
use linux_system_programming.Sys.{Returns, Script, Trace}

-- The report's figures stand for the seconds up to the last full minute.
abbrev pub Shows : ℕ → Report → Type 0
Shows secs (uptime d h m) =
    (d * 86400 + h * 3600 + m * 60 ≤ secs)
    × (secs < d * 86400 + h * 3600 + m * 60 + 60)
    × (h < 24)
    × (m < 60)
Shows secs (open_error e) = ⊥
Shows secs read_error = ⊥

-- If the file opens and one number is read, the report shows exactly the seconds read up to the
-- minute, with hours below 24 and minutes below 60; `get_uptime` always returns.
pub get_uptime-Shows :
    (s : Script) (n : ℕ) (t : Trace)
    → is_zero (s n).ret ≡ false
    → (s (suc n)).ret ≡ pos 1
    → Returns (Shows (s (suc n)).out) (get_uptime s n t)
unfolding get_uptime split_uptime
get_uptime-Shows s n t opens reads = ground arith
