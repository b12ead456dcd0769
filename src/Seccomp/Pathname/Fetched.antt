-- ===== src/Seccomp/Pathname/Fetched.antt =====
-- When `getTargetPathname` has fetched a path, and what it closes.
use linux_system_programming.Ipc.SeqServer.{store_bytes}
use linux_system_programming.Prelude.{
  Bool, List, [], arith, false, not, refl, suc, take, zero, ℕ, ◌&&◌, ◌+◌, ◌==◌, ◌||◌, ◌∷◌, ◌≡◌,
}
use linux_system_programming.Prelude.Int.{
  eq_ℤ, eq_ℤ_refl, is_minus_one, is_pos, is_zero, pos_part, ℤ,
}
use linux_system_programming.Seccomp.Pathname.{
  Notif, check_again, cookie_is_valid, get_target_pathname, has_nul, path_max, read_pathname,
}
use linux_system_programming.Sys.{Runs, Script, Trace, event}
use linux_system_programming.Sys.Calls.{close, notif_id_valid, open_proc_mem, pread}
use linux_system_programming.Sys.Files.{closed, held_failed, opened}
use linux_system_programming.WorkQueue.Counts.{count}

-- Some of the bytes is 0.
pub zero_in : List ℕ → Bool
zero_in [] = false
zero_in (c ∷ cs) = (c == 0) || zero_in cs

-- The last calls of the run have fetched the path that the buffer holds: the target's memory was
-- opened, the notification was valid, at most `path_max` bytes were read from that memory at the
-- address that the target gave, at least one, the memory was closed, the notification was valid
-- still, and there is a zero among the bytes of the buffer that the read stored.
pub fetched_in : Notif → ℤ → List ℕ → Trace → Bool
fetched_in req fd buffer
      (event (notif_id_valid fd2 id2) valid2
        ∷ event (close mem2) c
        ∷ event (pread mem count address) nread
        ∷ event (notif_id_valid fd1 id1) valid1
        ∷ event (open_proc_mem pid) opened_mem
        ∷ t) =
    (pid == req.pid)
    && not (is_minus_one opened_mem.ret)
    && eq_ℤ fd1 fd
    && (id1 == req.id)
    && is_zero valid1.ret
    && eq_ℤ mem opened_mem.ret
    && (count == path_max)
    && (address == req.path_arg)
    && is_pos nread.ret
    && eq_ℤ mem2 opened_mem.ret
    && eq_ℤ fd2 fd
    && (id2 == req.id)
    && is_zero valid2.ret
    && zero_in (take (pos_part nread.ret) buffer)
fetched_in req fd buffer _ = false

has_nul_lem : (n : ℕ) (path : List ℕ) → has_nul n path ≡ zero_in (take n path)
unfolding has_nul zero_in
has_nul_lem zero path = refl
has_nul_lem (suc n) [] = refl
has_nul_lem (suc n) (c ∷ path) = ground (arith, has_nul_lem n path)

-- `getTargetPathname` always returns, with the memory file that it opened closed; and it says that
-- it has a path exactly if its last five calls are a successful open of the target's memory, a check
-- that found the request's notification valid, a read of at least one byte from that memory at the
-- address of the path, the close and a second such check, and there is a zero byte among the bytes
-- of its buffer that the read stored.
pub get_target_pathname_lem :
    (req : Notif) (fd : ℤ) (path : List ℕ) (s : Script) (n : ℕ) (t : Trace) (x : ℕ)
    → Runs
        (λ r t'.
          (r.0 ≡ fetched_in req fd r.1 t') × (opened x t' + closed x t ≡ closed x t' + opened x t))
        (get_target_pathname req fd path s n t)
unfolding get_target_pathname read_pathname check_again cookie_is_valid opened closed fetched_in
get_target_pathname_lem req fd path s n t x =
    let o : ℤ = (s n).ret in
    let nread : ℕ = pos_part (s (suc (suc n))).ret in
    ground (
      arith,
      held_failed x o,
      has_nul_lem nread (store_bytes (take nread (s (suc (suc n))).bytes) path),
      eq_ℤ_refl fd,
      eq_ℤ_refl o,
    )
