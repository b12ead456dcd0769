-- ===== src/Ipc/OpenClient/Copied.antt =====
-- What open_client.c prints.
use linux_system_programming.Ipc.OpenClient.{print_file}
use linux_system_programming.Prelude.{
  Bool-cases, List, [], if◌then◌else◌, inl, inr, suc, take, zero, ℕ, ◌∷◌, ◌≡◌,
}
use linux_system_programming.Prelude.Int.{eq_ℤ, is_pos, pos, pos_part, ℤ}
use linux_system_programming.Sys.{IfReturns, Script, Trace, event}
use linux_system_programming.Sys.Calls.{read, write}

-- The bytes that the `read` calls of a run gave, the latest call first.
unfoldable pub bytes_read : Trace → List (List ℕ)
bytes_read [] = []
bytes_read (event (read d k) r ∷ t) =
    let rest = bytes_read t in if is_pos r.ret then take (pos_part r.ret) r.bytes ∷ rest else rest
bytes_read (event _ r ∷ t) = bytes_read t

-- What the `write` calls to the standard output were given.
unfoldable pub bytes_shown : Trace → List (List ℕ)
bytes_shown [] = []
bytes_shown (event (write d b k) r ∷ t) =
    let rest = bytes_shown t in if eq_ℤ d (pos 1) then b ∷ rest else rest
bytes_shown (event _ r ∷ t) = bytes_shown t

-- Every block that `read` gives is handed to the standard output before the next `read`, and
-- nothing else is: when the loop is over, for any number of blocks, the two sequences agree if they
-- agreed before it.
pub print_file-copies :
    (fuel : ℕ) (fd : ℤ) (s : Script) (n : ℕ) (t : Trace)
    → bytes_shown t ≡ bytes_read t
    → IfReturns (λ _ t'. bytes_shown t' ≡ bytes_read t') (print_file fuel fd s n t)
unfolding print_file bytes_shown bytes_read
print_file-copies zero fd s n t h = tt
print_file-copies (suc fuel) fd s n t h = elim (Bool-cases (is_pos (s n).ret)) [
  | inl e ↦ rw e (print_file-copies fuel fd s (suc (suc n)) _ (rw e (cc)))
  | inr e ↦ rw e (rw e h)
]
