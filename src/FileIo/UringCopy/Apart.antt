-- ===== src/FileIo/UringCopy/Apart.antt =====
-- The slots and the positions of the requests in the ring of uringcopyfile.c.
use linux_system_programming.FileIo.UringCopy.{Sqe, take_out}
use linux_system_programming.FileIo.UringCopy.Completions.{Every, Every-take_out, and_both, total}
use linux_system_programming.Prelude.{
  Bool, List, [], arith, inl, inr, not, suc, sym, true, zero, ℕ, ◌&&◌, ◌+◌, ◌<◌, ◌==◌, ◌∷◌, ◌≡◌,
  ◌≢◌, ◌≤◌, ◌⊎◌,
}

-- No request in the ring has this slot.
abbrev pub free_slot : ℕ → List Sqe → Bool
free_slot k [] = true
free_slot k (q ∷ qs) = not (q.slot == k) && free_slot k qs

unfoldable pub Elsewhere : ℕ → Sqe → Type 0
Elsewhere k q = q.slot ≢ k

not_equal : (a b : ℕ) → not (a == b) ≡ true → a ≢ b
not_equal a b h e = ground arith

pub Every-free : (k : ℕ) (qs : List Sqe) → free_slot k qs ≡ true → Every (Elsewhere k) qs
unfolding Elsewhere
Every-free k [] h = tt
Every-free k (q ∷ qs) h =
    let (a, b) = and_both _ _ h in ((λ e. not_equal q.slot k a e), Every-free k qs b)

-- No two requests in the ring have the same slot.
unfoldable pub Apart : List Sqe → Type 0
Apart [] = Unit
Apart (q ∷ qs) = Every (Elsewhere q.slot) qs × Apart qs

pub Apart-take_out :
    (i : ℕ) (q : Sqe) (qs : List Sqe)
    → Apart (q ∷ qs)
    → Every (Elsewhere (take_out i q qs).0.slot) (take_out i q qs).1 × Apart (take_out i q qs).1
unfolding Apart Elsewhere
Apart-take_out i q [] v = v
Apart-take_out zero q (r ∷ rs) v = v
Apart-take_out (suc i) q (r ∷ rs) (h, v) =
    let (o, w) = Apart-take_out i r rs v in
    let (n, m) = Every-take_out (Elsewhere q.slot) i r rs h in (((λ e. n (sym e)), o), (m, w))

-- A request at position `x`, and one of the ring.
unfoldable pub Covers : ℕ → Sqe → Type 0
Covers x q = (q.file_offset ≤ x) × (x < q.file_offset + q.nbytes)

unfoldable pub Pending : ℕ → List Sqe → Type 0
Pending x [] = ⊥
Pending x (q ∷ qs) = Covers x q ⊎ Pending x qs

pub Pending-take_out :
    (x i : ℕ) (q : Sqe) (qs : List Sqe)
    → Pending x (q ∷ qs)
    → Covers x (take_out i q qs).0 ⊎ Pending x (take_out i q qs).1
unfolding Pending
Pending-take_out x i q [] v = v
Pending-take_out x zero q (r ∷ rs) v = v
Pending-take_out x (suc i) q (r ∷ rs) (inl c) = inr (inl c)
Pending-take_out x (suc i) q (r ∷ rs) (inr v) = elim (Pending-take_out x i r rs v) [
  | inl c ↦ inl c
  | inr w ↦ inr (inr w)
]

pub Pending-total : (x : ℕ) (qs : List Sqe) → Pending x qs → 0 < total qs
unfolding Pending Covers total
Pending-total x [] v = absurd v
Pending-total x (q ∷ qs) (inl c) = omega (arith, c.0, c.1)
Pending-total x (q ∷ qs) (inr v) = omega (arith, Pending-total x qs v)
