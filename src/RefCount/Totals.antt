-- ===== src/RefCount/Totals.antt =====
-- Sums over the workers.
use linux_system_programming.Prelude.{
  List, [], arith, get_elem?, inl, inr, refl, replicate, set, some, suc, zero, ℕ, ◌+◌, ◌<◌, ◌∷◌,
  ◌≡◌, ◌≤◌, ◌⊎◌,
}
use linux_system_programming.RefCount.{Pc}

unfoldable pub total : (Pc → ℕ) → List Pc → ℕ
total w [] = 0
total w (p ∷ ps) = w p + total w ps

pub total-set :
    (w : Pc → ℕ) (ps : List Pc) (i : ℕ) (p q : Pc)
    → get_elem? ps i ≡ some p
    → total w (set ps i q) + w p ≡ total w ps + w q
unfolding total
total-set w [] i p q h = absurd (cc)
total-set w (x ∷ ps) zero p q h = ground arith
total-set w (x ∷ ps) (suc i) p q h = omega (arith, total-set w ps i p q h)

pub split_pos : (n : ℕ) → (0 < n) ⊎ (n ≡ 0)
split_pos n = ground arith

pub total-positive :
    (w : Pc → ℕ) (ps : List Pc)
    → 0 < total w ps
    → (i : ℕ) × (p : Pc) × (get_elem? ps i ≡ some p) × (0 < w p)
unfolding total
total-positive w [] h = absurd (omega arith)
total-positive w (p ∷ ps) h = elim (split_pos (w p)) [
  | inl e ↦ (0, p, refl, e)
  | inr e ↦ let (i, q, a, b) = total-positive w ps (omega arith) in (suc i, q, a, b)
]

pub total-replicate : (w : Pc → ℕ) (p : Pc) (n : ℕ) → w p ≡ 0 → total w (replicate n p) ≡ 0
unfolding total
total-replicate w p zero h = refl
total-replicate w p (suc n) h = omega (arith, total-replicate w p n h)

pub le-total :
    (w : Pc → ℕ) (ps : List Pc) (i : ℕ) (p : Pc) → get_elem? ps i ≡ some p → w p ≤ total w ps
unfolding total
le-total w [] i p h = absurd (cc)
le-total w (x ∷ ps) zero p h = ground arith
le-total w (x ∷ ps) (suc i) p h = omega (arith, le-total w ps i p h)
