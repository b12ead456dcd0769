-- ===== src/Memory/Primes/Listing/First.antt =====
-- The loop of primes.c and primes2.c against the prime numbers in order.
-- The prime numbers from `a` up to `b`, in order.
use linux_system_programming.Memory.Primes.Listing.{collect, listed}
use linux_system_programming.Memory.Primes.Trial.{IsPrime, is_prime_lem, split_le}
use linux_system_programming.Prelude.{
  List, [], ap, append-nil, append_assoc, arith, inl, inr, length, length-append, suc, sym, take,
  zero, ℕ, ◌++◌, ◌+◌, ◌-◌, ◌<◌, ◌∙◌, ◌∷◌, ◌≡◌, ◌≤◌,
}

pub data PrimesIn : ℕ → ℕ → List ℕ → Type 0 where
  no_more : (b : ℕ) → PrimesIn b b []
  next_prime : {a b : ℕ} {ps : List ℕ} → IsPrime a → PrimesIn (a + 1) b ps → PrimesIn a b (a ∷ ps)
  not_prime : {a b : ℕ} {ps : List ℕ} → ¬ IsPrime a → PrimesIn (a + 1) b ps → PrimesIn a b ps

PrimesIn-ordered : {a b : ℕ} {qs : List ℕ} → PrimesIn a b qs → a ≤ b
PrimesIn-ordered (no_more b) = omega arith
PrimesIn-ordered (next_prime p r) = omega (arith, PrimesIn-ordered r)
PrimesIn-ordered (not_prime p r) = omega (arith, PrimesIn-ordered r)

collect-full :
    (fuel n num : ℕ) (ps : List ℕ) → n ≤ length ps → collect (suc fuel) n num ps ≡ listed ps
unfolding collect
collect-full fuel n num ps h = ground arith

collect-prime :
    (fuel n num : ℕ) (ps : List ℕ)
    → length ps < n
    → num < 2147395600
    → IsPrime num
    → collect (suc fuel) n num ps ≡ collect fuel n (num + 1) (ps ++ num ∷ [])
unfolding collect
collect-prime fuel n num ps h b p = elim (is_prime_lem num b) [
  | inl (e, q) ↦ ground arith
  | inr (e, q) ↦ absurd (q p)
]

collect-composite :
    (fuel n num : ℕ) (ps : List ℕ)
    → length ps < n
    → num < 2147395600
    → ¬ IsPrime num
    → collect (suc fuel) n num ps ≡ collect fuel n (num + 1) ps
unfolding collect
collect-composite fuel n num ps h b p = elim (is_prime_lem num b) [
  | inl (e, q) ↦ absurd (p q)
  | inr (e, q) ↦ ground arith
]

minus_zero : (n : ℕ) → n - 0 ≡ n
minus_zero n = omega arith

take-full : (n : ℕ) (ps qs : List ℕ) → n ≤ length ps → ps ++ take (n - length ps) qs ≡ ps
take-full n ps qs h = let e : n - length ps ≡ 0 = omega arith in rw e (append-nil ps)

take-more :
    (n a : ℕ) (ps qs : List ℕ)
    → length ps < n
    → (ps ++ a ∷ []) ++ take (n - length (ps ++ a ∷ [])) qs ≡ ps ++ take (n - length ps) (a ∷ qs)
take-more n a ps qs h =
    let e : n - length ps ≡ suc (n - length (ps ++ a ∷ [])) =
      omega (arith, length-append ps (a ∷ [])) in
    rw (e, append_assoc ps (a ∷ []) (take (n - length (ps ++ a ∷ [])) qs))

collect-PrimesIn :
    (n fuel a b : ℕ) (qs ps : List ℕ)
    → PrimesIn a b qs
    → b ≤ 2147395600
    → b < a + fuel
    → n ≤ length ps + length qs
    → collect fuel n a ps ≡ listed (ps ++ take (n - length ps) qs)
collect-PrimesIn n zero a b qs ps r h f k = absurd (omega (arith, PrimesIn-ordered r))
collect-PrimesIn n (suc fuel) _ _ _ ps (no_more b) h f k =
    collect-full fuel n b ps (omega arith) ∙ ap listed (sym (take-full n ps [] (omega arith)))
collect-PrimesIn n (suc fuel) a b (_ ∷ qs) ps (next_prime p r) h f k =
    elim (split_le n (length ps)) [
      | inl stored ↦
          collect-full fuel n a ps stored ∙ ap listed (sym (take-full n ps (a ∷ qs) stored))
      | inr room ↦
          collect-prime fuel n a ps room (omega (arith, PrimesIn-ordered r)) p
          ∙ collect-PrimesIn n fuel (a + 1) b qs (ps ++ a ∷ []) r h (omega arith)
              (omega (arith, length-append ps (a ∷ [])))
          ∙ ap listed (take-more n a ps qs room)
    ]
collect-PrimesIn n (suc fuel) a b qs ps (not_prime p r) h f k = elim (split_le n (length ps)) [
  | inl stored ↦ collect-full fuel n a ps stored ∙ ap listed (sym (take-full n ps qs stored))
  | inr room ↦
      collect-composite fuel n a ps room (omega (arith, PrimesIn-ordered r)) p
      ∙ collect-PrimesIn n fuel (a + 1) b qs ps r h (omega arith) k
]

-- If there are at least `n` prime numbers below `m`, and `m` is at most 46340 squared, then the loop of
-- primes.c and primes2.c ends within `m` rounds, without overflow, and the array has the first `n`
-- prime numbers in order.
pub collect_lem :
    (m n fuel : ℕ) (qs : List ℕ)
    → PrimesIn 2 m qs
    → m ≤ 2147395600
    → m ≤ fuel
    → n ≤ length qs
    → collect fuel n 2 [] ≡ listed (take n qs)
collect_lem m n fuel qs r h f k =
    collect-PrimesIn n fuel 2 m qs [] r h (omega arith) (omega arith)
    ∙ ap (λ i. listed (take i qs)) (minus_zero n)
