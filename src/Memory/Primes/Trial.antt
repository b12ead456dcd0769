-- ===== src/Memory/Primes/Trial.antt =====
-- What `is_prime` of primes.c says.
use linux_system_programming.Memory.Primes.{composite, is_prime, prime, trial}
use linux_system_programming.Prelude.{
  ap, arith, inl, inr, refl, subst, suc, sym, zero, ℕ, ◌%◌, ◌*◌, ◌+◌, ◌/◌, ◌<◌, ◌∙◌, ◌≡◌, ◌≢◌, ◌≤◌,
  ◌⊎◌,
}
use native.Mathlib.Nat.{div-add-mod, le_refl, mul-le-mul, mul-mod_right, mul_comm}

abbrev pub IsPrime : ℕ → Type 0
IsPrime n = (2 ≤ n) × ((a b : ℕ) → a * b ≡ n → (a ≡ 1) ⊎ (b ≡ 1))

-- No number from 2 on whose square is at most `n` divides it.
abbrev NoRoot : ℕ → Type 0
NoRoot n = (d : ℕ) → 2 ≤ d → d * d ≤ n → n % d ≢ 0

pub split_le : (a b : ℕ) → (a ≤ b) ⊎ (b < a)
split_le a b = ground arith

trial-prime_step :
    (fuel i n : ℕ)
    → trial (suc fuel) i n ≡ prime
    → (n < i * i) ⊎ ((n % i ≢ 0) × (trial fuel (i + 1) n ≡ prime))
unfolding trial
trial-prime_step fuel i n h = ground arith

trial-prime :
    (fuel i n : ℕ) → trial fuel i n ≡ prime → ((d : ℕ) → 2 ≤ d → d < i → n % d ≢ 0) → NoRoot n
unfolding trial
trial-prime zero i n h below = absurd (ground arith)
trial-prime (suc fuel) i n h below = elim (trial-prime_step fuel i n h) [
  | inl g ↦ λ d p q. elim (split_le i d) [
    | inl e ↦ absurd (omega (arith, mul-le-mul e e))
    | inr e ↦ below d p e
  ]
  | inr (m, rest) ↦ trial-prime fuel (i + 1) n rest λ d p e. elim (split_le i d) [
    | inl f ↦ subst (λ k. n % k ≢ 0) (omega arith) m
    | inr f ↦ below d p f
  ]
]

NoRoot-side : (n a b : ℕ) → NoRoot n → a * b ≡ n → a ≤ b → 2 ≤ a → ⊥
NoRoot-side n a b r e h p =
    r a p (omega (arith, mul-le-mul (le_refl a) h, e)) (rw (sym e) (mul-mod_right a b))

trial-composite_step :
    (fuel i n : ℕ)
    → trial (suc fuel) i n ≡ composite
    → ((i * i ≤ n) × (n % i ≡ 0)) ⊎ (trial fuel (i + 1) n ≡ composite)
unfolding trial
trial-composite_step fuel i n h = ground arith

trial-go_on :
    (fuel i n : ℕ)
    → i * i < 2147483648
    → ((trial (suc fuel) i n ≡ prime) ⊎ (trial (suc fuel) i n ≡ composite))
      ⊎ ((i * i ≤ n) × (trial (suc fuel) i n ≡ trial fuel (i + 1) n))
unfolding trial
trial-go_on fuel i n h = ground arith

factor-one : (n a b : ℕ) → 2 ≤ n → NoRoot n → a * b ≡ n → a ≤ b → a ≡ 1
factor-one n zero b p r e h = absurd (omega arith)
factor-one n (suc zero) b p r e h = refl
factor-one n (suc (suc a)) b p r e h = absurd (NoRoot-side n (suc (suc a)) b r e h (omega arith))

NoRoot-IsPrime : (n : ℕ) → 2 ≤ n → NoRoot n → IsPrime n
NoRoot-IsPrime n p r = (
  p,
  λ a b e. elim (split_le a b) [
    | inl h ↦ inl (factor-one n a b p r e h)
    | inr h ↦ inr (factor-one n b a p r (mul_comm b a ∙ e) (omega arith))
  ],
)

divisor-composite : (i n : ℕ) → 2 ≤ i → i * i ≤ n → n % i ≡ 0 → ¬ IsPrime n
divisor-composite i n p q h (_, prime_n) =
    let e : i * (n / i) ≡ n = omega (arith, div-add-mod n i, h) in
    elim (prime_n i (n / i) e) [
      | inl one_i ↦ omega arith
      | inr one_q ↦
          let e' : i * 1 ≡ n = ap (λ k. i * k) (sym one_q) ∙ e in
          omega (arith, mul-le-mul (le_refl i) p, q, e')
    ]

trial-composite : (fuel i n : ℕ) → 2 ≤ i → trial fuel i n ≡ composite → ¬ IsPrime n
unfolding trial
trial-composite zero i n p h = absurd (ground arith)
trial-composite (suc fuel) i n p h = elim (trial-composite_step fuel i n h) [
  | inl (q, m) ↦ divisor-composite i n p q m
  | inr rest ↦ trial-composite fuel (i + 1) n (omega arith) rest
]

root-small : (j n : ℕ) → j * j ≤ n → n < 2147395600 → j + 1 ≤ 46340
root-small j n h b = elim (split_le 46340 j) [
  | inl e ↦ absurd (omega (arith, mul-le-mul e e))
  | inr e ↦ omega arith
]

trial-decides :
    (fuel j n : ℕ)
    → 1 ≤ j
    → j * j ≤ n
    → n < 2147395600
    → n + 1 ≤ j + fuel
    → (trial fuel (j + 1) n ≡ prime) ⊎ (trial fuel (j + 1) n ≡ composite)
trial-decides zero j n p q b f = absurd (omega (arith, mul-le-mul p (le_refl j)))
trial-decides (suc fuel) j n p q b f =
    let small : j + 1 ≤ 46340 = root-small j n q b in
    elim (trial-go_on fuel (j + 1) n (omega (arith, mul-le-mul small small))) [
      | inl decided ↦ decided
      | inr (q', e) ↦ rw e (trial-decides fuel (j + 1) n (omega arith) q' b (omega arith))
    ]

is_prime-trial : (n : ℕ) → 2 ≤ n → is_prime n ≡ trial n 2 n
unfolding is_prime
is_prime-trial n p = ground arith

is_prime-small : (n : ℕ) → n < 2 → is_prime n ≡ composite
unfolding is_prime
is_prime-small n p = ground arith

-- For every number below 46340 squared, `is_prime` of primes.c and primes2.c ends without overflow
-- within its rounds, and says "prime" for the prime numbers and "composite" for the others.
pub is_prime_lem :
    (n : ℕ)
    → n < 2147395600
    → ((is_prime n ≡ prime) × IsPrime n) ⊎ ((is_prime n ≡ composite) × (¬ IsPrime n))
is_prime_lem n b = elim (split_le 2 n) [
  | inl p ↦ elim (trial-decides n 1 n (omega arith) (omega arith) b (omega arith)) [
    | inl e ↦ inl (
      is_prime-trial n p ∙ e,
      NoRoot-IsPrime n p (trial-prime n 2 n e λ d q h. absurd (omega arith)),
    )
    | inr e ↦ inr (is_prime-trial n p ∙ e, trial-composite n 2 n (omega arith) e)
  ]
  | inr p ↦ inr (is_prime-small n p, λ (q, _). omega arith)
]
