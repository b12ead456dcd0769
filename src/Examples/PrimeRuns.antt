-- ===== src/Examples/PrimeRuns.antt =====
-- Lists of primes by primes.c and primes2.c, and the theorem at one.
use linux_system_programming.Memory.Primes.{composite, is_prime, prime}
use linux_system_programming.Memory.Primes.Listing.{collect, listed}
use linux_system_programming.Memory.Primes.Listing.First.{
  PrimesIn, collect_lem, next_prime, no_more, not_prime,
}
use linux_system_programming.Memory.Primes.Trial.{IsPrime, is_prime_lem}
use linux_system_programming.Prelude.{[], arith, inl, inr, refl, ℕ, ◌<◌, ◌∷◌, ◌≡◌}

surely_prime : (n : ℕ) → n < 2147395600 → is_prime n ≡ prime → IsPrime n
surely_prime n b e = elim (is_prime_lem n b) [ inl (f, p) ↦ p | inr (f, p) ↦ absurd (ground arith) ]

surely_composite : (n : ℕ) → n < 2147395600 → is_prime n ≡ composite → ¬ IsPrime n
surely_composite n b e = elim (is_prime_lem n b) [
  | inl (f, p) ↦ absurd (ground arith)
  | inr (f, p) ↦ p
]

three_primes : PrimesIn 2 6 (2 ∷ 3 ∷ 5 ∷ [])
unfolding is_prime
three_primes = next_prime (surely_prime 2 (omega arith) refl) (
    next_prime (surely_prime 3 (omega arith) refl) (
      not_prime (surely_composite 4 (omega arith) refl)
        (next_prime (surely_prime 5 (omega arith) refl) (no_more 6))))

collect_lem_example : collect 6 3 2 [] ≡ listed (2 ∷ 3 ∷ 5 ∷ [])
collect_lem_example =
    collect_lem 6 3 6 (2 ∷ 3 ∷ 5 ∷ []) three_primes (omega arith) (omega arith) (omega arith)
