-- ===== src/Memory/Primes.antt =====
-- Code/Mastering Memory/primes.c and primes2.c: `is_prime`, the same in both. A product that an
-- `int` does not hold is an outcome of its own.
pub mod Trial
pub mod Listing
use linux_system_programming.Prelude.{
  if◌then◌else◌, leb, ltb, suc, zero, ℕ, ◌%◌, ◌*◌, ◌+◌, ◌==◌, ◌^◌,
}

pub data Verdict : Type 0 where
  prime composite overflow out_of_rounds : Verdict

-- `for (int i = …; i * i <= n; i++)`, with fuel.
unfoldable pub trial : ℕ → ℕ → ℕ → Verdict
trial zero i n = out_of_rounds
trial (suc fuel) i n =
    let rest = trial fuel (i + 1) n in
    if ltb (i * i) (2 ^ 31)
    then (if leb (i * i) n then (if n % i == 0 then composite else rest) else prime)
    else overflow

-- `n` rounds are enough.
unfoldable pub is_prime : ℕ → Verdict
unfolding trial
is_prime n = if ltb n 2 then composite else trial n 2 n
