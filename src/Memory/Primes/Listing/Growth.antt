-- ===== src/Memory/Primes/Listing/Growth.antt =====
-- The arrays of primes.c and primes2.c: how primes2.c picks the room, and what both free.
use linux_system_programming.Memory.Primes.Listing.{
  Found, ask_loop2, collect, finish2, grow, grow_rounds, list_primes, listed, main2, new_list2,
  overflowed, print_primes, show_found, unfinished,
}
use linux_system_programming.Memory.Primes.Trial.{split_le}
use linux_system_programming.Prelude.{
  List, [], arith, inl, inr, refl, subst, suc, zero, ℕ, ◌*◌, ◌+◌, ◌<◌, ◌^◌, ◌∷◌, ◌≡◌, ◌≤◌, ◌⊎◌,
}
use linux_system_programming.Prelude.Int.{is_zero, pos, ℤ}
use linux_system_programming.Sys.{
  IfReturns, Prog, Runs, Script, Trace, call, event, pure, value, ◌>>◌,
}
use linux_system_programming.Sys.Blocks.{allocated, block, freed}
use linux_system_programming.Sys.Calls.{eprintf, free, printf, printf_num, realloc, scanf}
use linux_system_programming.Sys.Rules.{IfReturns-bind, IfReturns-choose}
use native.Mathlib.Nat.{pow-suc}

grow-power :
    (fuel k wanted : ℕ) (s : Script) (n : ℕ) (t : Trace)
    → wanted ≤ 2 ^ 30
    → fuel + k ≡ 32
    → 2 ^ k < 2 ^ 31
    → (2 ^ k < 2 * wanted) ⊎ (2 ^ k ≡ 8)
    → Runs
        (λ room t'. (wanted ≤ room) × ((room < 2 * wanted) ⊎ (room ≡ 8)) × (t' ≡ t))
        (grow fuel (2 ^ k) wanted s n t)
unfolding grow
grow-power zero k wanted s n t h e b c =
    let e' : k ≡ 32 = omega arith in
    let b' : 2 ^ 32 < 2 ^ 31 = subst (λ i. 2 ^ i < 2 ^ 31) e' b in absurd (omega arith)
grow-power (suc fuel) k wanted s n t h e b c = elim (split_le wanted (2 ^ k)) [
  | inl room ↦ ground arith
  | inr small ↦
      let twice : 2 ^ suc k ≡ 2 ^ k * 2 = pow-suc 2 k in
      let doubled =
        subst
          (λ r.
            Runs (λ room t'. (wanted ≤ room) × ((room < 2 * wanted) ⊎ (room ≡ 8)) × (t' ≡ t))
              (grow fuel r wanted s n t))
          twice
          (grow-power fuel (suc k) wanted s n t h (omega arith) (omega arith)
            (inl (omega arith))) in
      ground (arith, doubled)
]

-- For a number of primes up to 2 ^ 30, the loop that doubles `new_capacity` ends within its rounds
-- and without overflow, makes no call, and its result has room for the numbers, less than twice as
-- much as is needed or eight.
pub grow-fits :
    (wanted : ℕ) (s : Script) (n : ℕ) (t : Trace)
    → wanted ≤ 2 ^ 30
    → Runs
        (λ room t'. (wanted ≤ room) × ((room < 2 * wanted) ⊎ (room ≡ 8)) × (t' ≡ t))
        (grow grow_rounds 8 wanted s n t)
grow-fits wanted s n t h = grow-power grow_rounds 3 wanted s n t h refl (omega arith) (inr refl)

module _ (p : ℕ) (s : Script) where
  -- The block that `primes` points to is the one that is left to free.
  abbrev Owes : ℤ → Trace → Type 0
  Owes q t = allocated p t ≡ freed p t + block p q

  print_primes-Owes :
      (q : ℤ) (ps : List ℕ) (n : ℕ) (t : Trace)
      → Owes q t
      → IfReturns (λ _ t'. Owes q t') (print_primes ps s n t)
  unfolding print_primes allocated freed
  print_primes-Owes q [] n t h = h
  print_primes-Owes q (x ∷ xs) n t h =
      print_primes-Owes q xs (suc n) (event (printf_num "%d " (pos x)) (s n) ∷ t) (ground arith)

  show_found-Owes :
      (q : ℤ) (wanted : ℕ) (found : Found) (n : ℕ) (t : Trace)
      → Owes q t
      → IfReturns (λ _ t'. Owes q t') (show_found wanted found s n t)
  unfolding show_found allocated freed
  show_found-Owes q wanted (listed ps) n t h =
      IfReturns-bind {B = Unit {0}} (λ _ t'. Owes q t') (λ _ t'. Owes q t')
        (print_primes ps s (suc n)
          (event (printf_num "First %d prime numbers:\n" (pos wanted)) (s n) ∷ t))
        (λ _. call (printf "\n\n") >> pure tt) s
        (print_primes-Owes q ps (suc n)
          (event (printf_num "First %d prime numbers:\n" (pos wanted)) (s n) ∷ t) (ground arith))
        (λ _ n1 t1 h1. ground arith)
  show_found-Owes q wanted overflowed n t h = tt
  show_found-Owes q wanted unfinished n t h = tt

  grow-Owes :
      (q : ℤ) (fuel room wanted : ℕ) (n : ℕ) (t : Trace)
      → Owes q t
      → IfReturns (λ _ t'. Owes q t') (grow fuel room wanted s n t)
  unfolding grow
  grow-Owes q zero room wanted n t h = tt
  grow-Owes q (suc fuel) room wanted n t h =
      ground (arith, grow-Owes q fuel (room * 2) wanted n t h)

  -- The listing and the rounds that follow.
  rest-frees :
      (again : ℤ → Prog ℕ) (fuel : ℕ) (q : ℤ) (wanted n : ℕ) (t : Trace)
      → ((n : ℕ) (t : Trace)
          → Owes q t
          → IfReturns (λ _ t'. allocated p t' ≡ freed p t') (again q s n t))
      → Owes q t
      → IfReturns (λ _ t'. allocated p t' ≡ freed p t') ((list_primes fuel wanted >> again q) s n t)
  unfolding list_primes
  rest-frees again fuel q wanted n t f h =
      IfReturns-bind (λ _ t'. Owes q t') (λ _ t'. allocated p t' ≡ freed p t')
        (show_found wanted (collect fuel wanted 2 []) s n t) (λ _. again q) s
        (show_found-Owes q wanted (collect fuel wanted 2 []) n t h) (λ _ n1 t1 h1. f n1 t1 h1)

  new_list2-frees :
      (again : ℤ → Prog ℕ) (fuel : ℕ) (q : ℤ) (wanted n : ℕ) (t : Trace)
      → ((r : ℤ) (n : ℕ) (t : Trace)
          → Owes r t
          → IfReturns (λ _ t'. allocated p t' ≡ freed p t') (again r s n t))
      → Owes q t
      → IfReturns (λ _ t'. allocated p t' ≡ freed p t') (new_list2 again fuel q wanted s n t)
  unfolding new_list2 allocated freed block
  new_list2-frees again fuel q wanted n t f h =
      IfReturns-bind (λ _ t'. Owes q t') (λ _ t'. allocated p t' ≡ freed p t')
        (grow grow_rounds 8 wanted s n t) _ s (grow-Owes q grow_rounds 8 wanted n t h)
        λ room n1 t1 h1.
          IfReturns-choose (λ _ t'. allocated p t' ≡ freed p t') (is_zero (s n1).ret)
            (call (eprintf "Memory allocation failed\n") >> (call (free q) >> pure 1))
            (list_primes fuel wanted >> again (s n1).ret) s (suc n1)
            (event (realloc q (room * 4)) (s n1) ∷ t1) (λ e. ground arith)
            (λ e.
              rest-frees again fuel (s n1).ret wanted (suc n1)
                (event (realloc q (room * 4)) (s n1) ∷ t1) (f (s n1).ret) (ground arith))

  ask_loop2-frees :
      (fuel : ℕ) (q : ℤ) (n : ℕ) (t : Trace)
      → Owes q t
      → IfReturns (λ _ t'. allocated p t' ≡ freed p t') (ask_loop2 fuel q s n t)
  unfolding ask_loop2 finish2 allocated freed
  ask_loop2-frees zero q n t h = tt
  ask_loop2-frees (suc fuel) q n t h = ground (
    arith,
    new_list2-frees (ask_loop2 fuel) fuel q (s (suc n)).out (suc (suc n))
        (event scanf (s (suc n))
          ∷ event (printf "Number of prime numbers to generate (0 to quit): ") (s n)
          ∷ t)
        (ask_loop2-frees fuel) (ground arith),
  )

main2-Frees :
    (fuel p : ℕ) (s : Script) → IfReturns (λ _ t'. allocated p t' ≡ freed p t') (main2 fuel s 0 [])
unfolding main2 allocated freed block
main2-Frees fuel p s = ask_loop2-frees p s fuel (pos 0) 0 [] refl

-- When primes2.c returns from `main`, whatever was typed and however `realloc` answered, the last one
-- that failed included, every block was freed as often as it was allocated.
pub main2-frees :
    (fuel p c n : ℕ) (s : Script) (t : Trace)
    → main2 fuel s 0 [] ≡ value c n t
    → allocated p t ≡ freed p t
main2-frees fuel p c n s t e =
    subst (IfReturns (λ _ t'. allocated p t' ≡ freed p t')) e (main2-Frees fuel p s)
