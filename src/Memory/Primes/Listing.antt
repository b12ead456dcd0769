-- ===== src/Memory/Primes/Listing.antt =====
-- The mains of Code/Mastering Memory/primes.c and primes2.c, which list the first numbers that
-- `is_prime` accepts. The number that `scanf` stores is the reply's `out` as 32 bits: from 2 ^ 31 on
-- it is negative. `reallocarray` is written as the `realloc` of the product.
pub mod First
pub mod Growth
use linux_system_programming.Memory.Primes.{composite, is_prime, out_of_rounds, overflow, prime}
use linux_system_programming.Prelude.{
  Bool, List, [], false, leb, length, ltb, not, suc, true, zero, ℕ, ◌*◌, ◌++◌, ◌+◌, ◌==◌, ◌^◌, ◌||◌,
  ◌∷◌,
}
use linux_system_programming.Prelude.Int.{eq_ℤ, is_zero, pos, ℤ}
use linux_system_programming.Sys.{Prog, Reply, call, choose, fault, pure, starve, ◌>>=◌, ◌>>◌}
use linux_system_programming.Sys.Calls.{eprintf, free, printf, printf_num, realloc, scanf}

-- The array `primes` once it has `n` numbers; a product that an `int` does not hold; the fuel is
-- used up.
pub data Found : Type 0 where
  listed : List ℕ → Found
  overflowed : Found
  unfinished : Found

-- `while (count < n)`, with fuel; `ps` are the numbers stored so far, `count` is their number.
unfoldable pub collect : ℕ → ℕ → ℕ → List ℕ → Found
collect zero n num ps = unfinished
collect (suc fuel) n num ps = elim (ltb (length ps) n) [
  | true ↦ elim (is_prime num) [
    | prime ↦ collect fuel n (num + 1) (ps ++ num ∷ [])
    | composite ↦ collect fuel n (num + 1) ps
    | overflow ↦ overflowed
    | out_of_rounds ↦ unfinished
  ]
  | false ↦ listed ps
]

unfoldable pub print_primes : List ℕ → Prog (Unit {0})
print_primes [] = pure tt
print_primes (p ∷ ps) = do call (printf_num "%d " (pos p)); print_primes ps

unfoldable pub show_found : ℕ → Found → Prog (Unit {0})
show_found n (listed ps) = do
  call (printf_num "First %d prime numbers:\n" (pos n))
  print_primes ps
  call (printf "\n\n")
  pure tt
show_found n overflowed = fault
show_found n unfinished = starve

-- The array and its listing in a round.
unfoldable pub list_primes : ℕ → ℕ → Prog (Unit {0})
list_primes fuel n = show_found n (collect fuel n 2 [])

-- scanf ("%d", &n) != 1 || n < 0
abbrev pub no_number : Reply → Bool
no_number r = not (eq_ℤ r.ret (pos 1)) || leb (2 ^ 31) r.out

unfoldable pub finish : ℤ → Prog ℕ
finish primes = do call (free primes); call (printf_num "%d" (pos 8)); pure 0

-- The rest of a round for `n` numbers, given the rounds that follow; sizeof (int) is 4.
unfoldable pub new_list : (ℤ → Prog ℕ) → ℕ → ℤ → ℕ → Prog ℕ
new_list again fuel primes n = do
  p ← call (realloc primes (n * 4))
  let no_room = do call (eprintf "Memory allocation failed\n"); pure 1
  choose (is_zero p.ret) no_room (list_primes fuel n >> again p.ret)

-- `while (1)` of primes.c, with fuel.
unfoldable pub ask_loop : ℕ → ℤ → Prog ℕ
ask_loop zero primes = starve
ask_loop (suc fuel) primes = do
  call (printf "Number of prime numbers to generate (0 to quit): ")
  r ← call scanf
  let stop = do call (printf "Invalid input. Exiting.\n"); finish primes
  let more_primes = new_list (ask_loop fuel) fuel primes r.out
  choose (no_number r) stop (choose (r.out == 0) (finish primes) more_primes)

unfoldable pub main : ℕ → Prog ℕ
main fuel = ask_loop fuel (pos 0)

-- `while (new_capacity < n)` of primes2.c, with fuel. A product that an `int` does not hold is a
-- fault.
unfoldable pub grow : ℕ → ℕ → ℕ → Prog ℕ
grow zero new_capacity n = starve
grow (suc fuel) new_capacity n =
    choose (ltb new_capacity n)
      (choose (ltb (new_capacity * 2) (2 ^ 31)) (grow fuel (new_capacity * 2) n) fault)
      (pure new_capacity)

-- 29 rounds take 8 to 2 ^ 31 and more.
abbrev pub grow_rounds : ℕ
grow_rounds = 29

unfoldable pub finish2 : ℤ → Prog ℕ
finish2 primes = do call (free primes); pure 0

-- `capacity` is 0 in every round, so it is not written out.
unfoldable pub new_list2 : (ℤ → Prog ℕ) → ℕ → ℤ → ℕ → Prog ℕ
new_list2 again fuel primes n = do
  new_capacity ← grow grow_rounds 8 n
  p ← call (realloc primes (new_capacity * 4))
  let no_room = do call (eprintf "Memory allocation failed\n"); call (free primes); pure 1
  choose (is_zero p.ret) no_room (list_primes fuel n >> again p.ret)

-- `while (1)` of primes2.c, with fuel.
unfoldable pub ask_loop2 : ℕ → ℤ → Prog ℕ
ask_loop2 zero primes = starve
ask_loop2 (suc fuel) primes = do
  call (printf "Number of prime numbers to generate (0 to quit): ")
  r ← call scanf
  let stop = do call (printf "Invalid input\n"); finish2 primes
  let more_primes = new_list2 (ask_loop2 fuel) fuel primes r.out
  choose (no_number r) stop (choose (r.out == 0) (finish2 primes) more_primes)

unfoldable pub main2 : ℕ → Prog ℕ
main2 fuel = ask_loop2 fuel (pos 0)
