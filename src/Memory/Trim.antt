-- ===== src/Memory/Trim.antt =====
-- Code/Mastering Memory/trim.c: a menu that allocates 5 MB, frees it, and calls `malloc_trim`.
-- `choice` is a number that `scanf` stores in the reply's `out`; a negative one is, like any above
-- 4, invalid.
pub mod Menu
use linux_system_programming.Prelude.{not, suc, zero, ℕ, ◌==◌, ◌||◌}
use linux_system_programming.Prelude.Int.{eq_ℤ, is_minus_one, is_zero, pos, ℤ}
use linux_system_programming.Sys.{Prog, Reply, call, choose, pure, starve, when, ◌>>=◌, ◌>>◌}
use linux_system_programming.Sys.Calls.{free, getchar, malloc, malloc_trim, memset, printf, scanf}

-- ALLOC_SIZE
abbrev pub alloc_size : ℕ
alloc_size = 5242880

-- `while ((c = getchar ()) != '\n' && c != EOF);`, with fuel.
unfoldable pub skip_line : ℕ → Prog (Unit {0})
skip_line zero = starve
skip_line (suc fuel) = do
  c ← call getchar
  let again = skip_line fuel
  choose (eq_ℤ c.ret (pos 10) || is_minus_one c.ret) (pure tt) again

unfoldable pub show_menu : Prog (Unit {0})
show_menu = do
  call (printf "\nMemory Menu:\n")
  call (printf "1. Allocate 5MB\n")
  call (printf "2. Free memory\n")
  call (printf "3. Release memory (malloc_trim)\n")
  call (printf "4. Exit\n")
  call (printf "Enter your choice: ")
  pure tt

-- The cases of the switch: each gives the new `ptr`.
unfoldable pub allocate : ℤ → Prog ℤ
allocate ptr =
    let fill = do
      m ← call (malloc alloc_size)
      choose (is_zero m.ret) (call (printf "Allocation failed!\n") >> pure m.ret)
          (do call (memset m.ret 0 alloc_size); call (printf "Allocated 5MB.\n"); pure m.ret)
    in choose (is_zero ptr) fill
      (call (printf "Memory already allocated. Free it first.\n") >> pure ptr)

unfoldable pub release : ℤ → Prog ℤ
release ptr =
    choose (is_zero ptr) (call (printf "No memory to free.\n") >> pure ptr)
      (do call (free ptr); call (printf "Memory freed.\n"); pure (pos 0))

unfoldable pub trim : ℤ → Prog ℤ
trim ptr = do
  r ← call malloc_trim
  choose (is_zero r.ret) (call (printf "No memory released.\n") >> pure ptr)
      (call (printf "Unused heap memory released to OS.\n") >> pure ptr)

unfoldable pub leave : ℤ → Prog ℕ
leave ptr = do when (not (is_zero ptr)) (call (free ptr)); call (printf "Exiting.\n"); pure 0

-- The cases that stay in the loop.
unfoldable pub choose_item : ℕ → ℤ → Prog ℤ
unfolding allocate release trim
choose_item choice ptr = choose (choice == 1) (allocate ptr) (
    choose (choice == 2) (release ptr)
      (choose (choice == 3) (trim ptr) (call (printf "Invalid choice.\n") >> pure ptr)))

-- A round from the reply of `scanf` on; `again` is the loop that follows.
unfoldable pub round_with : (ℤ → Prog ℕ) → ℕ → ℤ → Reply → Prog ℕ
round_with again fuel ptr r =
    let retry = do skip_line fuel; again ptr
    in let item = do p ← choose_item r.out ptr; again p
      in choose (not (eq_ℤ r.ret (pos 1))) retry (choose (r.out == 4) (leave ptr) item)

-- `while (1)`, with fuel for its rounds and, in each, for the inner loop.
unfoldable pub menu_loop : ℕ → ℤ → Prog ℕ
menu_loop zero ptr = starve
menu_loop (suc fuel) ptr = do show_menu; r ← call scanf; round_with (menu_loop fuel) fuel ptr r

abbrev pub round : ℕ → ℤ → Reply → Prog ℕ
round fuel = round_with (menu_loop fuel) fuel

unfoldable pub main : ℕ → Prog ℕ
unfolding menu_loop
main fuel = menu_loop fuel (pos 0)
