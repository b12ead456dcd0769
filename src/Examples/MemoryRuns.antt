-- ===== src/Examples/MemoryRuns.antt =====
-- remap.c, trim.c and primes.c with replies that take them through their branches.
use linux_system_programming.Examples.{answer_with, replies}
use linux_system_programming.Memory.Primes.{composite, is_prime, prime}
use linux_system_programming.Memory.Primes.Trial.{IsPrime, is_prime_lem}
use linux_system_programming.Memory.Remap.Kept.{main-keeps_mapping}
use linux_system_programming.Prelude.{
  List, [], arith, if◌then◌else◌, ltb, refl, some, ℕ, ◌∷◌, ◌≡◌, ◌⊎◌,
}
use linux_system_programming.Prelude.Int.{pos}
use linux_system_programming.Sys.{Script, exit_status, trace}
use linux_system_programming.Sys.Blocks.{mapped, unmapped}
use linux_system_programming.Memory.Remap
use linux_system_programming.Memory.Trim

abbrev two_args : List (List ℕ)
two_args = [] ∷ (97 ∷ []) ∷ []

-- open 3, a size of 10, a mapping, open 4, a size of 5, a block, a read of 5
abbrev grown : Script
grown =
    replies
      (answer_with (pos 3)
        ∷ record { ret = pos 0; errno = 0; out = 10; out2 = 0; bytes = [] }
        ∷ answer_with (pos 4096)
        ∷ answer_with (pos 4)
        ∷ record { ret = pos 0; errno = 0; out = 5; out2 = 0; bytes = [] }
        ∷ answer_with (pos 9000)
        ∷ answer_with (pos 5)
        ∷ [])
      (record { ret = pos 0; errno = 0; out = 15; out2 = 0; bytes = [] })

-- An allocation, and the exit by item 4.
abbrev allocate_and_exit : Script
allocate_and_exit i = record {
  ret = pos 1;
  errno = 0;
  out = if ltb i 8 then 1 else 4;
  out2 = 0;
  bytes = [];
}

allocate_and_exit_ends : exit_status (Trim.main 5 allocate_and_exit 0 []) ≡ some 0
unfolding Trim.main Trim.menu_loop Trim.round_with Trim.show_menu Trim.choose_item Trim.leave
    Trim.skip_line
allocate_and_exit_ends = refl

-- An append of 5 bytes to a file of 10.
main-keeps_mapping_example :
    (mapped 4096 10 (trace (Remap.main two_args grown 0 [])) ≡ 1)
    × (unmapped 4096 10 (trace (Remap.main two_args grown 0 [])) ≡ 0)
unfolding Remap.main Remap.start Remap.load Remap.append Remap.finish Remap.cleanup
main-keeps_mapping_example = main-keeps_mapping two_args grown 4096 refl (omega arith) refl

is_prime_lem_example :
    ((is_prime 7 ≡ prime) × IsPrime 7) ⊎ ((is_prime 7 ≡ composite) × (¬ IsPrime 7))
is_prime_lem_example = is_prime_lem 7 (omega arith)
