-- ===== src/Examples/TableRuns.antt =====
-- The hash table of mutexdualarg.c with two objects in one chain, and the theorems at it.
use linux_system_programming.HashTable.{
  Foo, Table, create_all, foo_alloc, foo_rele, put, release_all,
}
use linux_system_programming.HashTable.Created.{release_all-leaks}
use linux_system_programming.HashTable.Destroys.{foo_rele-unlinks}
use linux_system_programming.Prelude.{List, Option, [], arith, refl, some, ℕ, ◌∷◌, ◌≡◌}
use linux_system_programming.Prelude.Int.{pos}

abbrev old_foo : Foo
old_foo = record { addr = 7; f_count = pos 2; f_id = 100 }

-- 129 falls into the chain of 100.
abbrev new_foo : Foo
new_foo = record { addr = 8; f_count = pos 1; f_id = 129 }

abbrev two_foos : Table
two_foos = put (λ i. []) 13 (old_foo ∷ new_foo ∷ [])

foo_rele-unlinks_example : foo_rele 8 129 two_foos ≡ some (put two_foos 13 (old_foo ∷ []))
foo_rele-unlinks_example =
    foo_rele-unlinks 129 two_foos (old_foo ∷ []) [] new_foo refl ((λ e. ground arith), tt) refl

abbrev three_blocks : List (Option ℕ)
three_blocks = some 4 ∷ some 5 ∷ some 6 ∷ []

abbrev made_table : Table
made_table =
    put
      (put (put (λ i. []) 13 (record { addr = 4; f_count = pos 1; f_id = 100 } ∷ [])) 14
        (record { addr = 5; f_count = pos 1; f_id = 101 } ∷ []))
      15 (record { addr = 6; f_count = pos 1; f_id = 102 } ∷ [])

release_all-leaks_example : release_all (100 ∷ 101 ∷ 102 ∷ []) made_table ≡ some made_table
unfolding create_all foo_alloc
release_all-leaks_example =
    release_all-leaks three_blocks (100 ∷ 101 ∷ 102 ∷ []) made_table
      (((λ e. ground arith), ((λ e. ground arith), tt)), (((λ e. ground arith), tt), (tt, tt))) refl
