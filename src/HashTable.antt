-- ===== src/HashTable.antt =====
-- Code/Mastering Processes and Threads/mutexdualarg.c: the hash table of counted objects, with one
-- thread at a time in it, as in the first and the last loop of `main`. A chain is the list of its
-- objects; a pointer to an object is its address. The locks are left out.
pub mod Restores
pub mod Destroys
pub mod Created
use linux_system_programming.Prelude.{
  List, Option, [], if◌then◌else◌, none, some, ℕ, ◌%◌, ◌+◌, ◌==◌, ◌∷◌,
}
use linux_system_programming.Prelude.Int.{is_zero, pos, ℤ, ◌+ℤ◌, ◌-ℤ◌}
use mathlib.Core.Option

-- NHASH
abbrev pub nhash : ℕ
nhash = 29

abbrev pub hash : ℕ → ℕ
hash id = id % nhash

-- `struct foo` at an address.
pub record Foo : Type 0 where
  pub addr : ℕ
  pub f_count : ℤ
  pub f_id : ℕ

-- `fh`
abbrev pub Table : Type 0
Table = ℕ → List Foo

abbrev pub put : Table → ℕ → List Foo → Table
put fh idx chain i = if i == idx then chain else fh i

-- The object at `fp` is the block that `malloc` gave; there is none when `malloc` or
-- `pthread_mutex_init` fails.
unfoldable pub foo_alloc : ℕ → Option ℕ → Table → Option ℕ × Table
foo_alloc id none fh = (none, fh)
foo_alloc id (some fp) fh =
    (some fp, put fh (hash id) (record { addr = fp; f_count = pos 1; f_id = id } ∷ fh (hash id)))

-- The first object of the chain with the identifier, counted once more.
unfoldable pub find_in : ℕ → List Foo → Option (ℕ × List Foo)
find_in id [] = none
find_in id (f ∷ fs) =
    let longer = Option.map (λ (fp, chain). (fp, f ∷ chain)) (find_in id fs) in
    if f.f_id == id then some (f.addr, record f { f_count = f.f_count +ℤ pos 1 } ∷ fs) else longer

unfoldable pub foo_find : ℕ → Table → Option (ℕ × Table)
foo_find id fh =
    Option.map (λ (fp, chain). (fp, put fh (hash id) chain)) (find_in id (fh (hash id)))

-- `--fp->f_count`; there is no object at an address that is not in the chain.
unfoldable pub count_down : ℕ → List Foo → Option (ℤ × List Foo)
count_down fp [] = none
count_down fp (f ∷ fs) =
    let c = f.f_count -ℤ pos 1 in
    let longer = Option.map (λ (n, chain). (n, f ∷ chain)) (count_down fp fs) in
    if f.addr == fp then some (c, record f { f_count = c } ∷ fs) else longer

-- The chain without the object; the loop reads a null pointer if it is not there.
unfoldable pub unlink : ℕ → List Foo → Option (List Foo)
unlink fp [] = none
unlink fp (tfp ∷ fs) =
    let longer = Option.map (λ chain. tfp ∷ chain) (unlink fp fs) in
    if tfp.addr == fp then some fs else longer

-- What follows the count: the object is taken out of its chain when it is 0.
unfoldable pub settle : ℕ → ℕ → Table → Option (ℤ × List Foo) → Option Table
settle fp idx fh none = none
settle fp idx fh (some (n, chain)) =
    if is_zero n then Option.map (put fh idx) (unlink fp chain) else some (put fh idx chain)

-- `foo_rele` of the object at `fp` with the identifier `id`; none for an access outside the objects.
unfoldable pub foo_rele : ℕ → ℕ → Table → Option Table
foo_rele fp id fh = settle fp (hash id) fh (count_down fp (fh (hash id)))

-- The first loop of `main`; `blocks` has the block of each object. None when an allocation fails.
unfoldable pub create_all : List (Option ℕ) → ℕ → Table → Option Table
create_all [] i fh = some fh
create_all (none ∷ blocks) i fh = none
create_all (some fp ∷ blocks) i fh =
    create_all blocks (i + 1) ((foo_alloc (100 + i) (some fp) fh).1)

-- The body of the last loop of `main`, after the search.
unfoldable pub release_found : ℕ → Table → Option (ℕ × Table) → Option Table
release_found id fh none = some fh
release_found id fh (some (fp, fh')) = foo_rele fp id fh'

abbrev pub then_with : (Table → Option Table) → Option Table → Option Table
then_with f none = none
then_with f (some fh) = f fh

-- The last loop of `main`.
unfoldable pub release_all : List ℕ → Table → Option Table
release_all [] fh = some fh
release_all (id ∷ ids) fh = then_with (release_all ids) (release_found id fh (foo_find id fh))
