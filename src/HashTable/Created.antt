-- ===== src/HashTable/Created.antt =====
-- The table that the first loop of `main` in mutexdualarg.c makes, and the last loop on it.
-- No block is that of an object of the chain.
use linux_system_programming.HashTable.{Foo, Table, create_all, foo_alloc, hash, put, release_all}
use linux_system_programming.HashTable.Restores.{Counted, Distinct, NotIn, release_all-keeps}
use linux_system_programming.Prelude.{
  Bool-cases, List, Option, [], arith, inl, inr, none, some, subst, ℕ, ◌+◌, ◌==◌, ◌∷◌, ◌≡◌, ◌≢◌,
}
use linux_system_programming.Prelude.Int.{pos}
use mathlib.Core.Option.{some-injective}

abbrev OutOf : List (Option ℕ) → List Foo → Type 0
OutOf [] fs = Unit
OutOf (none ∷ bs) fs = OutOf bs fs
OutOf (some fp ∷ bs) fs = NotIn fp fs × OutOf bs fs

abbrev NotAmong : ℕ → List (Option ℕ) → Type 0
NotAmong fp [] = Unit
NotAmong fp (none ∷ bs) = NotAmong fp bs
NotAmong fp (some b ∷ bs) = (fp ≢ b) × NotAmong fp bs

-- `malloc` gives no block twice.
abbrev pub Blocks : List (Option ℕ) → Type 0
Blocks [] = Unit
Blocks (none ∷ bs) = Blocks bs
Blocks (some fp ∷ bs) = NotAmong fp bs × Blocks bs

abbrev Sane : List (Option ℕ) → List Foo → Type 0
Sane bs fs = Counted fs × Distinct fs × OutOf bs fs

put-all :
    (P : List Foo → Type 0) (fh : Table) (idx : ℕ) (chain : List Foo)
    → P chain
    → ((i : ℕ) → P (fh i))
    → (i : ℕ) → P (put fh idx chain i)
put-all P fh idx chain p q i = elim (Bool-cases (i == idx)) [ inl e ↦ rw e p | inr e ↦ rw e (q i) ]

OutOf-cons :
    (bs : List (Option ℕ)) (f : Foo) (fs : List Foo)
    → NotAmong f.addr bs
    → OutOf bs fs
    → OutOf bs (f ∷ fs)
OutOf-cons [] f fs a o = tt
OutOf-cons (none ∷ bs) f fs a o = OutOf-cons bs f fs a o
OutOf-cons (some b ∷ bs) f fs a o = ((a.0, o.0), OutOf-cons bs f fs a.1 o.1)

create_all-Sane :
    (bs : List (Option ℕ)) (i : ℕ) (fh fh' : Table)
    → create_all bs i fh ≡ some fh'
    → Blocks bs
    → ((j : ℕ) → Sane bs (fh j))
    → (j : ℕ) → Counted (fh' j) × Distinct (fh' j)
unfolding create_all foo_alloc
create_all-Sane [] i fh fh' e b s j =
    let q : fh ≡ fh' = some-injective fh fh' e in
    subst (λ t. Counted (t j) × Distinct (t j)) q ((s j).0, (s j).1)
create_all-Sane (none ∷ bs) i fh fh' e b s j = absurd (ground arith)
create_all-Sane (some fp ∷ bs) i fh fh' e b s j =
    let f : Foo = record { addr = fp; f_count = pos 1; f_id = 100 + i } in
    let idx = hash (100 + i) in
    let (c, d, o) = s idx in
    create_all-Sane bs (i + 1) (put fh idx (f ∷ fh idx)) fh' e b.1
      (put-all (Sane bs) fh idx (f ∷ fh idx)
        ((omega arith, c), (o.0, d), OutOf-cons bs f (fh idx) b.0 o.1)
        (λ k. let (ck, dk, ok) = s k in (ck, dk, ok.1)))
      j

-- Where no worker holds a reference, the last loop of mutexdualarg.c destroys none of the objects that
-- the first loop created, with whatever blocks `malloc` gave: it leaves the table as it was.
pub release_all-leaks :
    (blocks : List (Option ℕ)) (ids : List ℕ) (fh : Table)
    → Blocks blocks
    → create_all blocks 0 (λ i. []) ≡ some fh
    → release_all ids fh ≡ some fh
release_all-leaks blocks ids fh b e = release_all-keeps ids fh (λ j. (sane j).0) (λ j. (sane j).1)
  where
    outside : (bs : List (Option ℕ)) → OutOf bs []
    outside [] = tt
    outside (none ∷ bs) = outside bs
    outside (some fp ∷ bs) = (tt, outside bs)

    sane : (j : ℕ) → Counted (fh j) × Distinct (fh j)
    sane = create_all-Sane blocks 0 (λ i. []) fh e b (λ j. (tt, tt, outside blocks))
