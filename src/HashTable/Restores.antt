-- ===== src/HashTable/Restores.antt =====
-- `foo_find` followed by `foo_rele` in mutexdualarg.c.
-- The counts are positive.
use linux_system_programming.HashTable.{
  Foo, Table, count_down, find_in, foo_find, foo_rele, hash, put, release_all, release_found,
  settle, then_with,
}
use linux_system_programming.Prelude.{
  ==_ne, ==_refl, Bool-cases, List, [], ap, arith, false, fun_ext, inl, inr, none, refl, some,
  subst, true, ℕ, ◌==◌, ◌∙◌, ◌∷◌, ◌≡◌, ◌≢◌, ◌≤◌, ◌⊎◌,
}
use linux_system_programming.Prelude.Int.{+ℤ_cancel, is_zero, pos, pos_part, ℤ, ◌+ℤ◌}

abbrev pub Counted : List Foo → Type 0
Counted [] = Unit
Counted (f ∷ fs) = (1 ≤ pos_part f.f_count) × Counted fs

abbrev pub NotIn : ℕ → List Foo → Type 0
NotIn fp [] = Unit
NotIn fp (f ∷ fs) = (f.addr ≢ fp) × NotIn fp fs

abbrev pub Distinct : List Foo → Type 0
Distinct [] = Unit
Distinct (f ∷ fs) = NotIn f.addr fs × Distinct fs

-- An object that `find_in` counted once more, in the chain that it gives, and what `count_down` makes
-- of it: the chain as it was, with a count that is not 0.
abbrev Undone : ℕ → List Foo → ℕ → List Foo → Type 0
Undone id fs fp chain =
    (find_in id fs ≡ some (fp, chain))
    × ((c : ℤ) × (count_down fp chain ≡ some (c, fs)) × (is_zero c ≡ false))
    × ¬ NotIn fp fs

is_zero-Counted : (c : ℤ) → 1 ≤ pos_part c → is_zero c ≡ false
is_zero-Counted c h = ground arith

find_in-here :
    (id : ℕ) (f : Foo) (fs : List Foo)
    → (f.f_id == id) ≡ true
    → 1 ≤ pos_part f.f_count
    → Undone id (f ∷ fs) f.addr (record f { f_count = f.f_count +ℤ pos 1 } ∷ fs)
unfolding find_in count_down
find_in-here id f fs t c = (
  rw t refl,
  (f.f_count, rw (==_refl f.addr, +ℤ_cancel f.f_count (pos 1)) refl, is_zero-Counted f.f_count c),
  λ (h, _). h refl,
)

find_in-there :
    (id fp : ℕ) (f : Foo) (fs chain : List Foo)
    → (f.f_id == id) ≡ false
    → NotIn f.addr fs
    → Undone id fs fp chain
    → Undone id (f ∷ fs) fp (f ∷ chain)
unfolding find_in count_down
find_in-there id fp f fs chain t d (e, (c, e', z), m) =
    let ne : f.addr ≢ fp = λ q. m (subst (λ a. NotIn a fs) q d) in
    (rw (t, e) refl, (c, rw (==_ne f.addr fp ne, e') refl, z), λ (_, h). m h)

find_in-Undone :
    (id : ℕ) (fs : List Foo)
    → Counted fs
    → Distinct fs
    → (find_in id fs ≡ none) ⊎ ((fp : ℕ) × (chain : List Foo) × Undone id fs fp chain)
unfolding find_in
find_in-Undone id [] c d = inl refl
find_in-Undone id (f ∷ fs) c d = elim (Bool-cases (f.f_id == id)) [
  | inl t ↦ inr (f.addr, record f { f_count = f.f_count +ℤ pos 1 } ∷ fs, find_in-here id f fs t c.0)
  | inr t ↦ elim (find_in-Undone id fs c.1 d.1) [
    | inl e ↦ inl (rw (t, e) refl)
    | inr (fp, chain, u) ↦ inr (fp, f ∷ chain, find_in-there id fp f fs chain t d.0 u)
  ]
]

put-here : (fh : Table) (i : ℕ) (chain : List Foo) → put fh i chain i ≡ chain
put-here fh i chain = ground arith

put-put_at :
    (fh : Table) (i : ℕ) (chain : List Foo) (j : ℕ) → put (put fh i chain) i (fh i) j ≡ fh j
put-put_at fh i chain j = ground arith

put-put : (fh : Table) (i : ℕ) (chain : List Foo) → put (put fh i chain) i (fh i) ≡ fh
put-put fh i chain = fun_ext (put-put_at fh i chain)

-- The table after a count down that leaves the object.
foo_rele-keeps :
    (fp id : ℕ) (fh : Table) (c : ℤ) (chain : List Foo)
    → count_down fp (fh (hash id)) ≡ some (c, chain)
    → is_zero c ≡ false
    → foo_rele fp id fh ≡ some (put fh (hash id) chain)
unfolding foo_rele settle
foo_rele-keeps fp id fh c chain e z = ap (settle fp (hash id) fh) e ∙ rw z refl

Undone-foo_rele :
    (id fp : ℕ) (fh : Table) (chain : List Foo)
    → Undone id (fh (hash id)) fp chain
    → foo_rele fp id (put fh (hash id) chain) ≡ some fh
Undone-foo_rele id fp fh chain (e, (c, e', z), m) =
    foo_rele-keeps fp id (put fh (hash id) chain) c (fh (hash id))
      (ap (count_down fp) (put-here fh (hash id) chain) ∙ e') z
    ∙ ap some (put-put fh (hash id) chain)

-- If every count is positive and no two objects of a chain have the same address, then `foo_find` and
-- `foo_rele` of what it found give the table back as it was.
pub foo_find-foo_rele :
    (id : ℕ) (fh : Table)
    → ((i : ℕ) → Counted (fh i))
    → ((i : ℕ) → Distinct (fh i))
    → (foo_find id fh ≡ none)
      ⊎ ((fp : ℕ) × (fh' : Table) × (foo_find id fh ≡ some (fp, fh'))
          × (foo_rele fp id fh' ≡ some fh))
unfolding foo_find
foo_find-foo_rele id fh c d = elim (find_in-Undone id (fh (hash id)) (c (hash id)) (d (hash id))) [
  | inl e ↦ inl (rw e refl)
  | inr (fp, chain, u) ↦
      inr (fp, put fh (hash id) chain, rw u.0 refl, Undone-foo_rele id fp fh chain u)
]

release_found-keeps :
    (id : ℕ) (fh : Table)
    → ((i : ℕ) → Counted (fh i))
    → ((i : ℕ) → Distinct (fh i))
    → release_found id fh (foo_find id fh) ≡ some fh
unfolding release_found
release_found-keeps id fh c d = elim (foo_find-foo_rele id fh c d) [
  | inl e ↦ rw e refl
  | inr (fp, fh', e, e') ↦ rw e e'
]

-- The last loop of mutexdualarg.c destroys no object: if every count is positive and no two objects
-- of a chain have the same address, it leaves the table as it was, whatever the identifiers are.
pub release_all-keeps :
    (ids : List ℕ) (fh : Table)
    → ((i : ℕ) → Counted (fh i))
    → ((i : ℕ) → Distinct (fh i))
    → release_all ids fh ≡ some fh
unfolding release_all
release_all-keeps [] fh c d = refl
release_all-keeps (id ∷ ids) fh c d =
    ap (then_with (release_all ids)) (release_found-keeps id fh c d) ∙ release_all-keeps ids fh c d
