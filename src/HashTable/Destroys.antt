-- ===== src/HashTable/Destroys.antt =====
-- The last reference in mutexdualarg.c: `foo_rele` takes the object out of its chain.
use linux_system_programming.HashTable.{Foo, Table, count_down, foo_rele, hash, put, settle, unlink}
use linux_system_programming.HashTable.Restores.{NotIn}
use linux_system_programming.Prelude.{
  ==_ne, ==_refl, List, [], ap, refl, some, true, ℕ, ◌++◌, ◌∙◌, ◌∷◌, ◌≡◌,
}
use linux_system_programming.Prelude.Int.{is_zero, pos, ℤ, ◌-ℤ◌}

count_down-append :
    (fs gs : List Foo) (f : Foo)
    → NotIn f.addr fs
    → count_down f.addr (fs ++ f ∷ gs)
      ≡ some (f.f_count -ℤ pos 1, fs ++ (record f { f_count = f.f_count -ℤ pos 1 } ∷ gs))
unfolding count_down
count_down-append [] gs f h = rw (==_refl f.addr) refl
count_down-append (g ∷ fs) gs f h = rw (==_ne g.addr f.addr h.0, count_down-append fs gs f h.1) refl

unlink-append :
    (fs gs : List Foo) (f : Foo) → NotIn f.addr fs → unlink f.addr (fs ++ f ∷ gs) ≡ some (fs ++ gs)
unfolding unlink
unlink-append [] gs f h = rw (==_refl f.addr) refl
unlink-append (g ∷ fs) gs f h = rw (==_ne g.addr f.addr h.0, unlink-append fs gs f h.1) refl

last_one : (c : ℤ) → c ≡ pos 1 → is_zero (c -ℤ pos 1) ≡ true
unfolding ◌-ℤ◌
last_one c e = rw e refl

-- `foo_rele` of an object with one reference takes it out of its chain, wherever it stands there, and
-- leaves the other objects and their order; the loop over the chain reads no null pointer.
pub foo_rele-unlinks :
    (id : ℕ) (fh : Table) (fs gs : List Foo) (f : Foo)
    → fh (hash id) ≡ fs ++ f ∷ gs
    → NotIn f.addr fs
    → f.f_count ≡ pos 1
    → foo_rele f.addr id fh ≡ some (put fh (hash id) (fs ++ gs))
unfolding foo_rele settle
foo_rele-unlinks id fh fs gs f e h c =
    ap (λ chain. settle f.addr (hash id) fh (count_down f.addr chain)) e
    ∙ ap (settle f.addr (hash id) fh) (count_down-append fs gs f h)
    ∙ rw (last_one f.f_count c, unlink-append fs gs (record f { f_count = f.f_count -ℤ pos 1 }) h)
        refl
