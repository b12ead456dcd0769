-- ===== src/Memory/Trim/Menu.antt =====
-- The block of trim.c: one at most, freed once; and what happens at the end of the input.
use linux_system_programming.Memory.Trim.{
  choose_item, leave, main, menu_loop, round, round_with, show_menu, skip_line,
}
use linux_system_programming.Prelude.{
  Bool-cases, [], arith, inl, inr, none, not, refl, suc, zero, ℕ, ◌+◌, ◌==◌, ◌||◌, ◌∷◌, ◌≡◌,
}
use linux_system_programming.Prelude.Int.{eq_ℤ, is_minus_one, negsuc, pos, ℤ}
use linux_system_programming.Sys.{
  AtEnd, Continues, Outcome, Prog, Reply, Script, Trace, event, exit_status, exited, faulted,
  replaced, starved, value, ◌>>◌,
}
use linux_system_programming.Sys.Blocks.{
  FreesAtEnd, FreesAtEnd-bind, FreesAtEnd-value, allocated, block, freed,
}
use linux_system_programming.Sys.Calls.{getchar, scanf}

show_menu-steady :
    (k : ℕ) (s : Script) (n : ℕ) (t : Trace) (p : ℕ)
    → Continues
        (λ _ t'. allocated p t' + freed p t + k ≡ freed p t' + allocated p t + k)
        (show_menu s n t)
unfolding show_menu allocated freed
show_menu-steady k s n t p = omega arith

skip_line-steady :
    (fuel k : ℕ) (s : Script) (n : ℕ) (t : Trace) (p : ℕ)
    → Continues
        (λ _ t'. allocated p t' + freed p t + k ≡ freed p t' + allocated p t + k)
        (skip_line fuel s n t)
unfolding skip_line allocated freed
skip_line-steady zero k s n t p = tt
skip_line-steady (suc fuel) k s n t p =
    elim (Bool-cases (eq_ℤ (s n).ret (pos 10) || is_minus_one (s n).ret)) [
      | inl e ↦ rw e (omega arith)
      | inr e ↦ rw e (ground (arith, skip_line-steady fuel k s (suc n) (event getchar (s n) ∷ t) p))
    ]

choose_item-steady :
    (choice : ℕ) (ptr : ℤ) (s : Script) (n : ℕ) (t : Trace) (p : ℕ)
    → Continues
        (λ q t'. allocated p t' + freed p t + block p ptr ≡ freed p t' + allocated p t + block p q)
        (choose_item choice ptr s n t)
unfolding choose_item allocated freed block
choose_item-steady choice ptr s n t p = ground arith

leave-FreesAtEnd :
    (ptr : ℤ) (s : Script) (n : ℕ) (t : Trace) (p : ℕ)
    → FreesAtEnd p (block p ptr) t (leave ptr s n t)
unfolding leave allocated freed block
leave-FreesAtEnd ptr s n t p = ground arith

-- One round from the reply of `scanf` on, given the loop that follows.
item-FreesAtEnd :
    (fuel : ℕ) (ptr : ℤ) (s : Script) (r : Reply) (n : ℕ) (t : Trace) (p : ℕ)
    → ((q : ℤ) (n : ℕ) (t : Trace) → FreesAtEnd p (block p q) t (menu_loop fuel q s n t))
    → FreesAtEnd p (block p ptr) t (round fuel ptr r s n t)
unfolding round_with
item-FreesAtEnd fuel ptr s r n t p rest = elim (Bool-cases (not (eq_ℤ r.ret (pos 1)))) [
  | inl e ↦ rw e (
      FreesAtEnd-bind p (block p ptr) (λ _. block p ptr) t _ _ s
        (skip_line-steady fuel (block p ptr) s n t p) (λ _. rest ptr))
  | inr e ↦ elim (Bool-cases (r.out == 4)) [
    | inl f ↦ rw (e, f) (leave-FreesAtEnd ptr s n t p)
    | inr f ↦
        rw (e, f)
          (FreesAtEnd-bind p (block p ptr) (block p) t _ _ s (choose_item-steady r.out ptr s n t p)
            rest)
  ]
]

menu_loop-FreesAtEnd :
    (fuel : ℕ) (ptr : ℤ) (s : Script) (n : ℕ) (t : Trace) (p : ℕ)
    → FreesAtEnd p (block p ptr) t (menu_loop fuel ptr s n t)
unfolding menu_loop allocated freed
menu_loop-FreesAtEnd zero ptr s n t p = tt
menu_loop-FreesAtEnd (suc fuel) ptr s n t p =
    FreesAtEnd-bind p (block p ptr) (λ _. block p ptr) t _ _ s
      (show_menu-steady (block p ptr) s n t p)
      λ _ n' t'.
        FreesAtEnd-value p (block p ptr) (block p ptr) t' (event scanf (s n') ∷ t') _ (omega arith)
          (item-FreesAtEnd fuel ptr s (s n') (suc n') (event scanf (s n') ∷ t') p
            λ q n'' t''. menu_loop-FreesAtEnd fuel q s n'' t'' p)

balance :
    {A : Type 0} (p : ℕ) (o : Outcome A)
    → FreesAtEnd p (block p (pos 0)) [] o
    → AtEnd (λ t. allocated p t ≡ freed p t) o
unfolding block allocated freed
balance p (value a n t) h = omega arith
balance p (exited c t) h = omega arith
balance p (replaced t) h = tt
balance p (starved t) h = tt
balance p (faulted t) h = tt

-- Whatever the user enters and `malloc` answers, when trim.c ends every block that it allocated has
-- been freed as often as it was allocated: none is leaked and none is freed twice.
pub main-frees :
    (fuel : ℕ) (s : Script) (p : ℕ) → AtEnd (λ t. allocated p t ≡ freed p t) (main fuel s 0 [])
unfolding main
main-frees fuel s p = balance p _ (menu_loop-FreesAtEnd fuel (pos 0) s 0 [] p)

skip_line-eof :
    (fuel : ℕ) (again : Prog ℕ) (s : Script) (n : ℕ) (t : Trace)
    → ((i : ℕ) → (s i).ret ≡ negsuc 0)
    → ((n : ℕ) (t : Trace) → exit_status (again s n t) ≡ none)
    → exit_status ((skip_line fuel >> again) s n t) ≡ none
unfolding skip_line
skip_line-eof zero again s n t h k = refl
skip_line-eof (suc fuel) again s n t h k = rw (h n) (k (suc n) _)

menu_loop-eof :
    (fuel : ℕ) (ptr : ℤ) (s : Script) (n : ℕ) (t : Trace)
    → ((i : ℕ) → (s i).ret ≡ negsuc 0)
    → exit_status (menu_loop fuel ptr s n t) ≡ none
unfolding menu_loop round_with show_menu
menu_loop-eof zero ptr s n t h = refl
menu_loop-eof (suc fuel) ptr s n t h =
    rw (h (suc (suc (suc (suc (suc (suc n)))))))
      (skip_line-eof fuel (menu_loop fuel ptr) s _ _ h (λ n' t'. menu_loop-eof fuel ptr s n' t' h))

-- At the end of the input, where `scanf` and `getchar` both return EOF, trim.c never ends: with any
-- number of rounds it is still asking.
pub main-eof_loops :
    (fuel : ℕ) (s : Script)
    → ((i : ℕ) → (s i).ret ≡ negsuc 0)
    → exit_status (main fuel s 0 []) ≡ none
unfolding main
main-eof_loops fuel s h = menu_loop-eof fuel (pos 0) s 0 [] h
