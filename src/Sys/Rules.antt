-- ===== src/Sys/Rules.antt =====
-- Rules for the outcomes of two programs in sequence, one for each predicate of outcomes.
use linux_system_programming.Prelude.{Bool, arith, false, refl, true, ℕ, ◌≡◌}
use linux_system_programming.Sys.{
  IfReturns, OnSuccess, OrFails, Outcome, Prog, Returns, Runs, Script, Sound, Throughout, Trace,
  bind_outcome, choose, exited, faulted, replaced, starved, value, when,
}

pub IfReturns-bind :
    {A B : Type 0} (P : A → Trace → Type 0) (Q : B → Trace → Type 0) (o : Outcome A)
    (k : A → Prog B) (s : Script)
    → IfReturns P o
    → ((a : A) (n : ℕ) (t : Trace) → P a t → IfReturns Q (k a s n t))
    → IfReturns Q (bind_outcome o k s)
IfReturns-bind P Q (value a n t) k s p q = q a n t p
IfReturns-bind P Q (exited c t) k s p q = tt
IfReturns-bind P Q (replaced t) k s p q = tt
IfReturns-bind P Q (starved t) k s p q = tt
IfReturns-bind P Q (faulted t) k s p q = tt

pub Returns-bind :
    {A B : Type 0} (P : A → Type 0) (Q : B → Type 0) (o : Outcome A) (k : A → Prog B) (s : Script)
    → Returns P o
    → ((a : A) (n : ℕ) (t : Trace) → P a → Returns Q (k a s n t))
    → Returns Q (bind_outcome o k s)
Returns-bind P Q (value a n t) k s p q = q a n t p
Returns-bind P Q (exited c t) k s p q = absurd p
Returns-bind P Q (replaced t) k s p q = absurd p
Returns-bind P Q (starved t) k s p q = absurd p
Returns-bind P Q (faulted t) k s p q = absurd p

pub OrFails-bind :
    {A B : Type 0} (P : A → Trace → Type 0) (Q : B → Trace → Type 0) (o : Outcome A)
    (k : A → Prog B) (s : Script)
    → OrFails P o
    → ((a : A) (n : ℕ) (t : Trace) → P a t → OrFails Q (k a s n t))
    → OrFails Q (bind_outcome o k s)
OrFails-bind P Q (value a n t) k s p q = q a n t p
OrFails-bind P Q (exited c t) k s p q = p
OrFails-bind P Q (replaced t) k s p q = tt
OrFails-bind P Q (starved t) k s p q = tt
OrFails-bind P Q (faulted t) k s p q = tt

pub OnSuccess-bind :
    {A : Type 0} (P : A → Trace → Type 0) (Q : Trace → Type 0) (o : Outcome A) (k : A → Prog ℕ)
    (s : Script)
    → OrFails P o
    → ((a : A) (n : ℕ) (t : Trace) → P a t → OnSuccess Q (k a s n t))
    → OnSuccess Q (bind_outcome o k s)
OnSuccess-bind P Q (value a n t) k s p q e = q a n t p e
OnSuccess-bind P Q (exited c t) k s p q e = absurd (p (ground arith))
OnSuccess-bind P Q (replaced t) k s p q e = ground arith
OnSuccess-bind P Q (starved t) k s p q e = ground arith
OnSuccess-bind P Q (faulted t) k s p q e = ground arith

pub OrFails-map :
    {A : Type 0} (P Q : A → Trace → Type 0) (o : Outcome A)
    → ((a : A) (t : Trace) → P a t → Q a t)
    → OrFails P o
    → OrFails Q o
OrFails-map P Q (value a n t) f p = f a t p
OrFails-map P Q (exited c t) f p = p
OrFails-map P Q (replaced t) f p = tt
OrFails-map P Q (starved t) f p = tt
OrFails-map P Q (faulted t) f p = tt

pub Runs-bind :
    {A B : Type 0} (P : A → Trace → Type 0) (Q : Outcome B → Type 0) (o : Outcome A)
    (k : A → Prog B) (s : Script)
    → Runs P o
    → ((a : A) (n : ℕ) (t : Trace) → P a t → Q (k a s n t))
    → Q (bind_outcome o k s)
Runs-bind P Q (value a n t) k s p q = q a n t p
Runs-bind P Q (exited c t) k s p q = absurd p
Runs-bind P Q (replaced t) k s p q = absurd p
Runs-bind P Q (starved t) k s p q = absurd p
Runs-bind P Q (faulted t) k s p q = absurd p

pub Throughout-bind :
    {A B : Type 0} (P : Trace → Type 0) (o : Outcome A) (k : A → Prog B) (s : Script)
    → Throughout P o
    → ((a : A) (n : ℕ) (t : Trace) → P t → Throughout P (k a s n t))
    → Throughout P (bind_outcome o k s)
Throughout-bind P (value a n t) k s p q = q a n t p
Throughout-bind P (exited c t) k s p q = p
Throughout-bind P (replaced t) k s p q = p
Throughout-bind P (starved t) k s p q = p
Throughout-bind P (faulted t) k s p q = p

pub Throughout-when :
    {A : Type 0} (P : Trace → Type 0) (b : Bool) (p : Prog A) (s : Script) (n : ℕ) (t : Trace)
    → P t
    → Throughout P (p s n t)
    → Throughout P (when b p s n t)
Throughout-when P true p s n t h q = Throughout-bind P (p s n t) _ s q λ _ _ _ r. r
Throughout-when P false p s n t h q = h

pub Throughout-then :
    {A B : Type 0} (P Q : Trace → Type 0) (o : Outcome A) (k : A → Prog B) (s : Script)
    → Throughout P o
    → ((t : Trace) → P t → Q t)
    → ((a : A) (n : ℕ) (t : Trace) → P t → Throughout Q (k a s n t))
    → Throughout Q (bind_outcome o k s)
Throughout-then P Q (value a n t) k s p w q = q a n t p
Throughout-then P Q (exited c t) k s p w q = w t p
Throughout-then P Q (replaced t) k s p w q = w t p
Throughout-then P Q (starved t) k s p w q = w t p
Throughout-then P Q (faulted t) k s p w q = w t p

pub Sound-bind :
    {A B : Type 0} (P : A → Type 0) (Q : B → Type 0) (o : Outcome A) (k : A → Prog B) (s : Script)
    → Sound P o
    → ((a : A) (n : ℕ) (t : Trace) → P a → Sound Q (k a s n t))
    → Sound Q (bind_outcome o k s)
Sound-bind P Q (value a n t) k s p q = q a n t p
Sound-bind P Q (exited c t) k s p q = tt
Sound-bind P Q (replaced t) k s p q = tt
Sound-bind P Q (starved t) k s p q = tt
Sound-bind P Q (faulted t) k s p q = absurd p

pub Sound-choose :
    {A : Type 0} (Q : A → Type 0) (b : Bool) (p q : Prog A) (s : Script) (n : ℕ) (t : Trace)
    → (b ≡ true → Sound Q (p s n t))
    → (b ≡ false → Sound Q (q s n t))
    → Sound Q (choose b p q s n t)
Sound-choose Q true p q s n t f g = f refl
Sound-choose Q false p q s n t f g = g refl

pub IfReturns-choose :
    {A : Type 0} (Q : A → Trace → Type 0) (b : Bool) (p q : Prog A) (s : Script) (n : ℕ) (t : Trace)
    → (b ≡ true → IfReturns Q (p s n t))
    → (b ≡ false → IfReturns Q (q s n t))
    → IfReturns Q (choose b p q s n t)
IfReturns-choose Q true p q s n t f g = f refl
IfReturns-choose Q false p q s n t f g = g refl
