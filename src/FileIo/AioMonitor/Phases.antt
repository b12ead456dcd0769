-- ===== src/FileIo/AioMonitor/Phases.antt =====
-- How far each request of aiomonitor.c is, as the calls made so far tell, and the calls that fit it.
use linux_system_programming.FileIo.AioMonitor.{IoRequest, einprogress, in_progress}
use linux_system_programming.Prelude.{
  Bool, List, [], arith, false, if◌then◌else◌, not, refl, suc, true, ℕ, ◌&&◌, ◌+◌, ◌<◌, ◌==◌, ◌∙◌,
  ◌∷◌, ◌≡◌, ◌≢◌, ◌≤◌, ◌⊎◌,
}
use linux_system_programming.Prelude.Int.{eq_ℤ, is_minus_one}
use linux_system_programming.Sys.{
  Outcome, Prog, Script, Trace, bind_outcome, choose, event, exited, faulted, replaced, starved,
  value, when,
}
use linux_system_programming.Sys.Calls.{aio_cancel, aio_error, aio_read, aio_return}

pub data Phase : Type 0 where
  not_begun begun ended collected : Phase

abbrev pub phase : ℕ → Trace → Phase
phase j [] = not_begun
phase j (event (aio_read k fd) r ∷ t) =
    if (k == j) && not (is_minus_one r.ret) then begun else phase j t
phase j (event (aio_error k) r ∷ t) =
    if (k == j) && not (eq_ℤ r.ret einprogress) then ended else phase j t
phase j (event (aio_return k) r ∷ t) = if k == j then collected else phase j t
phase j (event _ r ∷ t) = phase j t

-- A read is begun once; its progress is looked at and it is cancelled only while it is begun and not
-- found to have ended; its result is collected only after that, and once.
abbrev pub Proper : Trace → Type 0
Proper [] = Unit
Proper (event (aio_read k fd) r ∷ t) = (phase k t ≡ not_begun) × Proper t
Proper (event (aio_cancel k fd) r ∷ t) = (phase k t ≡ begun) × Proper t
Proper (event (aio_error k) r ∷ t) = (phase k t ≡ begun) × Proper t
Proper (event (aio_return k) r ∷ t) = (phase k t ≡ ended) × Proper t
Proper (event _ r ∷ t) = Proper t

-- The calls fit however the run stands; if it comes back then `Q`, and if it ends with 0 then `E`.
abbrev pub Goes : {A : Type 0} → (Trace → Type 0) → (A → Trace → Type 0) → Outcome A → Type 0
Goes E Q (value a n t) = Proper t × Q a t
Goes E Q (exited c t) = Proper t × ((c ≢ 0) ⊎ E t)
Goes E Q (replaced t) = Proper t
Goes E Q (starved t) = Proper t
Goes E Q (faulted t) = Proper t

pub Goes-bind :
    {A B : Type 0} (E : Trace → Type 0) (P : A → Trace → Type 0) (Q : B → Trace → Type 0)
    (o : Outcome A) (k : A → Prog B) (s : Script)
    → Goes E P o
    → ((a : A) (n : ℕ) (t : Trace) → Proper t → P a t → Goes E Q (k a s n t))
    → Goes E Q (bind_outcome o k s)
Goes-bind E P Q (value a n t) k s (p, v) q = q a n t p v
Goes-bind E P Q (exited c t) k s p q = p
Goes-bind E P Q (replaced t) k s p q = p
Goes-bind E P Q (starved t) k s p q = p
Goes-bind E P Q (faulted t) k s p q = p

pub Goes-map :
    {A : Type 0} (E : Trace → Type 0) (P Q : A → Trace → Type 0) (o : Outcome A)
    → ((a : A) (t : Trace) → P a t → Q a t)
    → Goes E P o
    → Goes E Q o
Goes-map E P Q (value a n t) f (p, v) = (p, f a t v)
Goes-map E P Q (exited c t) f p = p
Goes-map E P Q (replaced t) f p = p
Goes-map E P Q (starved t) f p = p
Goes-map E P Q (faulted t) f p = p

pub Goes-when :
    {A : Type 0} (E Q : Trace → Type 0) (b : Bool) (p : Prog A) (s : Script) (n : ℕ) (t : Trace)
    → (b ≡ true → Goes E (λ _. Q) (p s n t))
    → (b ≡ false → Proper t × Q t)
    → Goes E (λ _. Q) (when b p s n t)
Goes-when E Q true p s n t f g =
    Goes-bind E (λ _. Q) (λ _. Q) (p s n t) _ s (f refl) λ _ n1 t1 p1 q1. (p1, q1)
Goes-when E Q false p s n t f g = g refl

pub Goes-choose :
    {A : Type 0} (E : Trace → Type 0) (Q : A → Trace → Type 0) (b : Bool) (p q : Prog A)
    (s : Script) (n : ℕ) (t : Trace)
    → (b ≡ true → Goes E Q (p s n t))
    → (b ≡ false → Goes E Q (q s n t))
    → Goes E Q (choose b p q s n t)
Goes-choose E Q true p q s n t f g = f refl
Goes-choose E Q false p q s n t f g = g refl

abbrev pub phase_of : IoRequest → Phase
phase_of r = if in_progress r then begun else ended

-- The requests from index `j` on are as far as their records say.
abbrev pub Match : ℕ → List IoRequest → Trace → Type 0
Match j [] t = Unit
Match j (r ∷ rs) t = (phase j t ≡ phase_of r) × Match (suc j) rs t

-- None is begun from `j` on.
abbrev pub Fresh : ℕ → Trace → Type 0
Fresh j t = (k : ℕ) → j ≤ k → phase k t ≡ not_begun

-- Those below `j`, and those from `j` on, are as far as they were.
abbrev pub Below : ℕ → Trace → Trace → Type 0
Below j t t' = (i : ℕ) → i < j → phase i t' ≡ phase i t

abbrev pub Above : ℕ → Trace → Trace → Type 0
Above j t t' = (i : ℕ) → j ≤ i → phase i t' ≡ phase i t

pub Match-Above :
    (j : ℕ) (rs : List IoRequest) (t t' : Trace) → Above j t t' → Match j rs t → Match j rs t'
Match-Above j [] t t' f m = tt
Match-Above j (r ∷ rs) t t' f (e, m) =
    (f j (omega arith) ∙ e, Match-Above (suc j) rs t t' (λ i h. f i (omega arith)) m)

-- How many are in progress.
abbrev pub progress_of : IoRequest → ℕ
progress_of r = if in_progress r then 1 else 0

abbrev pub progress : List IoRequest → ℕ
progress [] = 0
progress (r ∷ rs) = progress_of r + progress rs

-- The results of `count` requests from `j` on are collected.
abbrev pub Collected : ℕ → ℕ → Trace → Type 0
Collected j count t = (i : ℕ) → j ≤ i → i < j + count → phase i t ≡ collected
