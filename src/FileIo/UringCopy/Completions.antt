-- ===== src/FileIo/UringCopy/Completions.antt =====
-- What a completion of a request does to the ring and to the counters of uringcopyfile.c.
use linux_system_programming.FileIo.UringCopy.{
  Answers, Course, Result, Sqe, State, after_read, complete, drop_one, failed, go_on, moved,
  running, stopped, take_out, transferred, waits, write_back,
}
use linux_system_programming.Prelude.{
  Bool, List, [], ap, arith, false, if◌then◌else◌, inl, inr, length, refl, subst, suc, true, zero,
  ℕ, ◌&&◌, ◌+◌, ◌-◌, ◌<◌, ◌==◌, ◌∷◌, ◌≡◌, ◌⊎◌,
}

pub running-injective : (s t : State) → running s ≡ running t → s ≡ t
running-injective s t e = cc

pub if-keeps :
    (P : State → Type 0) (b : Bool) (s t : State) → (b ≡ true → P s) → P t → P (if b then s else t)
if-keeps P true s t f v = f refl
if-keeps P false s t f v = v

pub if-cases {ℓ} :
    {A : Type ℓ} (b : Bool) (x y z : A)
    → (if b then x else y) ≡ z
    → ((b ≡ true) × (x ≡ z)) ⊎ ((b ≡ false) × (y ≡ z))
if-cases true x y z h = inl (refl, h)
if-cases false x y z h = inr (refl, h)

pub if-running :
    (b : Bool) (x : Course) (t : State) → (if b then x else stopped) ≡ running t → x ≡ running t
if-running true x t h = h
if-running false x t h = absurd (cc)

pub if-on : (b c : Bool) → (if b then c else true) ≡ true → b ≡ true → c ≡ true
if-on true c h e = h
if-on false c h e = absurd (cc)

pub if-true : (b c : Bool) → c ≡ true → (if b then c else true) ≡ true
if-true true c h = h
if-true false c h = refl

pub both_true : (b c : Bool) → b ≡ true → c ≡ true → b && c ≡ true
both_true true c h e = e
both_true false c h e = h

abbrev pub course_ok : Course → (State → Bool) → Bool
course_ok (running s) f = f s
course_ok waits f = true
course_ok stopped f = true

pub course_ok-true :
    (x : Course) (f : State → Bool) → ((s : State) → f s ≡ true) → course_ok x f ≡ true
course_ok-true (running s) f h = h s
course_ok-true waits f h = refl
course_ok-true stopped f h = refl

pub course_ok-at :
    (x : Course) (f : State → Bool) (s : State) → course_ok x f ≡ true → x ≡ running s → f s ≡ true
course_ok-at x f s h e = subst (λ y. course_ok y f ≡ true) e h

pub go_on-running :
    (x : Course) (f : State → Course) (t : State)
    → go_on x f ≡ running t
    → (s : State) × (x ≡ running s) × (f s ≡ running t)
go_on-running (running s) f t h = (s, refl, h)
go_on-running waits f t h = absurd (cc)
go_on-running stopped f t h = absurd (cc)

pub and_both : (b c : Bool) → b && c ≡ true → (b ≡ true) × (c ≡ true)
and_both true c h = (refl, h)
and_both false c h = absurd (cc)

unfoldable pub total : List Sqe → ℕ
total [] = 0
total (q ∷ qs) = q.nbytes + total qs

pub total-take_out :
    (i : ℕ) (q : Sqe) (qs : List Sqe)
    → (take_out i q qs).0.nbytes + total (take_out i q qs).1 ≡ q.nbytes + total qs
unfolding total
total-take_out i q [] = refl
total-take_out zero q (r ∷ rs) = refl
total-take_out (suc i) q (r ∷ rs) = omega (arith, total-take_out i r rs)

pub length-take_out : (i : ℕ) (q : Sqe) (qs : List Sqe) → length (take_out i q qs).1 ≡ length qs
length-take_out i q [] = refl
length-take_out zero q (r ∷ rs) = refl
length-take_out (suc i) q (r ∷ rs) = ap suc (length-take_out i r rs)

-- A predicate of every request in a ring.
abbrev pub Every : (Sqe → Type 0) → List Sqe → Type 0
Every P [] = Unit
Every P (q ∷ qs) = P q × Every P qs

pub Every-take_out :
    (P : Sqe → Type 0) (i : ℕ) (q : Sqe) (qs : List Sqe)
    → Every P (q ∷ qs)
    → P (take_out i q qs).0 × Every P (take_out i q qs).1
Every-take_out P i q [] v = v
Every-take_out P zero q (r ∷ rs) v = v
Every-take_out P (suc i) q (r ∷ rs) (h, v) = let (o, w) = Every-take_out P i r rs v in (o, (h, w))

pub Every-taken :
    (P : Sqe → Type 0) (i : ℕ) (q : Sqe) (qs rs : List Sqe)
    → rs ≡ q ∷ qs
    → Every P rs
    → P (take_out i q qs).0 × Every P (take_out i q qs).1
Every-taken P i q qs rs e v = Every-take_out P i q qs (subst (Every P) e v)

-- A ring and what is left of it.
pub total-taken :
    (i : ℕ) (q : Sqe) (qs rs : List Sqe)
    → rs ≡ q ∷ qs
    → total rs ≡ (take_out i q qs).0.nbytes + total (take_out i q qs).1
unfolding total
total-taken i q qs rs e = rw (e, total-take_out i q qs)

pub length-taken :
    (i : ℕ) (q : Sqe) (qs rs : List Sqe)
    → rs ≡ q ∷ qs
    → length rs ≡ suc (length (take_out i q qs).1)
length-taken i q qs rs e = rw (e, length-take_out i q qs)

-- What a completion does, when the program goes on.
pub data Completed (o : Sqe) (r : Result) (s : State) : State → Type 0 where
  dropped : Completed o r s (drop_one s)
  wrote_back :
      (n : ℕ)
      → r ≡ moved n
      → (s.reqs o.slot).is_read ≡ true
      → 0 < transferred o n
      → Completed o r s (write_back o.slot (transferred o n) s)
  finished :
      (n : ℕ)
      → r ≡ moved n
      → (s.reqs o.slot).is_read ≡ false
      → Completed o r s (record s {
        finished_bytes = s.finished_bytes + transferred o n;
        inflight = s.inflight - 1;
      })

after_read-Completed :
    (a : Answers) (o : Sqe) (n : ℕ) (s t : State)
    → (s.reqs o.slot).is_read ≡ true
    → after_read a o.slot (transferred o n) s ≡ running t
    → Completed o (moved n) s t
unfolding after_read
after_read-Completed a o n s t e h = elim (if-cases (transferred o n == 0) _ _ _ h) [
  | inl (z, g) ↦ subst (Completed o (moved n) s) (running-injective _ _ g) Completed.dropped
  | inr (z, g) ↦
      subst (Completed o (moved n) s) (running-injective _ _ (if-running _ _ t g))
        (wrote_back n refl e (ground arith))
]

pub complete-Completed :
    (a : Answers) (o : Sqe) (r : Result) (s t : State)
    → complete a o r s ≡ running t
    → Completed o r s t
unfolding complete
complete-Completed a o failed s t h =
    subst (Completed o failed s) (running-injective _ _ h) Completed.dropped
complete-Completed a o (moved n) s t h = elim (if-cases ((s.reqs o.slot).is_read) _ _ _ h) [
  | inl (e, g) ↦ after_read-Completed a o n s t e g
  | inr (e, g) ↦
      subst (Completed o (moved n) s) (running-injective _ _ g) (Completed.finished n refl e)
]
