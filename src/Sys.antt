-- ===== src/Sys.antt =====
-- The boundary between the programs and the kernel and C library that they call. No source file is
-- modelled here: a program is a function of the replies that its calls get, and of nothing else.
pub mod Calls
pub mod Rules
pub mod Files
pub mod Blocks
use linux_system_programming.Prelude.{
  Bool, List, Option, if◌then◌else◌, none, some, suc, ℕ, ◌∷◌, ◌≡◌, ◌≢◌,
}
use linux_system_programming.Prelude.Int.{ℤ}
use linux_system_programming.Sys.Calls.{Call}

-- What one call hands back: the returned number (pointers included), `errno`, up to two numbers stored
-- through pointer arguments (a size, a wait status, the ends of a pipe), and the bytes stored in
-- a buffer.
pub record Reply : Type 0 where
  pub ret : ℤ
  pub errno : ℕ
  pub out : ℕ
  pub out2 : ℕ
  pub bytes : List ℕ

-- The replies in the order in which the calls are made. A theorem for every script is a theorem
-- for every behaviour of the kernel, the library and the user.
abbrev pub Script : Type 0
Script = ℕ → Reply

pub data Event : Type 0 where
  event : Call → Reply → Event

-- The calls made so far, the latest first.
abbrev pub Trace : Type 0
Trace = List Event

-- A program part returns a value, ends the process with an exit status, is replaced by another
-- program (`execve` and its kin), has used up the rounds that its loops were given, or has made an
-- access that C leaves undefined (a write past an array, a null pointer).
pub data Outcome (A : Type 0) : Type 0 where
  value : A → ℕ → Trace → Outcome A
  exited : ℕ → Trace → Outcome A
  replaced : Trace → Outcome A
  starved : Trace → Outcome A
  faulted : Trace → Outcome A

abbrev pub Prog : Type 0 → Type 0
Prog A = Script → ℕ → Trace → Outcome A

abbrev pub pure : {A : Type 0} → A → Prog A
pure a s n t = value a n t

abbrev pub exit_with : {A : Type 0} → ℕ → Prog A
exit_with c s n t = exited c t

abbrev pub replace : {A : Type 0} → Prog A
replace s n t = replaced t

abbrev pub starve : {A : Type 0} → Prog A
starve s n t = starved t

abbrev pub fault : {A : Type 0} → Prog A
fault s n t = faulted t

-- One call: the next reply of the script, and one more event in the trace.
abbrev pub call : Call → Prog Reply
call c s n t = value (s n) (suc n) (event c (s n) ∷ t)

abbrev pub bind_outcome : {A B : Type 0} → Outcome A → (A → Prog B) → Script → Outcome B
bind_outcome (value a n t) f s = f a s n t
bind_outcome (exited c t) f s = exited c t
bind_outcome (replaced t) f s = replaced t
bind_outcome (starved t) f s = starved t
bind_outcome (faulted t) f s = faulted t

infixl 5 ◌>>=◌ ◌>>◌
abbrev pub ◌>>=◌ : {A B : Type 0} → Prog A → (A → Prog B) → Prog B
◌>>=◌ m f s n t = bind_outcome (m s n t) f s

abbrev pub ◌>>◌ : {A B : Type 0} → Prog A → Prog B → Prog B
◌>>◌ m k = m >>= λ _. k

-- The calls of a run, however it ended.
abbrev pub trace : {A : Type 0} → Outcome A → Trace
trace (value a n t) = t
trace (exited c t) = t
trace (replaced t) = t
trace (starved t) = t
trace (faulted t) = t

-- `if (b) { p } else { q }`, split at the outcome.
abbrev pub choose : {A : Type 0} → Bool → Prog A → Prog A → Prog A
choose b p q s n t = if b then p s n t else q s n t

-- `if (b) { p }`
abbrev pub when : {A : Type 0} → Bool → Prog A → Prog (Unit {0})
when b p = choose b (p >> pure tt) (pure tt)

-- The exit status of a `main` that returned or called `exit`.
abbrev pub exit_status : Outcome ℕ → Option ℕ
exit_status (value c n t) = some c
exit_status (exited c t) = some c
exit_status (replaced t) = none
exit_status (starved t) = none
exit_status (faulted t) = none

-- The run comes back, and with a value for which `P` holds.
abbrev pub Returns : {A : Type 0} → (A → Type 0) → Outcome A → Type 0
Returns P (value a n t) = P a
Returns P (exited c t) = ⊥
Returns P (replaced t) = ⊥
Returns P (starved t) = ⊥
Returns P (faulted t) = ⊥

-- `P` of the calls so far, if the run comes back.
abbrev pub IfReturns : {A : Type 0} → (A → Trace → Type 0) → Outcome A → Type 0
IfReturns P (value a n t) = P a t
IfReturns P (exited c t) = Unit
IfReturns P (replaced t) = Unit
IfReturns P (starved t) = Unit
IfReturns P (faulted t) = Unit

-- The run comes back, and `P` holds of its value and of the calls so far.
abbrev pub Runs : {A : Type 0} → (A → Trace → Type 0) → Outcome A → Type 0
Runs P (value a n t) = P a t
Runs P (exited c t) = ⊥
Runs P (replaced t) = ⊥
Runs P (starved t) = ⊥
Runs P (faulted t) = ⊥

-- `P` of the calls made, if the program has come to its end.
abbrev pub AtEnd : {A : Type 0} → (Trace → Type 0) → Outcome A → Type 0
AtEnd P (value a n t) = P t
AtEnd P (exited c t) = P t
AtEnd P (replaced t) = Unit
AtEnd P (starved t) = Unit
AtEnd P (faulted t) = Unit

-- `P` of the calls made so far, however the run stands.
abbrev pub Throughout : {A : Type 0} → (Trace → Type 0) → Outcome A → Type 0
Throughout P o = P (trace o)

-- The run comes back with `P`, or its loops still run.
abbrev pub Continues : {A : Type 0} → (A → Trace → Type 0) → Outcome A → Type 0
Continues P (value a n t) = P a t
Continues P (exited c t) = ⊥
Continues P (replaced t) = ⊥
Continues P (starved t) = Unit
Continues P (faulted t) = ⊥

-- The run comes back, and then `P` holds; or it ends with a status that is not 0, or does not end.
abbrev pub OrFails : {A : Type 0} → (A → Trace → Type 0) → Outcome A → Type 0
OrFails P (value a n t) = P a t
OrFails P (exited c t) = c ≢ 0
OrFails P (replaced t) = Unit
OrFails P (starved t) = Unit
OrFails P (faulted t) = Unit

-- If the program ends with status 0, then `P` of the calls made.
abbrev pub OnSuccess : (Trace → Type 0) → Outcome ℕ → Type 0
OnSuccess P o = exit_status o ≡ some 0 → P (trace o)

-- No access that C leaves undefined was made, and `P` holds if the run comes back.
abbrev pub Sound : {A : Type 0} → (A → Type 0) → Outcome A → Type 0
Sound P (value a n t) = P a
Sound P (exited c t) = Unit
Sound P (replaced t) = Unit
Sound P (starved t) = Unit
Sound P (faulted t) = ⊥
