-- ===== src/Shell/Launch/Child.antt =====
-- The descriptors of a child: a table from numbers to the open files, changed by the `dup2` and
-- `close` calls of a run, the earliest call first.
use linux_system_programming.Prelude.{
  Bool, Option, [], arith, if◌then◌else◌, none, not, true, ℕ, ◌&&◌, ◌<◌, ◌==◌, ◌||◌, ◌∷◌, ◌≡◌, ◌≢◌,
  ◌⊎◌,
}
use linux_system_programming.Prelude.Int.{is_neg, pos, ℤ}
use linux_system_programming.Shell.Launch.{redirect}
use linux_system_programming.Sys.{Script, Trace, event, trace}
use linux_system_programming.Sys.Calls.{Call, close, dup2}

abbrev pub Table : Type 0
Table = ℕ → Option ℕ

abbrev pub update : Table → ℕ → Option ℕ → Table
update f i v j = if i == j then v else f j

-- What one call does to the table: a `dup2` that fails leaves it as it is, and `close` releases the
-- descriptor whatever it returns.
pub apply : Call → ℤ → Table → Table
apply (dup2 (pos a) (pos b)) ret f = if is_neg ret then f else update f b (f a)
apply (close (pos a)) ret f = update f a none
apply c ret f = f

-- The table after the calls of the trace.
pub after : Trace → Table → Table
unfolding apply
after [] f = f
after (event c r ∷ t) f = apply c r.ret (after t f)

-- No `dup2` of the trace has failed.
unfoldable pub all_duplicated : Trace → Bool
all_duplicated [] = true
all_duplicated (event (dup2 a b) r ∷ t) = not (is_neg r.ret) && all_duplicated t
all_duplicated (event _ r ∷ t) = all_duplicated t

-- An end that `redirect` is given: it is the standard descriptor itself, or none of the three.
abbrev pub IsEnd : ℕ → ℕ → Type 0
IsEnd standard fd = (fd ≡ standard) ⊎ (2 < fd)

-- With distinct descriptors that are either the standard one itself or above 2, and if no `dup2` of
-- the run fails, the calls of `redirect` leave the files of `infile`, `outfile` and `errfile` on 0,
-- 1 and 2, and close the originals above 2; every descriptor above 2 that is not one of the three
-- is untouched.
pub redirect_lem :
    (i o e : ℕ) (s : Script) (n : ℕ) (f : Table)
    → IsEnd 0 i
    → IsEnd 1 o
    → IsEnd 2 e
    → i ≢ o
    → o ≢ e
    → i ≢ e
    → all_duplicated (trace (redirect (pos i) (pos o) (pos e) s n [])) ≡ true
    → let g = after (trace (redirect (pos i) (pos o) (pos e) s n [])) f in
      (g 0 ≡ f i)
      × (g 1 ≡ f o)
      × (g 2 ≡ f e)
      × ((x : ℕ) → 2 < x → g x ≡ (if (x == i) || (x == o) || (x == e) then none else f x))
unfolding redirect after apply all_duplicated
redirect_lem i o e s n f a b c p q r d =
    (ground arith, ground arith, ground arith, λ x h. ground arith)
