-- ===== src/Sys/Blocks.antt =====
-- What a trace says of memory: blocks of `malloc` and `realloc` and their `free`, and mappings with
-- the length that they were made with and unmapped with.
use linux_system_programming.Prelude.{[], arith, if◌then◌else◌, true, ℕ, ◌&&◌, ◌+◌, ◌==◌, ◌∷◌, ◌≡◌}
use linux_system_programming.Prelude.Int.{eq_ℤ, is_minus_one, is_zero, pos, ℤ}
use linux_system_programming.Sys.{
  AtEnd, Continues, Outcome, Prog, Reply, Script, Trace, bind_outcome, event, exited, faulted,
  replaced, starved, trace, value,
}
use linux_system_programming.Sys.Calls.{Call, calloc, free, malloc, mmap, mremap, munmap, realloc}
use linux_system_programming.Sys.Files.{one_if}

-- The number `q` is the address `p` of a block; the null pointer is none.
unfoldable pub block : ℕ → ℤ → ℕ
block p q = if is_zero q then 0 else one_if (eq_ℤ q (pos p))

pub allocated_at : ℕ → Call → Reply → ℕ
allocated_at p (malloc k) r = block p r.ret
allocated_at p (calloc k) r = block p r.ret
allocated_at p (realloc q k) r = block p r.ret
allocated_at p c r = 0

-- A `realloc` that succeeds gives its old block back; `free (NULL)` does nothing.
pub freed_at : ℕ → Call → Reply → ℕ
freed_at p (free q) r = block p q
freed_at p (realloc q k) r = if is_zero r.ret then 0 else block p q
freed_at p c r = 0

unfoldable pub allocated : ℕ → Trace → ℕ
unfolding allocated_at
allocated p [] = 0
allocated p (event c r ∷ t) = allocated p t + allocated_at p c r

unfoldable pub freed : ℕ → Trace → ℕ
unfolding freed_at
freed p [] = 0
freed p (event c r ∷ t) = freed p t + freed_at p c r

-- The `k` bytes at `b` are the `l` bytes at `a`.
unfoldable pub region : ℕ → ℕ → ℤ → ℕ → ℕ
region a l b k = one_if (eq_ℤ b (pos a) && (k == l))

pub region_failed : (a l : ℕ) (v : ℤ) (k : ℕ) → is_minus_one v ≡ true → region a l v k ≡ 0
unfolding region
region_failed a l v k h = ground arith

-- How often a mapping of `l` bytes at `a` was made, and removed with that length. A successful
-- `mremap` removes its old mapping and makes the new one.
pub mapped_at : ℕ → ℕ → Call → Reply → ℕ
mapped_at a l (mmap k d) r = region a l r.ret k
mapped_at a l (mremap b k m) r = region a l r.ret m
mapped_at a l c r = 0

pub unmapped_at : ℕ → ℕ → Call → Reply → ℕ
unmapped_at a l (munmap b k) r = region a l b k
unmapped_at a l (mremap b k m) r = if is_minus_one r.ret then 0 else region a l b k
unmapped_at a l c r = 0

unfoldable pub mapped : ℕ → ℕ → Trace → ℕ
unfolding mapped_at
mapped a l [] = 0
mapped a l (event c r ∷ t) = mapped a l t + mapped_at a l c r

unfoldable pub unmapped : ℕ → ℕ → Trace → ℕ
unfolding unmapped_at
unmapped a l [] = 0
unmapped a l (event c r ∷ t) = unmapped a l t + unmapped_at a l c r

-- A part of a run that starts after the calls `t`, with `k` blocks at address `p` to its charge,
-- frees those and all that it allocates.
abbrev pub Frees : {A : Type 0} → ℕ → ℕ → Trace → Outcome A → Type 0
Frees p k t o = allocated p (trace o) + freed p t + k ≡ freed p (trace o) + allocated p t

-- The same of mappings of `l` bytes at `a`.
abbrev pub Unmaps : {A : Type 0} → ℕ → ℕ → ℕ → Trace → Outcome A → Type 0
Unmaps a l k t o = mapped a l (trace o) + unmapped a l t + k ≡ unmapped a l (trace o) + mapped a l t

-- A part that comes back with `k'` blocks in place of the `k` it was given, and what follows, which
-- frees them if it comes to its end.
abbrev pub FreesAtEnd : {A : Type 0} → ℕ → ℕ → Trace → Outcome A → Type 0
FreesAtEnd p k t = AtEnd (λ t'. allocated p t' + freed p t + k ≡ freed p t' + allocated p t)

pub FreesAtEnd-value :
    {B : Type 0} (p k k' : ℕ) (t t' : Trace) (o : Outcome B)
    → allocated p t' + freed p t + k ≡ freed p t' + allocated p t + k'
    → FreesAtEnd p k' t' o
    → FreesAtEnd p k t o
FreesAtEnd-value p k k' t t' (value a n u) h q = omega arith
FreesAtEnd-value p k k' t t' (exited c u) h q = omega arith
FreesAtEnd-value p k k' t t' (replaced u) h q = tt
FreesAtEnd-value p k k' t t' (starved u) h q = tt
FreesAtEnd-value p k k' t t' (faulted u) h q = tt

pub FreesAtEnd-bind :
    {A B : Type 0} (p k : ℕ) (k' : A → ℕ) (t : Trace) (o : Outcome A) (f : A → Prog B) (s : Script)
    → Continues (λ a t'. allocated p t' + freed p t + k ≡ freed p t' + allocated p t + k' a) o
    → ((a : A) (n : ℕ) (t' : Trace) → FreesAtEnd p (k' a) t' (f a s n t'))
    → FreesAtEnd p k t (bind_outcome o f s)
FreesAtEnd-bind p k k' t (value a n t') f s h q = FreesAtEnd-value p k (k' a) t t' _ h (q a n t')
FreesAtEnd-bind p k k' t (exited c t') f s h q = absurd h
FreesAtEnd-bind p k k' t (replaced t') f s h q = absurd h
FreesAtEnd-bind p k k' t (starved t') f s h q = tt
FreesAtEnd-bind p k k' t (faulted t') f s h q = absurd h
