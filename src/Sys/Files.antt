-- ===== src/Sys/Files.antt =====
-- What a trace says of descriptors: which values were handed out by the calls that open one, and
-- which were closed. Used for the theorems on leaks and on double closes.
use linux_system_programming.Prelude.{
  Bool, [], arith, if◌then◌else◌, not, refl, true, ℕ, ◌+◌, ◌||◌, ◌∷◌, ◌≡◌,
}
use linux_system_programming.Prelude.Int.{eq_ℤ, is_minus_one, is_zero, negsuc, pos, ℤ}
use linux_system_programming.Sys.{
  Outcome, Prog, Reply, Runs, Script, Trace, bind_outcome, event, exited, faulted, replaced,
  starved, trace, value,
}
use linux_system_programming.Sys.Calls.{
  Call, accept, close, epoll_create1, forkpty, inotify_init1, open_name, open_path, open_proc_mem,
  pidfd_open, pipe, posix_openpt, socket, socketpair,
}

abbrev pub one_if : Bool → ℕ
one_if b = if b then 1 else 0

-- The number `y` is the descriptor `x`.
unfoldable pub held : ℕ → ℤ → ℕ
held x y = one_if (eq_ℤ y (pos x))

pub held_minus_one : (x : ℕ) → held x (negsuc 0) ≡ 0
unfolding held
held_minus_one x = refl

pub held_failed : (x : ℕ) (y : ℤ) → is_minus_one y ≡ true → held x y ≡ 0
unfolding held
held_failed x y h = ground arith

-- The reply of `fork` or `forkpty` in the parent of a new child.
abbrev pub has_child : Reply → Bool
has_child r = not (is_minus_one r.ret || is_zero r.ret)

-- How often a successful call of the event hands out `x`.
pub opened_at : ℕ → Call → Reply → ℕ
opened_at x (open_path p f) r = held x r.ret
opened_at x (open_name p f) r = held x r.ret
opened_at x (posix_openpt f) r = held x r.ret
opened_at x (socket d t p) r = held x r.ret
opened_at x (open_proc_mem p) r = held x r.ret
opened_at x (accept l) r = held x r.ret
opened_at x epoll_create1 r = held x r.ret
opened_at x inotify_init1 r = held x r.ret
opened_at x (pidfd_open p) r = held x r.ret
opened_at x forkpty r = if has_child r then held x (pos r.out) else 0
opened_at x pipe r = if is_minus_one r.ret then 0 else held x (pos r.out) + held x (pos r.out2)
opened_at x socketpair r =
    if is_minus_one r.ret then 0 else held x (pos r.out) + held x (pos r.out2)
opened_at x c r = 0

pub closed_at : ℕ → Call → ℕ
closed_at x (close y) = held x y
closed_at x c = 0

-- How often descriptor `x` was opened, and closed, in a run.
unfoldable pub opened : ℕ → Trace → ℕ
unfolding opened_at
opened x [] = 0
opened x (event c r ∷ t) = opened x t + opened_at x c r

unfoldable pub closed : ℕ → Trace → ℕ
unfolding closed_at
closed x [] = 0
closed x (event c r ∷ t) = closed x t + closed_at x c

-- A part of a run that starts after the calls `t`, with `k` descriptors of value `x` to its
-- charge, closes those and all that it opens.
abbrev pub Closes : {A : Type 0} → ℕ → ℕ → Trace → Outcome A → Type 0
Closes x k t o = opened x (trace o) + closed x t + k ≡ closed x (trace o) + opened x t

-- A part that comes back with `k'` descriptors in place of the `k` it was given, and what follows.
pub Closes-bind :
    {A B : Type 0} (x k k' : ℕ) (t : Trace) (o : Outcome A) (f : A → Prog B) (s : Script)
    → Runs (λ _ t'. opened x t' + closed x t + k ≡ closed x t' + opened x t + k') o
    → ((a : A) (n : ℕ) (t' : Trace) → Closes x k' t' (f a s n t'))
    → Closes x k t (bind_outcome o f s)
Closes-bind x k k' t (value a n t') f s p q = omega (arith, q a n t')
Closes-bind x k k' t (exited c t') f s p q = absurd p
Closes-bind x k k' t (replaced t') f s p q = absurd p
Closes-bind x k k' t (starved t') f s p q = absurd p
Closes-bind x k k' t (faulted t') f s p q = absurd p
