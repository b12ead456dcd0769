-- ===== src/FileIo/AioMonitor/Proper.antt =====
-- aiomonitor.c calls aio in the right order for every request.
use linux_system_programming.FileIo.AioMonitor.{
  IoRequest, main, monitor, report_all, start_all, try_call, watch,
}
use linux_system_programming.FileIo.AioMonitor.Phases.{
  Below, Collected, Fresh, Goes, Goes-bind, Goes-map, Match, Match-Above, Proper, collected, phase,
  progress,
}
use linux_system_programming.FileIo.AioMonitor.Steps.{
  Over, monitor-Goes, report_all-Goes, start_all-Goes,
}
use linux_system_programming.Prelude.{
  Bool, Bool-cases, List, String, [], arith, inl, inr, length, refl, some, subst, suc, sym, ℕ, ◌<◌,
  ◌∙◌, ◌∷◌, ◌≡◌,
}
use linux_system_programming.Prelude.Int.{is_minus_one, is_zero, ℤ}
use linux_system_programming.Sys.{
  Outcome, Reply, Script, Throughout, Trace, event, exit_status, exit_with, exited, faulted,
  replaced, starved, trace, value, ◌>>=◌,
}
use linux_system_programming.Sys.Calls.{Call, calloc, printf, sigaction}
use mathlib.Core.Option.{some-injective}

module _ (E : Trace → Type 0) (s : Script) where
  watch-Goes :
      (fuel : ℕ) (rs : List IoRequest) (n : ℕ) (t : Trace)
      → ((t' : Trace) → Collected 0 (length rs) t' → E t')
      → Proper t
      → Match 0 rs t
      → progress rs ≡ length rs
      → Goes E (λ _ _. ⊥) (watch fuel rs s n t)
  unfolding watch Over
  watch-Goes fuel rs n t w p m o =
      Goes-bind E (Over E s (length rs)) (λ _ _. ⊥) (monitor fuel rs (length rs) s n t) _ s
        (monitor-Goes E s fuel rs (length rs) n t p m (sym o))
        λ rs' n1 t1 p1 (m1, o1, l1).
          let u : Trace =
            event (printf "aio_return():\n") (s (suc n1))
            ∷ event (printf "All I/O requests completed\n") (s n1)
            ∷ t1 in
          Goes-bind E (λ _ t'. Collected 0 (length rs') t') (λ _ _. ⊥)
            (report_all 0 rs' s (suc (suc n1)) u) (λ _. exit_with {A = ℕ} 0) s
            (Goes-map E (λ _ t'. Below 0 u t' × Collected 0 (length rs') t')
              (λ _ t'. Collected 0 (length rs') t') (report_all 0 rs' s (suc (suc n1)) u)
              (λ _ t2 (b, c). c)
              (report_all-Goes E s 0 rs' (suc (suc n1)) u p1
                (Match-Above 0 rs' t1 u (λ i h. refl) m1) o1))
            λ _ n2 t2 p2 c. (p2, inr (w t2 (subst (λ k. Collected 0 k t2) l1 c)))

  begin-Goes :
      (fuel : ℕ) (paths : List (List ℕ)) (n : ℕ) (t : Trace)
      → ((t' : Trace) → Collected 0 (length paths) t' → E t')
      → Proper t
      → Fresh 0 t
      → Goes E (λ _ _. ⊥) ((start_all 0 paths >>= λ rs. watch fuel rs) s n t)
  begin-Goes fuel paths n t w p f =
      Goes-bind E
        (λ rs t'.
          Match 0 rs t' × Below 0 t t' × (progress rs ≡ length rs) × (length rs ≡ length paths))
        (λ _ _. ⊥) (start_all 0 paths s n t) (λ rs. watch fuel rs) s
        (start_all-Goes E s 0 paths n t p f)
        λ rs n1 t1 p1 (m, b, c, l).
          watch-Goes fuel rs n1 t1 (λ t' d. w t' (subst (λ k. Collected 0 k t') l d)) p1 m c

  -- A call that is not of aio.
  abbrev Plain : Call → Type 0
  Plain c =
      (i : ℕ) (r : Reply) (t : Trace)
      → (phase i (event c r ∷ t) ≡ phase i t) × (Proper t → Proper (event c r ∷ t))

  try_call-Goes :
      (c : Call) (bad : ℤ → Bool) (what : String) (n : ℕ) (t : Trace)
      → Plain c
      → Proper t
      → Fresh 0 t
      → Goes E (λ _ t'. Fresh 0 t') (try_call c bad what s n t)
  unfolding try_call
  try_call-Goes c bad what n t g p f = elim (Bool-cases (bad (s n).ret)) [
    | inl b ↦ rw b ((g 0 (s n) t).1 p, inl (omega arith))
    | inr b ↦ rw b ((g 0 (s n) t).1 p, λ k h. (g k (s n) t).0 ∙ f k h)
  ]

  main-Goes :
      (fuel : ℕ) (argv : List (List ℕ)) (n : ℕ)
      → ((t' : Trace) → Collected 0 (length argv) t' → E t')
      → Goes E (λ _ _. ⊥) (main fuel argv s n [])
  unfolding main
  main-Goes fuel [] n w = (tt, inl (omega arith))
  main-Goes fuel (path ∷ paths) n w =
      Goes-bind E (λ _. Fresh 0) (λ _ _. ⊥)
        (try_call (calloc (suc (length paths))) is_zero "calloc" s n []) _ s
        (try_call-Goes (calloc (suc (length paths))) is_zero "calloc" n [] (λ i r t. (refl, λ p. p))
          tt (λ k h. refl))
        λ _ n1 t1 p1 f1.
          Goes-bind E (λ _. Fresh 0) (λ _ _. ⊥)
            (try_call (calloc (suc (length paths))) is_zero "calloc" s n1 t1) _ s
            (try_call-Goes (calloc (suc (length paths))) is_zero "calloc" n1 t1
              (λ i r t. (refl, λ p. p)) p1 f1)
            λ _ n2 t2 p2 f2.
              Goes-bind E (λ _. Fresh 0) (λ _ _. ⊥)
                (try_call (sigaction 3) is_minus_one "sigaction" s n2 t2) _ s
                (try_call-Goes (sigaction 3) is_minus_one "sigaction" n2 t2
                  (λ i r t. (refl, λ p. p)) p2 f2)
                λ _ n3 t3 p3 f3.
                  Goes-bind E (λ _. Fresh 0) (λ _ _. ⊥)
                    (try_call (sigaction 10) is_minus_one "sigaction" s n3 t3) _ s
                    (try_call-Goes (sigaction 10) is_minus_one "sigaction" n3 t3
                      (λ i r t. (refl, λ p. p)) p3 f3)
                    λ _ n4 t4 p4 f4. begin-Goes fuel (path ∷ paths) n4 t4 w p4 f4

Goes-Throughout :
    {A : Type 0} (E : Trace → Type 0) (Q : A → Trace → Type 0) (o : Outcome A)
    → Goes E Q o
    → Throughout Proper o
Goes-Throughout E Q (value a n t) (p, q) = p
Goes-Throughout E Q (exited c t) (p, q) = p
Goes-Throughout E Q (replaced t) p = p
Goes-Throughout E Q (starved t) p = p
Goes-Throughout E Q (faulted t) p = p

Goes-success :
    (E : Trace → Type 0) (o : Outcome ℕ)
    → Goes E (λ _ _. ⊥) o
    → exit_status o ≡ some 0
    → E (trace o)
Goes-success E (value a n t) (p, q) h = absurd q
Goes-success E (exited c t) (p, inl q) h = absurd (q (some-injective _ _ h))
Goes-success E (exited c t) (p, inr q) h = q
Goes-success E (replaced t) p h = absurd (cc)
Goes-success E (starved t) p h = absurd (cc)
Goes-success E (faulted t) p h = absurd (cc)

-- However the calls are answered and whenever SIGQUIT comes, aiomonitor.c begins the read of each
-- request once; it asks for the progress of a request or cancels it only while it is begun and
-- `aio_error` has told nothing but EINPROGRESS of it; and it collects its result only after `aio_error`
-- has told something else, and once.
pub main-Proper :
    (fuel : ℕ) (argv : List (List ℕ)) (s : Script) → Throughout Proper (main fuel argv s 0 [])
main-Proper fuel argv s =
    Goes-Throughout (λ _. Unit {0}) (λ _ _. ⊥) (main fuel argv s 0 [])
      (main-Goes (λ _. Unit {0}) s fuel argv 0 (λ _ _. tt))

-- When aiomonitor.c ends with status 0, the result of the request for each of its arguments was
-- collected.
pub main-collects :
    (fuel : ℕ) (argv : List (List ℕ)) (s : Script) (i : ℕ)
    → exit_status (main fuel argv s 0 []) ≡ some 0
    → i < length argv
    → phase i (trace (main fuel argv s 0 [])) ≡ collected
main-collects fuel argv s i h l =
    Goes-success (Collected 0 (length argv)) (main fuel argv s 0 [])
      (main-Goes (Collected 0 (length argv)) s fuel argv 0 (λ t c. c)) h i (omega arith)
      (omega (arith, l))
