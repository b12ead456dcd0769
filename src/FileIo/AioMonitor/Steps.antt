-- ===== src/FileIo/AioMonitor/Steps.antt =====
-- Each function of aiomonitor.c keeps the calls of aio in their order.
use linux_system_programming.FileIo.AioMonitor.{
  IoRequest, cancel_all, cancel_one, cancelling, check_all, check_one, checking, in_progress,
  less_open, look_at, monitor, report_all, say_cancel, say_status, start_all, start_one,
}
use linux_system_programming.FileIo.AioMonitor.Phases.{
  Above, Below, Collected, Fresh, Goes, Goes-bind, Goes-choose, Goes-map, Goes-when, Match,
  Match-Above, Proper, begun, collected, ended, phase, phase_of, progress, progress_of,
}
use linux_system_programming.Prelude.{
  Bool-cases, List, [], arith, inl, inr, length, ltb, refl, subst, suc, sym, true, zero, ℕ,
  ℕ_discrete, ◌+◌, ◌∙◌, ◌∷◌, ◌≡◌, ◌≢◌,
}
use linux_system_programming.Sys.{Reply, Script, Trace, event, pure, when, ◌>>=◌}
use linux_system_programming.Sys.Calls.{aio_return, printf, sleep}

module _ (E : Trace → Type 0) (s : Script) where
  start_one-Goes :
      (j : ℕ) (path : List ℕ) (n : ℕ) (t : Trace)
      → Proper t
      → Fresh j t
      → Goes E
          (λ r t'.
            (phase j t' ≡ phase_of r) × (progress_of r ≡ 1) × Fresh (suc j) t' × Below j t t')
          (start_one j path s n t)
  unfolding start_one
  start_one-Goes j path n t p f = ground (arith, f j)

  cancel_one-Goes :
      (j : ℕ) (r : IoRequest) (n : ℕ) (t : Trace)
      → Proper t
      → phase j t ≡ begun
      → Goes E (λ _ t'. Above 0 t t') (cancel_one j r s n t)
  unfolding cancel_one say_cancel
  cancel_one-Goes j r n t p f = ground arith

  check_one-Goes :
      (j : ℕ) (r : IoRequest) (n : ℕ) (t : Trace)
      → Proper t
      → phase j t ≡ begun
      → Goes E
          (λ r' t'. (phase j t' ≡ phase_of r') × Below j t t' × Above (suc j) t t')
          (check_one j r s n t)
  unfolding check_one say_status
  check_one-Goes j r n t p f = ground arith

  pub start_all-Goes :
      (j : ℕ) (paths : List (List ℕ)) (n : ℕ) (t : Trace)
      → Proper t
      → Fresh j t
      → Goes E
          (λ rs t'.
            Match j rs t' × Below j t t' × (progress rs ≡ length rs) × (length rs ≡ length paths))
          (start_all j paths s n t)
  unfolding start_all
  start_all-Goes j [] n t p f = (p, (tt, (λ i h. refl), refl, refl))
  start_all-Goes j (path ∷ paths) n t p f =
      Goes-bind E _ _ (start_one j path s n t) _ s (start_one-Goes j path n t p f)
        λ r n1 t1 p1 (e, o, f1, b1).
          Goes-bind E _ _ (start_all (suc j) paths s n1 t1) _ s
            (start_all-Goes (suc j) paths n1 t1 p1 f1)
            λ rs n2 t2 p2 (m, b2, c, l). (
              p2,
              (
                (b2 j (omega arith) ∙ e, m),
                (λ i h. b2 i (omega (arith, h)) ∙ b1 i h),
                omega (arith, o, c),
                omega (arith, l),
              ),
            )

  cancel_all-Goes :
      (j : ℕ) (rs : List IoRequest) (n : ℕ) (t : Trace)
      → Proper t
      → Match j rs t
      → Goes E (λ _ t'. Above 0 t t') (cancel_all j rs s n t)
  unfolding cancel_all
  cancel_all-Goes j [] n t p m = (p, λ i h. refl)
  cancel_all-Goes j (r ∷ rs) n t p (e, m) =
      Goes-bind E (λ _ t'. Above 0 t t') (λ _ t'. Above 0 t t')
        (when (in_progress r) (cancel_one j r) s n t) _ s
        (Goes-when E (Above 0 t) (in_progress r) (cancel_one j r) s n t
          (λ b. cancel_one-Goes j r n t p (rw (e, b))) (λ b. (p, λ i h. refl)))
        λ _ n1 t1 p1 a.
          Goes-map E (λ _ t'. Above 0 t1 t') (λ _ t'. Above 0 t t') (cancel_all (suc j) rs s n1 t1)
            (λ _ t2 a2 i h. a2 i h ∙ a i h)
            (cancel_all-Goes (suc j) rs n1 t1 p1
              (Match-Above (suc j) rs t t1 (λ i h. a i (omega arith)) m))

  -- What one look at a request leaves; `others` counts the other requests in progress.
  Looked : ℕ → ℕ → Trace → IoRequest × ℕ → Trace → Type 0
  Looked j others t (r, open_reqs) t' =
      (phase j t' ≡ phase_of r)
      × Below j t t'
      × Above (suc j) t t'
      × (open_reqs ≡ others + progress_of r)

  less_open-progress :
      (r r' : IoRequest) (open_reqs others : ℕ)
      → in_progress r ≡ true
      → open_reqs ≡ others + progress_of r
      → less_open r' open_reqs ≡ others + progress_of r'
  less_open-progress r r' open_reqs others b o = elim (Bool-cases (in_progress r')) [
    | inl c ↦ rw (c, o, b)
    | inr c ↦ let e : open_reqs ≡ others + 1 = o ∙ rw b in rw c (omega (arith, e))
  ]

  look_at-Goes :
      (j : ℕ) (r : IoRequest) (open_reqs others n : ℕ) (t : Trace)
      → Proper t
      → phase j t ≡ phase_of r
      → open_reqs ≡ others + progress_of r
      → Goes E (Looked j others t) (look_at j r open_reqs s n t)
  unfolding Looked look_at
  look_at-Goes j r open_reqs others n t p e o =
      Goes-choose E (Looked j others t) (in_progress r)
        (check_one j r >>= λ r'. pure (r', less_open r' open_reqs)) (pure (r, open_reqs)) s n t
        (λ b.
          Goes-bind E (λ r' t'. (phase j t' ≡ phase_of r') × Below j t t' × Above (suc j) t t')
            (Looked j others t) (check_one j r s n t) (λ r'. pure (r', less_open r' open_reqs)) s
            (check_one-Goes j r n t p (rw (e, b)))
            λ r' n1 t1 p1 (e1, b1, a1).
              (p1, (e1, b1, a1, less_open-progress r r' open_reqs others b o)))
        (λ b. (p, (e, (λ i h. refl), (λ i h. refl), o)))

  -- What a round of looking leaves.
  Checked : ℕ → ℕ → ℕ → Trace → List IoRequest × ℕ → Trace → Type 0
  Checked j others count t (rs, open_reqs) t' =
      Match j rs t' × Below j t t' × (open_reqs ≡ others + progress rs) × (length rs ≡ count)

  check_all-Goes :
      (j : ℕ) (rs : List IoRequest) (open_reqs others n : ℕ) (t : Trace)
      → Proper t
      → Match j rs t
      → open_reqs ≡ others + progress rs
      → Goes E (Checked j others (length rs) t) (check_all j rs open_reqs s n t)
  unfolding check_all Checked Looked
  check_all-Goes j [] open_reqs others n t p m o = (p, (tt, (λ i h. refl), o, refl))
  check_all-Goes j (r ∷ rs) open_reqs others n t p (e, m) o =
      Goes-bind E (Looked j (others + progress rs) t) (Checked j others (suc (length rs)) t)
        (look_at j r open_reqs s n t) _ s
        (look_at-Goes j r open_reqs (others + progress rs) n t p e (omega (arith, o)))
        λ (r', k) n1 t1 p1 (e1, b1, a1, o1).
          Goes-bind E (Checked (suc j) (others + progress_of r') (length rs) t1)
            (Checked j others (suc (length rs)) t) (check_all (suc j) rs k s n1 t1)
            (λ (rs', k'). pure (r' ∷ rs', k')) s
            (check_all-Goes (suc j) rs k (others + progress_of r') n1 t1 p1
              (Match-Above (suc j) rs t t1 a1 m) (omega (arith, o1)))
            λ (rs', k') n2 t2 p2 (m2, b2, o2, l2). (
              p2,
              (
                (b2 j (omega arith) ∙ e1, m2),
                (λ i h. b2 i (omega (arith, h)) ∙ b1 i h),
                omega (arith, o2),
                omega (arith, l2),
              ),
            )

  cancelling-Goes :
      (rs : List IoRequest) (n : ℕ) (t : Trace)
      → Proper t
      → Match 0 rs t
      → Goes E (λ _ t'. Above 0 t t') (cancelling rs s (suc n) (event (sleep 3) (s n) ∷ t))
  unfolding cancelling
  cancelling-Goes rs n t p m =
      let u : Trace =
        event (printf "got SIGQUIT; canceling I/O requests: \n") (s (suc n))
        ∷ event (sleep 3) (s n)
        ∷ t in
      cancel_all-Goes 0 rs (suc (suc n)) u p (Match-Above 0 rs t u (λ i h. refl) m)

  checking-Goes :
      (rs : List IoRequest) (open_reqs n : ℕ) (t : Trace)
      → Proper t
      → Match 0 rs t
      → open_reqs ≡ progress rs
      → Goes E (Checked 0 0 (length rs) t) (checking rs open_reqs s n t)
  unfolding checking Checked
  checking-Goes rs open_reqs n t p m o =
      let u : Trace = event (printf "aio_error():\n") (s n) ∷ t in
      check_all-Goes 0 rs open_reqs 0 (suc n) u p (Match-Above 0 rs t u (λ i h. refl) m)
        (omega (arith, o))

  -- The loop is left with no request in progress.
  unfoldable pub Over : ℕ → List IoRequest → Trace → Type 0
  Over count rs t = Match 0 rs t × (progress rs ≡ 0) × (length rs ≡ count)

  pub monitor-Goes :
      (fuel : ℕ) (rs : List IoRequest) (open_reqs n : ℕ) (t : Trace)
      → Proper t
      → Match 0 rs t
      → open_reqs ≡ progress rs
      → Goes E (Over (length rs)) (monitor fuel rs open_reqs s n t)
  unfolding monitor Over Checked
  monitor-Goes fuel rs zero n t p m o = (p, (m, sym o, refl))
  monitor-Goes zero rs (suc k) n t p m o = p
  monitor-Goes (suc fuel) rs (suc k) n t p m o =
      Goes-bind E (λ _ t'. Above 0 t t') (Over (length rs))
        (when (ltb 0 (s n).out) (cancelling rs) s (suc n) (event (sleep 3) (s n) ∷ t))
        (λ _. checking rs (suc k) >>= λ (rs', k'). monitor fuel rs' k') s
        (Goes-when E (Above 0 t) (ltb 0 (s n).out) (cancelling rs) s (suc n)
          (event (sleep 3) (s n) ∷ t) (λ _. cancelling-Goes rs n t p m) (λ _. (p, λ i h. refl)))
        λ _ n1 t1 p1 a1.
          Goes-bind E (Checked 0 0 (length rs) t1) (Over (length rs)) (checking rs (suc k) s n1 t1)
            (λ (rs', k'). monitor fuel rs' k') s
            (checking-Goes rs (suc k) n1 t1 p1 (Match-Above 0 rs t t1 a1 m) o)
            λ (rs', k') n2 t2 p2 (m2, b2, o2, l2).
              Goes-map E (Over (length rs')) (Over (length rs)) (monitor fuel rs' k' s n2 t2)
                (λ rs'' t3 (m3, o3, l3). (m3, o3, l3 ∙ l2))
                (monitor-Goes fuel rs' k' n2 t2 p2 m2 (omega (arith, o2)))

  phase_of-over : (r : IoRequest) → progress_of r ≡ 0 → phase_of r ≡ ended
  phase_of-over r h = ground arith

  return-other :
      (j i : ℕ) (r : Reply) (t : Trace) → i ≢ j → phase i (event (aio_return j) r ∷ t) ≡ phase i t
  return-other j i r t h = ground arith

  return_self : (j : ℕ) (r : Reply) (t : Trace) → phase j (event (aio_return j) r ∷ t) ≡ collected
  return_self j r t = ground arith

  pub report_all-Goes :
      (j : ℕ) (rs : List IoRequest) (n : ℕ) (t : Trace)
      → Proper t
      → Match j rs t
      → progress rs ≡ 0
      → Goes E (λ _ t'. Below j t t' × Collected j (length rs) t') (report_all j rs s n t)
  unfolding report_all
  report_all-Goes j [] n t p m o = (p, ((λ i h. refl), λ i h l. absurd (omega arith)))
  report_all-Goes j (r ∷ rs) n t p (e, m) o =
      let o1 : progress_of r ≡ 0 = omega (arith, o) in
      let p1 : phase j t ≡ ended = e ∙ phase_of-over r o1 in
      Goes-map E _ _ (report_all (suc j) rs s (suc (suc n)) _)
        (λ _ t2 (b, c). (
          (λ i h. b i (omega (arith, h)) ∙ return-other j i (s n) t (λ d. omega (arith, d, h))),
          λ i h l. elim (ℕ_discrete i j) [
            | yes d ↦
                subst (λ k. phase k t2 ≡ collected) (sym d)
                  (b j (omega arith) ∙ return_self j (s n) t)
            | no d ↦ c i (omega (arith, h, d)) (omega (arith, l))
          ],
        ))
        (report_all-Goes (suc j) rs (suc (suc n)) _ (p1, p)
          (Match-Above (suc j) rs t _ (λ i h. return-other j i (s n) t (λ d. omega (arith, d, h)))
            m)
          (omega (arith, o)))
