-- ===== src/FileIo/UringCopy/Rounds.antt =====
-- What every read that is put in the ring and every completion keeps, the loop keeps.
use linux_system_programming.FileIo.UringCopy.{
  Answers, Result, Sqe, State, fill, perform, prep_read, round, run, running, serve_one, take_out,
}
use linux_system_programming.FileIo.UringCopy.Completions.{
  Completed, and_both, both_true, complete-Completed, course_ok, course_ok-at, course_ok-true,
  go_on-running, if-cases, if-keeps, if-on, if-running, if-true, running-injective,
}
use linux_system_programming.Prelude.{
  Bool, List, [], if◌then◌else◌, inl, inr, ltb, ltb→lt, refl, subst, suc, true, zero, ℕ, ◌&&◌, ◌<◌,
  ◌∷◌, ◌≡◌,
}

module _ (concurrency bufsize file_size : ℕ) (src : ℕ → ℕ) where
  -- Whether every read that is put in the ring is put there in a state with `g`.
  unfoldable pub fill_ok : (State → Bool) → ℕ → State → Bool
  fill_ok g zero s = true
  fill_ok g (suc sqes) s =
      let rest = fill_ok g sqes (prep_read concurrency bufsize file_size src s) in
      if ltb s.inflight concurrency && ltb s.next_offset file_size then g s && rest else true

  unfoldable pub run_ok : (State → Bool) → List Answers → State → Bool
  run_ok g [] s = true
  run_ok g (a ∷ answers) s =
      let rest = course_ok (round concurrency bufsize file_size src a s) (run_ok g answers) in
      if ltb s.finished_bytes file_size then fill_ok g a.sqes s && rest else true

  pub fill_ok-true : (sqes : ℕ) (s : State) → fill_ok (λ _. true) sqes s ≡ true
  unfolding fill_ok
  fill_ok-true zero s = refl
  fill_ok-true (suc sqes) s = if-true _ _ (fill_ok-true sqes _)

  run_ok-true : (answers : List Answers) (s : State) → run_ok (λ _. true) answers s ≡ true
  unfolding run_ok
  run_ok-true [] s = refl
  run_ok-true (a ∷ answers) s = if-true _ _ (
      both_true _ _ (fill_ok-true a.sqes s) (
        course_ok-true (round concurrency bufsize file_size src a s) _
          (λ u. run_ok-true answers u)))

  -- A kept predicate of the states.
  pub record Kept (g : State → Bool) (P : State → Type 0) : Type 0 where
    pub prep :
        (s : State)
        → g s ≡ true
        → s.inflight < concurrency
        → s.next_offset < file_size
        → P s
        → P (prep_read concurrency bufsize file_size src s)
    pub served :
        (i : ℕ) (r : Result) (s : State) (q : Sqe) (qs : List Sqe) (t : State)
        → s.ring ≡ q ∷ qs
        → let o = (take_out i q qs).0 in
          Completed o r
            (perform concurrency bufsize file_size src o r
              (record s { ring = (take_out i q qs).1 }))
            t
          → P s
          → P t

  pub fill-kept :
      {g : State → Bool} (P : State → Type 0)
      → ((s : State)
          → g s ≡ true
          → s.inflight < concurrency
          → s.next_offset < file_size
          → P s
          → P (prep_read concurrency bufsize file_size src s))
      → (sqes : ℕ) (s : State) → fill_ok g sqes s ≡ true
      → P s
      → P (fill concurrency bufsize file_size src sqes s)
  unfolding fill fill_ok
  fill-kept P k zero s c v = v
  fill-kept P k (suc sqes) s c v =
      if-keeps P _ _ s
        (λ e.
          let (i, n) = and_both _ _ e in
          let (f, d) = and_both _ _ (if-on _ _ c e) in
          fill-kept P k sqes _ d (k s f (ltb→lt _ _ i) (ltb→lt _ _ n) v))
        v

  module _ {g : State → Bool} (P : State → Type 0) (k : Kept g P) where
    pub fill-keeps :
        (sqes : ℕ) (s : State)
        → fill_ok g sqes s ≡ true
        → P s
        → P (fill concurrency bufsize file_size src sqes s)
    fill-keeps sqes s c v = fill-kept P k.prep sqes s c v

    serve_one-keeps :
        (a : Answers) (s t : State) (qs : List Sqe)
        → s.ring ≡ qs
        → serve_one concurrency bufsize file_size src a s qs ≡ running t
        → P s
        → P t
    unfolding serve_one
    serve_one-keeps a s t [] e h v = absurd (cc)
    serve_one-keeps a s t (q ∷ qs) e h v =
        k.served a.which a.result s q qs t e (complete-Completed a _ _ _ t h) v

    pub round-keeps :
        (a : Answers) (s t : State)
        → fill_ok g a.sqes s ≡ true
        → round concurrency bufsize file_size src a s ≡ running t
        → P s
        → P t
    unfolding round
    round-keeps a s t c h v =
        serve_one-keeps a _ t _ refl (if-running _ _ t h) (fill-keeps a.sqes s c v)

    pub run_ok-keeps :
        (answers : List Answers) (s t : State)
        → run_ok g answers s ≡ true
        → run concurrency bufsize file_size src answers s ≡ running t
        → P s
        → P t
    unfolding run run_ok
    run_ok-keeps [] s t c h v = subst P (running-injective s t h) v
    run_ok-keeps (a ∷ answers) s t c h v =
        elim (if-cases (ltb s.finished_bytes file_size) _ _ _ h) [
          | inl (e, l) ↦
              let (f, d) = and_both _ _ (if-on _ _ c e) in
              let (u, r, m) = go_on-running (round concurrency bufsize file_size src a s) _ t l in
              run_ok-keeps answers u t (course_ok-at _ _ u d r) m (round-keeps a s u f r v)
          | inr (e, l) ↦ subst P (running-injective s t l) v
        ]

  pub run-keeps :
      (P : State → Type 0)
      → Kept (λ _. true) P
      → (answers : List Answers) (s t : State)
      → run concurrency bufsize file_size src answers s ≡ running t
      → P s
      → P t
  run-keeps P k answers s t h v = run_ok-keeps P k answers s t (run_ok-true answers s) h v
