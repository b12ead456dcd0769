-- ===== src/FileIo/UringCopy/Ends.antt =====
-- Where nothing fails, the loop of uringcopyfile.c ends with all bytes counted.
use linux_system_programming.FileIo.UringCopy.{
  Answers, Course, Req, Result, Sqe, State, after_read, before_loop, complete, failed, fill, moved,
  perform, prep_read, round, run, running, serve_one, take_out, transferred, write_back,
}
use linux_system_programming.FileIo.UringCopy.Bounded.{Slots, before_loop-Slots, round-less}
use linux_system_programming.FileIo.UringCopy.Completions.{
  Every, Every-taken, and_both, length-taken, total, total-taken,
}
use linux_system_programming.FileIo.UringCopy.Requests.{below-cases}
use linux_system_programming.FileIo.UringCopy.Rounds.{fill-kept, fill_ok-true}
use linux_system_programming.Prelude.{
  Bool, Bool-cases, List, [], ap, arith, false, if◌then◌else◌, inl, inr, leb, leb→le, length, ltb,
  ltb→lt, lt→ltb, refl, subst, suc, sym, true, zero, ℕ, ◌&&◌, ◌*◌, ◌+◌, ◌-◌, ◌<◌, ◌==◌, ◌∙◌, ◌∷◌,
  ◌≡◌, ◌≤◌,
}

-- A request for some bytes, which fit in a buffer.
abbrev Fits : ℕ → Sqe → Type 0
Fits bufsize q = (0 < q.nbytes) × (q.nbytes ≤ bufsize)

module _ (concurrency bufsize file_size : ℕ) (src : ℕ → ℕ) where
  abbrev pub full : Result → Bool
  full failed = false
  full (moved n) = leb bufsize n

  -- There is an entry for a read and one for a write, no call fails, and the request is completed
  -- in full.
  abbrev pub smooth : Answers → Bool
  smooth a =
      ltb 0 a.sqes && (a.submitted && a.waited) && (a.write_sqe && a.resubmitted) && full a.result

  abbrev pub all_smooth : List Answers → Bool
  all_smooth [] = true
  all_smooth (a ∷ answers) = smooth a && all_smooth answers

  -- No byte is lost.
  record Whole (s : State) : Type 0 where
    within : s.next_offset ≤ file_size
    flying : s.inflight ≡ length s.ring
    whole : s.finished_bytes + total s.ring + (file_size - s.next_offset) ≡ file_size
    fits : Every (Fits bufsize) s.ring

  prep_read-Whole :
      (s : State)
      → 0 < bufsize
      → s.next_offset < file_size
      → Whole s
      → Whole (prep_read concurrency bufsize file_size src s)
  unfolding prep_read total
  prep_read-Whole s b n v = record {
    within = ground arith;
    flying = omega (arith, v.flying);
    whole = ground (arith, v.whole);
    fits = ((ground arith, ground arith), v.fits);
  }

  -- The ring after the reads were put in it.
  prep_read-ring : (s : State) → 0 < length (prep_read concurrency bufsize file_size src s).ring
  unfolding prep_read
  prep_read-ring s = omega arith

  fill-ring :
      (sqes : ℕ) (s : State)
      → 0 < length s.ring
      → 0 < length (fill concurrency bufsize file_size src sqes s).ring
  fill-ring sqes s h =
      fill-kept concurrency bufsize file_size src (λ u. 0 < length u.ring)
        (λ u _ _ _ _. prep_read-ring u) sqes s
        (fill_ok-true concurrency bufsize file_size src sqes s) h

  fill_once :
      (sqes : ℕ) (s : State)
      → s.inflight < concurrency
      → s.next_offset < file_size
      → fill concurrency bufsize file_size src sqes (prep_read concurrency bufsize file_size src s)
        ≡ fill concurrency bufsize file_size src (suc sqes) s
  unfolding fill
  fill_once sqes s i n = rw (lt→ltb _ _ i, lt→ltb _ _ n)

  fill-some :
      (sqes : ℕ) (s : State)
      → 0 < concurrency
      → 0 < sqes
      → s.finished_bytes < file_size
      → Whole s
      → (qs : List Sqe) → s.ring ≡ qs
      → 0 < length (fill concurrency bufsize file_size src sqes s).ring
  unfolding total
  fill-some sqes s c p l v (q ∷ qs) e =
      fill-ring sqes s (subst (λ r. 0 < length r) (sym e) (omega arith))
  fill-some zero s c p l v [] e = absurd (omega arith)
  fill-some (suc sqes) s c p l v [] e =
      subst (λ u. 0 < length u.ring)
        (fill_once sqes s (omega (arith, v.flying, ap length e, c))
          (omega (arith, v.whole, ap total e, l)))
        (fill-ring sqes (prep_read concurrency bufsize file_size src s) (prep_read-ring s))

  in_full : (o : Sqe) (n : ℕ) → o.nbytes ≤ n → transferred o n ≡ o.nbytes
  in_full o n h = ground arith

  complete_read :
      (a : Answers) (o : Sqe) (n : ℕ) (s : State)
      → a.write_sqe && a.resubmitted ≡ true
      → (s.reqs o.slot).is_read ≡ true
      → 0 < o.nbytes
      → o.nbytes ≤ n
      → complete a o (moved n) s ≡ running (write_back o.slot o.nbytes s)
  unfolding complete after_read
  complete_read a o n s w e p q =
      let z : (o.nbytes == 0) ≡ false = ground arith in rw (e, in_full o n q, z, w)

  complete_write :
      (a : Answers) (o : Sqe) (n : ℕ) (s : State)
      → (s.reqs o.slot).is_read ≡ false
      → o.nbytes ≤ n
      → complete a o (moved n) s
        ≡ running
            (record s { finished_bytes = s.finished_bytes + o.nbytes; inflight = s.inflight - 1 })
  unfolding complete
  complete_write a o n s e q = rw (e, in_full o n q)

  complete-Whole :
      (a : Answers) (o : Sqe) (n : ℕ) (s : State)
      → a.write_sqe && a.resubmitted ≡ true
      → bufsize ≤ n
      → s.next_offset ≤ file_size
      → s.inflight ≡ suc (length s.ring)
      → s.finished_bytes + (o.nbytes + total s.ring) + (file_size - s.next_offset) ≡ file_size
      → Fits bufsize o
      → Every (Fits bufsize) s.ring
      → (t : State) × (complete a o (moved n) s ≡ running t) × Whole t
  unfolding write_back total
  complete-Whole a o n s w b i f h (p, q) d = elim (Bool-cases (s.reqs o.slot).is_read) [
    | inl e ↦ (
      _,
      complete_read a o n s w e p (omega (arith, b, q)),
      record {
        within = i;
        flying = omega (arith, f);
        whole = omega (arith, h);
        fits = ((p, q), d);
      },
    )
    | inr e ↦ (
      _,
      complete_write a o n s e (omega (arith, b, q)),
      record { within = i; flying = omega (arith, f); whole = omega (arith, h); fits = d },
    )
  ]

  serve_one-Whole :
      (a : Answers) (n : ℕ) (s : State) (qs : List Sqe)
      → s.ring ≡ qs
      → 0 < length qs
      → a.write_sqe && a.resubmitted ≡ true
      → a.result ≡ moved n
      → bufsize ≤ n
      → Whole s
      → (t : State) × (serve_one concurrency bufsize file_size src a s qs ≡ running t) × Whole t
  unfolding serve_one perform
  serve_one-Whole a n s [] e l w r b v = absurd (omega arith)
  serve_one-Whole a n s (q ∷ qs) e l w r b v =
      let o = (take_out a.which q qs).0 in
      let (f, d) = Every-taken (Fits bufsize) a.which q qs s.ring e v.fits in
      subst
        (λ x.
          (t : State) × (complete a o x (
              perform concurrency bufsize file_size src o x
                (record s { ring = (take_out a.which q qs).1 }))
            ≡ running t)
          × Whole t)
        (sym r)
        (complete-Whole a o n _ w b v.within
          (omega (arith, v.flying, length-taken a.which q qs s.ring e))
          (omega (arith, v.whole, total-taken a.which q qs s.ring e)) f d)

  moved_full : (r : Result) → full r ≡ true → (n : ℕ) × (r ≡ moved n) × (bufsize ≤ n)
  moved_full failed h = absurd (cc)
  moved_full (moved n) h = (n, refl, leb→le _ _ h)

  if_then : (d : Bool) (x y : Course) → d ≡ true → (if d then x else y) ≡ x
  if_then d x y e = rw e

  round-Whole :
      (a : Answers) (s : State)
      → 0 < concurrency
      → 0 < bufsize
      → s.finished_bytes < file_size
      → smooth a ≡ true
      → Whole s
      → (t : State) × (round concurrency bufsize file_size src a s ≡ running t) × Whole t
  unfolding round
  round-Whole a s c b l h v =
      let (h1, f) = and_both _ _ h in
      let (h2, w) = and_both _ _ h1 in
      let (q, m) = and_both _ _ h2 in
      let (n, r, k) = moved_full a.result f in
      let full_ring = fill-some a.sqes s c (ltb→lt _ _ q) l v s.ring refl in
      let x =
        fill-kept concurrency bufsize file_size src Whole (λ u _ _ i. prep_read-Whole u b i) a.sqes
          s (fill_ok-true concurrency bufsize file_size src a.sqes s) v in
      let (t, g, z) = serve_one-Whole a n _ _ refl full_ring w r k x in (t, if_then _ _ _ m ∙ g, z)

  run_left :
      (a : Answers) (answers : List Answers) (s : State)
      → file_size ≤ s.finished_bytes
      → run concurrency bufsize file_size src (a ∷ answers) s ≡ running s
  unfolding run
  run_left a answers s h = let e : ltb s.finished_bytes file_size ≡ false = ground arith in rw e

  run_on :
      (a : Answers) (answers : List Answers) (s u : State)
      → s.finished_bytes < file_size
      → round concurrency bufsize file_size src a s ≡ running u
      → run concurrency bufsize file_size src (a ∷ answers) s
        ≡ run concurrency bufsize file_size src answers u
  unfolding run
  run_on a answers s u h r = rw (lt→ltb _ _ h, r)

  run-Whole :
      (answers : List Answers) (n : ℕ) (s : State)
      → 0 < concurrency
      → 0 < bufsize
      → all_smooth answers ≡ true
      → n < length answers
      → Slots concurrency bufsize file_size src n s
      → Whole s
      → (t : State) × (run concurrency bufsize file_size src answers s ≡ running t)
        × (t.finished_bytes ≡ file_size)
  run-Whole [] n s c b h l k v = absurd (omega arith)
  run-Whole (a ∷ answers) n s c b h l k v = elim (below-cases s.finished_bytes file_size) [
    | inl e ↦
        let (f, g) = and_both _ _ h in
        let (u, r, w) = round-Whole a s c b e f v in
        let (m, y, k') = round-less concurrency bufsize file_size src n a s u b k r in
        let (t, j, d) = run-Whole answers m u c b g (omega (arith, l, y)) k' w in
        (t, run_on a answers s u e r ∙ j, d)
    | inr e ↦ (s, run_left a answers s e, omega (arith, e, v.whole))
  ]

  before_loop-Whole : (junk : ℕ → Req) → Whole (before_loop junk)
  unfolding total
  before_loop-Whole junk = record {
    within = omega arith;
    flying = refl;
    whole = omega arith;
    fits = tt;
  }

  -- With a positive concurrency and buffer size, if no call fails, the ring has an entry when one is
  -- asked for, and requests are completed in full, in any order, then more than 3 · size +
  -- concurrency replies are enough for the loop to end, with exactly the size of the file counted as
  -- finished.
  pub run-ends :
      (answers : List Answers) (junk : ℕ → Req)
      → 0 < concurrency
      → 0 < bufsize
      → all_smooth answers ≡ true
      → 3 * file_size + concurrency < length answers
      → (t : State) × (run concurrency bufsize file_size src answers (before_loop junk) ≡ running t)
        × (t.finished_bytes ≡ file_size)
  run-ends answers junk c b h l =
      run-Whole answers _ (before_loop junk) c b h l
        (before_loop-Slots concurrency bufsize file_size src junk c) (before_loop-Whole junk)
