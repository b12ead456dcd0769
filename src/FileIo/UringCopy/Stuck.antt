-- ===== src/FileIo/UringCopy/Stuck.antt =====
-- After an error or a short transfer the loop of uringcopyfile.c has no end.
use linux_system_programming.FileIo.UringCopy.{
  Answers, Req, Result, Sqe, State, before_loop, failed, fill, moved, perform, prep_read, round,
  run, running, serve_one, take_out, write_back,
}
use linux_system_programming.FileIo.UringCopy.Completions.{
  Completed, Every, Every-taken, complete-Completed, dropped, if-running, total, total-taken,
  wrote_back,
}
use linux_system_programming.FileIo.UringCopy.Rounds.{Kept, fill-keeps, fill_ok-true, run-keeps}
use linux_system_programming.Prelude.{
  Bool, List, [], arith, false, ltb, refl, true, ℕ, ◌+◌, ◌-◌, ◌<◌, ◌∷◌, ◌≡◌, ◌≤◌,
}

-- Fewer bytes than were asked for.
abbrev pub short : Sqe → Result → Bool
short o failed = true
short o (moved n) = ltb n o.nbytes

-- A request for some bytes.
abbrev Sized : Sqe → Type 0
Sized q = 0 < q.nbytes

module _ (concurrency bufsize file_size : ℕ) (src : ℕ → ℕ) where
  -- Whether the request that a round completes falls short.
  abbrev pub short_one : Answers → List Sqe → Bool
  short_one a [] = false
  short_one a (q ∷ qs) = short (take_out a.which q qs).0 a.result

  abbrev pub falls_short : Answers → State → Bool
  falls_short a s = short_one a (fill concurrency bufsize file_size src a.sqes s).ring

  -- What was finished, is in the ring or was not begun.
  abbrev pub at_most : State → ℕ
  at_most s = s.finished_bytes + total s.ring + (file_size - s.next_offset)

  record Lost (s : State) : Type 0 where
    within : s.next_offset ≤ file_size
    less : at_most s < file_size

  prep_read-Lost :
      (s : State)
      → s.next_offset < file_size
      → Lost s
      → Lost (prep_read concurrency bufsize file_size src s)
  unfolding prep_read total
  prep_read-Lost s n v = record { within = ground arith; less = ground (arith, v.less) }

  Lost-Completed :
      (o : Sqe) (r : Result) (s t : State)
      → s.next_offset ≤ file_size
      → o.nbytes + at_most s < file_size
      → Completed o r s t
      → Lost t
  unfolding write_back total
  Lost-Completed o r s t w h dropped = record { within = w; less = omega arith }
  Lost-Completed o r s t w h (wrote_back n e b p) = record { within = w; less = ground arith }
  Lost-Completed o r s t w h (Completed.finished n e b) = record { within = w; less = ground arith }

  Lost-Kept : Kept concurrency bufsize file_size src (λ _. true) Lost
  unfolding perform
  Lost-Kept = record {
    prep = λ s _ i n v. prep_read-Lost s n v;
    served = λ i r s q qs t e c v.
        Lost-Completed (take_out i q qs).0 r _ t v.within
          (omega (arith, v.less, total-taken i q qs s.ring e)) c;
  }

  -- A short transfer loses something.
  short-Lost :
      (o : Sqe) (r : Result) (s t : State)
      → s.next_offset ≤ file_size
      → 0 < o.nbytes
      → o.nbytes + at_most s ≤ file_size
      → short o r ≡ true
      → Completed o r s t
      → Lost t
  unfolding write_back total
  short-Lost o r s t w p h g dropped = record { within = w; less = omega arith }
  short-Lost o r s t w p h g (wrote_back n e b z) = record { within = w; less = ground arith }
  short-Lost o r s t w p h g (Completed.finished n e b) = record { within = w; less = ground arith }

  -- In every state of the loop.
  record Whole (s : State) : Type 0 where
    within : s.next_offset ≤ file_size
    whole : at_most s ≤ file_size
    sized : Every Sized s.ring

  prep_read-Whole :
      (s : State)
      → 0 < bufsize
      → s.next_offset < file_size
      → Whole s
      → Whole (prep_read concurrency bufsize file_size src s)
  unfolding prep_read total
  prep_read-Whole s b n v = record {
    within = ground arith;
    whole = ground (arith, v.whole);
    sized = (ground arith, v.sized);
  }

  Whole-Completed :
      (o : Sqe) (r : Result) (s t : State)
      → s.next_offset ≤ file_size
      → o.nbytes + at_most s ≤ file_size
      → Every Sized s.ring
      → Completed o r s t
      → Whole t
  unfolding write_back total
  Whole-Completed o r s t w h z dropped = record { within = w; whole = omega arith; sized = z }
  Whole-Completed o r s t w h z (wrote_back n e b p) = record {
    within = w;
    whole = ground arith;
    sized = (p, z);
  }
  Whole-Completed o r s t w h z (Completed.finished n e b) = record {
    within = w;
    whole = ground arith;
    sized = z;
  }

  Whole-Kept : 0 < bufsize → Kept concurrency bufsize file_size src (λ _. true) Whole
  unfolding perform
  Whole-Kept b = record {
    prep = λ s _ i n v. prep_read-Whole s b n v;
    served = λ i r s q qs t e c v.
        Whole-Completed (take_out i q qs).0 r _ t v.within
          (omega (arith, v.whole, total-taken i q qs s.ring e))
          (Every-taken Sized i q qs s.ring e v.sized).1 c;
  }

  serve_one-Lost :
      (a : Answers) (s t : State) (qs : List Sqe)
      → s.ring ≡ qs
      → Whole s
      → short_one a qs ≡ true
      → serve_one concurrency bufsize file_size src a s qs ≡ running t
      → Lost t
  unfolding serve_one perform
  serve_one-Lost a s t [] e v g h = absurd (cc)
  serve_one-Lost a s t (q ∷ qs) e v g h =
      short-Lost (take_out a.which q qs).0 a.result _ t v.within
        (Every-taken Sized a.which q qs s.ring e v.sized).0
        (omega (arith, v.whole, total-taken a.which q qs s.ring e)) g
        (complete-Completed a _ _ _ t h)

  round-Lost :
      (a : Answers) (s t : State)
      → 0 < bufsize
      → Whole s
      → falls_short a s ≡ true
      → round concurrency bufsize file_size src a s ≡ running t
      → Lost t
  unfolding round
  round-Lost a s t b v g h =
      let w =
        fill-keeps concurrency bufsize file_size src Whole (Whole-Kept b) a.sqes s
          (fill_ok-true concurrency bufsize file_size src a.sqes s) v in
      serve_one-Lost a _ t _ refl w g (if-running _ _ t h)

  before_loop-Whole : (junk : ℕ → Req) → Whole (before_loop junk)
  unfolding total
  before_loop-Whole junk = record { within = omega arith; whole = omega arith; sized = tt }

  -- With a positive buffer size, once a completed request has failed or has moved fewer bytes than
  -- it asked for, the bytes counted as finished stay below the size of the file, whatever the replies
  -- after it are: the loop does not end any more.
  pub run-stuck :
      (earlier : List Answers) (junk : ℕ → Req) (a : Answers) (s t : State) (answers : List Answers)
      (u : State)
      → 0 < bufsize
      → run concurrency bufsize file_size src earlier (before_loop junk) ≡ running s
      → falls_short a s ≡ true
      → round concurrency bufsize file_size src a s ≡ running t
      → run concurrency bufsize file_size src answers t ≡ running u
      → u.finished_bytes < file_size
  run-stuck earlier junk a s t answers u b e g r h =
      let w =
        run-keeps concurrency bufsize file_size src Whole (Whole-Kept b) earlier (before_loop junk)
          s e (before_loop-Whole junk) in
      let v =
        run-keeps concurrency bufsize file_size src Lost Lost-Kept answers t u h
          (round-Lost a s t b w g r) in
      omega (arith, v.less)
