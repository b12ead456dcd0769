-- ===== src/FileIo/UringCopy/Accounts.antt =====
-- The counters of the loop of uringcopyfile.c.
use linux_system_programming.FileIo.UringCopy.{
  Answers, Req, Result, Sqe, State, before_loop, perform, prep_read, run, running, take_out,
  write_back,
}
use linux_system_programming.FileIo.UringCopy.Completions.{
  Completed, dropped, length-taken, total, total-taken, wrote_back,
}
use linux_system_programming.FileIo.UringCopy.Rounds.{Kept, run-keeps}
use linux_system_programming.Prelude.{List, arith, length, refl, suc, true, ℕ, ◌+◌, ◌<◌, ◌≡◌, ◌≤◌}

-- What the counters say of the ring.
pub record Counts (concurrency file_size : ℕ) (s : State) : Type 0 where
  pub within : s.next_offset ≤ file_size
  pub flying : s.inflight ≡ length s.ring
  pub room : length s.ring ≤ concurrency
  pub sum : s.finished_bytes + total s.ring ≤ s.next_offset

module _ (concurrency bufsize file_size : ℕ) (src : ℕ → ℕ) where
  prep_read-Counts :
      (s : State)
      → s.inflight < concurrency
      → s.next_offset < file_size
      → Counts concurrency file_size s
      → Counts concurrency file_size (prep_read concurrency bufsize file_size src s)
  unfolding prep_read total
  prep_read-Counts s i n v = record {
    within = ground arith;
    flying = omega (arith, v.flying);
    room = omega (arith, v.flying);
    sum = omega (arith, v.sum);
  }

  -- The ring as it was, less the request that was completed.
  Counts-Completed :
      (o : Sqe) (r : Result) (s t : State)
      → s.next_offset ≤ file_size
      → s.inflight ≡ suc (length s.ring)
      → suc (length s.ring) ≤ concurrency
      → s.finished_bytes + (o.nbytes + total s.ring) ≤ s.next_offset
      → Completed o r s t
      → Counts concurrency file_size t
  unfolding write_back total
  Counts-Completed o r s t w f l h dropped = record {
    within = w;
    flying = omega arith;
    room = omega arith;
    sum = omega arith;
  }
  Counts-Completed o r s t w f l h (wrote_back n e b p) = record {
    within = w;
    flying = omega arith;
    room = omega arith;
    sum = ground arith;
  }
  Counts-Completed o r s t w f l h (Completed.finished n e b) = record {
    within = w;
    flying = omega arith;
    room = omega arith;
    sum = ground arith;
  }

  pub Counts-Kept :
      Kept concurrency bufsize file_size src (λ _. true) (Counts concurrency file_size)
  unfolding perform total
  Counts-Kept = record {
    prep = λ s _ i n v. prep_read-Counts s i n v;
    served = λ i r s q qs t e c v.
        let l = length-taken i q qs s.ring e in
        Counts-Completed (take_out i q qs).0 r _ t v.within (omega (arith, v.flying, l))
          (omega (arith, v.room, l)) (omega (arith, v.sum, total-taken i q qs s.ring e)) c;
  }

  pub before_loop-Counts : (junk : ℕ → Req) → Counts concurrency file_size (before_loop junk)
  unfolding total
  before_loop-Counts junk = record {
    within = omega arith;
    flying = refl;
    room = omega arith;
    sum = omega arith;
  }

  -- Whatever the replies are, and in whatever order requests are completed, `inflight` is the number
  -- of requests in the ring, it is at most the concurrency, and the bytes counted as finished and
  -- those of the requests in the ring make up no more than the reads that were begun, which stay
  -- within the file.
  pub run-accounts :
      (answers : List Answers) (junk : ℕ → Req) (t : State)
      → run concurrency bufsize file_size src answers (before_loop junk) ≡ running t
      → (t.inflight ≡ length t.ring)
        × (length t.ring ≤ concurrency)
        × (t.finished_bytes + total t.ring ≤ t.next_offset)
        × (t.next_offset ≤ file_size)
  run-accounts answers junk t h =
      let v =
        run-keeps concurrency bufsize file_size src (Counts concurrency file_size) Counts-Kept
          answers (before_loop junk) t h (before_loop-Counts junk) in
      (v.flying, v.room, v.sum, v.within)
