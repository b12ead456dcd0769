-- ===== src/FileIo/UringCopy/Copied.antt =====
-- The data that the loop of uringcopyfile.c copies, where no slot is taken before its time.
use linux_system_programming.FileIo.UringCopy.{
  Answers, Req, Result, Sqe, State, before_loop, bufs_after, moved, out_after, perform, prep_read,
  run, running, store, take_out, transferred, write_back,
}
use linux_system_programming.FileIo.UringCopy.Apart.{
  Apart, Apart-take_out, Covers, Elsewhere, Every-free, Pending, Pending-take_out, Pending-total,
  free_slot,
}
use linux_system_programming.FileIo.UringCopy.Completions.{
  Completed, Every, Every-taken, dropped, total, total-taken, wrote_back,
}
use linux_system_programming.FileIo.UringCopy.Requests.{
  Every-Good, Good, below-cases, bufs_after-ne, of_read, of_write, out_after-right, read_in,
  store-ne, store_self, written_out,
}
use linux_system_programming.FileIo.UringCopy.Rounds.{Kept, run_ok, run_ok-keeps}
use linux_system_programming.Prelude.{
  Bool, List, ap, arith, false, inl, inr, not, refl, subst, sym, true, ℕ, ◌+◌, ◌<◌, ◌∙◌, ◌∷◌, ◌≡◌,
  ◌≤◌, ◌⊎◌,
}

module _ (concurrency bufsize file_size : ℕ) (src : ℕ → ℕ) where
  -- A position below `next_offset` is right, or a request for it is in the ring, or the sum of the
  -- bytes tells that some are lost.
  abbrev Fate : State → ℕ → Type 0
  Fate s x =
      (s.out x ≡ src x) ⊎ (Pending x s.ring ⊎ (s.finished_bytes + total s.ring < s.next_offset))

  record Correct (s : State) : Type 0 where
    within : s.next_offset ≤ file_size
    sum : s.finished_bytes + total s.ring ≤ s.next_offset
    apart : Apart s.ring
    good : Every (Good src s.reqs s.bufs) s.ring
    fate : (x : ℕ) → x < s.next_offset → Fate s x

  -- The same while the request `o`, completed with `r`, is seen.
  record Seen (o : Sqe) (r : Result) (s : State) : Type 0 where
    within : s.next_offset ≤ file_size
    sum : s.finished_bytes + (o.nbytes + total s.ring) ≤ s.next_offset
    alone : Every (Elsewhere o.slot) s.ring
    apart : Apart s.ring
    same_offset : (s.reqs o.slot).offset ≡ o.file_offset
    same_kind : (s.reqs o.slot).is_read ≡ not o.is_write
    good : Every (Good src s.reqs s.bufs) s.ring
    was_read :
        (n : ℕ)
        → r ≡ moved n
        → o.is_write ≡ false
        → (y : ℕ) → y < transferred o n
        → s.bufs o.slot y ≡ src (o.file_offset + y)
    was_written :
        (n : ℕ)
        → r ≡ moved n
        → o.is_write ≡ true
        → (x : ℕ) → o.file_offset ≤ x
        → x < o.file_offset + transferred o n
        → s.out x ≡ src x
    fate :
        (x : ℕ)
        → x < s.next_offset
        → (s.out x ≡ src x)
          ⊎ (Pending x s.ring
              ⊎ (Covers x o ⊎ (s.finished_bytes + (o.nbytes + total s.ring) < s.next_offset)))

  wrote_back-Good :
      (o : Sqe) (r : Result) (s : State) (n : ℕ)
      → Seen o r s
      → r ≡ moved n
      → (s.reqs o.slot).is_read ≡ true
      → Good src
          (store s.reqs o.slot
            (record { offset = (s.reqs o.slot).offset; size = transferred o n; is_read = false }))
          s.bufs
          (record {
            slot = o.slot;
            file_offset = (s.reqs o.slot).offset;
            nbytes = transferred o n;
            is_write = true;
          })
  wrote_back-Good o r s n v e b = record {
    same_offset = ap (λ q. q.offset) (store_self s.reqs o.slot _);
    same_kind = ap (λ q. q.is_read) (store_self s.reqs o.slot _);
    holds = λ w y l.
        v.was_read n e (of_read _ _ v.same_kind b) y l ∙ ap (λ m. src (m + y)) (sym v.same_offset);
  }

  Seen-Completed : (o : Sqe) (r : Result) (s t : State) → Seen o r s → Completed o r s t → Correct t
  unfolding write_back total Covers Pending Apart
  Seen-Completed o r s t v dropped = record {
    within = v.within;
    sum = omega (arith, v.sum);
    apart = v.apart;
    good = v.good;
    fate = λ x h. elim (v.fate x h) [
      | inl e ↦ inl e
      | inr (inl p) ↦ inr (inl p)
      | inr (inr (inl c)) ↦ inr (inr (omega (arith, v.sum, c.0, c.1)))
      | inr (inr (inr l)) ↦ inr (inr (omega (arith, l)))
    ];
  }
  Seen-Completed o r s t v (wrote_back n e b z) = record {
    within = v.within;
    sum = ground (arith, v.sum);
    apart = (v.alone, v.apart);
    good = (
      wrote_back-Good o r s n v e b,
      Every-Good src s.reqs _ s.bufs s.bufs o.slot s.ring (λ i m. store-ne s.reqs o.slot _ i m)
          (λ i m. refl) v.alone v.good,
    );
    fate = λ x h. elim (v.fate x h) [
      | inl w ↦ inl w
      | inr (inl p) ↦ inr (inl (inr p))
      | inr (inr (inl c)) ↦ elim (below-cases x (o.file_offset + transferred o n)) [
        | inl l ↦
            inr (inl (inl (omega (arith, v.same_offset, c.0), omega (arith, v.same_offset, l))))
        | inr g ↦ inr (inr (ground (arith, v.sum, c.1)))
      ]
      | inr (inr (inr l)) ↦ inr (inr (ground (arith, l)))
    ];
  }
  Seen-Completed o r s t v (Completed.finished n e b) = record {
    within = v.within;
    sum = ground (arith, v.sum);
    apart = v.apart;
    good = v.good;
    fate = λ x h. elim (v.fate x h) [
      | inl w ↦ inl w
      | inr (inl p) ↦ inr (inl p)
      | inr (inr (inl c)) ↦ elim (below-cases x (o.file_offset + transferred o n)) [
        | inl l ↦ inl (v.was_written n e (of_write _ _ v.same_kind b) x c.0 l)
        | inr g ↦ inr (inr (ground (arith, v.sum, c.1)))
      ]
      | inr (inr (inr l)) ↦ inr (inr (ground (arith, l)))
    ];
  }

  -- The request at an index is taken out of the ring and performed.
  Correct-Seen :
      (i : ℕ) (r : Result) (s : State) (q : Sqe) (qs : List Sqe)
      → s.ring ≡ q ∷ qs
      → Correct s
      → let o = (take_out i q qs).0 in
        Seen o r
          (perform concurrency bufsize file_size src o r (record s { ring = (take_out i q qs).1 }))
  unfolding perform
  Correct-Seen i r s q qs e v =
      let o = (take_out i q qs).0 in
      let (g, good) = Every-taken (Good src s.reqs s.bufs) i q qs s.ring e v.good in
      let (alone, apart) = Apart-take_out i q qs (subst Apart e v.apart) in
      let m = total-taken i q qs s.ring e in
      record {
        within = v.within;
        sum = omega (arith, v.sum, m);
        alone = alone;
        apart = apart;
        same_offset = g.same_offset;
        same_kind = g.same_kind;
        good =
            Every-Good src s.reqs s.reqs s.bufs _ o.slot _ (λ j n. refl)
              (λ j n. bufs_after-ne concurrency bufsize file_size src o r s.bufs j n) alone good;
        was_read = λ n h w y l.
            subst
              (λ a.
                bufs_after concurrency bufsize file_size src o a s.bufs o.slot y
                ≡ src (o.file_offset + y))
              (sym h) (read_in concurrency bufsize file_size src o n s.bufs y w l);
        was_written = λ n h w x a l.
            subst (λ b. out_after concurrency bufsize file_size src o b s.bufs s.out x ≡ src x)
              (sym h)
              (written_out concurrency bufsize file_size src o n s.reqs s.bufs s.out x g w a l);
        fate = λ x l. elim (v.fate x l) [
          | inl a ↦
              inl (out_after-right concurrency bufsize file_size src o r s.reqs s.bufs s.out x g a)
          | inr (inl p) ↦ elim (Pending-take_out x i q qs (subst (Pending x) e p)) [
            | inl c ↦ inr (inr (inl c))
            | inr a ↦ inr (inl a)
          ]
          | inr (inr a) ↦ inr (inr (inr (omega (arith, a, m))))
        ];
      }

  -- The next slot is not in use.
  abbrev pub next_free : State → Bool
  next_free s = free_slot s.tail s.ring

  -- A request for a read.
  read-Good :
      (k from n : ℕ) (reqs : ℕ → Req) (bufs : ℕ → ℕ → ℕ)
      → Good src
          (store reqs k (record { offset = from; size = n; is_read = true }))
          bufs
          (record { slot = k; file_offset = from; nbytes = n; is_write = false })
  read-Good k from n reqs bufs = record {
    same_offset = ap (λ q. q.offset) (store_self reqs k _);
    same_kind = ap (λ q. q.is_read) (store_self reqs k _);
    holds = λ w. absurd (cc);
  }

  prep_read-Correct :
      (s : State)
      → next_free s ≡ true
      → s.next_offset < file_size
      → Correct s
      → Correct (prep_read concurrency bufsize file_size src s)
  unfolding prep_read total Covers Pending Apart
  prep_read-Correct s f n v =
      let alone = Every-free s.tail s.ring f in
      record {
        within = ground arith;
        sum = omega (arith, v.sum);
        apart = (alone, v.apart);
        good = (
          read-Good s.tail s.next_offset _ s.reqs s.bufs,
          Every-Good src s.reqs _ s.bufs s.bufs s.tail s.ring (λ i m. store-ne s.reqs s.tail _ i m)
              (λ i m. refl) alone v.good,
        );
        fate = λ x h. elim (below-cases x s.next_offset) [
          | inl l ↦ elim (v.fate x l) [
            | inl e ↦ inl e
            | inr (inl p) ↦ inr (inl (inr p))
            | inr (inr p) ↦ inr (inr (omega (arith, p)))
          ]
          | inr l ↦ inr (inl (inl (l, h)))
        ];
      }

  Correct-Kept : Kept concurrency bufsize file_size src next_free Correct
  Correct-Kept = record {
    prep = λ s f i n v. prep_read-Correct s f n v;
    served = λ i r s q qs t e c v.
        Seen-Completed (take_out i q qs).0 r _ t (Correct-Seen i r s q qs e v) c;
  }

  before_loop-Correct : (junk : ℕ → Req) → Correct (before_loop junk)
  unfolding total Apart
  before_loop-Correct junk = record {
    within = omega arith;
    sum = omega arith;
    apart = tt;
    good = tt;
    fate = λ x h. absurd (omega arith);
  }

  -- If every read takes a slot of which no request is in the ring, and all bytes are counted as
  -- finished, then the output file has the bytes of the source, in whatever order and parts the
  -- requests were completed and whatever failed.
  pub run-copies :
      (answers : List Answers) (junk : ℕ → Req) (t : State) (x : ℕ)
      → run_ok concurrency bufsize file_size src next_free answers (before_loop junk) ≡ true
      → run concurrency bufsize file_size src answers (before_loop junk) ≡ running t
      → file_size ≤ t.finished_bytes
      → x < file_size
      → t.out x ≡ src x
  run-copies answers junk t x c h f l =
      let v =
        run_ok-keeps concurrency bufsize file_size src Correct Correct-Kept answers
          (before_loop junk) t c h (before_loop-Correct junk) in
      elim (v.fate x (omega (arith, v.sum))) [
        | inl e ↦ e
        | inr (inl p) ↦ absurd (omega (arith, Pending-total x t.ring p, v.sum, v.within))
        | inr (inr p) ↦ absurd (omega (arith, p, v.within))
      ]
