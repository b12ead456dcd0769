-- ===== src/FileIo/UringCopy/Bounded.antt =====
-- The rounds of the loop of uringcopyfile.c are bounded.
use linux_system_programming.FileIo.UringCopy.{
  Answers, Req, Result, Sqe, State, before_loop, perform, prep_read, read_size, round, run, running,
  serve_one, store, take_out, transferred, write_back,
}
use linux_system_programming.FileIo.UringCopy.Completions.{
  Completed, Every, Every-taken, complete-Completed, dropped, go_on-running, if-cases, if-running,
  length-taken, running-injective, wrote_back,
}
use linux_system_programming.FileIo.UringCopy.Rounds.{Kept, fill-keeps, fill_ok-true}
use linux_system_programming.Prelude.{
  Bool, List, [], ap, arith, false, if◌then◌else◌, inl, inr, length, ltb, refl, suc, true, zero, ℕ,
  ℕ_discrete, ◌*◌, ◌+◌, ◌-◌, ◌<◌, ◌∷◌, ◌≡◌, ◌≤◌,
}
use native.Mathlib.Nat.{mod-lt}

abbrev flag : Bool → ℕ
flag b = if b then 1 else 0

-- The slots below a bound whose request is a read.
unfoldable reads : ℕ → (ℕ → Req) → ℕ
reads zero f = 0
reads (suc k) f = flag (f k).is_read + reads k f

reads-above : (k i : ℕ) (f : ℕ → Req) (r : Req) → k ≤ i → reads k (store f i r) ≡ reads k f
unfolding reads
reads-above zero i f r h = refl
reads-above (suc k) i f r h = ground (arith, reads-above k i f r (omega arith))

reads-store :
    (k i : ℕ) (f : ℕ → Req) (r : Req)
    → i < k
    → reads k (store f i r) + flag (f i).is_read ≡ reads k f + flag r.is_read
unfolding reads
reads-store zero i f r h = absurd (omega arith)
reads-store (suc k) i f r h = elim (ℕ_discrete i k) [
  | yes e ↦ ground (arith, reads-above k i f r (omega (arith, e)))
  | no n ↦ ground (arith, reads-store k i f r (omega arith))
]

reads-le : (k : ℕ) (f : ℕ → Req) → reads k f ≤ k
unfolding reads
reads-le zero f = omega arith
reads-le (suc k) f = ground (arith, reads-le k f)

module _ (concurrency bufsize file_size : ℕ) (src : ℕ → ℕ) where
  Placed : Sqe → Type 0
  Placed q = q.slot < concurrency

  -- What is left to do: three for a byte that was not asked for, one for a request in the ring, and
  -- one for the write that follows a read.
  measure : State → ℕ
  measure s = 3 * (file_size - s.next_offset) + length s.ring + reads concurrency s.reqs

  pub record Slots (n : ℕ) (s : State) : Type 0 where
    within : s.next_offset ≤ file_size
    cycles : s.tail < concurrency
    placed : Every Placed s.ring
    bound : measure s ≤ n

  prep_read-Slots :
      (n : ℕ) (s : State)
      → 0 < bufsize
      → s.next_offset < file_size
      → Slots n s
      → Slots n (prep_read concurrency bufsize file_size src s)
  unfolding prep_read measure Placed
  prep_read-Slots n s b h v = record {
    within = ground arith;
    cycles = mod-lt (s.tail + 1) (omega (arith, v.cycles));
    placed = (v.cycles, v.placed);
    bound = ground (
      arith,
      v.bound,
      reads-store concurrency s.tail s.reqs
          (record {
            offset = s.next_offset;
            size = read_size concurrency bufsize file_size src s.next_offset;
            is_read = true;
          })
          v.cycles,
    );
  }

  Slots-Completed :
      (n : ℕ) (o : Sqe) (r : Result) (s t : State)
      → s.next_offset ≤ file_size
      → s.tail < concurrency
      → Placed o
      → Every Placed s.ring
      → measure s ≤ n
      → Completed o r s t
      → Slots n t
  unfolding write_back measure Placed
  Slots-Completed n o r s t w c p d m dropped = record {
    within = w;
    cycles = c;
    placed = d;
    bound = m;
  }
  Slots-Completed n o r s t w c p d m (wrote_back k e b z) = record {
    within = w;
    cycles = c;
    placed = (p, d);
    bound = ground (
      arith,
      reads-store concurrency o.slot s.reqs
          (record { offset = (s.reqs o.slot).offset; size = transferred o k; is_read = false }) p,
    );
  }
  Slots-Completed n o r s t w c p d m (Completed.finished k e b) = record {
    within = w;
    cycles = c;
    placed = d;
    bound = m;
  }

  Slots-Kept : (n : ℕ) → 0 < bufsize → Kept concurrency bufsize file_size src (λ _. true) (Slots n)
  unfolding perform measure
  Slots-Kept n b = record {
    prep = λ s _ i h v. prep_read-Slots n s b h v;
    served = λ i r s q qs t e c v.
        let (p, d) = Every-taken Placed i q qs s.ring e v.placed in
        Slots-Completed n (take_out i q qs).0 r _ t v.within v.cycles p d
          (omega (arith, v.bound, length-taken i q qs s.ring e)) c;
  }

  -- A completion leaves less to do.
  serve_one-Slots :
      (n : ℕ) (a : Answers) (s t : State) (qs : List Sqe)
      → s.ring ≡ qs
      → Slots (suc n) s
      → serve_one concurrency bufsize file_size src a s qs ≡ running t
      → Slots n t
  unfolding serve_one perform measure
  serve_one-Slots n a s t [] e v h = absurd (cc)
  serve_one-Slots n a s t (q ∷ qs) e v h =
      let (p, d) = Every-taken Placed a.which q qs s.ring e v.placed in
      Slots-Completed n (take_out a.which q qs).0 a.result _ t v.within v.cycles p d
        (omega (arith, v.bound, length-taken a.which q qs s.ring e))
        (complete-Completed a _ _ _ t h)

  pub round-Slots :
      (n : ℕ) (a : Answers) (s t : State)
      → 0 < bufsize
      → Slots (suc n) s
      → round concurrency bufsize file_size src a s ≡ running t
      → Slots n t
  unfolding round
  round-Slots n a s t b v h =
      serve_one-Slots n a _ t _ refl
        (fill-keeps concurrency bufsize file_size src (Slots (suc n)) (Slots-Kept (suc n) b) a.sqes
          s (fill_ok-true concurrency bufsize file_size src a.sqes s) v)
        (if-running _ _ t h)

  serve_one-pos :
      (n : ℕ) (a : Answers) (s t : State) (qs : List Sqe)
      → s.ring ≡ qs
      → Slots n s
      → serve_one concurrency bufsize file_size src a s qs ≡ running t
      → 0 < n
  unfolding serve_one measure
  serve_one-pos n a s t [] e v h = absurd (cc)
  serve_one-pos n a s t (q ∷ qs) e v h = omega (arith, v.bound, length-taken a.which q qs s.ring e)

  pub round-pos :
      (n : ℕ) (a : Answers) (s t : State)
      → 0 < bufsize
      → Slots n s
      → round concurrency bufsize file_size src a s ≡ running t
      → 0 < n
  unfolding round
  round-pos n a s t b v h =
      serve_one-pos n a _ t _ refl
        (fill-keeps concurrency bufsize file_size src (Slots n) (Slots-Kept n b) a.sqes s
          (fill_ok-true concurrency bufsize file_size src a.sqes s) v)
        (if-running _ _ t h)

  pub round-less :
      (n : ℕ) (a : Answers) (s u : State)
      → 0 < bufsize
      → Slots n s
      → round concurrency bufsize file_size src a s ≡ running u
      → (m : ℕ) × (suc m ≡ n) × Slots m u
  round-less zero a s u b v r = absurd (omega (arith, round-pos 0 a s u b v r))
  round-less (suc n) a s u b v r = (n, refl, round-Slots n a s u b v r)

  run-Slots :
      (answers : List Answers) (n : ℕ) (s t : State)
      → 0 < bufsize
      → Slots n s
      → run concurrency bufsize file_size src answers s ≡ running t
      → t.finished_bytes < file_size
      → length answers ≤ n
  unfolding run
  run-Slots [] n s t b v h l = omega arith
  run-Slots (a ∷ answers) n s t b v h l = elim (if-cases (ltb s.finished_bytes file_size) _ _ _ h) [
    | inl (e, g) ↦
        let (u, r, m) = go_on-running (round concurrency bufsize file_size src a s) _ t g in
        let (k, y, w) = round-less n a s u b v r in
        omega (arith, run-Slots answers k u t b w m l, y)
    | inr (e, g) ↦ ground (arith, ap (λ y. y.finished_bytes) (running-injective s t g))
  ]

  pub before_loop-Slots :
      (junk : ℕ → Req) → 0 < concurrency → Slots (3 * file_size + concurrency) (before_loop junk)
  unfolding measure
  before_loop-Slots junk c = record {
    within = omega arith;
    cycles = c;
    placed = tt;
    bound = omega (arith, reads-le concurrency junk);
  }

  -- With a positive concurrency and buffer size, if the loop has used up its replies and has
  -- not counted all bytes, then there were at most 3 · size + concurrency of them: with more,
  -- it has counted all bytes, waits with an empty ring or has ended the program.
  pub run-bounded :
      (answers : List Answers) (junk : ℕ → Req) (t : State)
      → 0 < concurrency
      → 0 < bufsize
      → run concurrency bufsize file_size src answers (before_loop junk) ≡ running t
      → t.finished_bytes < file_size
      → length answers ≤ 3 * file_size + concurrency
  run-bounded answers junk t c b h l =
      run-Slots answers _ (before_loop junk) t b (before_loop-Slots junk c) h l
