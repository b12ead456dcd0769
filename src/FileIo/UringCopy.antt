-- ===== src/FileIo/UringCopy.antt =====
-- Code/Mastering File IO/uringcopyfile.c: the copying loop over an io_uring. The ring is a list of
-- the requests that the kernel has not completed; it completes them in any order, in full, in part
-- or with an error. Its replies are the `Answers` of a round. Sizes are positive and off_t and int
-- are wide enough for them. Accounts has what the loop counts, Bounded its end, and Copied the data.
pub mod Main
pub mod Completions
pub mod Rounds
pub mod Accounts
pub mod Stuck
pub mod Bounded
pub mod Apart
pub mod Requests
pub mod Copied
pub mod Ends
use linux_system_programming.Prelude.{
  Bool, List, [], false, if◌then◌else◌, leb, ltb, suc, true, zero, ℕ, ◌%◌, ◌&&◌, ◌+◌, ◌-◌, ◌==◌,
  ◌∷◌,
}

-- `io_req`, less its buffer
pub record Req : Type 0 where
  pub offset : ℕ
  pub size : ℕ
  pub is_read : Bool

-- A request in the ring, with the index in `reqs` of its data.
pub record Sqe : Type 0 where
  pub slot : ℕ
  pub file_offset : ℕ
  pub nbytes : ℕ
  pub is_write : Bool

-- `bufs` has the buffers of `reqs`, and `out` the output file.
pub record State : Type 0 where
  pub next_offset : ℕ
  pub finished_bytes : ℕ
  pub inflight : ℕ
  pub tail : ℕ
  pub reqs : ℕ → Req
  pub bufs : ℕ → ℕ → ℕ
  pub out : ℕ → ℕ
  pub ring : List Sqe

pub data Result : Type 0 where
  failed : Result
  moved : ℕ → Result

-- The replies of a round: how often `io_uring_get_sqe` finds an entry for a read, whether
-- `io_uring_submit` and `io_uring_wait_cqe` succeed, which request was completed, how, and whether
-- there is an entry for the write and its `io_uring_submit` succeeds.
pub record Answers : Type 0 where
  pub sqes : ℕ
  pub submitted : Bool
  pub waited : Bool
  pub which : ℕ
  pub result : Result
  pub write_sqe : Bool
  pub resubmitted : Bool

-- `waits`: `io_uring_wait_cqe` with nothing in the ring. `stopped`: `err_exit`.
pub data Course : Type 0 where
  running : State → Course
  waits : Course
  stopped : Course

abbrev pub go_on : Course → (State → Course) → Course
go_on (running s) k = k s
go_on waits k = waits
go_on stopped k = stopped

abbrev pub store {ℓ} : {A : Type ℓ} → (ℕ → A) → ℕ → A → ℕ → A
store f a v b = if a == b then v else f b

-- The request at an index, or the last, and the others.
abbrev pub take_out : ℕ → Sqe → List Sqe → Sqe × List Sqe
take_out i q [] = (q, [])
take_out zero q (r ∷ rs) = (q, r ∷ rs)
take_out (suc i) q (r ∷ rs) = let (o, rest) = take_out i r rs in (o, q ∷ rest)

-- No more bytes than were asked for.
abbrev pub transferred : Sqe → ℕ → ℕ
transferred o n = if leb n o.nbytes then n else o.nbytes

-- `old` with `n` bytes of `from`, which go to `offset`.
abbrev pub write_bytes : (ℕ → ℕ) → ℕ → ℕ → (ℕ → ℕ) → ℕ → ℕ
write_bytes old offset n from x =
    if leb offset x && ltb x (offset + n) then from (x - offset) else old x

abbrev pub drop_one : State → State
drop_one s = record s { inflight = s.inflight - 1 }

-- A write of what was read.
unfoldable pub write_back : ℕ → ℕ → State → State
write_back slot nread s =
    let r = s.reqs slot in
    record s {
      reqs = store s.reqs slot (record { offset = r.offset; size = nread; is_read = false });
      ring =
          record { slot = slot; file_offset = r.offset; nbytes = nread; is_write = true } ∷ s.ring;
    }

unfoldable pub after_read : Answers → ℕ → ℕ → State → Course
after_read a slot nread s =
    if nread == 0
    then running (drop_one s)
    else if a.write_sqe && a.resubmitted
    then running (write_back slot nread s)
    else stopped

-- What follows `io_uring_wait_cqe`.
unfoldable pub complete : Answers → Sqe → Result → State → Course
complete a o failed s = running (drop_one s)
complete a o (moved n) s =
    if (s.reqs o.slot).is_read
    then after_read a o.slot (transferred o n) s
    else running (record s {
      finished_bytes = s.finished_bytes + transferred o n;
      inflight = s.inflight - 1;
    })

module _ (concurrency bufsize file_size : ℕ) (src : ℕ → ℕ) where
  -- What the kernel does to the buffers and to the output file for a request that it completes.
  abbrev pub bufs_after : Sqe → Result → (ℕ → ℕ → ℕ) → ℕ → ℕ → ℕ
  bufs_after o failed bufs = bufs
  bufs_after o (moved n) bufs =
      if o.is_write
      then bufs
      else store bufs o.slot
          (write_bytes (bufs o.slot) 0 (transferred o n) (λ x. src (o.file_offset + x)))

  abbrev pub out_after : Sqe → Result → (ℕ → ℕ → ℕ) → (ℕ → ℕ) → ℕ → ℕ
  out_after o failed bufs out = out
  out_after o (moved n) bufs out =
      if o.is_write then write_bytes out o.file_offset (transferred o n) (bufs o.slot) else out

  unfoldable pub perform : Sqe → Result → State → State
  perform o r s = record s { bufs = bufs_after o r s.bufs; out = out_after o r s.bufs s.out }

  -- `this_size`
  abbrev pub read_size : ℕ → ℕ
  read_size next = if ltb file_size (next + bufsize) then file_size - next else bufsize

  unfoldable pub prep_read : State → State
  prep_read s =
      let n = read_size s.next_offset in
      record s {
        next_offset = s.next_offset + n;
        inflight = s.inflight + 1;
        tail = (s.tail + 1) % concurrency;
        reqs = store s.reqs s.tail (record { offset = s.next_offset; size = n; is_read = true });
        ring =
            record { slot = s.tail; file_offset = s.next_offset; nbytes = n; is_write = false }
            ∷ s.ring;
      }

  -- `while (inflight < concurrency && next_offset < file_size)`
  unfoldable pub fill : ℕ → State → State
  fill zero s = s
  fill (suc sqes) s =
      let filled = fill sqes (prep_read s) in
      if ltb s.inflight concurrency && ltb s.next_offset file_size then filled else s

  -- The kernel completes a request of the ring, and the program goes on with it.
  unfoldable pub serve_one : Answers → State → List Sqe → Course
  serve_one a s [] = waits
  serve_one a s (q ∷ qs) =
      let (o, rest) = take_out a.which q qs in
      complete a o a.result (perform o a.result (record s { ring = rest }))

  unfoldable pub round : Answers → State → Course
  round a s =
      let s' = fill a.sqes s in if a.submitted && a.waited then serve_one a s' s'.ring else stopped

  -- `while (finished_bytes < file_size)`, for the rounds that have replies.
  unfoldable pub run : List Answers → State → Course
  run [] s = running s
  run (a ∷ answers) s =
      let rest = go_on (round a s) (run answers) in
      if ltb s.finished_bytes file_size then rest else running s

-- Before the loop: `junk` is what `malloc` left in `reqs`.
abbrev pub before_loop : (ℕ → Req) → State
before_loop junk = record {
  next_offset = 0;
  finished_bytes = 0;
  inflight = 0;
  tail = 0;
  reqs = junk;
  bufs = λ slot x. 0;
  out = λ x. 0;
  ring = [];
}
