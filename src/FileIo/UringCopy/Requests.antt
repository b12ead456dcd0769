-- ===== src/FileIo/UringCopy/Requests.antt =====
-- The data and the bytes of one request of uringcopyfile.c.
use linux_system_programming.FileIo.UringCopy.{
  Req, Result, Sqe, bufs_after, failed, moved, out_after, store, transferred, write_bytes,
}
use linux_system_programming.FileIo.UringCopy.Apart.{Elsewhere}
use linux_system_programming.FileIo.UringCopy.Completions.{Every, and_both}
use linux_system_programming.Prelude.{
  ==_iff, Bool, Bool-cases, List, [], ap, arith, false, inl, inr, leb, leb→le, ltb, ltb→lt, not,
  refl, sym, true, ℕ, ◌&&◌, ◌+◌, ◌-◌, ◌<◌, ◌==◌, ◌∷◌, ◌≡◌, ◌≢◌, ◌≤◌, ◌⊎◌,
}

pub store-ne {ℓ} : {A : Type ℓ} (f : ℕ → A) (k : ℕ) (v : A) (i : ℕ) → i ≢ k → store f k v i ≡ f i
store-ne f k v i n = elim (Bool-cases (k == i)) [
  | inl e ↦ absurd (n (sym ((==_iff k i).0 e)))
  | inr e ↦ rw e
]

pub store_self {ℓ} : {A : Type ℓ} (f : ℕ → A) (k : ℕ) (v : A) → store f k v k ≡ v
store_self f k v = rw ((==_iff k k).1 refl)

-- The data of a request, and the bytes of a write.
pub record Good (src : ℕ → ℕ) (reqs : ℕ → Req) (bufs : ℕ → ℕ → ℕ) (q : Sqe) : Type 0 where
  pub same_offset : (reqs q.slot).offset ≡ q.file_offset
  pub same_kind : (reqs q.slot).is_read ≡ not q.is_write
  pub holds : q.is_write ≡ true → (y : ℕ) → y < q.nbytes → bufs q.slot y ≡ src (q.file_offset + y)

pub Good-other :
    (src : ℕ → ℕ) (reqs reqs' : ℕ → Req) (bufs bufs' : ℕ → ℕ → ℕ) (q : Sqe)
    → reqs' q.slot ≡ reqs q.slot
    → bufs' q.slot ≡ bufs q.slot
    → Good src reqs bufs q
    → Good src reqs' bufs' q
Good-other src reqs reqs' bufs bufs' q e f g = record {
  same_offset = rw (e, g.same_offset);
  same_kind = rw (e, g.same_kind);
  holds = λ w y l. rw (f, g.holds w y l);
}

-- A change at one slot.
pub Every-Good :
    (src : ℕ → ℕ) (reqs reqs' : ℕ → Req) (bufs bufs' : ℕ → ℕ → ℕ) (k : ℕ) (qs : List Sqe)
    → ((i : ℕ) → i ≢ k → reqs' i ≡ reqs i)
    → ((i : ℕ) → i ≢ k → bufs' i ≡ bufs i)
    → Every (Elsewhere k) qs
    → Every (Good src reqs bufs) qs
    → Every (Good src reqs' bufs') qs
unfolding Elsewhere
Every-Good src reqs reqs' bufs bufs' k [] f g n v = tt
Every-Good src reqs reqs' bufs bufs' k (q ∷ qs) f g (n, m) (w, v) = (
  Good-other src reqs reqs' bufs bufs' q (f q.slot n) (g q.slot n) w,
  Every-Good src reqs reqs' bufs bufs' k qs f g m v,
)

pub of_read : (a b : Bool) → a ≡ not b → a ≡ true → b ≡ false
of_read a b e h = ground arith

pub of_write : (a b : Bool) → a ≡ not b → a ≡ false → b ≡ true
of_write a b e h = ground arith

pub below-cases : (a b : ℕ) → (a < b) ⊎ (b ≤ a)
below-cases a b = ground arith

module _ (concurrency bufsize file_size : ℕ) (src : ℕ → ℕ) where
  pub bufs_after-ne :
      (o : Sqe) (r : Result) (bufs : ℕ → ℕ → ℕ) (i : ℕ)
      → i ≢ o.slot
      → bufs_after concurrency bufsize file_size src o r bufs i ≡ bufs i
  bufs_after-ne o failed bufs i n = refl
  bufs_after-ne o (moved k) bufs i n = elim (Bool-cases o.is_write) [
    | inl e ↦ rw e
    | inr e ↦ rw (e, store-ne bufs o.slot _ i n)
  ]

  write_bytes-in :
      (old : ℕ → ℕ) (offset n : ℕ) (new : ℕ → ℕ) (x : ℕ)
      → offset ≤ x
      → x < offset + n
      → write_bytes old offset n new x ≡ new (x - offset)
  write_bytes-in old offset n new x h l = ground arith

  pub read_in :
      (o : Sqe) (n : ℕ) (bufs : ℕ → ℕ → ℕ) (y : ℕ)
      → o.is_write ≡ false
      → y < transferred o n
      → bufs_after concurrency bufsize file_size src o (moved n) bufs o.slot y
        ≡ src (o.file_offset + y)
  read_in o n bufs y e l =
      let z : y - 0 ≡ y = omega arith in
      rw (
        e,
        store_self bufs o.slot _,
        write_bytes-in (bufs o.slot) 0 (transferred o n) (λ x. src (o.file_offset + x)) y
            (omega arith) (omega (arith, l)),
        ap (λ m. src (o.file_offset + m)) z,
      )

  transferred-le : (o : Sqe) (n : ℕ) → transferred o n ≤ o.nbytes
  transferred-le o n = ground arith

  pub written_out :
      (o : Sqe) (n : ℕ) (reqs : ℕ → Req) (bufs : ℕ → ℕ → ℕ) (out : ℕ → ℕ) (x : ℕ)
      → Good src reqs bufs o
      → o.is_write ≡ true
      → o.file_offset ≤ x
      → x < o.file_offset + transferred o n
      → out_after concurrency bufsize file_size src o (moved n) bufs out x ≡ src x
  written_out o n reqs bufs out x g e h l =
      let y : o.file_offset + (x - o.file_offset) ≡ x = omega arith in
      rw (
        e,
        write_bytes-in out o.file_offset (transferred o n) (bufs o.slot) x h l,
        g.holds e (x - o.file_offset) (omega (arith, h, l, transferred-le o n)),
        y,
      )

  pub out_after-right :
      (o : Sqe) (r : Result) (reqs : ℕ → Req) (bufs : ℕ → ℕ → ℕ) (out : ℕ → ℕ) (x : ℕ)
      → Good src reqs bufs o
      → out x ≡ src x
      → out_after concurrency bufsize file_size src o r bufs out x ≡ src x
  out_after-right o failed reqs bufs out x g h = h
  out_after-right o (moved n) reqs bufs out x g h = elim (Bool-cases o.is_write) [
    | inl e ↦ elim (Bool-cases (leb o.file_offset x && ltb x (o.file_offset + transferred o n))) [
      | inl c ↦
          let (a, b) = and_both _ _ c in
          written_out o n reqs bufs out x g e (leb→le _ _ a) (ltb→lt _ _ b)
      | inr c ↦ rw (e, c, h)
    ]
    | inr e ↦ rw (e, h)
  ]
