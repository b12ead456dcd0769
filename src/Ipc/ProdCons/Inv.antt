-- ===== src/Ipc/ProdCons/Inv.antt =====
-- The invariant of the ring, kept by every step.
use linux_system_programming.Ipc.ProdCons.{
  Consume, Produce, Reach, Step, System, buf_size, by_consumer, by_producer, consume, enter_load,
  enter_store, init, later, leave_load, leave_store, load, move_in, move_out, post_empty, post_full,
  produce, rounds, start, store, wait_empty, wait_full, write_at,
}
use linux_system_programming.Prelude.{
  arith, countdown, refl, some, subst, suc, zero, ℕ, ◌%◌, ◌+◌, ◌-◌, ◌<◌, ◌∷◌, ◌≡◌, ◌≤◌,
}
use mathlib.Core.Option.{some-injective}

-- Items stored, items whose slot `in` has passed, and the same of the consumer.
abbrev pub past_wait : Produce → ℕ
past_wait wait_empty = 0
past_wait _ = 1

abbrev pub has_stored : Produce → ℕ
has_stored move_in = 1
has_stored leave_store = 1
has_stored post_full = 1
has_stored _ = 0

abbrev pub has_moved : Produce → ℕ
has_moved leave_store = 1
has_moved post_full = 1
has_moved _ = 0

abbrev pub in_store : Produce → ℕ
in_store store = 1
in_store move_in = 1
in_store leave_store = 1
in_store _ = 0

abbrev pub past_wait_c : Consume → ℕ
past_wait_c wait_full = 0
past_wait_c _ = 1

abbrev pub has_loaded : Consume → ℕ
has_loaded move_out = 1
has_loaded leave_load = 1
has_loaded post_empty = 1
has_loaded _ = 0

abbrev pub has_moved_c : Consume → ℕ
has_moved_c leave_load = 1
has_moved_c post_empty = 1
has_moved_c _ = 0

abbrev pub in_load : Consume → ℕ
in_load load = 1
in_load move_out = 1
in_load leave_load = 1
in_load _ = 0

-- The loops count from 1; `i - 1` rounds are over.
pub record Inv (s : System) : Type 0 where
  pub i_pos : 0 < s.i
  pub k_pos : 0 < s.k
  pub i_le : s.i + past_wait s.at_p ≤ rounds + 1
  pub k_le : s.k + past_wait_c s.at_c ≤ rounds + 1
  pub spaces : s.shm.empty + s.i + past_wait s.at_p ≡ buf_size + s.k
  pub items : s.shm.full + s.k + past_wait_c s.at_c ≡ s.i
  pub lock : s.shm.mutex + in_store s.at_p + in_load s.at_c ≡ 1
  pub in_at : s.shm.in_pos ≡ (s.i - 1 + has_moved s.at_p) % buf_size
  pub out_at : s.shm.out_pos ≡ (s.k - 1 + has_moved_c s.at_c) % buf_size
  pub seen : s.consumed ≡ countdown (s.k - 1 + has_loaded s.at_c)
  pub slots :
      (m : ℕ)
      → s.k + has_loaded s.at_c ≤ m + 1
      → m + 1 < s.i + has_stored s.at_p
      → s.shm.buffer (m % buf_size) ≡ m + 1

pub init-Inv : Inv init
init-Inv = record {
  i_pos = omega arith;
  k_pos = omega arith;
  i_le = omega arith;
  k_le = omega arith;
  spaces = refl;
  items = refl;
  lock = refl;
  in_at = refl;
  out_at = refl;
  seen = refl;
  slots = λ m a b. absurd (omega arith);
}

-- A store in the slot of item `i` leaves the slots of the items that wait in the ring.
store-slots :
    (s : System) (m : ℕ)
    → s.at_p ≡ store
    → Inv s
    → s.k + has_loaded s.at_c ≤ m + 1
    → m + 1 < s.i + 1
    → write_at s.shm.buffer s.shm.in_pos s.i (m % buf_size) ≡ m + 1
store-slots s m e v a b = ground (arith, v.slots m)

produce-Inv : {s t : System} (p : Produce) → s.at_p ≡ p → produce p s ≡ some t → Inv s → Inv t
unfolding produce
produce-Inv wait_empty e h v = ground arith
produce-Inv enter_store e h v = ground arith
produce-Inv {s} store e h v = subst Inv (some-injective _ _ h) (record {
  i_pos = v.i_pos;
  k_pos = v.k_pos;
  i_le = ground arith;
  k_le = v.k_le;
  spaces = ground arith;
  items = v.items;
  lock = ground arith;
  in_at = ground arith;
  out_at = v.out_at;
  seen = v.seen;
  slots = λ m a b. store-slots s m e v a b;
})
produce-Inv move_in e h v = ground arith
produce-Inv leave_store e h v = ground arith
produce-Inv post_full e h v = ground arith

countdown_next : (k : ℕ) → 0 < k → countdown (k - 1 + 1) ≡ k ∷ countdown (k - 1 + 0)
countdown_next zero h = absurd (omega arith)
countdown_next (suc k) h =
    let e : suc k - 1 + 1 ≡ suc k = omega arith in
    let e' : suc k - 1 + 0 ≡ k = omega arith in rw (e, e')

consume-Inv : {s t : System} (c : Consume) → s.at_c ≡ c → consume c s ≡ some t → Inv s → Inv t
unfolding consume
consume-Inv wait_full e h v = ground arith
consume-Inv enter_load e h v = ground arith
consume-Inv {s} load e h v = ground (arith, v.slots (s.k - 1), countdown_next s.k)
consume-Inv move_out e h v = ground arith
consume-Inv leave_load e h v = ground arith
consume-Inv post_empty e h v = ground arith

pub Step-Inv : {s t : System} → Step s t → Inv s → Inv t
Step-Inv {s} (by_producer h) v = produce-Inv s.at_p refl h v
Step-Inv {s} (by_consumer h) v = consume-Inv s.at_c refl h v

pub Reach-Inv : {n : ℕ} {s : System} → Reach n s → Inv s
Reach-Inv start = init-Inv
Reach-Inv (later r st) = Step-Inv st (Reach-Inv r)
