-- ===== src/Ipc/ProdCons/Safety.antt =====
-- What every interleaving of pc_producer.c and pc_consumer.c keeps to.
use linux_system_programming.Ipc.ProdCons.{
  Consume, Produce, Reach, System, buf_size, by_consumer, by_producer, consume, enter_load,
  enter_store, later, leave_load, leave_store, load, move_in, move_out, post_empty, post_full,
  produce, rounds, start, store, wait_empty, wait_full,
}
use linux_system_programming.Ipc.ProdCons.Inv.{
  Inv, Reach-Inv, has_loaded, has_stored, in_load, in_store,
}
use linux_system_programming.Prelude.{
  ap, arith, countdown, none, refl, some, ℕ, ◌*◌, ◌+◌, ◌-◌, ◌∙◌, ◌≡◌, ◌≤◌,
}

-- In every reachable state the numbers consumed so far are 1, 2, …, c in this order, with c at most
-- 20 and at most the number of items produced: nothing is lost, duplicated or reordered.
pub Reach-fifo :
    {n : ℕ} {s : System}
    → Reach n s
    → (c : ℕ) × (s.consumed ≡ countdown c) × (c ≤ rounds) × (c + 1 ≤ s.i)
Reach-fifo {s} r =
    let v : Inv s = Reach-Inv r in (s.k - 1 + has_loaded s.at_c, v.seen, ground arith, ground arith)

-- Both processes are never between their `sem_wait (&mutex)` and `sem_post (&mutex)` at once.
pub Reach-exclusive :
    {n : ℕ} {s : System} → Reach n s → ¬ ((in_store s.at_p ≡ 1) × (in_load s.at_c ≡ 1))
Reach-exclusive {s} r both = let v : Inv s = Reach-Inv r in absurd (omega (arith, both.0, both.1))

-- Stored items that are not loaded yet never exceed the ten slots, so no store overwrites one.
pub Reach-no_overflow :
    {n : ℕ} {s : System} → Reach n s → s.i + has_stored s.at_p ≤ s.k + has_loaded s.at_c + buf_size
Reach-no_overflow {s} r = let v : Inv s = Reach-Inv r in ground arith

abbrev pub p_rank : Produce → ℕ
p_rank wait_empty = 0
p_rank enter_store = 1
p_rank store = 2
p_rank move_in = 3
p_rank leave_store = 4
p_rank post_full = 5

abbrev pub c_rank : Consume → ℕ
c_rank wait_full = 0
c_rank enter_load = 1
c_rank load = 2
c_rank move_out = 3
c_rank leave_load = 4
c_rank post_empty = 5

-- The steps made so far, read off the state.
abbrev pub steps_of : System → ℕ
steps_of s = 6 * (s.i - 1) + p_rank s.at_p + 6 * (s.k - 1) + c_rank s.at_c

produce-counts :
    {s t : System} (p : Produce)
    → s.at_p ≡ p
    → produce p s ≡ some t
    → Inv s
    → steps_of t ≡ steps_of s + 1
unfolding produce
produce-counts wait_empty e h v = ground arith
produce-counts _ e h v = ground arith

consume-counts :
    {s t : System} (c : Consume)
    → s.at_c ≡ c
    → consume c s ≡ some t
    → Inv s
    → steps_of t ≡ steps_of s + 1
unfolding consume
consume-counts wait_full e h v = ground arith
consume-counts _ e h v = ground arith

steps_of-Reach : {n : ℕ} {s : System} → Reach n s → steps_of s ≡ n
steps_of-Reach start = refl
steps_of-Reach (later {s} r (by_producer h)) =
    omega (arith, produce-counts s.at_p refl h (Reach-Inv r), steps_of-Reach r)
steps_of-Reach (later {s} r (by_consumer h)) =
    omega (arith, consume-counts s.at_c refl h (Reach-Inv r), steps_of-Reach r)

-- Every run ends: no state is reached by more than 240 steps, twice 20 rounds of six.
pub Reach-bounded : {n : ℕ} {s : System} → Reach n s → n ≤ 240
Reach-bounded {s} r = let v : Inv s = Reach-Inv r in ground (arith, steps_of-Reach r)

abbrev pub Blocked : System → Type 0
Blocked s = (produce s.at_p s ≡ none) × (consume s.at_c s ≡ none)

blocked_done :
    (s : System) (p : Produce) (c : Consume)
    → s.at_p ≡ p
    → s.at_c ≡ c
    → produce p s ≡ none
    → consume c s ≡ none
    → Inv s
    → (s.i ≡ 21) × (s.k ≡ 21) × (s.at_p ≡ wait_empty) × (s.at_c ≡ wait_full)
unfolding produce consume
blocked_done s wait_empty wait_full e f a b v = ground arith
blocked_done s wait_empty _ e f a b v = ground arith
blocked_done s _ wait_full e f a b v = ground arith
blocked_done s _ _ e f a b v = ground arith

-- No deadlock: a reachable state in which neither process can step is the end of both loops, after
-- exactly 240 steps, and the numbers 1 to 20 have all been consumed in order.
pub Blocked-done :
    {n : ℕ} {s : System} → Reach n s → Blocked s → (n ≡ 240) × (s.consumed ≡ countdown rounds)
Blocked-done {s} r b =
    let v : Inv s = Reach-Inv r in
    let (i, k, p, c) = blocked_done s s.at_p s.at_c refl refl b.0 b.1 v in
    (ground (arith, steps_of-Reach r), v.seen ∙ ap countdown {y = rounds} (ground arith))
