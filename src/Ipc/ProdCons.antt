-- ===== src/Ipc/ProdCons.antt =====
-- Code/Mastering IPC and Terminals/pc_producer.c, pc_consumer.c and pc_shm.h: two processes and a
-- ring of ten numbers in shared memory under three semaphores, interleaved in any order, from the
-- state after the producer's `sem_init` calls. A step is one access to shared memory or one
-- semaphore call; `sem_wait` steps only where the count is positive.
pub mod Inv
pub mod Safety
use linux_system_programming.Prelude.{
  List, Option, [], if◌then◌else◌, leb, ltb, none, some, suc, ℕ, ◌%◌, ◌&&◌, ◌+◌, ◌-◌, ◌==◌, ◌∷◌,
  ◌≡◌,
}

abbrev pub buf_size : ℕ
buf_size = 10

-- The rounds of both loops.
abbrev pub rounds : ℕ
rounds = 20

-- `struct shmseg`
pub record Shm : Type 0 where
  pub buffer : ℕ → ℕ
  pub in_pos : ℕ
  pub out_pos : ℕ
  pub empty : ℕ
  pub full : ℕ
  pub mutex : ℕ

-- Where the producer stands in its round: before `sem_wait (&empty)`, before `sem_wait (&mutex)`,
-- before the store, before the move of `in`, before each `sem_post`.
pub data Produce : Type 0 where
  wait_empty enter_store store move_in leave_store post_full : Produce

pub data Consume : Type 0 where
  wait_full enter_load load move_out leave_load post_empty : Consume

-- `i` and `k` are the loop counters; `consumed` is what was printed, the latest first.
pub record System : Type 0 where
  pub shm : Shm
  pub i : ℕ
  pub at_p : Produce
  pub k : ℕ
  pub at_c : Consume
  pub consumed : List ℕ

abbrev pub write_at : (ℕ → ℕ) → ℕ → ℕ → ℕ → ℕ
write_at f a v b = if a == b then v else f b

abbrev pub init : System
init = record {
  shm = record { buffer = λ _. 0; in_pos = 0; out_pos = 0; empty = buf_size; full = 0; mutex = 1 };
  i = 1;
  at_p = wait_empty;
  k = 1;
  at_c = wait_full;
  consumed = [];
}

-- One step of the producer, if it is not blocked and has not left its loop.
unfoldable pub produce : Produce → System → Option System
produce wait_empty s =
    if leb s.i rounds && ltb 0 s.shm.empty
    then some (record s { shm = record s.shm { empty = s.shm.empty - 1 }; at_p = enter_store })
    else none
produce enter_store s =
    if ltb 0 s.shm.mutex
    then some (record s { shm = record s.shm { mutex = s.shm.mutex - 1 }; at_p = store })
    else none
produce store s = some (record s {
  shm = record s.shm { buffer = write_at s.shm.buffer s.shm.in_pos s.i };
  at_p = move_in;
})
produce move_in s =
    some (record s {
      shm = record s.shm { in_pos = (s.shm.in_pos + 1) % buf_size };
      at_p = leave_store;
    })
produce leave_store s =
    some (record s { shm = record s.shm { mutex = s.shm.mutex + 1 }; at_p = post_full })
produce post_full s =
    some (record s { shm = record s.shm { full = s.shm.full + 1 }; i = s.i + 1; at_p = wait_empty })

unfoldable pub consume : Consume → System → Option System
consume wait_full s =
    if leb s.k rounds && ltb 0 s.shm.full
    then some (record s { shm = record s.shm { full = s.shm.full - 1 }; at_c = enter_load })
    else none
consume enter_load s =
    if ltb 0 s.shm.mutex
    then some (record s { shm = record s.shm { mutex = s.shm.mutex - 1 }; at_c = load })
    else none
consume load s =
    some (record s { consumed = s.shm.buffer s.shm.out_pos ∷ s.consumed; at_c = move_out })
consume move_out s = some (record s {
  shm = record s.shm { out_pos = (s.shm.out_pos + 1) % buf_size };
  at_c = leave_load;
})
consume leave_load s =
    some (record s { shm = record s.shm { mutex = s.shm.mutex + 1 }; at_c = post_empty })
consume post_empty s =
    some
      (record s { shm = record s.shm { empty = s.shm.empty + 1 }; k = s.k + 1; at_c = wait_full })

-- The scheduler picks either process.
pub data Step (s : System) : System → Type 0 where
  by_producer : {t : System} → produce s.at_p s ≡ some t → Step s t
  by_consumer : {t : System} → consume s.at_c s ≡ some t → Step s t

-- The states after `n` steps.
pub data Reach : ℕ → System → Type 0 where
  start : Reach 0 init
  later : {n : ℕ} {s t : System} → Reach n s → Step s t → Reach (suc n) t
