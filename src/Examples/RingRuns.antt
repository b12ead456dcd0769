-- ===== src/Examples/RingRuns.antt =====
-- The ring of pc_producer.c and pc_consumer.c: a whole run, and the theorems at it.
use linux_system_programming.Ipc.ProdCons.{
  Reach, System, by_consumer, by_producer, consume, init, later, produce, rounds,
}
use linux_system_programming.Ipc.ProdCons.Safety.{Blocked-done, Reach-fifo}
use linux_system_programming.Prelude.{
  Option, countdown, none, refl, some, suc, zero, ℕ, ◌+◌, ◌≡◌, ◌≤◌,
}

-- A reachable state and the number of steps to it.
record Run : Type 0 where
  count : ℕ
  last : System
  reach : Reach count last

consumer_turn : (r : Run) (o : Option System) → consume r.last.at_c r.last ≡ o → Run
consumer_turn r none e = r
consumer_turn r (some t) e = record {
  count = suc r.count;
  last = t;
  reach = later r.reach (by_consumer e);
}

-- The producer steps if it can, and else the consumer.
producer_turn : (r : Run) (o : Option System) → produce r.last.at_p r.last ≡ o → Run
unfolding consumer_turn
producer_turn r none e = consumer_turn r (consume r.last.at_c r.last) refl
producer_turn r (some t) e = record {
  count = suc r.count;
  last = t;
  reach = later r.reach (by_producer e);
}

run : ℕ → Run
unfolding producer_turn produce consume
run zero = record { count = 0; last = init; reach = Reach.start }
run (suc n) = let r = run n in producer_turn r (produce r.last.at_p r.last) refl

full_ring_state : (run 60).last.shm.empty ≡ 0
unfolding run
full_ring_state = refl

Reach-fifo_example :
    (c : ℕ) × ((run 100).last.consumed ≡ countdown c) × (c ≤ rounds) × (c + 1 ≤ (run 100).last.i)
Reach-fifo_example = Reach-fifo (run 100).reach

Blocked-done_example : ((run 240).count ≡ 240) × ((run 240).last.consumed ≡ countdown rounds)
unfolding run
Blocked-done_example = Blocked-done (run 240).reach (refl, refl)
