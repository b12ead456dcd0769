-- ===== src/Examples/RefRuns.antt =====
-- Runs of mutexdual.c, and the theorems at them.
use linux_system_programming.Prelude.{
  Bool, List, Option, [], false, get_elem?, if◌then◌else◌, ltb, none, refl, replicate, set, some,
  true, ℕ, ◌++◌, ◌∷◌, ◌≡◌, ◌⊎◌,
}
use linux_system_programming.Prelude.Int.{pos, ◌+ℤ◌, ◌-ℤ◌}
use linux_system_programming.RefCount.{
  Move, Pc, Reach, Step, System, all_done, blocked, by_main, by_worker, done, init, joined, joining,
  later, misuse, rele_lock, step, to,
}
use linux_system_programming.RefCount.Invariant.{busy}
use linux_system_programming.RefCount.Progress.{Reach-progress}
use linux_system_programming.RefCount.Safety.{NoneMisuses, Reach-no_misuse, Reach-released}
use linux_system_programming.RefCount.Totals.{total}

-- A reachable state.
record Run (n : ℕ) : Type 0 where
  last : System
  reach : Reach n last

module _ {n : ℕ} (r : Run n) where
  worker_move :
      (i : ℕ) (p : Pc)
      → get_elem? r.last.workers i ≡ some p
      → (mv : Move) → step p r.last.shared ≡ mv
      → Run n
  worker_move i p g (to m q) e = record {
    last = record r.last { shared = m; workers = set r.last.workers i q };
    reach = later r.reach (by_worker i g e);
  }
  worker_move i p g blocked e = r
  worker_move i p g misuse e = r

  worker_turn : (i : ℕ) (o : Option Pc) → get_elem? r.last.workers i ≡ o → Run n
  unfolding worker_move
  worker_turn i none g = r
  worker_turn i (some p) g = worker_move i p g (step p r.last.shared) refl

  join_turn : (b : Bool) → r.last.main_pc ≡ joining → all_done r.last.workers ≡ b → Run n
  join_turn true j e = record {
    last = record r.last { main_pc = rele_lock };
    reach = later r.reach (joined j e);
  }
  join_turn false j e = r

  main_move : (mv : Move) → step r.last.main_pc r.last.shared ≡ mv → Run n
  main_move (to m q) e = record {
    last = record r.last { shared = m; main_pc = q };
    reach = later r.reach (by_main e);
  }
  main_move blocked e = r
  main_move misuse e = r

  main_turn : (p : Pc) → r.last.main_pc ≡ p → Run n
  unfolding join_turn main_move
  main_turn joining j = join_turn (all_done r.last.workers) j refl
  main_turn _ j = main_move (step r.last.main_pc r.last.shared) refl

-- The turns in order: a number below the number of workers is that worker's, any other is `main`'s.
run : (n : ℕ) → List ℕ → Run n
unfolding worker_turn main_turn step all_done
run n [] = record { last = init n; reach = Reach.start }
run n (i ∷ turns) =
    let r = run n turns in
    if ltb i n
    then worker_turn r i (get_elem? r.last.workers i) refl
    else main_turn r r.last.main_pc refl

-- One worker to its end, then `main`; the latest turn first.
abbrev whole : List ℕ
whole = replicate 12 1 ++ replicate 10 0

-- Two workers, which both have a reference.
abbrev both_work : List ℕ
both_work = replicate 6 1 ++ replicate 6 0

Reach-released_example :
    ((run 1 whole).last.shared
      ≡ record { hashlock = false; linked = false; alive = false; f_lock = false; f_count = pos 0 })
    × (total busy (run 1 whole).last.workers ≡ 0)
unfolding run ◌+ℤ◌ ◌-ℤ◌
Reach-released_example = Reach-released (run 1 whole).reach refl

two_references : (run 2 both_work).last.shared.f_count ≡ pos 3
unfolding run ◌+ℤ◌
two_references = refl

Reach-no_misuse_example :
    NoneMisuses
      (run 2 both_work).last.shared
      ((run 2 both_work).last.main_pc ∷ (run 2 both_work).last.workers)
Reach-no_misuse_example = Reach-no_misuse (run 2 both_work).reach

Reach-progress_example :
    ((run 2 both_work).last.main_pc ≡ done) ⊎ ((t : System) × Step (run 2 both_work).last t)
Reach-progress_example = Reach-progress (run 2 both_work).reach
