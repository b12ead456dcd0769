-- ===== src/Ipc/Ruptime/Retry.antt =====
-- The backoff of `connect_retry`.
use linux_system_programming.Ipc.Ruptime.{connect_retry, retry_loop, retry_round}
use linux_system_programming.Prelude.{
  List, [], arith, dec_le, leb, suc, true, zero, ℕ, ◌*◌, ◌+◌, ◌-◌, ◌<◌, ◌^◌, ◌∷◌, ◌≡◌, ◌≤◌,
}
use linux_system_programming.Prelude.Int.{ℤ}
use linux_system_programming.Sys.{Prog, Runs, Script, Trace, event}
use linux_system_programming.Sys.Calls.{close, connect, sleep, socket}
use linux_system_programming.Sys.Files.{closed, held, held_minus_one, opened}
use native.Mathlib.Nat.{pow-suc}

-- The seconds slept in a run.
unfoldable pub slept : Trace → ℕ
slept [] = 0
slept (event (sleep k) r ∷ t) = slept t + k
slept (event c r ∷ t) = slept t

abbrev pub Settled : ℕ → ℕ → Trace → ℤ → Trace → Type 0
Settled x budget t fd t' =
    (opened x t' + closed x t ≡ closed x t' + opened x t + held x fd)
    × (slept t' ≤ slept t + budget)

leb_of_le : (a b : ℕ) → a ≤ b → leb a b ≡ true
leb_of_le a b h = ground arith

-- One round, given what the rest of the loop does from any point on.
retry_round-Settled :
    (rest : Prog ℤ) (numsec domain : ℕ) (addr : List ℕ) (s : Script) (n : ℕ) (t : Trace) (x : ℕ)
    → numsec ≤ 128
    → ((n : ℕ) (t : Trace) → Runs (Settled x (128 - numsec * 2) t) (rest s n t))
    → Runs (Settled x (128 - numsec) t) (retry_round rest numsec domain addr s n t)
unfolding retry_round opened closed slept held
retry_round-Settled rest numsec domain addr s n t x h r =
    let fd = (s n).ret in
    let t' =
      event (close fd) (s (suc (suc n)))
      ∷ event (connect fd addr) (s (suc n))
      ∷ event (socket domain 1 0) (s n)
      ∷ t in
    ground (
      arith,
      r (suc (suc (suc n))) t',
      r (suc (suc (suc (suc n)))) (event (sleep numsec) (s (suc (suc (suc n)))) ∷ t'),
    )

-- With `numsec * 2 ^ fuel` above 128 the fuel is enough.
retry_loop-Settled :
    (fuel numsec domain : ℕ) (addr : List ℕ) (s : Script) (n : ℕ) (t : Trace) (x : ℕ)
    → 128 < numsec * 2 ^ fuel
    → Runs (Settled x (128 - numsec) t) (retry_loop (suc fuel) numsec domain addr s n t)
unfolding retry_loop
retry_loop-Settled zero numsec domain addr s n t x h = ground (arith, held_minus_one x)
retry_loop-Settled (suc fuel) numsec domain addr s n t x h = elim (dec_le numsec 128) [
  | no big ↦ ground (arith, held_minus_one x)
  | yes small ↦
      let power : 2 ^ suc fuel ≡ 2 ^ fuel * 2 = pow-suc 2 fuel in
      let h' : 128 < numsec * (2 ^ fuel * 2) = rw power at h in
      let enough : 128 < numsec * 2 * 2 ^ fuel = omega arith in
      let rest : (n : ℕ) (t : Trace)
          → Runs (Settled x (128 - numsec * 2) t)
              (retry_loop (suc fuel) (numsec * 2) domain addr s n t) =
        λ n' t'. retry_loop-Settled fuel (numsec * 2) domain addr s n' t' x enough in
      rw (leb_of_le numsec 128 small) (
        retry_round-Settled (retry_loop (suc fuel) (numsec * 2) domain addr) numsec domain addr s n
          t x small rest)
]

-- Whatever the sockets do, `connect_retry` returns within its nine rounds: the socket that it
-- returns is open and every other socket that it made is closed, all of them if it returns -1;
-- and it sleeps for at most 127 seconds.
pub connect_retry-Settled :
    (domain : ℕ) (addr : List ℕ) (s : Script) (n : ℕ) (t : Trace) (x : ℕ)
    → Runs (Settled x 127 t) (connect_retry domain addr s n t)
unfolding connect_retry
connect_retry-Settled domain addr s n t x = retry_loop-Settled 8 1 domain addr s n t x (omega arith)
