-- ===== src/Ipc/Ruptime.antt =====
-- Code/Mastering IPC and Terminals/ruptime.c: a client that connects with exponential backoff and
-- copies what it receives to its output. An address of the list that `getaddrinfo` allocates is
-- its family and its bytes.
pub mod Retry
use linux_system_programming.Ipc.Ruptimed.{serve}
use linux_system_programming.Prelude.{
  List, [], get_or, leb, length, not, suc, zero, ℕ, ◌*◌, ◌/◌, ◌==◌, ◌∷◌,
}
use linux_system_programming.Prelude.Int.{is_neg, is_pos, is_zero, negsuc, pos, pos_part, ℤ}
use linux_system_programming.Sys.{Prog, call, choose, exit_with, pure, starve, when, ◌>>=◌, ◌>>◌}
use linux_system_programming.Sys.Calls.{
  close, connect, eprintf, freeaddrinfo, getaddrinfo, recv, sleep, socket, write,
}

abbrev pub max_sleep : ℕ
max_sleep = 128

-- One round of the loop; `rest` is the loop from the doubled `numsec` on.
unfoldable pub retry_round : Prog ℤ → ℕ → ℕ → List ℕ → Prog ℤ
retry_round rest numsec domain addr =
    let again = λ (fd : ℤ).
      call (close fd) >> when (leb numsec (max_sleep / 2)) (call (sleep numsec)) >> rest in
    let attempt =
      λ (fd : ℤ). do c ← call (connect fd addr); choose (is_zero c.ret) (pure fd) (again fd)
    in do o ← call (socket domain 1 0); choose (is_neg o.ret) (pure (negsuc 0)) (attempt o.ret)

-- `for (numsec = 1; numsec <= MAXSLEEP; numsec <<= 1)`, from the round of `numsec` on, with fuel.
unfoldable pub retry_loop : ℕ → ℕ → ℕ → List ℕ → Prog ℤ
retry_loop zero numsec domain addr = starve
retry_loop (suc fuel) numsec domain addr =
    let rest = retry_loop fuel (numsec * 2) domain addr in
    choose (leb numsec max_sleep) (retry_round rest numsec domain addr) (pure (negsuc 0))

-- Nine rounds: eight of the loop and the one that its test ends.
unfoldable pub connect_retry : ℕ → List ℕ → Prog ℤ
connect_retry domain addr = retry_loop 9 1 domain addr

-- `while ((n = recv (…)) > 0) write (…)`
unfoldable pub print_loop : ℕ → ℤ → Prog ℤ
print_loop zero fd = starve
print_loop (suc fuel) fd = do
  r ← call (recv fd 128)
  let rest = do call (write (pos 1) r.bytes (pos_part r.ret)); print_loop fuel fd
  choose (is_pos r.ret) rest (pure r.ret)

-- `err` ends the process.
unfoldable pub print_uptime : ℕ → ℤ → Prog (Unit {0})
print_uptime fuel fd = do
  n ← print_loop fuel fd
  choose (is_neg n) (call (eprintf "recv error") >> exit_with 1) (pure tt)

-- The loop over the addresses.
unfoldable pub try_addresses : ℕ → ℤ → List (ℕ × List ℕ) → Prog ℕ
try_addresses fuel list [] = call (eprintf "can't connect to %s") >> exit_with 1
try_addresses fuel list ((domain, addr) ∷ as') = do
  fd ← connect_retry domain addr
  let next = try_addresses fuel list as'
  let serve = do print_uptime fuel fd; call (close fd); call (freeaddrinfo list); exit_with 0
  choose (is_neg fd) next serve

-- `addresses` is the list behind the pointer that `getaddrinfo` stores.
pub main : (addresses : ℤ → List (ℕ × List ℕ)) → ℕ → List (List ℕ) → Prog ℕ
main addresses fuel argv =
    choose (not (length argv == 2)) (call (eprintf "usage: ruptime hostname") >> exit_with 1) (do
      g ← call (getaddrinfo (get_or argv 1 []))
      choose (not (is_zero g.ret)) (call (eprintf "getaddrinfo error: %s") >> exit_with 1)
          (try_addresses fuel (pos g.out) (addresses (pos g.out))))
