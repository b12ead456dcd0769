-- ===== src/Ipc/Ruptimed/Clients.antt =====
-- The sockets of ruptimed.c.
use linux_system_programming.Ipc.Ruptimed.{Report, answer, get_uptime, initserver, serve}
use linux_system_programming.Prelude.{List, arith, suc, zero, ℕ, ◌+◌, ◌∷◌, ◌≡◌}
use linux_system_programming.Prelude.Int.{is_neg, ℤ}
use linux_system_programming.Sys.{Reply, Runs, Script, Trace, call, choose, event, pure, ◌>>◌}
use linux_system_programming.Sys.Calls.{accept, syslog}
use linux_system_programming.Sys.Files.{Closes, Closes-bind, closed, held, opened}

-- `initserver` returns the socket that it made, open, or -1 with that socket closed.
pub initserver-settles :
    (s : Script) (n : ℕ) (t : Trace) (x : ℕ)
    → Runs
        (λ fd t'. opened x t' + closed x t ≡ closed x t' + opened x t + held x fd)
        (initserver s n t)
unfolding initserver opened closed held
initserver-settles s n t x = ground arith

answer-Settles :
    (format : Report → List ℕ) (s : Script) (fd : ℤ) (n : ℕ) (t : Trace) (x : ℕ)
    → Runs
        (λ _ t'. opened x t' + closed x t + held x fd ≡ closed x t' + opened x t)
        (answer format fd s n t)
unfolding answer get_uptime opened closed
answer-Settles format s fd n t x = ground arith

-- One round of `serve`, up to the next.
client-Settles :
    (format : Report → List ℕ) (s : Script) (c : Reply) (fd : ℤ) (n : ℕ) (t : Trace) (x : ℕ)
    → Runs
        (λ _ t'. opened x t' + closed x t + 0 ≡ closed x t' + opened x t + 0)
        (choose
          (is_neg c.ret)
          (call (syslog "accept error: %s") >> pure tt)
          (answer format c.ret)
          s
          n
          (event (accept fd) c ∷ t))
unfolding opened closed held
client-Settles format s c fd n t x =
    ground (arith, answer-Settles format s c.ret n (event (accept fd) c ∷ t) x)

-- However many rounds `serve` is given, and however `accept`, the file and `send` fail, every
-- connection accepted has been closed when the rounds are over.
pub serve-Closes :
    (format : Report → List ℕ) (fuel : ℕ) (s : Script) (fd : ℤ) (n : ℕ) (t : Trace) (x : ℕ)
    → Closes x 0 t (serve format fuel fd s n t)
unfolding serve
serve-Closes format zero s fd n t x = omega arith
serve-Closes format (suc fuel) s fd n t x =
    Closes-bind x 0 0 t _ _ s (client-Settles format s (s n) fd (suc n) t x)
      λ _ n' t'. serve-Closes format fuel s fd n' t' x
