-- ===== src/Ipc/SeqServer/Sockets.antt =====
-- The sockets of seq_server.c.
use linux_system_programming.Ipc.SeqServer.{
  Client, Heard, buffer_size, ended, follow, hear, main, more, open_service, overflow, receive,
  received, reply, serve, text,
}
use linux_system_programming.Prelude.{
  Bool, Bool-cases, List, [], arith, false, inl, inr, some, suc, take, zero, ℕ, ◌+◌, ◌∷◌, ◌≡◌,
}
use linux_system_programming.Prelude.Int.{is_minus_one, pos, pos_part, ℤ}
use linux_system_programming.Sys.{
  OnSuccess, OrFails, Prog, Script, Trace, event, exit_status, trace,
}
use linux_system_programming.Sys.Rules.{OnSuccess-bind, OrFails-bind, OrFails-map}
use linux_system_programming.Sys.Calls.{accept, listen, read}
use linux_system_programming.Sys.Files.{closed, held, opened}

module _ (atoi : List ℕ → ℤ) (show : ℤ → List ℕ) (s : Script) (x : ℕ) where
  -- From `t` to `t'` every socket opened was closed, and `k` more.
  abbrev Balanced : ℕ → Trace → Trace → Type 0
  Balanced k t t' = opened x t' + closed x t + k ≡ closed x t' + opened x t

  abbrev Still : Trace → Client → Trace → Type 0
  Still t c t' = (opened x t' ≡ opened x t) × (closed x t' ≡ closed x t)

  follow-OrFails :
      {A : Type 0} (P : A → Trace → Type 0) (k : Bool → ℤ → Prog A) (stop : Prog A) (h : Heard)
      (n : ℕ) (t : Trace)
      → ((down : Bool) (result : ℤ) → OrFails P (k down result s n t))
      → OrFails P (stop s n t)
      → OrFails P (follow k stop h s n t)
  follow-OrFails P k stop (more down result) n t p q = p down result
  follow-OrFails P k stop ended n t p q = q
  follow-OrFails P k stop overflow n t p q = tt

  receive-Still :
      (fuel : ℕ) (fd : ℤ) (buffer : List ℕ) (down : Bool) (result : ℤ) (n : ℕ) (t : Trace)
      → OrFails (Still t) (receive atoi show fuel fd buffer down result s n t)
  unfolding receive opened closed
  receive-Still zero fd buffer down result n t = tt
  receive-Still (suc fuel) fd buffer down result n t =
      let next = received atoi show (take (pos_part (s n).ret) (s n).bytes) buffer in
      let t1 : Trace = event (read fd buffer_size) (s n) ∷ t in
      elim (Bool-cases (is_minus_one (s n).ret)) [
        | inl e ↦ rw e (ground arith)
        | inr e ↦ rw e (
            follow-OrFails (Still t) (receive atoi show fuel fd next) _
              (hear atoi show (text next) down result) (suc n) _
              (λ d r.
                OrFails-map (Still t1) (Still t) (receive atoi show fuel fd next d r s (suc n) t1)
                  (λ c t' h. (ground (arith, h.0), ground (arith, h.1)))
                  (receive-Still fuel fd next d r (suc n) t1))
              (ground arith, ground arith))
      ]

  reply-Balanced :
      (fd : ℤ) (c : Client) (n : ℕ) (t : Trace)
      → OrFails (λ _. Balanced (held x fd) t) (reply atoi show fd c s n t)
  unfolding reply opened closed
  reply-Balanced fd c n t = ground arith

  answer-Balanced :
      (fd : ℤ) (c : Client) (n : ℕ) (t0 t : Trace)
      → Still t0 c t
      → OrFails (λ _. Balanced (held x fd) t0) (reply atoi show fd c s n t)
  unfolding reply opened closed
  answer-Balanced fd c n t0 t h = ground arith

  -- A status of 0 comes only after all that was accepted is closed.
  serve-Balanced :
      (fuel : ℕ) (sock : ℤ) (buffer : List ℕ) (down : Bool) (n : ℕ) (t : Trace)
      → OrFails (λ _. Balanced 0 t) (serve atoi show fuel sock buffer down s n t)
  unfolding serve opened closed
  serve-Balanced zero sock buffer down n t = tt
  serve-Balanced (suc fuel) sock buffer down n t =
      let t1 : Trace = event (accept sock) (s n) ∷ t in
      elim (Bool-cases (is_minus_one (s n).ret)) [
        | inl e ↦ rw e (ground arith)
        | inr e ↦ rw e (
            OrFails-bind (Still t1) (λ _. Balanced 0 t)
              (receive atoi show fuel (s n).ret buffer down (pos 0) s (suc n) t1) _ s
              (receive-Still fuel (s n).ret buffer down (pos 0) (suc n) t1)
              λ c n2 t2 h.
                OrFails-bind (λ _. Balanced (held x (s n).ret) t1) (λ _. Balanced 0 t)
                  (reply atoi show (s n).ret c s n2 t2) _ s (answer-Balanced (s n).ret c n2 t1 t2 h)
                  λ sent_text n3 t3 b. elim (Bool-cases c.down_flag) [
                    | inl d ↦ rw d (ground (arith, b))
                    | inr d ↦ rw d (
                        OrFails-map (λ _. Balanced 0 t3) (λ _. Balanced 0 t)
                          (serve atoi show fuel sock sent_text false s n3 t3)
                          (λ _ t' g. ground (arith, b, g))
                          (serve-Balanced fuel sock sent_text false n3 t3))
                  ])
      ]

  open_service-Balanced :
      (fuel : ℕ) (junk : List ℕ) (sock : ℤ) (n : ℕ) (t : Trace)
      → OnSuccess (Balanced (held x sock) t) (open_service atoi show fuel junk sock s n t)
  unfolding open_service opened closed
  open_service-Balanced fuel junk sock n t =
      let t1 : Trace = event (listen sock 20) (s n) ∷ t in
      elim (Bool-cases (is_minus_one (s n).ret)) [
        | inl e ↦ rw e (ground arith)
        | inr e ↦ rw e (
            OnSuccess-bind (λ _. Balanced 0 t1) (Balanced (held x sock) t)
              (serve atoi show fuel sock junk false s (suc n) t1) _ s
              (serve-Balanced fuel sock junk false (suc n) t1) λ _ n2 t2 b e2. ground (arith, b))
      ]

-- When seq_server.c ends with status 0, each of its sockets,
-- the connection socket and those of all clients, has been closed as often as it was opened.
pub main-closes_sockets :
    (atoi : List ℕ → ℤ) (show : ℤ → List ℕ) (s : Script) (x fuel : ℕ) (junk : List ℕ)
    → exit_status (main atoi show fuel junk s 0 []) ≡ some 0
    → opened x (trace (main atoi show fuel junk s 0 []))
      ≡ closed x (trace (main atoi show fuel junk s 0 []))
unfolding main opened closed
main-closes_sockets atoi show s x fuel junk h = grind (arith, open_service-Balanced)
