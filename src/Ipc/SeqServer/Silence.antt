-- ===== src/Ipc/SeqServer/Silence.antt =====
-- A client of seq_server.c that goes away without END.
use linux_system_programming.Ipc.SeqServer.{
  Heard, end_text, ended, follow, hear, more, overflow, receive, received, same, store_bytes, text,
}
use linux_system_programming.Prelude.{
  Bool, Bool-cases, List, [], arith, false, inl, inr, refl, set, suc, take, zero, ℕ, ◌∷◌, ◌≡◌, ◌≢◌,
}
use linux_system_programming.Prelude.Int.{is_minus_one, pos, pos_part, ℤ}
use linux_system_programming.Sys.{IfReturns, Prog, Script, Trace}

set_twice : {A : Type 0} (xs : List A) (i : ℕ) (v : A) → set (set xs i v) i v ≡ set xs i v
set_twice [] i v = refl
set_twice (x ∷ xs) zero v = refl
set_twice (x ∷ xs) (suc i) v = rw (set_twice xs i v) refl

module _ (atoi : List ℕ → ℤ) (show : ℤ → List ℕ) (s : Script) where
  follow-goes_on :
      {A : Type 0} (k : Bool → ℤ → Prog A) (stop : Prog A) (h : Heard) (n : ℕ) (t : Trace)
      → h ≢ ended
      → ((down : Bool) (result : ℤ) → IfReturns (λ _ _. ⊥) (k down result s n t))
      → IfReturns (λ _ _. ⊥) (follow k stop h s n t)
  follow-goes_on k stop (more down result) n t p q = q down result
  follow-goes_on k stop ended n t p q = absurd (p refl)
  follow-goes_on k stop overflow n t p q = tt

  hear-end :
      (message : List ℕ) (down : Bool) (result : ℤ)
      → same message end_text ≡ false
      → hear atoi show message down result ≢ ended
  unfolding hear
  hear-end message down result h e = ground arith

  received_nothing :
      (bytes buffer : List ℕ) (v : ℤ)
      → v ≡ pos 0
      → received atoi show (take (pos_part v) bytes) buffer ≡ set buffer 11 0
  unfolding received store_bytes
  received_nothing bytes buffer v h = rw h refl

  -- If every `read` from here on says that the client has gone, and the text left in the buffer is
  -- not END, then the inner loop of seq_server.c never comes back to answer, close and accept.
  pub receive-never_ends :
      (fuel : ℕ) (fd : ℤ) (buffer : List ℕ) (down : Bool) (result : ℤ) (n : ℕ) (t : Trace)
      → ((i : ℕ) → (s i).ret ≡ pos 0)
      → same (text (set buffer 11 0)) end_text ≡ false
      → IfReturns (λ _ _. ⊥) (receive atoi show fuel fd buffer down result s n t)
  unfolding receive
  receive-never_ends zero fd buffer down result n t h e = tt
  receive-never_ends (suc fuel) fd buffer down result n t h e =
      elim (Bool-cases (is_minus_one (s n).ret)) [
        | inl e2 ↦ rw e2 tt
        | inr e2 ↦
            rw (e2, received_nothing (s n).bytes buffer (s n).ret (h n))
              (follow-goes_on (receive atoi show fuel fd (set buffer 11 0)) _
                (hear atoi show (text (set buffer 11 0)) down result) (suc n) _
                (hear-end (text (set buffer 11 0)) down result e)
                λ d r.
                  receive-never_ends fuel fd (set buffer 11 0) d r (suc n) _ h
                    (rw (set_twice buffer 11 0) e))
      ]
