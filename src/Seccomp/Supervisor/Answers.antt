-- ===== src/Seccomp/Supervisor/Answers.antt =====
-- One answer for each notification.
use linux_system_programming.Ipc.SeqServer.{same, text}
use linux_system_programming.Prelude.{
  Bool, Bool-cases, List, [], arith, if◌then◌else◌, inl, inr, length, suc, zero, ℕ, ◌==◌, ◌∷◌, ◌≡◌,
  ◌≤◌,
}
use linux_system_programming.Prelude.Int.{is_minus_one, ℤ}
use linux_system_programming.Seccomp.Filter.{sys_mkdir}
use linux_system_programming.Seccomp.Pathname.{
  Notif, check_again, cookie_is_valid, get_target_pathname, read_pathname,
}
use linux_system_programming.Seccomp.Supervisor.{
  Response, bye, eintr, handle_loop, handle_one, make_for_target, notif_of, respond, send_response,
}
use linux_system_programming.Sys.{
  Outcome, Prog, Reply, Runs, Script, Trace, bind_outcome, event, exited, faulted, replaced,
  starved, trace, value,
}
use linux_system_programming.Sys.Rules.{Runs-bind}
use linux_system_programming.Sys.Calls.{notif_recv, notif_send}

-- The notifications received and not answered, the latest first. An answer to another one is kept
-- as if it were a notification.
abbrev pub answered : ℕ → List ℕ → List ℕ
answered id [] = id ∷ []
answered id (x ∷ xs) = if x == id then xs else id ∷ x ∷ xs

abbrev pub waiting : Trace → List ℕ
waiting [] = []
waiting (event (notif_recv fd) r ∷ t) =
    if is_minus_one r.ret then waiting t else (notif_of r.bytes).id ∷ waiting t
waiting (event (notif_send fd id flags val error) r ∷ t) = answered id (waiting t)
waiting (event _ r ∷ t) = waiting t

-- All notifications are answered, or the process has ended with one that is not.
abbrev pub Answering : {A : Type 0} → Outcome A → Type 0
Answering (exited c t) = length (waiting t) ≤ 1
Answering o = waiting (trace o) ≡ []

module _ (s : Script) where
  get_target_pathname-waiting :
      (req : Notif) (fd : ℤ) (path : List ℕ) (n : ℕ) (t : Trace)
      → Runs (λ _ t'. waiting t' ≡ waiting t) (get_target_pathname req fd path s n t)
  unfolding get_target_pathname read_pathname check_again cookie_is_valid
  get_target_pathname-waiting req fd path n t = ground arith

  respond-id :
      (req : Notif) (ok : Bool) (path : List ℕ) (n : ℕ) (t : Trace)
      → Runs (λ r t'. (r.id ≡ req.id) × (waiting t' ≡ waiting t)) (respond req ok path s n t)
  unfolding respond make_for_target
  respond-id req ok path n t = ground arith

  send_response-answered :
      (fd : ℤ) (r : Response) (n : ℕ) (t : Trace)
      → Runs (λ _ t'. waiting t' ≡ answered r.id (waiting t)) (send_response fd r s n t)
  unfolding send_response
  send_response-answered fd r n t = ground arith

  handle_one-Answering :
      (fd : ℤ) (req : Notif) (path : List ℕ) (n : ℕ) (t : Trace)
      → waiting t ≡ req.id ∷ []
      → Answering (handle_one fd req path s n t)
  unfolding handle_one
  handle_one-Answering fd req path n t h = elim (Bool-cases (req.nr == sys_mkdir)) [
    | inr e ↦ rw e (rw h (omega arith))
    | inl e ↦ rw e (
        Runs-bind (λ _ t'. waiting t' ≡ waiting t) Answering
          (get_target_pathname req fd path s (suc n) _) _ s
          (get_target_pathname-waiting req fd path (suc n) _)
          λ (ok, path') n2 t2 h2.
            Runs-bind (λ r t'. (r.id ≡ req.id) × (waiting t' ≡ waiting t2)) Answering
              (respond req ok (text path') s n2 t2) _ s (respond-id req ok (text path') n2 t2)
              λ r n3 t3 h3.
                Runs-bind (λ _ t'. waiting t' ≡ answered r.id (waiting t3)) Answering
                  (send_response fd r s n3 t3) _ s (send_response-answered fd r n3 t3)
                  λ _ n4 t4 h4. ground (arith, h, h2, h3.0, h3.1, h4))
  ]

  Answering-bind :
      {A B : Type 0} (o : Outcome A) (k : A → Prog B)
      → Answering o
      → ((a : A) (n : ℕ) (t : Trace) → waiting t ≡ [] → Answering (k a s n t))
      → Answering (bind_outcome o k s)
  Answering-bind (value a n t) k p q = q a n t p
  Answering-bind (exited c t) k p q = p
  Answering-bind (replaced t) k p q = p
  Answering-bind (starved t) k p q = p
  Answering-bind (faulted t) k p q = p

  -- The supervisor of seccomp_unotify.c never receives a second notification before it has sent
  -- the answer to the first, with its identifier: when the loop is left or its rounds are used up,
  -- none waits, and when the process ends in it, at most one does.
  pub handle_loop-Answering :
      (fuel : ℕ) (fd req_ptr : ℤ) (size : ℕ) (path : List ℕ) (n : ℕ) (t : Trace)
      → waiting t ≡ []
      → Answering (handle_loop fuel fd req_ptr size path s n t)
  unfolding handle_loop
  handle_loop-Answering zero fd req_ptr size path n t h = h
  handle_loop-Answering (suc fuel) fd req_ptr size path n t h =
      let r : Reply = s (suc (suc n)) in
      elim (Bool-cases (is_minus_one r.ret)) [
        | inl e ↦ rw e (elim (Bool-cases (r.errno == eintr)) [
          | inl e2 ↦
              rw e2 (
                handle_loop-Answering fuel fd req_ptr size path (suc (suc (suc n))) _
                  (ground arith))
          | inr e2 ↦ rw e2 (ground arith)
        ])
        | inr e ↦ rw e (
            Answering-bind (handle_one fd (notif_of r.bytes) path s (suc (suc (suc n))) _) _
              (handle_one-Answering fd (notif_of r.bytes) path (suc (suc (suc n))) _ (ground arith))
              λ path' n2 t2 h2. elim (Bool-cases (same (text path') bye)) [
                | inl e3 ↦ rw e3 h2
                | inr e3 ↦ rw e3 (handle_loop-Answering fuel fd req_ptr size path' n2 t2 h2)
              ])
      ]
