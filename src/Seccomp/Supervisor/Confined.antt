-- ===== src/Seccomp/Supervisor/Confined.antt =====
-- Where the supervisor of seccomp_unotify.c makes directories.
use linux_system_programming.Ipc.SeqServer.{same, text}
use linux_system_programming.Prelude.{
  Bool, Bool-cases, List, [], arith, inl, inr, suc, true, zero, ℕ, ◌==◌, ◌∷◌, ◌≡◌,
}
use linux_system_programming.Prelude.Int.{is_minus_one, ℤ}
use linux_system_programming.Seccomp.Filter.{sys_mkdir}
use linux_system_programming.Seccomp.Pathname.{
  Notif, check_again, cookie_is_valid, get_target_pathname, read_pathname,
}
use linux_system_programming.Seccomp.Supervisor.{
  Response, bye, eintr, handle_loop, handle_one, make_for_target, notif_of, respond, send_response,
  starts_with, tmp_prefix,
}
use linux_system_programming.Sys.{Reply, Script, Throughout, Trace, event}
use linux_system_programming.Sys.Rules.{Throughout-bind}
use linux_system_programming.Sys.Calls.{mkdir}

-- Every directory made in a run has a path under "/tmp/".
abbrev pub UnderTmp : Trace → Type 0
UnderTmp [] = Unit
UnderTmp (event (mkdir path mode) r ∷ t) = (starts_with tmp_prefix path ≡ true) × UnderTmp t
UnderTmp (event _ r ∷ t) = UnderTmp t

module _ (s : Script) where
  get_target_pathname-UnderTmp :
      (req : Notif) (fd : ℤ) (path : List ℕ) (n : ℕ) (t : Trace)
      → UnderTmp t
      → Throughout UnderTmp (get_target_pathname req fd path s n t)
  unfolding get_target_pathname read_pathname check_again cookie_is_valid
  get_target_pathname-UnderTmp req fd path n t h = ground arith

  respond-UnderTmp :
      (req : Notif) (ok : Bool) (path : List ℕ) (n : ℕ) (t : Trace)
      → UnderTmp t
      → Throughout UnderTmp (respond req ok path s n t)
  unfolding respond make_for_target
  respond-UnderTmp req ok path n t h = ground arith

  send_response-UnderTmp :
      (fd : ℤ) (r : Response) (n : ℕ) (t : Trace)
      → UnderTmp t
      → Throughout UnderTmp (send_response fd r s n t)
  unfolding send_response
  send_response-UnderTmp fd r n t h = ground arith

  handle_one-UnderTmp :
      (fd : ℤ) (req : Notif) (path : List ℕ) (n : ℕ) (t : Trace)
      → UnderTmp t
      → Throughout UnderTmp (handle_one fd req path s n t)
  unfolding handle_one
  handle_one-UnderTmp fd req path n t h = elim (Bool-cases (req.nr == sys_mkdir)) [
    | inr e ↦ rw e h
    | inl e ↦ rw e (
        Throughout-bind UnderTmp (get_target_pathname req fd path s (suc n) _) _ s
          (get_target_pathname-UnderTmp req fd path (suc n) _ h)
          λ (ok, path') n2 t2 h2.
            Throughout-bind UnderTmp (respond req ok (text path') s n2 t2) _ s
              (respond-UnderTmp req ok (text path') n2 t2 h2)
              λ r n3 t3 h3.
                Throughout-bind UnderTmp (send_response fd r s n3 t3) _ s
                  (send_response-UnderTmp fd r n3 t3 h3) λ _ _ _ h4. h4)
  ]

  -- However many notifications come, with whatever fields and memory, and however the calls fail,
  -- every directory that the supervisor of seccomp_unotify.c has made has a path that starts with
  -- "/tmp/".
  pub handle_loop-UnderTmp :
      (fuel : ℕ) (fd req_ptr : ℤ) (size : ℕ) (path : List ℕ) (n : ℕ) (t : Trace)
      → UnderTmp t
      → Throughout UnderTmp (handle_loop fuel fd req_ptr size path s n t)
  unfolding handle_loop
  handle_loop-UnderTmp zero fd req_ptr size path n t h = h
  handle_loop-UnderTmp (suc fuel) fd req_ptr size path n t h =
      let r : Reply = s (suc (suc n)) in
      elim (Bool-cases (is_minus_one r.ret)) [
        | inl e ↦ rw e (elim (Bool-cases (r.errno == eintr)) [
          | inl e2 ↦ rw e2 (handle_loop-UnderTmp fuel fd req_ptr size path (suc (suc (suc n))) _ h)
          | inr e2 ↦ rw e2 h
        ])
        | inr e ↦ rw e (
            Throughout-bind UnderTmp (handle_one fd (notif_of r.bytes) path s (suc (suc (suc n))) _)
              _ s (handle_one-UnderTmp fd (notif_of r.bytes) path (suc (suc (suc n))) _ h)
              λ path' n2 t2 h2. elim (Bool-cases (same (text path') bye)) [
                | inl e3 ↦ rw e3 h2
                | inr e3 ↦ rw e3 (handle_loop-UnderTmp fuel fd req_ptr size path' n2 t2 h2)
              ])
      ]
