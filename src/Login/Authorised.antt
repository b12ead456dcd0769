-- ===== src/Login/Authorised.antt =====
-- When loginpam.c starts a shell.
use linux_system_programming.Login.{
  Passwd, as_user, check_user, close_all, do_login_record, do_logout_record, drop_privileges,
  end_failed, exec_shell, main, put_all, run_shell, set_environment, show_item, start_session,
  use_password,
}
use linux_system_programming.Prelude.{
  Bool, Bool-cases, List, Option, String, [], arith, false, inl, inr, none, not, refl, some, suc,
  true, ℕ, ◌&&◌, ◌==◌, ◌||◌, ◌∷◌, ◌≡◌,
}
use linux_system_programming.Prelude.Int.{eq_ℤ, eq_ℤ_refl, is_neg, is_zero, ℤ}
use linux_system_programming.Shell.Line.{same_text, until_newline}
use linux_system_programming.Sys.{Script, Throughout, Trace, call, event, ◌>>◌}
use linux_system_programming.Sys.Calls.{
  Call, execlp, execlp_name, free, getpwnam, initgroups, pam_acct_mgmt, pam_authenticate,
  pam_open_session, pam_start, setgid, setuid,
}
use linux_system_programming.Sys.Rules.{Throughout-bind, Throughout-then, Throughout-when}

-- Some call of the run that `f` picks has not failed: it returned 0, or a number that is not
-- negative.
abbrev pub passed : (Call → Bool) → Trace → Bool
passed f [] = false
passed f (event c r ∷ t) = (f c && is_zero r.ret) || passed f t

abbrev pub is_authenticate : Call → Bool
is_authenticate pam_authenticate = true
is_authenticate _ = false

abbrev pub is_start : List ℕ → Call → Bool
is_start name (pam_start service v) = same_text v name
is_start name _ = false

abbrev pub is_acct_mgmt : Call → Bool
is_acct_mgmt pam_acct_mgmt = true
is_acct_mgmt _ = false

abbrev pub is_open_session : Call → Bool
is_open_session pam_open_session = true
is_open_session _ = false

-- The calls that take on the user, which report an error by a negative number.
abbrev pub done_as : (Call → Bool) → Trace → Bool
done_as f [] = false
done_as f (event c r ∷ t) = (f c && not (is_neg r.ret)) || done_as f t

abbrev pub is_initgroups : List ℕ → ℕ → Call → Bool
is_initgroups name g (initgroups v g') = same_text v name && (g' == g)
is_initgroups name g _ = false

abbrev pub is_setgid : ℕ → Call → Bool
is_setgid g (setgid g') = g' == g
is_setgid g _ = false

abbrev pub is_setuid : ℕ → Call → Bool
is_setuid u (setuid u') = u' == u
is_setuid u _ = false

-- PAM was started for the name and has accepted it.
abbrev pub Accepted : List ℕ → Trace → Type 0
Accepted name t =
    (passed (is_start name) t ≡ true)
    × (passed is_authenticate t ≡ true)
    × (passed is_acct_mgmt t ≡ true)
    × (passed is_open_session t ≡ true)

-- `getpwnam` has answered the name with the entry at `p`, which is not NULL.
abbrev pub looked_up : List ℕ → ℤ → Trace → Bool
looked_up name p [] = false
looked_up name p (event (getpwnam v) r ∷ t) =
    (same_text v name && eq_ℤ r.ret p && not (is_zero p)) || looked_up name p t
looked_up name p (event _ r ∷ t) = looked_up name p t

-- The process has taken on the identity of `pw`.
abbrev pub TakenOn : List ℕ → Passwd → Trace → Type 0
TakenOn name pw t =
    (done_as (is_initgroups name pw.pw_gid) t ≡ true)
    × (done_as (is_setgid pw.pw_gid) t ≡ true)
    × (done_as (is_setuid pw.pw_uid) t ≡ true)

-- PAM has accepted the name, and the process has taken on the ids of the entry that `getpwnam` has
-- answered this name with.
abbrev pub LoggedIn : (ℤ → Passwd) → List ℕ → ℤ → Trace → Type 0
LoggedIn passwd name p t = Accepted name t × (looked_up name p t ≡ true) × TakenOn name (passwd p) t

-- Each shell of the run was started after that.
abbrev pub Authorised : (ℤ → Passwd) → List ℕ → ℤ → Trace → Type 0
Authorised passwd name p [] = Unit
Authorised passwd name p (event (execlp f) r ∷ t) =
    LoggedIn passwd name p t × Authorised passwd name p t
Authorised passwd name p (event (execlp_name f) r ∷ t) =
    LoggedIn passwd name p t × Authorised passwd name p t
Authorised passwd name p (event _ r ∷ t) = Authorised passwd name p t

same_text_refl : (w : List ℕ) → same_text w w ≡ true
unfolding same_text
same_text_refl [] = refl
same_text_refl (c ∷ cs) = ground (arith, same_text_refl cs)

module _ (s : Script) (passwd : ℤ → Passwd) (name : List ℕ) (p : ℤ) where
  abbrev Ready : Trace → Type 0
  Ready t = LoggedIn passwd name p t × Authorised passwd name p t

  do_logout_record-Ready : (n : ℕ) (t : Trace) → Ready t → Throughout Ready (do_logout_record s n t)
  unfolding do_logout_record
  do_logout_record-Ready n t h = ground arith

  close_all-Ready : (n : ℕ) (t : Trace) → Ready t → Throughout Ready (close_all s n t)
  unfolding close_all
  close_all-Ready n t h = ground arith

  exec_shell-Ready :
      (path : List ℕ) (n : ℕ) (t : Trace) → Ready t → Throughout Ready (exec_shell path s n t)
  unfolding exec_shell do_logout_record close_all
  exec_shell-Ready [] n t h = ground arith
  exec_shell-Ready (c ∷ cs) n t h = ground arith

  run_shell-Ready :
      (username : List ℕ) (q : Passwd) (n : ℕ) (t : Trace)
      → Ready t
      → Throughout Ready (run_shell username q s n t)
  unfolding run_shell
  run_shell-Ready username q n t h = elim (Bool-cases (is_neg (s n).ret)) [
    | inl e ↦ rw e (exec_shell-Ready q.pw_shell (suc (suc (suc n))) _ h)
    | inr e ↦ rw e (exec_shell-Ready q.pw_shell (suc (suc n)) _ h)
  ]

  show_item-Ready :
      (item : ℕ) (what : String) (n : ℕ) (t : Trace)
      → Ready t
      → Throughout Ready (show_item item what s n t)
  unfolding show_item
  show_item-Ready item what n t h = ground arith

  use_password-Ready :
      (captured : Option (List ℕ)) (n : ℕ) (t : Trace)
      → Ready t
      → Throughout Ready (use_password captured s n t)
  unfolding use_password
  use_password-Ready none n t h = h
  use_password-Ready (some p) n t h = h

  put_all-Ready :
      (es : List (List ℕ)) (n : ℕ) (t : Trace) → Ready t → Throughout Ready (put_all es s n t)
  unfolding put_all
  put_all-Ready [] n t h = h
  put_all-Ready (e ∷ es) n t h = put_all-Ready es (suc (suc n)) _ h

  module _ (environment : ℤ → List (List ℕ)) (captured : Option (List ℕ)) where
    set_environment-Ready :
        (q : Passwd) (n : ℕ) (t : Trace)
        → Ready t
        → Throughout Ready (set_environment passwd environment captured q s n t)
    unfolding set_environment
    set_environment-Ready q n t h =
        let l : ℤ = (s (suc (suc (suc (suc n))))).ret in
        Throughout-when Ready (not (is_zero l)) (put_all (environment l) >> call (free l)) s
          (suc (suc (suc (suc (suc n))))) _ h
          (Throughout-bind Ready (put_all (environment l) s (suc (suc (suc (suc (suc n))))) _) _ s
            (put_all-Ready (environment l) (suc (suc (suc (suc (suc n))))) _ h) λ _ _ _ r. r)

    as_user-Ready :
        (username : List ℕ) (q : Passwd) (n : ℕ) (t : Trace)
        → Ready t
        → Throughout Ready (as_user passwd environment captured username q s n t)
    unfolding as_user
    as_user-Ready username q n t h =
        Throughout-bind Ready (set_environment passwd environment captured q s (suc n) _) _ s
          (set_environment-Ready q (suc n) _
            ((h.0.0, h.0.1, (h.0.2.0, h.0.2.1, ground (arith, h.0.2.2))), h.1))
          λ _ n2 t2 h2.
            Throughout-bind Ready (show_item 2 "\nPAM USER: %s" s n2 t2) _ s
              (show_item-Ready 2 "\nPAM USER: %s" n2 t2 h2)
              λ _ n3 t3 h3.
                Throughout-bind Ready (show_item 1 "\nPAM SERVICE: %s" s n3 t3) _ s
                  (show_item-Ready 1 "\nPAM SERVICE: %s" n3 t3 h3)
                  λ _ n4 t4 h4.
                    Throughout-bind Ready (use_password captured s n4 t4) _ s
                      (use_password-Ready captured n4 t4 h4)
                      λ _ n5 t5 h5. run_shell-Ready username q n5 t5 h5

    -- A part before the identity is taken on.
    abbrev Checked : Trace → Type 0
    Checked t = Accepted name t × (looked_up name p t ≡ true) × Authorised passwd name p t

    drop_privileges-Authorised :
        (n : ℕ) (t : Trace)
        → Checked t
        → Throughout
            (Authorised passwd name p)
            (drop_privileges passwd environment captured name (passwd p) s n t)
    unfolding drop_privileges close_all
    drop_privileges-Authorised n t h = elim (Bool-cases (is_neg (s (suc n)).ret)) [
      | inl e ↦ rw e h.2
      | inr e ↦ rw e (elim (Bool-cases (is_neg (s (suc (suc n))).ret)) [
        | inl e2 ↦ rw e2 h.2
        | inr e2 ↦ rw e2 (elim (Bool-cases (is_neg (s (suc (suc (suc n)))).ret)) [
          | inl e3 ↦ rw e3 h.2
          | inr e3 ↦
              rw e3
                (as_user-Ready name (passwd p) (suc (suc (suc (suc n)))) _ (
                  (h.0, h.1, (ground (arith, same_text_refl name), ground arith, ground arith)),
                  h.2,
                )).1
        ])
      ])
    ]

    do_login_record-Checked :
        (n : ℕ) (t : Trace) → Checked t → Throughout Checked (do_login_record s n t)
    unfolding do_login_record
    do_login_record-Checked n t h = ground arith

module _ (s : Script) (passwd : ℤ → Passwd) (environment : ℤ → List (List ℕ))
    (captured : Option (List ℕ)) (name : List ℕ) where
  start_session-Authorised :
      (n : ℕ) (t : Trace)
      → Accepted name t × Authorised passwd name (s n).ret t
      → Throughout
          (Authorised passwd name (s n).ret)
          (start_session passwd environment captured name s n t)
  unfolding start_session close_all
  start_session-Authorised n t h =
      let p : ℤ = (s n).ret in
      let t1 : Trace = event (getpwnam name) (s n) ∷ t in
      elim (Bool-cases (is_zero (s n).ret)) [
        | inl e ↦ rw e h.1
        | inr e ↦ rw e (
            Throughout-then (Checked s passwd name p environment captured)
              (Authorised passwd name p) (do_login_record s (suc n) t1) _ s
              (do_login_record-Checked s passwd name p environment captured (suc n) t1
                (h.0, ground (arith, same_text_refl name, eq_ℤ_refl p), h.1))
              (λ t' c. c.2)
              λ _ n2 t2 c. drop_privileges-Authorised s passwd name p environment captured n2 t2 c)
      ]

  check_user-Authorised :
      (n : ℕ) (t : Trace)
      → passed (is_start name) t ≡ true
      → Authorised passwd name (s (suc (suc (suc n)))).ret t
      → Throughout
          (Authorised passwd name (s (suc (suc (suc n)))).ret)
          (check_user passwd environment captured name s n t)
  unfolding check_user end_failed
  check_user-Authorised n t b h = elim (Bool-cases (is_zero (s n).ret)) [
    | inr e ↦ rw e h
    | inl e ↦ rw e (elim (Bool-cases (is_zero (s (suc n)).ret)) [
      | inr e2 ↦ rw e2 h
      | inl e2 ↦ rw e2 (elim (Bool-cases (is_zero (s (suc (suc n))).ret)) [
        | inr e3 ↦ rw e3 h
        | inl e3 ↦ rw e3 (
            start_session-Authorised (suc (suc (suc n))) _
              ((ground arith, ground arith, ground arith, ground arith), h))
      ])
    ])
  ]

-- However PAM, the user database and the system calls answer, every shell that loginpam.c starts
-- was started after PAM, started for the name that was typed, had authenticated it, accepted the
-- account and opened the session, after `getpwnam` had answered the same name with an entry, and
-- after `initgroups` for that name, `setgid` and `setuid` with the ids of that entry had succeeded.
pub main-Authorised :
    (s : Script) (passwd : ℤ → Passwd) (environment : ℤ → List (List ℕ))
    (captured : Option (List ℕ))
    → Throughout
        (Authorised passwd (until_newline (s 2).bytes) (s 7).ret)
        (main passwd environment captured s 0 [])
unfolding main
main-Authorised s passwd environment captured =
    let name : List ℕ = until_newline (s 2).bytes in
    elim (Bool-cases (is_zero (s 2).ret)) [
      | inl e ↦ rw e tt
      | inr e ↦ rw e (elim (Bool-cases (is_zero (s 3).ret)) [
        | inl e2 ↦ rw e2 (
            check_user-Authorised s passwd environment captured name 4 _
              (ground (arith, same_text_refl name)) tt)
        | inr e2 ↦ rw e2 tt
      ])
    ]
