-- ===== src/Ipc/MsgQueue/Selection.antt =====
-- What msgq.c does with its queue.
use linux_system_programming.Ipc.MsgQueue.{
  Choice, Options, choose_option, complain, defaults, get_msg, main, proceed, read_options,
  run_queue, send_msg, set_options, usage,
}
use linux_system_programming.Prelude.{
  Bool-cases, List, String, [], arith, inl, inr, refl, some, suc, true, zero, ℕ, ◌+◌, ◌∷◌, ◌≡◌,
}
use linux_system_programming.Prelude.Int.{is_minus_one, is_pos, ℤ}
use linux_system_programming.Sys.{
  OnSuccess, OrFails, Prog, Script, Trace, event, exit_status, trace,
}
use linux_system_programming.Sys.Rules.{OnSuccess-bind}
use linux_system_programming.Sys.Calls.{getopt, msgrcv, msgsnd}
use linux_system_programming.Sys.Files.{one_if}

-- How often a message was asked for, or sent, with a positive type.
unfoldable pub exchanges : Trace → ℕ
exchanges [] = 0
exchanges (event (msgsnd q k) r ∷ t) = exchanges t + one_if (is_pos k)
exchanges (event (msgrcv q k) r ∷ t) = exchanges t + one_if (is_pos k)
exchanges (event _ r ∷ t) = exchanges t

-- How often the queue was used at all.
unfoldable pub uses : Trace → ℕ
uses [] = 0
uses (event (msgsnd q k) r ∷ t) = uses t + 1
uses (event (msgrcv q k) r ∷ t) = uses t + 1
uses (event _ r ∷ t) = uses t

module _ (atoi : List ℕ → ℤ) (s : Script) where
  abbrev Fits : Trace → Options → Trace → Type 0
  Fits t o t' = (is_pos o.msgtype ≡ true) × (exchanges t' ≡ exchanges t) × (uses t' ≡ uses t)

  usage-fails :
      {A : Type 0} (P : A → Trace → Type 0) (msg : String) (n : ℕ) (t : Trace)
      → OrFails P (usage msg s n t)
  unfolding usage
  usage-fails P msg n t = ground arith

  choose_option-positive :
      (opt : ℤ) (optarg : List ℕ) (o o' : Options)
      → is_pos o.msgtype ≡ true
      → choose_option atoi opt optarg o ≡ set_options o'
      → is_pos o'.msgtype ≡ true
  unfolding choose_option
  choose_option-positive opt optarg o o' h e = ground arith

  proceed-OrFails :
      {A : Type 0} (P : A → Trace → Type 0) (k : Options → Prog A) (c : Choice) (n : ℕ) (t : Trace)
      → ((o : Options) → c ≡ set_options o → OrFails P (k o s n t))
      → OrFails P (proceed atoi k c s n t)
  proceed-OrFails P k (set_options o) n t p = p o refl
  proceed-OrFails P k (complain msg) n t p = usage-fails P msg n t

  read_options-Fits :
      (fuel : ℕ) (o : Options) (n : ℕ) (t : Trace)
      → is_pos o.msgtype ≡ true
      → OrFails (Fits t) (read_options atoi fuel o s n t)
  unfolding read_options exchanges uses
  read_options-Fits zero o n t h = tt
  read_options-Fits (suc fuel) o n t h = elim (Bool-cases (is_minus_one (s n).ret)) [
    | inl e ↦ rw e (h, refl, refl)
    | inr e ↦ rw e (
        proceed-OrFails (Fits t) (read_options atoi fuel)
          (choose_option atoi (s n).ret (s n).bytes o) (suc n) (event getopt (s n) ∷ t)
          λ o' c.
            read_options-Fits fuel o' (suc n) (event getopt (s n) ∷ t)
              (choose_option-positive (s n).ret (s n).bytes o o' h c))
  ]

  run_queue-once :
      (o : Options) (n : ℕ) (t : Trace)
      → is_pos o.msgtype ≡ true
      → OnSuccess
          (λ t'. (exchanges t' ≡ suc (exchanges t)) × (uses t' ≡ suc (uses t)))
          (run_queue atoi o s n t)
  unfolding run_queue get_msg send_msg usage exchanges uses
  run_queue-once o n t h = ground arith

-- When msgq.c ends with status 0 it has used the queue exactly once, to send or to receive, and
-- with a positive message type.
pub main-once :
    (atoi : List ℕ → ℤ) (s : Script) (fuel : ℕ)
    → exit_status (main atoi fuel s 0 []) ≡ some 0
    → (exchanges (trace (main atoi fuel s 0 [])) ≡ 1) × (uses (trace (main atoi fuel s 0 [])) ≡ 1)
unfolding main exchanges uses
main-once atoi s fuel =
    OnSuccess-bind (Fits atoi s []) (λ t'. (exchanges t' ≡ 1) × (uses t' ≡ 1))
      (read_options atoi fuel defaults s 0 []) _ s
      (read_options-Fits atoi s fuel defaults 0 [] refl) λ o n t h e. grind (arith, run_queue-once)
