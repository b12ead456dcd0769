-- ===== src/Ipc/SeqClient/Messages.antt =====
-- What seq_client.c sends.
use linux_system_programming.Ipc.OpenServer.Access.{sent}
use linux_system_programming.Ipc.SeqClient.{ask_result, main, send_all, write_text}
use linux_system_programming.Ipc.SeqServer.{end_text}
use linux_system_programming.Prelude.{
  List, [], append-nil, append_assoc, drop, false, map, refl, reverse, reverse-cons, some, suc, ℕ,
  ◌++◌, ◌∷◌, ◌≡◌,
}
use linux_system_programming.Prelude.Int.{is_minus_one, ℤ}
use linux_system_programming.Sys.{Runs, Script, Trace, event, exit_status, trace}
use linux_system_programming.Sys.Rules.{Runs-bind}
use linux_system_programming.Sys.Calls.{write}

-- The messages written in a run, the latest first.
unfoldable pub messages : Trace → List (List ℕ)
messages [] = []
messages (event (write d b k) r ∷ t) = b ∷ messages t
messages (event _ r ∷ t) = messages t

abbrev pub with_nul : List ℕ → List ℕ
with_nul cs = cs ++ 0 ∷ []

-- The texts in front of those sent before, the latest first.
unfoldable pub then_sent : List (List ℕ) → List (List ℕ) → List (List ℕ)
then_sent [] sent = sent
then_sent (cs ∷ texts) sent = then_sent texts (with_nul cs ∷ sent)

send_all-sends :
    (s : Script) (fd : ℤ) (args : List (List ℕ)) (n : ℕ) (t : Trace)
    → ((i : ℕ) → is_minus_one (s i).ret ≡ false)
    → Runs (λ _ t'. messages t' ≡ then_sent args (messages t)) (send_all fd args s n t)
unfolding send_all messages then_sent
send_all-sends s fd [] n t h = refl
send_all-sends s fd (arg ∷ args) n t h =
    rw (h n) (send_all-sends s fd args (suc n) (event (write_text fd arg) _ ∷ t) h)

then_sent_reversed :
    (texts sent : List (List ℕ)) → then_sent texts sent ≡ reverse (map with_nul texts) ++ sent
unfolding then_sent
then_sent_reversed [] sent = refl
then_sent_reversed (cs ∷ texts) sent =
    rw (then_sent_reversed texts (with_nul cs ∷ sent)) (simp (reverse-cons, append_assoc))

ask_result-sends :
    (s : Script) (junk : List ℕ) (fd : ℤ) (n : ℕ) (t : Trace)
    → ((i : ℕ) → is_minus_one (s i).ret ≡ false)
    → (exit_status (ask_result junk fd s n t) ≡ some 0)
      × (messages (trace (ask_result junk fd s n t)) ≡ with_nul end_text ∷ messages t)
unfolding ask_result messages
ask_result-sends s junk fd n t h = rw (h n, h (suc n)) (refl, refl)

-- If no call fails, then seq_client.c ends with status 0, and it has sent each of its arguments in
-- order, as it stands and with a zero byte behind it, then END, and nothing else.
pub main-sends :
    (s : Script) (junk : List ℕ) (argv : List (List ℕ))
    → ((i : ℕ) → is_minus_one (s i).ret ≡ false)
    → (exit_status (main junk argv s 0 []) ≡ some 0)
      × (messages (trace (main junk argv s 0 []))
          ≡ with_nul end_text ∷ reverse (map with_nul (drop 1 argv)))
unfolding main messages
main-sends s junk argv h =
    let texts : List (List ℕ) = drop 1 argv in
    rw (h 0, h 1)
      (Runs-bind (λ _ t. messages t ≡ then_sent texts [])
        (λ o.
          (exit_status o ≡ some 0)
          × (messages (trace o) ≡ with_nul end_text ∷ reverse (map with_nul texts)))
        (send_all (s 0).ret texts s 2 _) _ s (send_all-sends s (s 0).ret texts 2 _ h)
        λ _ n t p. (
          (ask_result-sends s junk (s 0).ret n t h).0,
          rw ((ask_result-sends s junk (s 0).ret n t h).1, p, then_sent_reversed texts [])
              (simp (append-nil)),
        ))
