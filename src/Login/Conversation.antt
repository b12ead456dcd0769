-- ===== src/Login/Conversation.antt =====
-- `pam_conversation` of loginpam.c and `conv_func` of minisudo.c: the answers to PAM's messages.
use linux_system_programming.Ipc.SeqClient.Messages.{messages}
use linux_system_programming.Ipc.SeqServer.{reply}
use linux_system_programming.Prelude.{List, Option, [], length, none, some, ℕ, ◌++◌, ◌∷◌}
use linux_system_programming.Prelude.Int.{is_zero, ℤ}
use linux_system_programming.Shell.Line.{until_newline}
use linux_system_programming.Sys.{Prog, call, choose, fault, pure, ◌>>=◌, ◌>>◌}
use linux_system_programming.Sys.Calls.{calloc, eprintf, fgets, free, free_text, getpass, printf}

pub data Style : Type 0 where
  prompt_echo_off prompt_echo_on text_info error_msg other : Style

-- PAM_CONV_ERR
abbrev pub conv_err : ℕ
conv_err = 19

-- The answers so far and `captured_password`; a reply with no text is `none`.
pub record Conversation : Type 0 where
  pub answers : List (Option (List ℕ))
  pub captured : Option (List ℕ)

abbrev pub answered_with : Option (List ℕ) → Conversation → Conversation
answered_with r c = record c { answers = c.answers ++ r ∷ [] }

-- `if (captured_password) free (captured_password);`
unfoldable pub free_captured : Option (List ℕ) → Prog (Unit {0})
free_captured none = pure tt
free_captured (some password) = call (free_text password) >> pure tt

-- One message of loginpam.c: the state after it, or the end of the conversation with an error.
-- `getpass` that fails makes `strdup (NULL)`.
unfoldable pub converse_one : ℤ → Style → Conversation → Prog (Option Conversation)
converse_one reply prompt_echo_off c = do
  i ← call getpass
  free_captured c.captured
  choose (is_zero i.ret) fault
      (pure (some (record (answered_with (some i.bytes) c) { captured = some i.bytes })))
converse_one reply prompt_echo_on c = do
  call (printf "%s")
  l ← call (fgets 512)
  choose (is_zero l.ret) (pure none) (pure (some (answered_with (some (until_newline l.bytes)) c)))
converse_one reply text_info c = call (printf "%s\n") >> pure (some (answered_with none c))
converse_one reply error_msg c = call (eprintf "%s\n") >> pure (some (answered_with none c))
converse_one reply other c = call (free reply) >> pure none

unfoldable pub converse_all : ℤ → List Style → Conversation → Prog (Option Conversation)
converse_all reply [] c = pure (some c)
converse_all reply (m ∷ ms) c = do
  o ← converse_one reply m c
  elim o [ some c' ↦ converse_all reply ms c' | none ↦ pure none ]

-- The result and, with PAM_SUCCESS, what `*resp` has.
unfoldable pub pam_conversation : List Style → Option (List ℕ) → Prog (ℕ × Option Conversation)
pam_conversation messages captured = do
  k ← call (calloc (length messages))
  let converse = do
    o ← converse_all k.ret messages (record { answers = []; captured = captured })
    elim o [ some c ↦ pure (0, some c) | none ↦ pure (conv_err, none) ]
  choose (is_zero k.ret) (pure (conv_err, none)) converse

-- The same of minisudo.c, where a failed `fgets` leaves the reply empty.
unfoldable pub conv_one :
    ℤ → Style → List (Option (List ℕ)) → Prog (Option (List (Option (List ℕ))))
conv_one reply prompt_echo_off rs = do
  i ← call getpass
  choose (is_zero i.ret) fault (pure (some (rs ++ some i.bytes ∷ [])))
conv_one reply prompt_echo_on rs = do
  call (printf "%s")
  l ← call (fgets 512)
  choose (is_zero l.ret) (pure (some (rs ++ none ∷ [])))
      (pure (some (rs ++ some (until_newline l.bytes) ∷ [])))
conv_one reply text_info rs = call (printf "%s\n") >> pure (some (rs ++ none ∷ []))
conv_one reply error_msg rs = call (eprintf "%s\n") >> pure (some (rs ++ none ∷ []))
conv_one reply other rs = call (free reply) >> pure none

unfoldable pub conv_all :
    ℤ → List Style → List (Option (List ℕ)) → Prog (Option (List (Option (List ℕ))))
conv_all reply [] rs = pure (some rs)
conv_all reply (m ∷ ms) rs = do
  o ← conv_one reply m rs
  elim o [ some rs' ↦ conv_all reply ms rs' | none ↦ pure none ]

unfoldable pub conv_func : List Style → Prog (ℕ × List (Option (List ℕ)))
conv_func messages = do
  k ← call (calloc (length messages))
  let converse = do
    o ← conv_all k.ret messages []
    elim o [ some rs ↦ pure (0, rs) | none ↦ pure (conv_err, []) ]
  choose (is_zero k.ret) (pure (conv_err, [])) converse
