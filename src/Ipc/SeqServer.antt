-- ===== src/Ipc/SeqServer.antt =====
-- Code/Mastering IPC and Terminals/seq_server.c: a server that adds the numbers that each client
-- sends. `atoi` and the text that `sprintf` makes of an `int` are parameters; a sum that an `int`
-- does not hold is a fault.
pub mod Sockets
pub mod Silence
use linux_system_programming.Prelude.{
  Bool, List, String, [], drop, false, if◌then◌else◌, length, ltb, set, suc, take, true, zero, ℕ,
  ◌&&◌, ◌++◌, ◌-◌, ◌==◌, ◌^◌, ◌∷◌,
}
use linux_system_programming.Prelude.Int.{is_minus_one, negsuc, pos, pos_part, ℤ, ◌+ℤ◌}
use linux_system_programming.Sys.{Prog, call, choose, exit_with, fault, pure, starve, ◌>>=◌, ◌>>◌}
use linux_system_programming.Sys.Calls.{
  accept, bind, close, listen, perror, read, socket, unlink, write,
}

-- BUFFER_SIZE of connection.h
abbrev pub buffer_size : ℕ
buffer_size = 12

abbrev pub down_text : List ℕ
down_text = 68 ∷ 79 ∷ 87 ∷ 78 ∷ []

abbrev pub end_text : List ℕ
end_text = 69 ∷ 78 ∷ 68 ∷ []

-- `n` bytes stored at the start of the buffer, the rest kept.
unfoldable pub store_bytes : List ℕ → List ℕ → List ℕ
store_bytes bytes buffer = bytes ++ drop (length bytes) buffer

-- The bytes up to the first NUL.
unfoldable pub text : List ℕ → List ℕ
text [] = []
text (c ∷ cs) = let rest = text cs in if c == 0 then [] else c ∷ rest

unfoldable pub same : List ℕ → List ℕ → Bool
same [] [] = true
same [] (b ∷ bs) = false
same (a ∷ as') [] = false
same (a ∷ as') (b ∷ bs) = (a == b) && same as' bs

abbrev pub in_int : ℤ → Bool
in_int (pos n) = ltb n (2 ^ 31)
in_int (negsuc n) = ltb n (2 ^ 31)

abbrev pub die : {A : Type 0} → String → Prog A
die what = call (perror what) >> exit_with 1

-- What one message does: `down_flag` and `result` after it, or the end of the client.
pub data Heard : Type 0 where
  more : Bool → ℤ → Heard
  ended : Heard
  overflow : Heard

abbrev pub follow : {A : Type 0} → (Bool → ℤ → Prog A) → Prog A → Heard → Prog A
follow k stop (more down result) = k down result
follow k stop ended = stop
follow k stop overflow = fault

-- The variables of a client when its inner loop is over.
pub record Client : Type 0 where
  pub buffer : List ℕ
  pub down_flag : Bool
  pub result : ℤ

module _ (atoi : List ℕ → ℤ) (show : ℤ → List ℕ) where
  -- The tests on the message in `message`, in their order.
  unfoldable pub hear : List ℕ → Bool → ℤ → Heard
  hear message down result =
      let sum = result +ℤ atoi message in
      if same message down_text
      then more true result
      else if same message end_text
      then ended
      else if down
      then more down result
      else if in_int sum
      then more down sum
      else overflow

  -- The buffer after a `read` that stored `bytes`.
  unfoldable pub received : List ℕ → List ℕ → List ℕ
  received bytes buffer = set (store_bytes bytes buffer) (buffer_size - 1) 0

  -- The inner loop, with fuel for its rounds.
  unfoldable pub receive : ℕ → ℤ → List ℕ → Bool → ℤ → Prog Client
  receive zero fd buffer down result = starve
  receive (suc fuel) fd buffer down result = do
    r ← call (read fd buffer_size)
    let next = received (take (pos_part r.ret) r.bytes) buffer
    let stop = pure (record { buffer = next; down_flag = down; result = result })
    let again = receive fuel fd next
    choose (is_minus_one r.ret) (die "read") (follow again stop (hear (text next) down result))

  -- The answer to a client.
  unfoldable pub reply : ℤ → Client → Prog (List ℕ)
  reply fd c = do
    let sent_text = store_bytes (show c.result ++ 0 ∷ []) c.buffer
    w ← call (write fd sent_text buffer_size)
    choose (is_minus_one w.ret) (die "write") (call (close fd) >> pure sent_text)

  -- The outer loop; the result of `accept` on is one client.
  unfoldable pub serve : ℕ → ℤ → List ℕ → Bool → Prog (Unit {0})
  serve zero sock buffer down = starve
  serve (suc fuel) sock buffer down = do
    a ← call (accept sock)
    let again = serve fuel sock
    let client = do
      c ← receive fuel a.ret buffer down (pos 0)
      sent_text ← reply a.ret c
      choose c.down_flag (pure tt) (again sent_text c.down_flag)
    choose (is_minus_one a.ret) (die "accept") client

  -- From the `listen` on. `junk` is what the buffer holds at first.
  unfoldable pub open_service : ℕ → List ℕ → ℤ → Prog ℕ
  open_service fuel junk sock = do
    l ← call (listen sock 20)
    let run = do
      serve fuel sock junk false
      call (close sock)
      call (unlink "/tmp/9Lq7BNBnBycd6nxy.socket")
      exit_with 0
    choose (is_minus_one l.ret) (die "listen") run

  unfoldable pub main : ℕ → List ℕ → Prog ℕ
  main fuel junk = do
    o ← call (socket 1 5 0)
    let bound = do
      b ← call (bind o.ret)
      choose (is_minus_one b.ret) (die "bind") (open_service fuel junk o.ret)
    choose (is_minus_one o.ret) (die "socket") bound
