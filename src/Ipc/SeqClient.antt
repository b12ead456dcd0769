-- ===== src/Ipc/SeqClient.antt =====
-- Code/Mastering IPC and Terminals/seq_client.c: sends its arguments to seq_server.c, then END, and
-- prints the answer. `junk` is what the buffer holds at first.
pub mod Messages
use linux_system_programming.Ipc.SeqServer.{buffer_size, die, end_text, store_bytes, text}
use linux_system_programming.Prelude.{List, [], drop, length, set, take, ℕ, ◌++◌, ◌+◌, ◌-◌, ◌∷◌}
use linux_system_programming.Prelude.Int.{is_minus_one, pos_part, ℤ}
use linux_system_programming.Sys.{Prog, call, choose, exit_with, pure, ◌>>=◌, ◌>>◌}
use linux_system_programming.Sys.Calls.{
  Call, close, connect, eprintf, perror, printf_text, read, socket, write,
}

-- `write` of a text with its final zero byte.
abbrev pub write_text : ℤ → List ℕ → Call
write_text fd cs = write fd (cs ++ 0 ∷ []) (length cs + 1)

-- The loop over the arguments; an error ends it.
unfoldable pub send_all : ℤ → List (List ℕ) → Prog (Unit {0})
send_all fd [] = pure tt
send_all fd (arg ∷ args) = do
  w ← call (write_text fd arg)
  let rest = send_all fd args
  choose (is_minus_one w.ret) (call (perror "write") >> pure tt) rest

-- From the END on.
unfoldable pub ask_result : List ℕ → ℤ → Prog ℕ
ask_result junk fd = do
  w ← call (write_text fd end_text)
  let get_result = do
    r ← call (read fd buffer_size)
    let printed =
        store_bytes (take (pos_part r.ret) r.bytes) (store_bytes (end_text ++ 0 ∷ []) junk)
    let show = do
      call (printf_text "Result = %s\n" (text (set printed (buffer_size - 1) 0)))
      call (close fd)
      exit_with 0
    choose (is_minus_one r.ret) (die "read") show
  choose (is_minus_one w.ret) (die "write") get_result

unfoldable pub main : List ℕ → List (List ℕ) → Prog ℕ
main junk argv = do
  o ← call (socket 1 5 0)
  let attempt = do
    c ← call (connect o.ret [])
    let talk = send_all o.ret (drop 1 argv) >> ask_result junk o.ret
    choose (is_minus_one c.ret) (call (eprintf "The server is down.\n") >> exit_with 1) talk
  choose (is_minus_one o.ret) (die "socket") attempt
