-- ===== src/Ipc/MsgQueue.antt =====
-- Code/Mastering IPC and Terminals/msgq.c: sends or receives one message on a System V queue. The
-- reply of `getopt` is the option's character, or -1, with `optarg` in `bytes`; `atoi` is a
-- parameter.
pub mod Selection
use linux_system_programming.Prelude.{List, String, if◌then◌else◌, not, suc, zero, ℕ, ◌==◌}
use linux_system_programming.Prelude.Int.{eq_ℤ, is_minus_one, is_pos, pos, ℤ}
use linux_system_programming.Sys.{Prog, call, choose, exit_with, pure, starve, ◌>>=◌, ◌>>◌}
use linux_system_programming.Sys.Calls.{
  eprintf, getopt, msgget, msgrcv, msgsnd, perror, printf, time,
}

-- The variables that the options set.
pub record Options : Type 0 where
  pub mode : ℕ
  pub msgtype : ℤ
  pub msgkey : ℤ

abbrev pub defaults : Options
defaults = record { mode = 0; msgtype = pos 1; msgkey = pos 1234 }

abbrev pub enomsg : ℕ
enomsg = 42

unfoldable pub usage : {A : Type 0} → String → Prog A
usage msg = do
  call (eprintf msg)
  call (eprintf "Usage: %s [options]\n")
  call (eprintf "Options are:\n")
  call (eprintf "-s        send message using msgsnd()\n")
  call (eprintf "-r        read message using msgrcv()\n")
  call (eprintf "-t        message type (default is 1)\n")
  call (eprintf "-k        message queue key (default is 1234)\n")
  exit_with 1

unfoldable pub send_msg : ℤ → ℤ → Prog (Unit {0})
send_msg qid msgtype = do
  call time
  r ← call (msgsnd qid msgtype)
  choose (is_minus_one r.ret) (call (perror "msgsnd error") >> exit_with 1)
      (call (printf "sent: %s\n") >> pure tt)

unfoldable pub get_msg : ℤ → ℤ → Prog (Unit {0})
get_msg qid msgtype = do
  r ← call (msgrcv qid msgtype)
  let missing =
      choose (not (r.errno == enomsg)) (call (perror "msgrcv") >> exit_with 1)
        (call (printf "No message available for msgrcv()\n") >> pure tt)
  choose (is_minus_one r.ret) missing (call (printf "message received: %s\n") >> pure tt)

-- The switch: the options after one letter, or the complaint.
pub data Choice : Type 0 where
  set_options : Options → Choice
  complain : String → Choice

module _ (atoi : List ℕ → ℤ) where
  unfoldable pub choose_option : ℤ → List ℕ → Options → Choice
  choose_option opt optarg o =
      if eq_ℤ opt (pos 115)
      then set_options (record o { mode = 1 })
      else if eq_ℤ opt (pos 114)
      then set_options (record o { mode = 2 })
      else if eq_ℤ opt (pos 116)
      then (if is_pos (atoi optarg)
          then set_options (record o { msgtype = atoi optarg })
          else complain "-t option must be greater than 0\n")
      else if eq_ℤ opt (pos 107)
      then set_options (record o { msgkey = atoi optarg })
      else complain "Unrecognized option\n"

  abbrev pub proceed : {A : Type 0} → (Options → Prog A) → Choice → Prog A
  proceed k (set_options o) = k o
  proceed k (complain msg) = usage msg

  -- `while ((opt = getopt (…)) != -1)`, with fuel.
  unfoldable pub read_options : ℕ → Options → Prog Options
  read_options zero o = starve
  read_options (suc fuel) o = do
    g ← call getopt
    choose (is_minus_one g.ret) (pure o)
        (proceed (read_options fuel) (choose_option g.ret g.bytes o))

  -- From the test of `mode` on.
  unfoldable pub run_queue : Options → Prog ℕ
  run_queue o =
      let run = do
        q ← call (msgget o.msgkey)
        let use_queue = do
          choose (o.mode == 2) (get_msg q.ret o.msgtype) (send_msg q.ret o.msgtype)
          exit_with 0
        choose (is_minus_one q.ret) (call (perror "msgget") >> exit_with 1) use_queue
      in choose (o.mode == 0) (usage "must use either -s or -r option\n") run

  unfoldable pub main : ℕ → Prog ℕ
  main fuel = do o ← read_options fuel defaults; run_queue o
