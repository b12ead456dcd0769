-- ===== src/Seccomp/Supervisor.antt =====
-- `allocSeccompNotifBuffers`, `handleNotifications` and `supervisor`. The reply of the call that
-- receives a notification has its fields in `bytes`.
pub mod Confined
pub mod Answers
pub mod Policy
use linux_system_programming.Ipc.MsgQueue.{complain}
use linux_system_programming.Ipc.SeqServer.{received, same, text}
use linux_system_programming.Prelude.{
  Bool, List, String, [], false, get_or, if◌then◌else◌, length, ltb, not, suc, true, zero, ℕ, ◌&&◌,
  ◌==◌, ◌∷◌,
}
use linux_system_programming.Prelude.Int.{is_minus_one, is_zero, negsuc, pos, ℤ}
use linux_system_programming.Seccomp.Filter.{sys_mkdir}
use linux_system_programming.Seccomp.Passing.{close_socket_pair, err_exit, recvfd}
use linux_system_programming.Seccomp.Pathname.{Notif, get_target_pathname}
use linux_system_programming.Sys.{Prog, call, choose, exit_with, pure, starve, when, ◌>>=◌, ◌>>◌}
use linux_system_programming.Sys.Calls.{
  free, malloc, memset, mkdir, notif_recv, notif_send, perror, printf, printf_text, seccomp, sleep,
}

-- `struct seccomp_notif_resp`
pub record Response : Type 0 where
  pub id : ℕ
  pub flags : ℕ
  pub val : ℕ
  pub error : ℤ

abbrev pub einval : ℕ
einval = 22

abbrev pub eopnotsupp : ℕ
eopnotsupp = 95

abbrev pub eintr : ℕ
eintr = 4

abbrev pub enoent : ℕ
enoent = 2

-- "/tmp/", "./" and "/bye"
abbrev pub tmp_prefix : List ℕ
tmp_prefix = 47 ∷ 116 ∷ 109 ∷ 112 ∷ 47 ∷ []

abbrev pub dot_prefix : List ℕ
dot_prefix = 46 ∷ 47 ∷ []

abbrev pub bye : List ℕ
bye = 47 ∷ 98 ∷ 121 ∷ 101 ∷ []

-- SECCOMP_USER_NOTIF_FLAG_CONTINUE
abbrev pub flag_continue : ℕ
flag_continue = 1

abbrev pub negated : ℕ → ℤ
negated zero = pos 0
negated (suc n) = negsuc n

-- `strncmp (path, prefix, strlen (prefix)) == 0`
unfoldable pub starts_with : List ℕ → List ℕ → Bool
starts_with [] path = true
starts_with (p ∷ ps) [] = false
starts_with (p ∷ ps) (c ∷ cs) = (p == c) && starts_with ps cs

abbrev pub notif_of : List ℕ → Notif
notif_of b = record {
  id = get_or b 0 0;
  pid = get_or b 1 0;
  nr = get_or b 2 0;
  path_arg = get_or b 3 0;
  mode_arg = get_or b 4 0;
}

-- `mkdir` on behalf of the target.
unfoldable pub make_for_target : Notif → List ℕ → Prog Response
make_for_target req path = do
  call (printf_text "\tS: executing: mkdir(\"%s\", %#llo)\n" path)
  m ← call (mkdir path req.mode_arg)
  let done = do
    call (printf "\tS: success! spoofed return = %lld\n")
    pure (record { id = req.id; flags = 0; val = length path; error = pos 0 })
  let failed = do
    call (printf "\tS: failure! (errno = %d; %s)\n")
    pure (record { id = req.id; flags = 0; val = 0; error = negated m.errno })
  choose (is_zero m.ret) done failed

-- A response that spoofs the error `e`.
unfoldable pub refuse : Notif → String → ℕ → Prog Response
refuse req what e = do
  call (printf what)
  pure (record { id = req.id; flags = 0; val = 0; error = negated e })

-- The target's own call goes on.
unfoldable pub let_go_on : Notif → Prog Response
let_go_on req = do
  call (printf "\tS: target can execute system call\n")
  pure (record { id = req.id; flags = flag_continue; val = 0; error = pos 0 })

-- The response to a request, of which `path` is the text.
unfoldable pub respond : Notif → Bool → List ℕ → Prog Response
unfolding refuse let_go_on
respond req path_ok path =
    choose (not path_ok) (refuse req "\tS: spoofing error for invalid pathname (%s)\n" einval) (
      choose (starts_with tmp_prefix path) (make_for_target req path) (
        choose (starts_with dot_prefix path) (let_go_on req)
          (refuse req "\tS: spoofing error response (%s)\n" eopnotsupp)))

unfoldable pub send_response : ℤ → Response → Prog (Unit {0})
send_response notify_fd r = do
  call (printf "\tS: sending response (flags = %#x; val = %lld; error = %d)\n")
  e ← call (notif_send notify_fd r.id r.flags r.val r.error)
  let complain =
      choose (e.errno == enoent) (call (printf "\tS: response failed with ENOENT\n"))
        (call (perror "ioctl-SECCOMP_IOCTL_NOTIF_SEND"))
  when (is_minus_one e.ret) complain

-- One notification, up to its answer; the buffer of the path is kept for the next.
unfoldable pub handle_one : ℤ → Notif → List ℕ → Prog (List ℕ)
handle_one notify_fd req path = do
  call (printf "\tS: got notification (ID %#llx) for PID %d\n")
  let answer_it = do
    (path_ok, path') ← get_target_pathname req notify_fd path
    r ← respond req path_ok (text path')
    send_response notify_fd r
    pure path'
  let unexpected = do
    call (printf "\tS: notification contained unexpected system call number; bye!!!\n")
    exit_with 1
  choose (not (req.nr == sys_mkdir)) unexpected answer_it

-- `for (;;)`, with fuel; `req_ptr` has `size` bytes.
unfoldable pub handle_loop : ℕ → ℤ → ℤ → ℕ → List ℕ → Prog (Unit {0})
handle_loop zero notify_fd req_ptr size path = starve
handle_loop (suc fuel) notify_fd req_ptr size path = do
  call (sleep 1)
  call (memset req_ptr 0 size)
  r ← call (notif_recv notify_fd)
  let again = handle_loop fuel notify_fd req_ptr size
  let failed =
      choose (r.errno == eintr) (again path) (err_exit "\tS: ioctl-SECCOMP_IOCTL_NOTIF_RECV")
  let received = do
    path' ← handle_one notify_fd (notif_of r.bytes) path
    choose (same (text path') bye) (pure tt) (again path')
  choose (is_minus_one r.ret) failed received

-- The buffers of a request and of a response, and the size of the first.
unfoldable pub alloc_buffers : Prog (ℤ × ℤ × ℕ)
alloc_buffers = do
  z ← call (seccomp 3 0 [])
  let first = do
    a ← call (malloc z.out)
    let second = do
      b ← call (malloc (if ltb z.out2 24 then 24 else z.out2))
      choose (is_zero b.ret) (err_exit "malloc-seccomp_notif_resp") (pure (a.ret, b.ret, z.out))
    choose (is_zero a.ret) (err_exit "malloc-seccomp_notif") second
  choose (is_minus_one z.ret) (err_exit "seccomp-SECCOMP_GET_NOTIF_SIZES") first

-- `junk` is what the buffer of the path holds at first.
unfoldable pub handle_notifications : {A : Type 0} → ℕ → List ℕ → ℤ → Prog A
handle_notifications fuel junk notify_fd = do
  (req, resp, size) ← alloc_buffers
  handle_loop fuel notify_fd req size junk
  call (free req)
  call (free resp)
  call (printf "\tS: terminating **********\n")
  exit_with 1

unfoldable pub supervisor : {A : Type 0} → ℕ → List ℕ → ℤ → ℤ → Prog A
supervisor fuel junk sock0 sock1 = do
  notify_fd ← recvfd sock1
  let serve_target = do close_socket_pair sock0 sock1; handle_notifications fuel junk notify_fd
  choose (is_minus_one notify_fd) (err_exit "recvfd") serve_target
