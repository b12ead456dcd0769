-- ===== src/FileIo/AioMonitor.antt =====
-- Code/Mastering File IO/aiomonitor.c: reads in the background, with their progress looked at every
-- three seconds and a way to cancel them. The calls of aio name a request by its index in `ioList`.
-- Whether the test after a `sleep` finds `gotSIGQUIT` set is the number that this `sleep` stores.
pub mod Phases
pub mod Steps
pub mod Proper
use linux_system_programming.Prelude.{
  Bool, List, String, [], if◌then◌else◌, length, ltb, suc, zero, ℕ, ◌-◌, ◌∷◌,
}
use linux_system_programming.Prelude.Int.{eq_ℤ, is_minus_one, is_zero, pos, ℤ}
use linux_system_programming.Sys.{Prog, call, choose, exit_with, pure, starve, when, ◌>>=◌, ◌>>◌}
use linux_system_programming.Sys.Calls.{
  Call, aio_cancel, aio_error, aio_read, aio_return, calloc, eprintf, malloc, open_path, perror,
  printf, printf_num, printf_text, sigaction, sleep,
}

-- `struct ioRequest`, with `aio_fildes` of its `aiocb`
pub record IoRequest : Type 0 where
  pub status : ℤ
  pub aio_fildes : ℤ

abbrev pub einprogress : ℤ
einprogress = pos 115

abbrev pub ecanceled : ℤ
ecanceled = pos 125

-- BUF_SIZE
abbrev pub buffer_bytes : ℕ
buffer_bytes = 20

-- `errExit`
abbrev pub err_exit : {A : Type 0} → String → Prog A
err_exit what = call (perror what) >> exit_with 1

abbrev pub in_progress : IoRequest → Bool
in_progress r = eq_ℤ r.status einprogress

-- One request: the file is opened and its read begun.
unfoldable pub start_one : ℕ → List ℕ → Prog IoRequest
start_one j path = do
  f ← call (open_path path 0)
  let opened_it = do
    call (printf_text "opened %s on descriptor %d\n" path)
    b ← call (malloc buffer_bytes)
    let begin = do
      s ← call (aio_read j f.ret)
      choose (is_minus_one s.ret) (err_exit "aio_read")
          (pure (record { status = einprogress; aio_fildes = f.ret }))
    choose (is_zero b.ret) (err_exit "malloc") begin
  choose (is_minus_one f.ret) (err_exit "open") opened_it

unfoldable pub start_all : ℕ → List (List ℕ) → Prog (List IoRequest)
start_all j [] = pure []
start_all j (path ∷ paths) = do r ← start_one j path; rs ← start_all (suc j) paths; pure (r ∷ rs)

-- AIO_CANCELED is 0, AIO_NOTCANCELED 1 and AIO_ALLDONE 2.
unfoldable pub say_cancel : ℤ → Prog (Unit {0})
say_cancel s = choose (eq_ℤ s (pos 0)) (call (printf "I/O canceled\n") >> pure tt) (
    choose (eq_ℤ s (pos 1)) (call (printf "I/O not canceled\n") >> pure tt) (
      choose (eq_ℤ s (pos 2)) (call (printf "I/O all done\n") >> pure tt)
        (call (perror "aio_cancel") >> pure tt)))

unfoldable pub cancel_one : ℕ → IoRequest → Prog (Unit {0})
cancel_one j r = do
  call (printf "    Request %zu on descriptor %d:")
  s ← call (aio_cancel j r.aio_fildes)
  say_cancel s.ret

unfoldable pub cancel_all : ℕ → List IoRequest → Prog (Unit {0})
cancel_all j [] = pure tt
cancel_all j (r ∷ rs) = do when (in_progress r) (cancel_one j r); cancel_all (suc j) rs

unfoldable pub say_status : ℤ → Prog (Unit {0})
say_status s = choose (is_zero s) (call (printf "I/O succeeded\n") >> pure tt) (
    choose (eq_ℤ s einprogress) (call (printf "In progress\n") >> pure tt) (
      choose (eq_ℤ s ecanceled) (call (printf "Canceled\n") >> pure tt)
        (call (perror "aio_error") >> pure tt)))

unfoldable pub check_one : ℕ → IoRequest → Prog IoRequest
check_one j r = do
  call (printf "    for request %zu (descriptor %d): ")
  e ← call (aio_error j)
  say_status e.ret
  pure (record r { status = e.ret })

-- `openReqs--` for a request that is no longer in progress
abbrev pub less_open : IoRequest → ℕ → ℕ
less_open r open_reqs = if in_progress r then open_reqs else open_reqs - 1

unfoldable pub look_at : ℕ → IoRequest → ℕ → Prog (IoRequest × ℕ)
look_at j r open_reqs = do
  let looked = do r' ← check_one j r; pure (r', less_open r' open_reqs)
  choose (in_progress r) looked (pure (r, open_reqs))

unfoldable pub check_all : ℕ → List IoRequest → ℕ → Prog (List IoRequest × ℕ)
check_all j [] open_reqs = pure ([], open_reqs)
check_all j (r ∷ rs) open_reqs = do
  (r', still_open) ← look_at j r open_reqs
  (rs', still_open') ← check_all (suc j) rs still_open
  pure (r' ∷ rs', still_open')

unfoldable pub cancelling : List IoRequest → Prog (Unit {0})
cancelling rs = do call (printf "got SIGQUIT; canceling I/O requests: \n"); cancel_all 0 rs

unfoldable pub checking : List IoRequest → ℕ → Prog (List IoRequest × ℕ)
checking rs open_reqs = do call (printf "aio_error():\n"); check_all 0 rs open_reqs

-- `while (openReqs > 0)`, with fuel.
unfoldable pub monitor : ℕ → List IoRequest → ℕ → Prog (List IoRequest)
monitor fuel rs zero = pure rs
monitor zero rs (suc n) = starve
monitor (suc fuel) rs (suc n) = do
  q ← call (sleep 3)
  when (ltb 0 q.out) (cancelling rs)
  (rs', still_open) ← checking rs (suc n)
  monitor fuel rs' still_open

unfoldable pub report_all : ℕ → List IoRequest → Prog (Unit {0})
report_all j [] = pure tt
report_all j (r ∷ rs) = do
  s ← call (aio_return j)
  call (printf_num "    for request %zu (descriptor %d): %zd\n" s.ret)
  report_all (suc j) rs

-- From `openReqs = numReqs` on.
unfoldable pub watch : ℕ → List IoRequest → Prog ℕ
watch fuel rs = do
  rs' ← monitor fuel rs (length rs)
  call (printf "All I/O requests completed\n")
  call (printf "aio_return():\n")
  report_all 0 rs'
  exit_with 0

unfoldable pub try_call : Call → (ℤ → Bool) → String → Prog (Unit {0})
try_call c bad what = do r ← call c; choose (bad r.ret) (err_exit what) (pure tt)

-- The names of the files follow that of the program. SIGQUIT is 3 and SIGUSR1 is 10.
unfoldable pub main : ℕ → List (List ℕ) → Prog ℕ
main fuel [] = do call (eprintf "Usage: %s <pathname> <pathname>...\n"); exit_with 1
main fuel (path ∷ paths) = do
  try_call (calloc (suc (length paths))) is_zero "calloc"
  try_call (calloc (suc (length paths))) is_zero "calloc"
  try_call (sigaction 3) is_minus_one "sigaction"
  try_call (sigaction 10) is_minus_one "sigaction"
  rs ← start_all 0 (path ∷ paths)
  watch fuel rs
