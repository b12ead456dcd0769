-- ===== src/Inotify.antt =====
-- Code/Mastering the Filesystem/inotify.c: a program that prints the events of the paths it watches.
-- The bytes that a `read` stores are the bytes of its reply; those of a `struct inotify_event` are
-- little-endian words. `poll` stores the two `revents`.
pub mod Walk
pub mod Shown
use linux_system_programming.Prelude.{
  Bool, List, Option, String, [], drop, get_or, if◌then◌else◌, length, ltb, none, not, some, suc,
  take, zero, ℕ, ◌&&◌, ◌*◌, ◌+◌, ◌-◌, ◌==◌, ◌^◌, ◌∷◌,
}
use linux_system_programming.Prelude.Int.{
  eq_ℤ, is_minus_one, is_pos, is_zero, negsuc, pos, pos_part, ℤ,
}
use linux_system_programming.Sys.{
  Prog, call, choose, exit_with, fault, pure, starve, when, ◌>>=◌, ◌>>◌,
}
use linux_system_programming.Sys.Calls.{
  calloc, close, eprintf, free, inotify_add_watch, inotify_init1, perror, poll, printf, printf_text,
  read,
}
use Prim.Native.Nat.{bit_and}
use mathlib.Core.Option

-- sizeof (struct inotify_event), and the size of `buf`
abbrev pub event_header : ℕ
event_header = 16

abbrev pub buffer_bytes : ℕ
buffer_bytes = 4096

-- IN_ISDIR and IN_ALL_EVENTS
abbrev pub in_isdir : ℕ
in_isdir = 1073741824

abbrev pub in_all_events : ℕ
in_all_events = 4095

-- POLLIN, EAGAIN and EINTR
abbrev pub pollin : ℕ
pollin = 1

abbrev pub eagain : ℕ
eagain = 11

abbrev pub eintr : ℕ
eintr = 4

abbrev pub has_bit : ℕ → ℕ → Bool
has_bit mask flag = not (bit_and mask flag == 0)

-- The number of some bytes, and the word at an offset of the buffer.
unfoldable pub number_of : List ℕ → ℕ
number_of [] = 0
number_of (b ∷ bs) = b + 256 * number_of bs

abbrev pub word_at : ℕ → List ℕ → ℕ
word_at i buf = number_of (take 4 (drop i buf))

-- A word read as an `int`.
abbrev pub int_of : ℕ → ℤ
int_of v = if ltb v (2 ^ 31) then pos v else negsuc (2 ^ 32 - 1 - v)

-- The text up to the first 0; there is none when the bytes end before it.
unfoldable pub c_string : List ℕ → Option (List ℕ)
c_string [] = none
c_string (c ∷ cs) =
    let longer = Option.map (λ w. c ∷ w) (c_string cs) in if c == 0 then some [] else longer

-- The tests of the mask, in the order of the source.
abbrev pub flag_names : List (ℕ × String)
flag_names =
    (1, "IN_ACCESS: ")
    ∷ (4, "IN_ATTRIB: ")
    ∷ (8, "IN_CLOSE_WRITE: ")
    ∷ (16, "IN_CLOSE_NOWRITE: ")
    ∷ (256, "IN_CREATE: ")
    ∷ (512, "IN_DELETE: ")
    ∷ (1024, "IN_DELETE_SELF: ")
    ∷ (2, "IN_MODIFY: ")
    ∷ (2048, "IN_MOVE_SELF: ")
    ∷ (64, "IN_MOVED_FROM: ")
    ∷ (128, "IN_MOVED_TO: ")
    ∷ (32, "IN_OPEN: ")
    ∷ []

unfoldable pub print_flags : ℕ → List (ℕ × String) → Prog (Unit {0})
print_flags mask [] = pure tt
print_flags mask ((flag, name) ∷ names) = do
  when (has_bit mask flag) (call (printf name))
  print_flags mask names

-- The loop over `wd` and `argv`, which are a list of pairs.
unfoldable pub print_path : ℤ → List (ℤ × List ℕ) → Prog (Unit {0})
print_path wd [] = pure tt
print_path wd ((d, path) ∷ watches) =
    choose (eq_ℤ d wd) (call (printf_text "%s/" path) >> pure tt) (print_path wd watches)

-- `name` has the bytes from `event->name` on. A read past what was stored is a fault.
unfoldable pub print_name : ℕ → List ℕ → Prog (Unit {0})
print_name len name =
    choose (len == 0) (pure tt)
      (elim (c_string name) [ none ↦ fault | some w ↦ call (printf_text "%s" w) >> pure tt ])

unfoldable pub print_kind : ℕ → Prog (Unit {0})
print_kind mask = do
  choose (has_bit mask in_isdir) (call (printf " [directory]\n")) (call (printf " [file]\n"))
  pure tt

-- The body of the loop over the buffer.
unfoldable pub print_event : List (ℤ × List ℕ) → List ℕ → Prog (Unit {0})
print_event watches buf = do
  print_flags (word_at 4 buf) flag_names
  print_path (int_of (word_at 0 buf)) watches
  print_name (word_at 12 buf) (drop event_header buf)
  print_kind (word_at 4 buf)

-- The loop over the buffer from `ptr` on, with fuel. A read past what was stored is a fault.
unfoldable pub walk : ℕ → List (ℤ × List ℕ) → List ℕ → Prog (Unit {0})
walk zero watches buf = starve
walk (suc fuel) watches [] = pure tt
walk (suc fuel) watches (b ∷ bs) = do
  choose (ltb (length (b ∷ bs)) event_header) fault (print_event watches (b ∷ bs))
  walk fuel watches (drop (event_header + word_at 12 (b ∷ bs)) (b ∷ bs))

-- `for (;;)`, with fuel. Each event of a buffer has at least a header's bytes.
unfoldable pub handle_events : ℕ → ℤ → List (ℤ × List ℕ) → Prog (Unit {0})
handle_events zero fd watches = starve
handle_events (suc fuel) fd watches = do
  r ← call (read fd buffer_bytes)
  let failed_read = do call (perror "read"); exit_with 1
  let another = do
    walk (suc buffer_bytes) watches (take (pos_part r.ret) r.bytes)
    handle_events fuel fd watches
  choose (is_minus_one r.ret && not (r.errno == eagain)) failed_read
      (choose (is_pos r.ret) another (pure tt))

-- The loop over the arguments that fills `wd`.
unfoldable pub add_watches : ℤ → List (List ℕ) → Prog (List (ℤ × List ℕ))
add_watches fd [] = pure []
add_watches fd (path ∷ paths) = do
  w ← call (inotify_add_watch fd path in_all_events)
  let cannot = do call (eprintf "Cannot watch '%s': %s\n"); exit_with 1
  let others = do watches ← add_watches fd paths; pure ((w.ret, path) ∷ watches)
  choose (is_minus_one w.ret) cannot others

-- The bytes of standard input up to a newline, with fuel.
unfoldable pub skip_input : ℕ → Prog (Unit {0})
skip_input zero = starve
skip_input (suc fuel) = do
  r ← call (read (pos 0) 1)
  choose (is_pos r.ret && not (get_or r.bytes 0 0 == 10)) (skip_input fuel) (pure tt)

-- `while (1)`, with fuel.
unfoldable pub poll_loop : ℕ → ℤ → List (ℤ × List ℕ) → Prog (Unit {0})
poll_loop zero fd watches = starve
poll_loop (suc fuel) fd watches = do
  p ← call (poll (pos 0) fd)
  let again = poll_loop fuel fd watches
  let look = do when (has_bit p.out2 pollin) (handle_events fuel fd watches); again
  choose (is_minus_one p.ret)
      (choose (p.errno == eintr) again (call (perror "poll") >> exit_with 1))
      (choose (not (is_pos p.ret)) again (choose (has_bit p.out pollin) (skip_input fuel) look))

unfoldable pub close_down : ℤ → ℤ → Prog ℕ
close_down fd wd = do
  call (printf "Listening for events stopped.\n")
  call (close fd)
  call (free wd)
  exit_with 0

unfoldable pub watch_paths : ℕ → ℤ → ℤ → List (List ℕ) → Prog ℕ
watch_paths fuel fd wd paths = do
  watches ← add_watches fd paths
  call (printf "Listening for events.\n")
  poll_loop fuel fd watches
  close_down fd wd

-- `paths` are the arguments after the program's name.
unfoldable pub main : ℕ → List (List ℕ) → Prog ℕ
main fuel paths = do
  let no_path = do call (printf "Usage: %s PATH [PATH ...]\n"); exit_with 1
  let begin = do
    call (printf "Press ENTER key to terminate.\n")
    i ← call inotify_init1
    let have_fd = do
      w ← call (calloc (suc (length paths)))
      let no_memory = do call (perror "calloc"); exit_with 1
      choose (is_zero w.ret) no_memory (watch_paths fuel i.ret w.ret paths)
    choose (is_minus_one i.ret) (call (perror "inotify_init1") >> exit_with 1) have_fd
  choose (length paths == 0) no_path begin
