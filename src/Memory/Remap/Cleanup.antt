-- ===== src/Memory/Remap/Cleanup.antt =====
-- What remap.c leaves behind on each of its paths.
use linux_system_programming.Memory.Remap.{
  append, cleanup, empty_file, fail_with, finish, load, main, start,
}
use linux_system_programming.Prelude.{List, String, [], arith, ℕ, ◌+◌, ◌≡◌}
use linux_system_programming.Prelude.Int.{ℤ}
use linux_system_programming.Sys.{Script, Trace, trace}
use linux_system_programming.Sys.Files.{Closes, closed, held, held_minus_one, opened}

module _ (x : ℕ) (s : Script) where
  fail_with-Closes :
      (what : String) (addr : ℤ) (size : ℕ) (fd fd2 buf : ℤ) (n : ℕ) (t : Trace)
      → Closes x (held x fd + held x fd2) t (fail_with what addr size fd fd2 buf s n t)
  unfolding fail_with cleanup opened closed held
  fail_with-Closes what addr size fd fd2 buf n t = ground arith

  finish-Closes :
      (addr : ℤ) (size : ℕ) (fd : ℤ) (n : ℕ) (t : Trace)
      → Closes x (held x fd) t (finish addr size fd s n t)
  unfolding finish fail_with cleanup opened closed held
  finish-Closes addr size fd n t = ground arith

  append-Closes :
      (addr : ℤ) (size : ℕ) (fd fd2 : ℤ) (size2 : ℕ) (buf : ℤ) (n : ℕ) (t : Trace)
      → Closes x (held x fd + held x fd2) t (append addr size fd fd2 size2 buf s n t)
  unfolding append opened closed
  append-Closes addr size fd fd2 size2 buf n t =
      grind (arith, fail_with-Closes, finish-Closes, held_minus_one)

  load-Closes :
      (addr : ℤ) (size : ℕ) (fd : ℤ) (n : ℕ) (t : Trace)
      → Closes x (held x fd) t (load addr size fd s n t)
  unfolding load opened closed
  load-Closes addr size fd n t = grind (arith, fail_with-Closes, append-Closes, held_minus_one)

  empty_file-Closes : (fd : ℤ) (n : ℕ) (t : Trace) → Closes x (held x fd) t (empty_file fd s n t)
  unfolding empty_file cleanup opened closed held
  empty_file-Closes fd n t = ground arith

  start-Closes : (fd : ℤ) (n : ℕ) (t : Trace) → Closes x (held x fd) t (start fd s n t)
  unfolding start opened closed
  start-Closes fd n t =
      grind (arith, fail_with-Closes, load-Closes, empty_file-Closes, held_minus_one)

pub main-closes :
    (argv : List (List ℕ)) (s : Script) (x : ℕ)
    → opened x (trace (main argv s 0 [])) ≡ closed x (trace (main argv s 0 []))
unfolding main opened closed
main-closes argv s x = grind (arith, fail_with-Closes, start-Closes, held_minus_one)
