-- ===== src/Memory/Remap.antt =====
-- Code/Mastering Memory/remap.c: appends count2.txt to a file that is mapped, and prints the
-- mapping. A pointer that is NULL is 0, MAP_FAILED is -1.
pub mod Cleanup
pub mod Kept
use linux_system_programming.Prelude.{
  List, String, [], get_or, if◌then◌else◌, length, ltb, not, ℕ, ◌&&◌, ◌==◌,
}
use linux_system_programming.Prelude.Int.{eq_ℤ, is_minus_one, is_neg, is_zero, negsuc, pos, ℤ}
use linux_system_programming.Sys.{Prog, call, exit_with, pure, when, ◌>>=◌, ◌>>◌}
use linux_system_programming.Sys.Calls.{
  close, free, fstat, lseek, malloc, mmap, munmap, open_name, open_path, perror, printf, read,
  write_memory,
}

unfoldable pub cleanup : ℤ → ℕ → ℤ → ℤ → ℤ → Prog (Unit {0})
cleanup addr size fd fd2 buf = do
  when (not (is_zero buf)) (call (free buf))
  when (not (is_neg fd2)) (call (close fd2))
  when (not (is_neg fd)) (call (close fd))
  when (not (is_zero addr) && ltb 0 size) (call (munmap addr size))

-- `perror (what); cleanup (…); exit (EXIT_FAILURE);`
unfoldable pub fail_with : String → ℤ → ℕ → ℤ → ℤ → ℤ → Prog ℕ
fail_with what addr size fd fd2 buf = do
  call (perror what)
  cleanup addr size fd fd2 buf
  exit_with 1

-- From `free (buf)` to the end: no `mremap` is made, and `addr` still maps `old_size` bytes.
unfoldable pub finish : ℤ → ℕ → ℤ → Prog ℕ
finish addr old_size fd = do
  st ← call (fstat fd)
  if is_minus_one st.ret then fail_with "fstat" addr old_size fd (negsuc 0) (pos 0) else do
    call (write_memory (pos 1) addr st.out)
    cleanup addr st.out fd (negsuc 0) (pos 0)
    pure 0

-- The read of count2.txt into `buf` and its write at the end of the file.
unfoldable pub append : ℤ → ℕ → ℤ → ℤ → ℕ → ℤ → Prog ℕ
append addr old_size fd fd2 size2 buf = do
  r ← call (read fd2 size2)
  if not (eq_ℤ r.ret (pos size2)) then fail_with "read" addr old_size fd fd2 buf else do
    call (close fd2)
    e ← call (lseek fd 0 2)
    if is_minus_one e.ret then fail_with "lseek" addr old_size fd (negsuc 0) buf else do
      w ← call (write_memory fd buf size2)
      if is_minus_one w.ret
          then fail_with "write" addr old_size fd (negsuc 0) buf
          else do call (free buf); finish addr old_size fd

-- From the open of count2.txt to the allocation of `buf`.
unfoldable pub load : ℤ → ℕ → ℤ → Prog ℕ
load addr old_size fd = do
  o ← call (open_name "count2.txt" 0)
  let fd2 = o.ret
  if is_minus_one fd2 then fail_with "open count2.txt" addr old_size fd fd2 (pos 0) else do
    st ← call (fstat fd2)
    if is_minus_one st.ret then fail_with "fstat" addr old_size fd fd2 (pos 0) else do
      m ← call (malloc st.out)
      if is_zero m.ret
          then fail_with "malloc" addr old_size fd fd2 m.ret
          else append addr old_size fd fd2 st.out m.ret

unfoldable pub empty_file : ℤ → Prog ℕ
empty_file fd = do
  call (printf "\nFile is empty, exit...")
  cleanup (pos 0) 0 fd (negsuc 0) (pos 0)
  exit_with 1

-- From the first `fstat` to the mapping.
unfoldable pub start : ℤ → Prog ℕ
start fd = do
  st ← call (fstat fd)
  if is_minus_one st.ret
      then fail_with "fstat" (pos 0) 0 fd (negsuc 0) (pos 0)
      else if st.out == 0
      then empty_file fd
      else do
        m ← call (mmap st.out fd)
        if is_minus_one m.ret
            then fail_with "mmap" (pos 0) 0 fd (negsuc 0) (pos 0)
            else load m.ret st.out fd

unfoldable pub main : List (List ℕ) → Prog ℕ
main argv = if ltb (length argv) 2 then call (printf "\nUsage: %s filename") >> pure 1 else do
  o ← call (open_path (get_or argv 1 []) 2)
  if is_minus_one o.ret then fail_with "open" (pos 0) 0 o.ret (negsuc 0) (pos 0) else start o.ret
