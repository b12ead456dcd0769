-- ===== src/Memory/Cpremap.antt =====
-- Code/Mastering Memory/cpremap.c: copies the files that the user names, one after the other, into
-- a destination that stays mapped and is resized by `mremap`.
pub mod Released
use linux_system_programming.Prelude.{
  List, String, [], get_or, length, suc, zero, ℕ, ◌==◌, ◌||◌, ◌∷◌,
}
use linux_system_programming.Prelude.Int.{is_minus_one, is_zero, pos, ℤ}
use linux_system_programming.Shell.Line.{same_text, until_newline}
use linux_system_programming.Sys.{Prog, call, choose, pure, starve, ◌>>=◌, ◌>>◌}
use linux_system_programming.Sys.Calls.{
  close, eprintf, fflush, fgets, fstat, ftruncate, memcpy, mmap, mremap, munmap, open_path, perror,
  printf, printf_num,
}

-- `strcmp (srcname, "quit") == 0`, on the bytes up to the newline.
abbrev pub quit_word : List ℕ
quit_word = 113 ∷ 117 ∷ 105 ∷ 116 ∷ []

-- The destination's mapping: `dst` and `dst_size`.
pub record Mapping : Type 0 where
  pub dst : ℤ
  pub dst_size : ℕ

-- `perror (what); close (fd_src); continue;`
unfoldable pub skip_file : String → ℤ → Mapping → Prog Mapping
skip_file what fd_src m = do call (perror what); call (close fd_src); pure m

-- From the map of the source to the end of the round.
unfoldable pub copy_bytes : ℤ → Mapping → ℕ → Prog Mapping
unfolding skip_file
copy_bytes fd_src m size = do
  p ← call (mmap size fd_src)
  let copy = do
    call (memcpy m.dst p.ret size)
    call (munmap p.ret size)
    call (close fd_src)
    call (printf_num "Copied %ld bytes\n" (pos size))
    pure m
  choose (is_minus_one p.ret) (skip_file "mmap src" fd_src m) copy

-- `ftruncate` and `mremap` to the size of the source.
unfoldable pub resize : ℤ → ℤ → Mapping → ℕ → Prog Mapping
unfolding skip_file
resize fd_dst fd_src m size = do
  r ← call (ftruncate fd_dst size)
  let remap = do
    p ← call (mremap m.dst m.dst_size size)
    choose (is_minus_one p.ret) (skip_file "mremap" fd_src m)
        (copy_bytes fd_src (record { dst = p.ret; dst_size = size }) size)
  choose (is_minus_one r.ret) (skip_file "ftruncate dest" fd_src m) remap

-- One source file, from its `open` on.
unfoldable pub copy_source : ℤ → List ℕ → Mapping → Prog Mapping
unfolding skip_file
copy_source fd_dst name m = do
  o ← call (open_path name 0)
  let fd_src = o.ret
  let opened_file = do
    st ← call (fstat fd_src)
    let empty = do call (printf "Source file is empty, skipping\n"); call (close fd_src); pure m
    choose (is_minus_one st.ret) (skip_file "fstat src" fd_src m)
        (choose (st.out == 0) empty (resize fd_dst fd_src m st.out))
  choose (is_minus_one fd_src) (call (perror "open src") >> pure m) opened_file

-- Behind the loop.
unfoldable pub tear_down : ℤ → Mapping → Prog ℕ
tear_down fd_dst m = do call (munmap m.dst m.dst_size); call (close fd_dst); pure 0

-- `while (1)`, with fuel.
unfoldable pub copy_sources : ℕ → ℤ → Mapping → Prog ℕ
copy_sources zero fd_dst m = starve
copy_sources (suc fuel) fd_dst m = do
  call (printf "\nEnter source file (or 'quit'): ")
  call fflush
  r ← call (fgets 256)
  let name = until_newline r.bytes
  let next = do m' ← copy_source fd_dst name m; copy_sources fuel fd_dst m'
  choose (is_zero r.ret || same_text name quit_word) (tear_down fd_dst m) next

unfoldable pub open_failed : String → ℤ → Prog ℕ
open_failed what fd_dst = do call (perror what); call (close fd_dst); pure 1

-- From the first `ftruncate` on.
unfoldable pub with_destination : ℕ → ℤ → Prog ℕ
with_destination fuel fd_dst = do
  r ← call (ftruncate fd_dst 1)
  let map_it = do
    p ← call (mmap 1 fd_dst)
    choose (is_minus_one p.ret) (open_failed "mmap dest" fd_dst)
        (copy_sources fuel fd_dst (record { dst = p.ret; dst_size = 1 }))
  choose (is_minus_one r.ret) (open_failed "ftruncate" fd_dst) map_it

unfoldable pub main : ℕ → List (List ℕ) → Prog ℕ
main fuel argv =
    let run = do
      o ← call (open_path (get_or argv 1 []) 66)
      choose (is_minus_one o.ret) (call (perror "open dest") >> pure 1)
          (with_destination fuel o.ret)
    in choose (length argv == 2) run (call (eprintf "Usage: %s dest\n") >> pure 1)
