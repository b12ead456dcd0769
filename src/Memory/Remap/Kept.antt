-- ===== src/Memory/Remap/Kept.antt =====
-- The mapping of remap.c when the file has grown under it.
use linux_system_programming.Memory.Remap.{
  append, cleanup, empty_file, fail_with, finish, load, main, start,
}
use linux_system_programming.Prelude.{List, String, [], arith, get_or, some, suc, ℕ, ◌∷◌, ◌≡◌, ◌≢◌}
use linux_system_programming.Prelude.Int.{negsuc, pos, ℤ}
use linux_system_programming.Sys.{Outcome, Script, Trace, event, exit_status, trace}
use linux_system_programming.Sys.Blocks.{mapped, region, unmapped}
use linux_system_programming.Sys.Calls.{fstat, malloc, mmap, open_name, open_path}

module _ (a old : ℕ) (s : Script) where
  -- A part that has ended with status 0 has not removed the mapping of `old` bytes at `a`.
  abbrev Kept : Trace → Outcome ℕ → Type 0
  Kept t o =
      exit_status o ≡ some 0
      → (unmapped a old (trace o) ≡ unmapped a old t) × (mapped a old (trace o) ≡ mapped a old t)

  fail_with-status :
      (what : String) (addr : ℤ) (size : ℕ) (fd fd2 buf : ℤ) (n : ℕ) (t : Trace)
      → exit_status (fail_with what addr size fd fd2 buf s n t) ≡ some 1
  unfolding fail_with cleanup
  fail_with-status what addr size fd fd2 buf n t = ground arith

  finish-Kept :
      (addr fd : ℤ) (n : ℕ) (t : Trace) → old ≢ (s n).out → Kept t (finish addr old fd s n t)
  unfolding finish fail_with cleanup unmapped mapped region
  finish-Kept addr fd n t h = ground arith

  append-Kept :
      (addr fd fd2 : ℤ) (size2 : ℕ) (buf : ℤ) (n : ℕ) (t : Trace)
      → old ≢ (s (suc (suc (suc (suc (suc n)))))).out
      → Kept t (append addr old fd fd2 size2 buf s n t)
  unfolding append unmapped mapped
  append-Kept addr fd fd2 size2 buf n t h e = grind (arith, fail_with-status, finish-Kept)

  load-Kept :
      (addr fd : ℤ) (n : ℕ) (t : Trace)
      → old ≢ (s (suc (suc (suc (suc (suc (suc (suc (suc n))))))))).out
      → Kept t (load addr old fd s n t)
  unfolding load unmapped mapped
  load-Kept addr fd n t h e =
      let t1 : Trace = event (open_name "count2.txt" 0) (s n) ∷ t in
      let t2 : Trace = event (fstat (s n).ret) (s (suc n)) ∷ t1 in
      let t3 : Trace = event (malloc (s (suc n)).out) (s (suc (suc n))) ∷ t2 in
      ground (
        arith,
        fail_with-status "open count2.txt" addr old fd (s n).ret (pos 0) (suc n) t1,
        fail_with-status "fstat" addr old fd (s n).ret (pos 0) (suc (suc n)) t2,
        fail_with-status "malloc" addr old fd (s n).ret (s (suc (suc n))).ret (suc (suc (suc n)))
            t3,
        append-Kept addr fd (s n).ret (s (suc n)).out (s (suc (suc n))).ret (suc (suc (suc n))) t3
            h,
      )

  empty_file-status : (fd : ℤ) (n : ℕ) (t : Trace) → exit_status (empty_file fd s n t) ≡ some 1
  unfolding empty_file cleanup
  empty_file-status fd n t = ground arith

-- If remap.c exits with 0 and its first and its last `fstat` give different sizes, which is so
-- when the file has grown, then the mapping that it made, at whatever address `a`, is never removed
-- with the length that it was made with.
pub main-keeps_mapping :
    (argv : List (List ℕ)) (s : Script) (a : ℕ)
    → exit_status (main argv s 0 []) ≡ some 0
    → (s 1).out ≢ (s 11).out
    → (s 2).ret ≡ pos a
    → (mapped a (s 1).out (trace (main argv s 0 [])) ≡ 1)
      × (unmapped a (s 1).out (trace (main argv s 0 [])) ≡ 0)
unfolding main start unmapped mapped region
main-keeps_mapping argv s a h grown e =
    let t : Trace =
      event (mmap (s 1).out (s 0).ret) (s 2)
      ∷ event (fstat (s 0).ret) (s 1)
      ∷ event (open_path (get_or argv 1 []) 2) (s 0)
      ∷ [] in
    ground (
      arith,
      fail_with-status a (s 1).out s "open" (pos 0) 0 (s 0).ret (negsuc 0) (pos 0) 1
          (event (open_path (get_or argv 1 []) 2) (s 0) ∷ []),
      fail_with-status a (s 1).out s "fstat" (pos 0) 0 (s 0).ret (negsuc 0) (pos 0) 2
          (event (fstat (s 0).ret) (s 1) ∷ event (open_path (get_or argv 1 []) 2) (s 0) ∷ []),
      fail_with-status a (s 1).out s "mmap" (pos 0) 0 (s 0).ret (negsuc 0) (pos 0) 3 t,
      empty_file-status a (s 1).out s (s 0).ret 2
          (event (fstat (s 0).ret) (s 1) ∷ event (open_path (get_or argv 1 []) 2) (s 0) ∷ []),
      load-Kept a (s 1).out s (s 2).ret (s 0).ret 3 t grown,
    )
