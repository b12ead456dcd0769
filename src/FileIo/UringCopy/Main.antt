-- ===== src/FileIo/UringCopy/Main.antt =====
-- `main` of uringcopyfile.c around its loop: the files, the ring and the buffers are set up, and
-- released when the loop is left. The loop has its own replies.
use linux_system_programming.FileIo.UringCopy.{
  Answers, Course, Req, before_loop, run, running, stopped, waits,
}
use linux_system_programming.Prelude.{
  List, String, [], get_or, if◌then◌else◌, length, ltb, not, suc, zero, ℕ, ◌*◌, ◌++◌, ◌+◌, ◌∷◌,
}
use linux_system_programming.Prelude.Int.{is_neg, is_pos, is_zero, pos, pos_part, ℤ}
use linux_system_programming.Sys.{Prog, call, choose, exit_with, pure, starve, ◌>>=◌, ◌>>◌}
use linux_system_programming.Sys.Calls.{
  close, eprintf, free, io_uring_queue_exit, io_uring_queue_init, lseek, malloc, memset, open_path,
  perror, posix_memalign, printf, sysconf,
}

-- `err_exit` with a ring
unfoldable pub ring_err_exit : {A : Type 0} → String → Prog A
ring_err_exit what = do call (perror what); call io_uring_queue_exit; exit_with 1

unfoldable pub free_all : List ℤ → Prog (Unit {0})
free_all [] = pure tt
free_all (b ∷ bs) = do call (free b); free_all bs

-- `for (int i = 0; i < concurrency; ++i)`; `bs` has the buffers so far, the first one first.
unfoldable pub alloc_all : ℕ → ℕ → ℤ → ℤ → List ℤ → Prog (List ℤ)
alloc_all zero page_size bufsize reqs bs = pure bs
alloc_all (suc left_over) page_size bufsize reqs bs = do
  m ← call (posix_memalign page_size bufsize)
  let refused = do
    call (perror "posix_memalign")
    free_all bs
    call (free reqs)
    ring_err_exit "posix_memalign"
  let filled = do
    call (memset (pos m.out) 0 (pos_part bufsize))
    alloc_all left_over page_size bufsize reqs (bs ++ pos m.out ∷ [])
  choose (not (is_zero m.ret)) refused filled

-- From the end of the loop on.
unfoldable pub clean_up : ℤ → ℤ → ℤ → List ℤ → Prog ℕ
clean_up fdin fdout reqs bs = do
  free_all bs
  call (free reqs)
  call io_uring_queue_exit
  call (close fdin)
  call (close fdout)
  call (printf "Copy completed successfully: %ld bytes\n")
  pure 0

-- `loop` is what the loop comes to. A loop that waits for ever, or whose replies are used up, has not
-- ended.
unfoldable pub leave_loop : ℕ → ℤ → ℤ → ℤ → List ℤ → Course → Prog ℕ
leave_loop file_size fdin fdout reqs bs (running s) =
    choose (ltb s.finished_bytes file_size) starve (clean_up fdin fdout reqs bs)
leave_loop file_size fdin fdout reqs bs waits = starve
leave_loop file_size fdin fdout reqs bs stopped = ring_err_exit "io_uring"

module _ (atoi : List ℕ → ℤ) (src : ℕ → ℕ) (junk : ℕ → Req) (answers : List Answers) where
  -- From `malloc` on.
  unfoldable pub copy_file : ℤ → ℤ → ℕ → ℕ → ℤ → ℤ → Prog ℕ
  copy_file fdin fdout file_size page_size concurrency bufsize = do
    q ← call (malloc (24 * pos_part concurrency))
    let c = pos_part concurrency
    let go = do
      bs ← alloc_all c page_size bufsize q.ret []
      leave_loop file_size fdin fdout q.ret bs
          (run c (pos_part bufsize) file_size src answers (before_loop junk))
    choose (is_zero q.ret) (ring_err_exit "malloc reqs") go

  -- From the first `lseek` on.
  unfoldable pub measure_file : ℤ → ℤ → ℕ → ℤ → ℤ → Prog ℕ
  measure_file fdin fdout page_size concurrency bufsize = do
    e ← call (lseek fdin 0 2)
    call (lseek fdin 0 0)
    let nothing = do
      call (printf "Source file empty, nothing to copy.\n")
      call io_uring_queue_exit
      call (close fdin)
      call (close fdout)
      pure 0
    choose (is_zero e.ret) nothing
        (copy_file fdin fdout (pos_part e.ret) page_size concurrency bufsize)

  -- From `sysconf` on.
  unfoldable pub set_up : ℤ → ℤ → ℤ → ℤ → Prog ℕ
  set_up fdin fdout concurrency bufsize = do
    p ← call (sysconf 30)
    let page_size = if is_pos p.ret then pos_part p.ret else 4096
    i ← call (io_uring_queue_init (pos_part concurrency * 2 + 8))
    choose (is_neg i.ret) (ring_err_exit "io_uring_queue_init")
        (measure_file fdin fdout page_size concurrency bufsize)

  unfoldable pub main : List (List ℕ) → Prog ℕ
  main argv =
      let show_usage = call (eprintf "Usage: %s <src> <dst> <concurrency> <bufsize>\n") >> pure 1 in
      let open_both = do
        i ← call (open_path (get_or argv 1 []) 0)
        let second = do
          o ← call (open_path (get_or argv 2 []) 578)
          let refused = do call (perror "open output"); call (close i.ret); pure 1
          choose (is_neg o.ret) refused
              (set_up i.ret o.ret (atoi (get_or argv 3 [])) (atoi (get_or argv 4 [])))
        choose (is_neg i.ret) (call (perror "open input") >> pure 1) second
      in choose (ltb (length argv) 5) show_usage open_both
