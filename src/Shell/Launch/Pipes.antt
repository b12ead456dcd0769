-- ===== src/Shell/Launch/Pipes.antt =====
-- Pipe ends in the shell: a pipeline leaves none open.
use linux_system_programming.Prelude.{
  Bool, List, [], arith, if◌then◌else◌, not, subst, suc, true, ℕ, ◌&&◌, ◌+◌, ◌||◌, ◌∷◌, ◌≡◌,
}
use linux_system_programming.Prelude.Int.{eq_ℤ, is_neg, pos, ℤ}
use linux_system_programming.Shell.Jobs.{Job, Process, Shell}
use linux_system_programming.Shell.Launch.{
  close_ends, launch_each, launch_process, make_pipe, spawn,
}
use linux_system_programming.Sys.{IfReturns, Script, Trace, event, value}
use linux_system_programming.Sys.Calls.{fork, pipe}
use linux_system_programming.Sys.Files.{closed, held, opened}
use linux_system_programming.Sys.Rules.{IfReturns-bind}

-- What a process's own `infile` leaves the shell to close.
abbrev pub infile_held : ℕ → Job → ℤ → ℕ
infile_held x j infile = if eq_ℤ infile j.stdin then 0 else held x infile

-- The parent has closed `k` more than it opened since `t`.
abbrev pub Settles : ℕ → ℕ → Trace → Trace → Type 0
Settles x k t t' = opened x t' + closed x t + k ≡ closed x t' + opened x t

-- The read end of each pipe that was made differs from the job's own input, and the write end from
-- its output, which are open.
unfoldable pub new_pipes : Job → Trace → Bool
new_pipes j [] = true
new_pipes j (event pipe r ∷ t) =
    (is_neg r.ret || (not (eq_ℤ (pos r.out) j.stdin) && not (eq_ℤ (pos r.out2) j.stdout)))
    && new_pipes j t
new_pipes j (event _ r ∷ t) = new_pipes j t

module _ (s : Script) (sh : Shell) (j : Job) (foreground : Bool) (x : ℕ) where
  launch_process-ends :
      (p : Process) (pgid infile outfile errfile : ℤ) (n : ℕ) (t : Trace)
      → IfReturns
          (λ (_ : ℤ × ℤ) _. ⊥)
          (launch_process sh p pgid infile outfile errfile foreground s n t)
  unfolding launch_process
  launch_process-ends p pgid infile outfile errfile n t = ground arith

  spawn-Settles :
      (p : Process) (pgid infile outfile : ℤ) (n : ℕ) (t : Trace)
      → IfReturns
          (λ _ t'. Settles x 0 t t' × (new_pipes j t' ≡ new_pipes j t))
          (spawn sh j p pgid infile outfile foreground s n t)
  unfolding spawn opened closed new_pipes
  spawn-Settles p pgid infile outfile n t =
      ground
        (arith, launch_process-ends p pgid infile outfile j.stderr (suc n) (event fork (s n) ∷ t))

  close_ends-Settles :
      (infile outfile : ℤ) (n : ℕ) (t : Trace)
      → IfReturns
          (λ _ t'.
            Settles x
              (infile_held x j infile + (if eq_ℤ outfile j.stdout then 0 else held x outfile))
              t
              t'
            × (new_pipes j t' ≡ new_pipes j t))
          (close_ends j infile outfile s n t)
  unfolding close_ends opened closed new_pipes
  close_ends-Settles infile outfile n t = ground arith

  -- A pipe for a process that is not the last.
  Piped : Trace → ℤ × ℤ → Trace → Type 0
  Piped t ends t' =
      (opened x t' ≡ opened x t + held x ends.0 + held x ends.1)
      × (closed x t' ≡ closed x t)
      × (new_pipes j t'
          ≡ (not (eq_ℤ ends.0 j.stdin) && not (eq_ℤ ends.1 j.stdout) && new_pipes j t))

  make_pipe-Piped :
      (q : Process) (ps : List Process) (read_end : ℤ) (n : ℕ) (t : Trace)
      → IfReturns (Piped t) (make_pipe j (q ∷ ps) read_end s n t)
  unfolding make_pipe opened closed new_pipes Piped
  make_pipe-Piped q ps read_end n t = ground arith

  -- The ends are settled if the new pipes of the run are new ends.
  Settled : ℕ → Trace → Trace → Type 0
  Settled k t t' = new_pipes j t' ≡ true → (new_pipes j t ≡ true) × Settles x k t t'

  launch_each-Settled :
      (ps : List Process) (p : Process) (pgid infile read_end : ℤ) (n : ℕ) (t : Trace)
      → IfReturns
          (λ _ t'. Settled (infile_held x j infile) t t')
          (launch_each sh j pgid infile read_end foreground (p ∷ ps) s n t)
  unfolding launch_each make_pipe Piped Settled
  launch_each-Settled [] p pgid infile read_end n t =
      IfReturns-bind _ _ (spawn sh j p pgid infile j.stdout foreground s n t) _ s
        (spawn-Settles p pgid infile j.stdout n t)
        λ child n1 t1 h1.
          IfReturns-bind _ _ (close_ends j infile j.stdout s n1 t1) _ s
            (close_ends-Settles infile j.stdout n1 t1) λ _ n2 t2 h2 e. ground arith
  launch_each-Settled (q ∷ ps) p pgid infile read_end n t =
      IfReturns-bind _ _ (make_pipe j (q ∷ ps) read_end s n t) _ s
        (make_pipe-Piped q ps read_end n t)
        λ ends n0 t0 h0.
          IfReturns-bind _ _ (spawn sh j p pgid infile ends.1 foreground s n0 t0) _ s
            (spawn-Settles p pgid infile ends.1 n0 t0)
            λ child n1 t1 h1.
              IfReturns-bind _ _ (close_ends j infile ends.1 s n1 t1) _ s
                (close_ends-Settles infile ends.1 n1 t1)
                λ _ n2 t2 h2.
                  IfReturns-bind _ _
                    (launch_each sh j child.1 ends.0 ends.0 foreground (q ∷ ps) s n2 t2) _ s
                    (launch_each-Settled ps q child.1 ends.0 ends.0 n2 t2)
                    λ rest n3 t3 h3 e. ground (arith, h3 e)

  -- When the loop, started with at least one process, has come to its end, and each pipe that it
  -- made has a read end other than the job's input and a write end other than its output, the pipe
  -- ends opened since `t` are closed, and so is `infile` where it is not the job's own.
  pub launch_each-Settles :
      (ps : List Process) (p : Process) (pgid infile read_end : ℤ) (n : ℕ) (t : Trace)
      (out : List Process × ℤ) (n' : ℕ) (t' : Trace)
      → launch_each sh j pgid infile read_end foreground (p ∷ ps) s n t ≡ value out n' t'
      → new_pipes j t' ≡ true
      → Settles x (infile_held x j infile) t t'
  unfolding Settled
  launch_each-Settles ps p pgid infile read_end n t out n' t' e new =
      (subst (IfReturns λ _ t1. Settled (infile_held x j infile) t t1) e
        (launch_each-Settled ps p pgid infile read_end n t) new).1
