-- ===== src/Seccomp/Supervisor/Policy.antt =====
-- What the supervisor tells the target of each path.
use linux_system_programming.Prelude.{List, [], ℕ, ◌∷◌}
use linux_system_programming.Sys.{Trace, event}
use linux_system_programming.Sys.Calls.{mkdir}

-- The directories made in a run, the latest first.
abbrev pub made : Trace → List (List ℕ)
made [] = []
made (event (mkdir path mode) r ∷ t) = path ∷ made t
made (event _ r ∷ t) = made t
