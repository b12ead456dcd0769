-- ===== src/Examples.antt =====
-- The theorems at concrete inputs, and scripts of replies for them.
pub mod RingRuns
pub mod ShellRuns
pub mod NetRuns
pub mod FileRuns
pub mod MemoryRuns
pub mod ServerRuns
pub mod LoginRuns
pub mod RefRuns
pub mod SeccompRuns
pub mod UringRuns
pub mod AioRuns
pub mod PtyRuns
pub mod QueueRuns
pub mod PrimeRuns
pub mod RobustRuns
pub mod TableRuns
use linux_system_programming.Prelude.{List, Option, [], none, some, suc, zero, ◌∷◌}
use linux_system_programming.Prelude.Int.{ℤ}
use linux_system_programming.Sys.{Outcome, Reply, Script, value}

abbrev pub answer_with : ℤ → Reply
answer_with v = record { ret = v; errno = 0; out = 0; out2 = 0; bytes = [] }

-- The replies of a list in order, then the last argument for ever.
abbrev pub replies : List Reply → Reply → Script
replies [] d i = d
replies (r ∷ rs) d zero = r
replies (r ∷ rs) d (suc i) = replies rs d i

abbrev pub returned : {A : Type 0} → Outcome A → Option A
returned (value a n t) = some a
returned _ = none
