-- ===== src/Seccomp/Filter/Decides.antt =====
-- The filter decides as its comments say.
use linux_system_programming.Prelude.{arith, if◌then◌else◌, leb, not, some, ◌==◌, ◌||◌, ◌≡◌}
use linux_system_programming.Seccomp.Filter.{
  SeccompData, audit_arch_x86_64, decide, ret_allow, ret_kill_process, ret_user_notif, run,
  sys_mkdir, x32_syscall_bit,
}

-- For every architecture and number: a call of another architecture or of the x32 ABI kills the
-- process, `mkdir` of x86-64 goes to the supervisor, and every other call is allowed.
pub decide_lem :
    (d : SeccompData)
    → decide d
      ≡ some (
          if not (d.arch == audit_arch_x86_64) || leb x32_syscall_bit d.nr
          then ret_kill_process
          else if d.nr == sys_mkdir
          then ret_user_notif
          else ret_allow)
unfolding decide run
decide_lem d = ground arith
