-- ===== src/Seccomp/Filter.antt =====
-- The filter of `installNotifyFilter`, and what its instructions do: those of classic BPF, with the
-- accumulator and a jump counted from the next instruction.
pub mod Decides
use linux_system_programming.Prelude.{
  List, Option, [], if◌then◌else◌, leb, none, some, suc, zero, ℕ, ◌++◌, ◌==◌, ◌∷◌,
}

abbrev pub bpf_ld_w_abs : ℕ
bpf_ld_w_abs = 0x20

abbrev pub bpf_jeq_k : ℕ
bpf_jeq_k = 0x15

abbrev pub bpf_jge_k : ℕ
bpf_jge_k = 0x35

abbrev pub bpf_ret_k : ℕ
bpf_ret_k = 0x06

abbrev pub audit_arch_x86_64 : ℕ
audit_arch_x86_64 = 0xc000003e

abbrev pub x32_syscall_bit : ℕ
x32_syscall_bit = 0x40000000

abbrev pub sys_mkdir : ℕ
sys_mkdir = 83

abbrev pub ret_kill_process : ℕ
ret_kill_process = 0x80000000

abbrev pub ret_user_notif : ℕ
ret_user_notif = 0x7fc00000

abbrev pub ret_allow : ℕ
ret_allow = 0x7fff0000

-- code, jt, jf, k
abbrev pub SockFilter : Type 0
SockFilter = ℕ × ℕ × ℕ × ℕ

-- The part of `struct seccomp_data` that the filter reads: `nr` at offset 0, `arch` at 4.
pub record SeccompData : Type 0 where
  pub nr : ℕ
  pub arch : ℕ

abbrev pub check_arch_and_load_nr : List SockFilter
check_arch_and_load_nr =
    (bpf_ld_w_abs, 0, 0, 4)
    ∷ (bpf_jeq_k, 0, 2, audit_arch_x86_64)
    ∷ (bpf_ld_w_abs, 0, 0, 0)
    ∷ (bpf_jge_k, 0, 1, x32_syscall_bit)
    ∷ (bpf_ret_k, 0, 0, ret_kill_process)
    ∷ []

abbrev pub filter : List SockFilter
filter =
    check_arch_and_load_nr
    ++ (bpf_jeq_k, 0, 1, sys_mkdir)
      ∷ (bpf_ret_k, 0, 0, ret_user_notif)
      ∷ (bpf_ret_k, 0, 0, ret_allow)
      ∷ []

abbrev pub load_word : SeccompData → ℕ → ℕ
load_word d k = if k == 0 then d.nr else d.arch

-- The value that is returned, with the instructions to skip and the accumulator; `none` if the
-- program runs off its end or has another instruction.
unfoldable pub run : List SockFilter → ℕ → ℕ → SeccompData → Option ℕ
run [] skip acc d = none
run (_ ∷ rest) (suc skip) acc d = run rest skip acc d
run ((code, jt, jf, k) ∷ rest) zero acc d =
    let loaded = run rest 0 (load_word d k) d in
    let equal = run rest (if acc == k then jt else jf) acc d in
    let at_least = run rest (if leb k acc then jt else jf) acc d in
    if code == bpf_ld_w_abs
    then loaded
    else if code == bpf_jeq_k
    then equal
    else if code == bpf_jge_k
    then at_least
    else if code == bpf_ret_k
    then some k
    else none

-- What the filter does with a system call.
unfoldable pub decide : SeccompData → Option ℕ
decide d = run filter 0 0 d
