-- ===== src/Seccomp.antt =====
-- Code/Mastering Processes and Threads/seccomp_unotify.c: a target process under a seccomp filter
-- that hands `mkdir` to a supervisor. Filter is the filter, Passing the way of its descriptor,
-- Target the child, Pathname and Supervisor the answers, Main the start.
pub mod Filter
pub mod Passing
pub mod Target
pub mod Pathname
pub mod Supervisor
pub mod Main
