-- ===== src/Shell.antt =====
-- Code/Mastering Processes and Threads/minishell_glibc.c: a shell with job control. Jobs gives the
-- records and the queries, Status the bookkeeping of wait statuses, Terminal the foreground and
-- background, Launch the start of a job, Line the command line, Main the loop.
pub mod Jobs
pub mod Status
pub mod Terminal
pub mod Launch
pub mod Line
pub mod Main
