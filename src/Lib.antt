-- ===== src/Lib.antt =====
-- Verification library for the programs of the guide: Code/ of the repository, a collection of C
-- programs, each with its own `main`.
--
-- A program is modelled as a function of the replies that its system and library calls get. Sys
-- holds that boundary: Sys.Calls lists the calls with their arguments, a `Script` gives the reply of
-- the n-th call, and a `Prog` turns a script into an `Outcome`, a value or an exit status or a fault
-- together with the trace of the calls made. Every theorem about a program holds for every script,
-- that is, for every behaviour of the kernel, the C library and the user, except where it states a
-- documented behaviour as a hypothesis. Sys.Files and Sys.Blocks count what a trace opens and
-- closes, allocates and frees, maps and unmaps; a number returned by a call is a descriptor or a
-- pointer, NULL is 0, MAP_FAILED and errors are -1.
--
-- Parts, with the files that they model:
--   Shell         Code/Mastering Processes and Threads/minishell_glibc.c
--   Ipc.ProdCons  Code/Mastering IPC and Terminals/pc_producer.c, pc_consumer.c, pc_shm.h
--   Ipc.Ruptime   Code/Mastering IPC and Terminals/ruptime.c
--   Ipc.Ruptimed  Code/Mastering IPC and Terminals/ruptimed.c
--   Ipc.SeqServer, Ipc.SeqClient, Ipc.OpenServer, Ipc.OpenClient, Ipc.FdServer, Ipc.MsgQueue
--                 seq_server.c, seq_client.c, open_server.c, open_client.c, ipc_server.c and
--                 msgq.c there
--   Ipc.PtyShell  epnewforkpt.c and epollnewpt.h there
--   MiniShell     Code/Mastering Processes and Threads/minishell.c
--   Seccomp       Code/Mastering Processes and Threads/seccomp_unotify.c
--   RefCount      Code/Mastering Processes and Threads/mutexdual.c
--   HashTable     Code/Mastering Processes and Threads/mutexdualarg.c, one thread at a time
--   WorkQueue     Code/Mastering Processes and Threads/pthreadcond2.c
--   RobustLock    Code/Mastering Processes and Threads/mutextimelock.c
--   Inotify       Code/Mastering the Filesystem/inotify.c
--   Login, Sudo   Code/Mastering the Linux Runtime Environment/loginpam.c and minisudo.c
--   FileIo.*      Code/Mastering File IO/copyfile.c, splice.c, uringcopyfile.c,
--                 aiomonitor.c
--   Memory.*      Code/Mastering Memory/remap.c, cpremap.c, trim.c, primes.c and
--                 primes2.c
--   Prelude       shared names, tests, lists and integers
--   Examples      the theorems at concrete inputs
-- The functions keep the names of the source; a part of a long `main` has a name for what it does.
-- Where processes or threads share memory (Ipc.ProdCons, RefCount, WorkQueue, RobustLock) the model
-- is a step relation over all interleavings instead; FileIo.UringCopy runs the loop of uringcopyfile.c
-- on a list of replies, which choose the request that the kernel completes in each round.
--
-- Bounds: a loop with no bound of its own takes fuel, and `starved` is the outcome when it is used
-- up. Theorems on what a program leaves behind when it ends hold for any fuel. In connect_retry
-- nine rounds are enough for the eight of the source; in copyfile.c more rounds than bytes are;
-- in `is_prime` as many as the number, and in the loop over the primes as the bound that they are
-- below; in inotify.c one more round than there are events in a buffer, which has a header of 16
-- bytes for each; in uringcopyfile.c 3 · size + concurrency rounds.
-- A reply 0 of `fork` takes a run into the child's branch, another one into the parent's; the trace
-- has the calls of one process. Where a property depends on what the other one does meanwhile, as
-- for the terminal in MiniShell.Foreground, the property's definitions say what it can do.
-- A descriptor in a theorem on leaks is a natural number: an error return is none.
--
-- Not modelled: the text that formats produce, stdio's buffers, the failure of `strdup`, signals
-- that arrive during a run, the workers of mutexdualarg.c, and the programs of the repository that only show one call.
pub mod Examples
pub mod FileIo
pub mod HashTable
pub mod Inotify
pub mod Ipc
pub mod Login
pub mod Memory
pub mod MiniShell
pub mod Prelude
pub mod RefCount
pub mod RobustLock
pub mod Seccomp
pub mod Shell
pub mod Sudo
pub mod Sys
pub mod WorkQueue
