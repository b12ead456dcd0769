-- ===== src/Ipc.antt =====
-- The programs of Code/Mastering IPC and Terminals.
pub mod ProdCons
pub mod Ruptime
pub mod Ruptimed
pub mod SeqServer
pub mod OpenServer
pub mod MsgQueue
pub mod FdServer
pub mod OpenClient
pub mod SeqClient
pub mod PtyShell
