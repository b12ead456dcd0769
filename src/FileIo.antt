-- ===== src/FileIo.antt =====
-- The programs of Code/Mastering File IO.
pub mod CopyFile
pub mod Splice
pub mod UringCopy
pub mod AioMonitor
