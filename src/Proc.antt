-- ===== src/Proc.antt =====
-- The observers over /proc (src/efimon/proc).
pub mod Machine
pub mod Stat
pub mod Io
pub mod Net
pub mod CpuInfo
pub mod Threads
pub mod MemInfo
