-- ===== src/Perf.antt =====
-- The observers over the Linux perf tool (src/efimon/perf).
pub mod Record
pub mod Annotate
