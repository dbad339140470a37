-- ===== src/Daemon.antt =====
-- The daemon (src/tools/efimon-daemon.cpp and src/tools/efimon-daemon): the threads of the monitors,
-- the analyser that owns them, and the loop that serves requests.
pub mod Thread
pub mod Stops
pub mod Analyser
pub mod Workers
pub mod Restart
pub mod History
pub mod Server
pub mod Keyed
pub mod Replies
pub mod Columns
pub mod Rows
pub mod System
pub mod Tests
