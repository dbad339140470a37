-- ===== src/Power.antt =====
-- The power meters (src/efimon/power).
pub mod Rapl
pub mod Ipmi
pub mod Intel
