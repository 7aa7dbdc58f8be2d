-- ===== src/State.antt =====
-- src/features/device-state: what devices are told and what they report.
pub mod Config
pub mod Reports
pub mod Truncate
pub mod Devices
pub mod Delay
pub mod Target
pub mod Patch
pub mod Tags
