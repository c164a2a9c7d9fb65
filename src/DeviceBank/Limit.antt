-- ===== src/DeviceBank/Limit.antt =====
-- The ignition limit: how many devices may be on, across every operation.
pub mod Steady
pub mod Granting
pub mod Runs
