-- ===== src/DeviceBank/Exclusive.antt =====
-- No two leases share a session's platform or a virtual device.
pub mod Keys
pub mod New
pub mod Held
pub mod Runs
