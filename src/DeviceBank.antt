-- ===== src/DeviceBank.antt =====
-- The device bank, internal/atelierd/devicebank.
pub mod Types
pub mod State
pub mod Queue
pub mod Lease
pub mod Physical
pub mod Reap
pub mod Grant
pub mod Ops
pub mod Bank
pub mod Resize
pub mod InitBank
pub mod Keeping
pub mod Fair
pub mod Edits
pub mod Limit
pub mod Exclusive
pub mod Ending
mod Tests
mod BankTests
mod ResizeTests
