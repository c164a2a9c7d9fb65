-- ===== src/DeviceBank/Edits.antt =====
-- Every operation but a grant is a row of small edits of the state; an invariant of the edits is one
-- of the operations.
pub mod Basic
pub mod Reaping
pub mod Reconcile
pub mod Commands
pub mod Recycling
