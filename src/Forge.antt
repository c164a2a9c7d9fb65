-- ===== src/Forge.antt =====
-- internal/atelierd/forge: a run of forge, its files and the commands on them.
pub mod Types
pub mod Validate
pub mod Store
pub mod Waves
pub mod Passes
pub mod Campaigns
pub mod Retry
pub mod Invariant
pub mod Steps
pub mod PassSteps
pub mod OutcomeSteps
pub mod Runs
pub mod Limits
pub mod Appending
pub mod Counting
mod Tests
mod AppendTests
