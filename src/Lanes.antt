-- ===== src/Lanes.antt =====
-- internal/lanes: the processes, the stacks and the resources of worktrees.
pub mod Procs
pub mod Sweep
pub mod Signals
pub mod Stacks
pub mod Registry
pub mod Lane
pub mod Pieces
mod Tests
mod StackTests
mod LaneTests
mod PieceTests
