-- ===== src/Processor.antt =====
-- process.go: the processor over a storage adapter.
pub mod Backoff
pub mod Moves
pub mod Passes
pub mod Work
pub mod Definitions
pub mod Dequeue
pub mod Effects
pub mod Events
pub mod Retry
pub mod Schedule
pub mod Orphans
pub mod Settle
pub mod Races
pub mod Lifecycle
pub mod JobDefinition
