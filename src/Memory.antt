-- ===== src/Memory.antt =====
-- storage/memory.go: the in-memory adapter. Its methods take one mutex from their first line to
-- their last, so each is one step on the state.
pub mod State
pub mod Paging
pub mod Scheduled
pub mod Queue
pub mod Processing
pub mod Finished
pub mod Query
pub mod Adapter
pub mod Heap
pub mod Stored
pub mod Unique
pub mod Invariant
pub mod Calls
pub mod Due
pub mod Inserts
