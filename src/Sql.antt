-- ===== src/Sql.antt =====
-- storage/sql.go: the adapter on an SQL database. The texts of its statements are those of the code.
pub mod Driver
pub mod Like
pub mod Engine
pub mod Stored
pub mod Scan
pub mod Schema
pub mod Schedule
pub mod Queue
pub mod Processing
pub mod Finished
pub mod Query
pub mod Steps
pub mod Rows
pub mod Page
pub mod Listing
pub mod Refinement
pub mod Adapter
pub mod Transactions
pub mod Keeps
pub mod Claims
pub mod Retry
pub mod Moves
pub mod Taken
