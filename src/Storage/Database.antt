-- ===== src/Storage/Database.antt =====
-- src/aidlc/storage/database.py, one module for each table or pair of tables.
pub mod State
pub mod Events
pub mod Runs
pub mod Recovery
pub mod Index
pub mod Interactions
pub mod Tasks
