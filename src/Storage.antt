-- ===== src/Storage.antt =====
-- storage/: what a run keeps on disk and in its database.
pub mod Snapshots
pub mod Artifacts
pub mod Database
