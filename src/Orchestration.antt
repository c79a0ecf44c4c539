-- ===== src/Orchestration.antt =====
-- The hub: src/aidlc/orchestration.
pub mod Context
pub mod Budget
pub mod Hub
pub mod Publish
pub mod World
pub mod Services
pub mod Invocation
pub mod Stage
pub mod Repair
pub mod Workflow
pub mod Control
pub mod Questions
