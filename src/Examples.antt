-- ===== src/Examples.antt =====
-- The theorems at concrete inputs.
mod Data
mod Storage
mod Publishing
mod Runs
mod Interactions
mod Evaluation
mod Context
mod Tasks
mod Sources
mod Surfaces
mod Budget
mod Reuse
mod Integration
mod Workflow
mod Control
mod Client
mod Gates
