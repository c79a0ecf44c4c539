-- ===== src/Agents.antt =====
-- The specialists that the hub delegates to: src/aidlc/agents.
mod Catalog
pub mod Sources
unfoldable pub use Catalog.*
