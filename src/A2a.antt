-- ===== src/A2a.antt =====
-- The agents' side of the A2A protocol: src/aidlc/a2a.
pub mod TaskStore
pub mod Client
