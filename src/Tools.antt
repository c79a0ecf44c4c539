-- ===== src/Tools.antt =====
-- tools/: the source bundles that agents exchange.
pub mod Source
