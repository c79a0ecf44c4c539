-- ===== src/Domain.antt =====
-- domain/models.py: the values that the hub, the agents and the storage exchange.
mod Kinds
mod Records
mod Paths
unfoldable pub use Kinds.*
unfoldable pub use Paths.*
unfoldable pub use Records.*
