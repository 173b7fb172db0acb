-- ===== src/Core.antt =====
-- core/: the zones of the game.
pub mod Data
pub mod Monad
pub mod Refs
pub mod Inventory
pub mod Body
pub mod Container
pub mod Event
pub mod Apply
pub mod Zone
pub mod Command
pub mod Process
pub mod Places
pub mod Snapshot
pub mod Tests
