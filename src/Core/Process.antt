-- ===== src/Core/Process.antt =====
-- The command handlers of core/zone.go.
pub mod Common
pub mod Actors
pub mod Locations
pub mod Objects
pub mod Deaths
pub mod Dispatch
pub mod Rules
pub mod Inversion
pub mod Recorded
pub mod Log
pub mod ExitUpdates
pub mod LocationRemoval
pub mod Burials
pub mod Blows
unfoldable pub use Dispatch.{handle, process_command}
