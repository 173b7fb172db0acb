-- ===== src/Store.antt =====
-- store/: the files in which events are kept.
pub mod Bytes
pub mod Header
pub mod Actors
pub mod Locations
pub mod Exits
pub mod Objects
pub mod Combat
pub mod Structs
pub mod Conversions
pub mod Stream
pub mod EventStore
pub mod Restart
pub mod IntentLog
pub mod Intents
mod Tests
