-- ===== src/Brain.antt =====
-- brain/: what the actors that are played by the program decide with.
pub mod Pathfind
mod Tests
