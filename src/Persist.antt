-- ===== src/Persist.antt =====
-- How a player's data reaches the database: src/deps/mongoclient.
pub mod Recorder
pub mod Store
pub mod Saves
pub mod Persister
pub mod Guards
mod PersistTests
