-- ===== src/Battle.antt =====
-- The battle room of src/service/battle/sync: what a room holds, its operations, and what they keep.
pub mod Types
pub mod Results
pub mod Config
pub mod Deltas
pub mod Room
pub mod Commands
pub mod Production
pub mod Spawning
pub mod Tick
pub mod View
pub mod Life
pub mod Settle
pub mod Proto
pub mod Server
pub mod Reach
mod Tests
mod ServerTests
