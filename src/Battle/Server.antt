-- ===== src/Battle/Server.antt =====
-- src/service/battle/battleapp (room_manager.go, handler.go, battlesvr.go): the rooms of a battle
-- server, the handlers of its requests, the ticks and the settlement. A pointer to a room is its key
-- in the manager's map; a lock is held for a whole step. `fmt` and `strings` are written out.
pub mod State
pub mod Token
pub mod Rooms
pub mod Ops
pub mod Loop
pub mod Events
pub mod Sessions
pub mod Settled
pub mod Moves
pub mod Kept
pub mod Reports
pub mod Refused
pub mod News
pub mod Deltas
