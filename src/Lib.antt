-- ===== src/Lib.antt =====
-- The game server heli: its core logic as executable definitions, and what holds of it.
--
-- The battle room (src/service/battle/sync) is the server's authoritative simulation of a tower
-- defence battle. Players build, reroll and merge towers and buy miners; a clock moves the room
-- from tick to tick, which pays the miners' mana, brings out the waves of monsters, walks them to
-- the base, and decides how the battle ends. Every change is recorded as a delta for the clients.
--   * Battle/Types: the structs and enums of room.go and settlement.go, field by field.
--   * Battle/Room: NewRoom, AddPlayer, Start, Abort, MarkSettled, finish, and the helpers
--     (canBuildOn, nextTowerType, alloc*ID), with Config for what NewRoom completes, Deltas for
--     append*Delta and Results for the error codes.
--   * Battle/Commands: BuildTower, RerollTower, MergeTower and BuyMiner, with the order of their
--     checks. Area, Accepts and Granted say when they go through, Effects what they change, Grid and Keep
--     are about the towers and the grid, Purse about what they cost.
--   * Battle/Tick: AdvanceToTick and the steps of a tick, of which Production and Spawning hold the
--     miners' and the waves'. Frame says what a tick leaves alone; Loop, Deadline, Miners, Waves and
--     Base are about the parts.
--   * Battle/View: Snapshot, FlushDeltas and BuildSettlement; Battle/Settle is about the last.
--   * Battle/Life and Battle/Reach: any sequence of calls on a room.
--   * Battle/Proto: proto_adapter.go and SettlementToProto.
--   * Battle/Server (src/service/battle/battleapp): the room manager, the handlers of requests to
--     create, join and operate, the tick loop, the broadcasts and the settlement. State holds the
--     structs, Token, Rooms, Ops and Loop the operations, Events any sequence of them. Sessions,
--     Refused, Settled, Moves, Kept, Reports, News and Deltas are about them.
--
-- The items of a player (src/service/logic/module/item, src/configdoc) are what its other modules pay
-- with and pay out.
--   * Item/Pack: item.go, the pack, with its calls of the persister. Counts is about it.
--   * Item/Merge: ItemMerge, MergeItemToMap and ItemMapToSlice of config_func.go; Totals is about it.
--   * Item/Module: item_module.go, with the notifications to the client; Distinct, Consume and Gain are about it. The
--     lookup of an item's configuration, in generated code, is a parameter of the definitions.
--
-- A player's data reaches the database (src/deps/mongoclient) as updates of single fields.
--   * Persist/Recorder: SingleDocRecorder of simple_record.go, with the update that GenUpdateDoc makes.
--   * Persist/Store: MongoDB as an interface with laws, and what an update does; Persist/Saves: any
--     sequence of changes and saves of one DataPersister. The database is a parameter: what is
--     assumed of it are the laws of `Mongo`.
--   * Persist/Persister: DataPersister of data_persister.go, which loads, records and saves under its mode;
--     Guards is about its flags. Each answer of the database is an argument.
--
-- Ids (src/deps/fastid): FastId is the layout of an id and the rounds of GenInt64ID, in int64 with the
-- shifts and masks of Common/Shift. Layout is the same over natural numbers, without bounds; Parts and
-- Rise are about an id's parts and about the ids of one generator.
--
-- The gate (src/service/gate/gateuser) holds the connection of each player who is online.
--   * Gate/User: GateUser of gate_user.go, its numbers, its queue of messages that wait for the
--     client's acknowledgement and its reconnects; Serial and Resend are about these. User/Limit is
--     the limit on a client's requests and the check of a request; Window and Requests are about it.
--   * Gate/Users: GateUserMgr of gate_user_mgr.go; Sessions is about sessions that are replaced.
-- A reading of the clock is an argument of the function that takes it.
--
-- Packet is the framing of the binary protocol (deps/msg/binary_packet.go), Packet/Frames about it.
-- Protobuf's encoding of a message is a parameter.
--
-- Random is the choice by weight (src/configdoc/config_random.go and config_random_mode.go): Weights
-- and Select hold the weights, the selector and its draws, Filter the draws past a filter; Pick,
-- Draw, Exhaust, Members and Passes are about them. Common/Search is `sort.Search` of Go. The source of
-- random numbers is a parameter, of which is assumed that a number lies in the range asked for.
--
-- Clock is the part of deps/xtime/time.go that finds the day and the week of a time, and Clock/Days about
-- it. The zone and the offset, variables of that package, are arguments.
--
-- Task is src/service/logic/module/task/task_module_impl.go, the tasks of a player: a refresh resets
-- them by Clock, and a reward goes into the pack by Item/Module. Expiry and Fresh are about a refresh, and Once
-- about any sequence of calls. The configuration tables are a parameter.
--
-- Shop is src/service/logic/module/shop/shop_module_impl.go: its purchases pay and are paid by Item/Module.
-- Counts, Gold and Trade are about a purchase.
--
-- SortedList is deps/basal/sortedlist.go. Places is about its bisection, Kept about what is put in and
-- taken out, and Order about any calls.
--
-- A method with a pointer receiver takes the room last and returns the new room, with its result
-- where it has one.
--
-- Concurrency. A battle server handles a request, a tick or a part of a settlement as one step, and any
-- sequence of steps may happen. The goroutine that settles a room is two steps, up to its request
-- to logic and from the answer on, since the request waits. applyBattleOp tests the state of the
-- room and operates under two locks in the source and in one step here. The answer of logic is part of
-- the event, so it is arbitrary. A ticker may also fire for a room whose loop has been stopped.
--
-- Integers. An int64 or int32 that may be negative or may overflow is a ℤ of Common/Int, and each addition,
-- subtraction, product and shift that the source does on it wraps as Go's does (add64, add32, shl64, ...). A
-- 16-bit sequence number and a 32-bit word of a packet are natural numbers with their remainder written out.
-- Natural numbers without a bound are lengths, indices, how many draws are asked for, and the readings of the
-- clock at the gate, in seconds or milliseconds. A map is an association list (Common/Table): `insert` replaces, and a
-- loop over a map visits the list in its order, while Go's order is arbitrary. A Go string type with named
-- constants is a data type.
--
-- Loops. `for r.serverTick < targetTick` runs on as much fuel as ticks are missing; the miner's loop
-- on the ticks that the miner is behind, and one; the spawn loop on the monsters that the wave
-- still has. Each round moves on by at least one of these, so the fuel does not run out: the
-- results on Loop, Miners and Waves say so.
--
-- Not modelled: sockets, goroutines beyond the steps above, logging, generated code, and the services and
-- libraries around these parts.
pub mod Common
pub mod Battle
pub mod Item
pub mod Persist
pub mod FastId
pub mod Gate
pub mod Packet
pub mod Random
pub mod Clock
pub mod Task
pub mod Shop
pub mod SortedList
