-- ===== src/Battle/Tests.antt =====
-- Runs of a room of src/service/battle/sync/room.go, and its theorems at concrete rooms.
use mathlib.Core.List.{Perm}
use heli.Common.{
  ℤ, pos, ◌*◌, ◌+◌, ◌-◌, ◌<◌, ◌≤ℤ◌, List, [], ◌∷◌, none, true, false, ◌≡◌, ◌⊎◌, ◌↔◌, refl, inl, inr,
  arith, length, int_eq, eqb_ℤ, All, subst, go_laws, ℕ, ◌≢◌, ◌<◌,
}
use heli.Common.Table.{find}
use heli.Common.Sort.{IsSorted}
use heli.Battle.Types.{
  TowerState, Room, RoomConfig, RoomState, FinishReason, PlayerState, MinerState, MonsterState,
  MonsterStatus, MonsterWaveState, Delta, DeltaType, blank_delta,
}
use heli.Battle.Config.{normal_config}
use heli.Battle.Room.{new_room, can_build_on, next_tower_type}
use heli.Battle.Commands.{merge_tower, buy_miner, build_tower, place_tower}
use heli.Battle.Commands.Accepts.{CanBuild, CanMerge}
use heli.Battle.Commands.Granted.{
  run_command_refused, build_tower_granted_iff, merge_tower_granted_iff,
}
use heli.Battle.Commands.Keep.{build, reroll, merge, buy, run_command}
use heli.Battle.Commands.Grid.{GridAgrees}
use heli.Battle.Commands.Purse.{PursesOk, PurseOk, Charged, run_command-Charged}
use heli.Battle.Tick.{advance_to_tick, advance_monsters}
use heli.Battle.Production.{produce_rounds, rounds_fuel}
use heli.Battle.Spawning.{spawn_wave}
use heli.Battle.Tick.Miners.{produce_rounds_exact}
use heli.Battle.Tick.Loop.{advance_to_tick_stops, rounds}
use heli.Battle.Tick.Deadline.{OnTime, advance_to_tick_ends}
use heli.Battle.Tick.Base.{arrivals, advance_monsters_base}
use heli.Battle.Tick.Waves.{spawn_wave_timetable}
use heli.Battle.View.{build_settlement, ids}
use heli.Battle.Life.{Event, joins, starts, commands, advances, run, SameOutcome, run_closed}
use heli.Battle.Settle.{Reports, build_settlement_lem, player_ids}
use heli.Battle.Reach.{reachable-GridAgrees}
use heli.Battle.Proto.Wire.{WellFormed, deltas_to_proto_injective}

-- A configuration with one build and reroll price, one miner and the default waves.
abbrev test_config : RoomConfig
test_config = record {
  initial_gold = pos 100;
  initial_mana = pos 0;
  build_cost_gold = pos 10;
  reroll_cost_mana = pos 1;
  miner_cost_gold = pos 20;
  miner_produce_mana = pos 1;
  miner_produce_interval = pos 3;
  tower_max_level = pos 5;
  default_tower_deck = pos 101 ∷ [];
  random_tower_types = [];
  build_grids_by_player = [];
  base_hp = pos 3;
  monster_damage = pos 1;
  wave_timeout_tick = pos 600;
  monster_waves = none;
}

abbrev script : List Event
script =
    joins (pos 7) []
    ∷ starts
    ∷ commands (build (pos 7) "a" (pos 1))
    ∷ commands (build (pos 7) "b" (pos 2))
    ∷ commands (build (pos 7) "c" (pos 2))
    ∷ commands (merge (pos 7) "d" (pos 1) (pos 2))
    ∷ commands (buy (pos 7) "e")
    ∷ advances (pos 4)
    ∷ commands (reroll (pos 7) "f" (pos 1))
    ∷ []

abbrev seven : PlayerState
seven = record {
  player_id = pos 7;
  gold = pos 100;
  mana = pos 0;
  tower_deck = pos 101 ∷ [];
  miners = [];
}

-- The room of one player, running.
abbrev joined : Room
joined = record (new_room test_config) { state = RoomState.running; players = (pos 7, seven) ∷ [] }

joined-GridAgrees : GridAgrees joined
unfolding new_room find
joined-GridAgrees = record {
  agrees = record { stands = λ id t e. ground arith; occupied = λ g id e. ground arith };
  limit_pos = ground arith;
  limit_int32 = ground arith;
}

joined-PursesOk : PursesOk joined.players
unfolding new_room find
joined-PursesOk id p h = let same : seven ≡ p = ground arith in subst PurseOk same (ground arith)

reachable-GridAgrees_example : GridAgrees (run script (new_room test_config))
reachable-GridAgrees_example = reachable-GridAgrees test_config script (omega go_laws) (omega arith)

build_granted : (run_command (build (pos 7) "a" (pos 1)) joined).1.is_ok ≡ true
unfolding run_command build_tower place_tower find can_build_on next_tower_type new_room eqb_ℤ
build_granted = refl

run_command-Charged_example :
    Charged (build (pos 7) "a" (pos 1)) joined (run_command (build (pos 7) "a" (pos 1)) joined)
run_command-Charged_example =
    run_command-Charged (build (pos 7) "a" (pos 1)) joined
      (unfold new_room in
        (record {
          build_fair = ground arith;
          reroll_fair = ground arith;
          miner_fair = ground arith;
        }))
      joined-PursesOk build_granted

fresh-OnTime : OnTime (new_room test_config)
unfolding new_room normal_config
fresh-OnTime = record {
  start_nonneg = ground arith;
  start_past = ground arith;
  now_int64 = omega go_laws;
  timeout_pos = ground arith;
  in_time = inr (inl refl);
}

advance_to_tick_ends_example :
    (advance_to_tick (pos 600) (new_room test_config)).state ≡ RoomState.closed
advance_to_tick_ends_example =
    advance_to_tick_ends (pos 600) (new_room test_config) fresh-OnTime (omega go_laws)
      (unfold new_room in (omega go_laws))

advance_to_tick_stops_example :
    let s = advance_to_tick (pos 4) (new_room test_config) in
    ((s.server_tick ≡ pos 4) ⊎ ((s.state ≡ RoomState.closed) × (s.server_tick ≤ℤ pos 4)))
    × (k : ℕ) × (s ≡ rounds k (new_room test_config))
    × ((j : ℕ) → j < k → (rounds j (new_room test_config)).state ≢ RoomState.closed)
advance_to_tick_stops_example =
    advance_to_tick_stops (pos 4) (new_room test_config) (omega go_laws)
      (unfold new_room in (omega go_laws)) (unfold new_room in (omega go_laws))

abbrev over : Room
over = record joined { state = RoomState.closed; finish_reason = FinishReason.lose }

run_closed_example : SameOutcome over (run script over)
run_closed_example = run_closed script over refl

abbrev digger : MinerState
digger = record { miner_id = pos 1; owner_player_id = pos 7; next_produce_tick = pos 3 }

abbrev at_ten : Room
at_ten = record joined { server_tick = pos 10 }

produce_rounds_exact_example :
    let (q, n, ds) = produce_rounds (rounds_fuel at_ten digger) at_ten seven digger in
    (q ≡ record seven { mana = pos 3 })
    × (n ≡ record digger { next_produce_tick = pos 12 })
    × (length ds ≡ 3)
    × (10 < 12)
produce_rounds_exact_example =
    produce_rounds_exact at_ten seven digger 10 3 1 3 0 refl (unfold new_room in refl)
      (unfold new_room in refl) refl refl (omega arith) (omega arith) (omega arith)

abbrev runner : MonsterState
runner = record {
  monster_id = pos 1;
  wave_id = pos 1;
  monster_type = pos 101;
  route_id = pos 1;
  spawn_tick = pos 1;
  progress = pos 80;
  speed = pos 40;
  hp = pos 10;
  max_hp = pos 10;
  reward_gold = pos 5;
  path_length = pos 100;
  status = MonsterStatus.alive;
  finished_tick = pos 0;
}

-- One monster is about to arrive, and one is under way.
abbrev besieged : Room
besieged = record joined {
  base_hp = pos 3;
  monsters = (pos 1, runner) ∷ (pos 2, record runner { progress = pos 0 }) ∷ [];
}

advance_monsters_base_example :
    (advance_monsters besieged).base_hp ≡ pos (3 - 1 * arrivals besieged.monsters)
advance_monsters_base_example =
    advance_monsters_base besieged 3 1 refl (unfold new_room in refl) (omega arith) (omega arith)

abbrev first_wave : MonsterWaveState
first_wave = record {
  wave_id = pos 1;
  config = record {
    start_tick = pos 1;
    route_id = pos 1;
    monster_type = pos 101;
    monster_count = pos 5;
    spawn_gap_tick = pos 2;
    speed = pos 40;
    hp = pos 10;
    reward_gold = pos 5;
    path_length = pos 100;
  };
  spawned_count = pos 1;
  finished = false;
}

spawn_wave_timetable_example :
    let (w', r') = spawn_wave first_wave (record joined { server_tick = pos 6 }) in
    (w' ≡ record first_wave { spawned_count = pos 3 }) × (length r'.deltas + 1 ≡ 0 + 3)
unfolding new_room
spawn_wave_timetable_example =
    spawn_wave_timetable first_wave (record joined { server_tick = pos 6 }) 1 2 5 6 1 refl refl refl
      refl refl refl (omega arith) (omega arith) (omega arith) (omega arith)

build_settlement_lem_example :
    let s = build_settlement "room" joined in
    Perm (player_ids s.players) (ids joined.players)
    × IsSorted (λ id. id) (player_ids s.players)
    × All (Reports joined.players) s.players
    × ((s.win ≡ true) ↔ (joined.finish_reason ≡ FinishReason.win))
build_settlement_lem_example = build_settlement_lem "room" joined (refl, tt)

abbrev moved : Delta
moved = blank_delta DeltaType.resource_changed (pos 3)

moved-WellFormed : WellFormed moved
moved-WellFormed = record {
  tower_absent = λ e. refl;
  monster_absent = λ e. refl;
  monster_status = λ n. absurd (n refl);
  monster_named = refl;
}

deltas_to_proto_injective_example : moved ∷ [] ≡ moved ∷ []
deltas_to_proto_injective_example =
    deltas_to_proto_injective "room" (pos 3) (moved ∷ []) (moved ∷ []) (moved-WellFormed, tt)
      (moved-WellFormed, tt) refl

buy_unknown : (run_command (buy (pos 9) "z") joined).1.is_ok ≡ false
unfolding run_command buy_miner find new_room eqb_ℤ
buy_unknown = refl

run_command_refused_example : (run_command (buy (pos 9) "z") joined).0 ≡ joined
run_command_refused_example = run_command_refused (buy (pos 9) "z") joined buy_unknown

build_tower_granted_iff_example :
    ((build_tower (pos 7) "a" (pos 1) joined).1.is_ok ≡ true)
    ↔ ((p : PlayerState) × (type_id : ℤ) × CanBuild (pos 7) (pos 1) joined p type_id)
build_tower_granted_iff_example = build_tower_granted_iff (pos 7) "a" (pos 1) joined

merge_tower_granted_iff_example :
    ((merge_tower (pos 7) "d" (pos 1) (pos 2) (run script (new_room test_config))).1.is_ok ≡ true)
    ↔ ((p : PlayerState) × (m : TowerState) × (t : TowerState) × (type_id : ℤ) × CanMerge
          (pos 7)
          (pos 1)
          (pos 2)
          (run script (new_room test_config))
          p
          m
          t
          type_id)
merge_tower_granted_iff_example =
    merge_tower_granted_iff (pos 7) "d" (pos 1) (pos 2) (run script (new_room test_config))
