-- ===== src/Battle/Tick.antt =====
-- src/service/battle/sync/room.go: `AdvanceToTick` and what one tick does, in the order of the source.
pub mod Frame
pub mod Miners
pub mod Loop
pub mod Deadline
pub mod Base
pub mod Waves
use heli.Common.{
  ℕ, zero, suc, ◌&&◌, ◌||◌, not, ℤ, pos, pos_part, ◌-ℤ◌, ltb_ℤ, leb_ℤ, eqb_ℤ, add64, sub64, mul64,
  add32, Bool, true, false, List, [], ◌∷◌, ◌++◌, if◌then◌else◌, int_eq,
}
use heli.Common.Table.{Table, insert}
use heli.Battle.Types.{
  Room, RoomState, PlayerState, MinerState, MonsterState, MonsterStatus, MonsterWaveState, Delta,
  DeltaType, FinishReason, blank_delta,
}
use heli.Battle.Room.{start, finish, alloc_monster_id, is_empty}
use heli.Battle.Deltas.{append_monster_delta, monster_delta}
use heli.Battle.Commands.{produce_interval}
use heli.Battle.Production.{
  produced_delta, produce_rounds, rounds_fuel, produce_miners, produce_players, produce_miner_mana,
}
use heli.Battle.Spawning.{
  next_spawn_tick, new_monster, spawn_monster, spawn_rounds, spawn_fuel, spawn_wave, spawn_waves,
  spawn_wave_monsters,
}

-- `r.baseHP -= r.cfg.MonsterDamage; if r.baseHP < 0 { r.baseHP = 0 }`
unfoldable pub hit_base : Room → ℤ → ℤ
hit_base r hp =
    let left = sub64 hp r.cfg.monster_damage in if ltb_ℤ left (pos 0) then pos 0 else left

abbrev pub is_alive : MonsterStatus → Bool
is_alive MonsterStatus.alive = true
is_alive _ = false

-- The loop body of `advanceMonsters`: the monster, the hit points of the base and the deltas.
unfoldable pub advance_monster : Room → ℤ → MonsterState → MonsterState × ℤ × List Delta
unfolding hit_base monster_delta
advance_monster r hp m =
    let walked : MonsterState = record m { progress = add64 m.progress m.speed } in
    let there : MonsterState = record m {
      progress = m.path_length;
      status = MonsterStatus.arrived;
      finished_tick = r.server_tick;
    } in
    if not (is_alive m.status)
    then (m, hp, [])
    else if leb_ℤ m.path_length walked.progress
    then (there, hit_base r hp, monster_delta DeltaType.monster_arrived there r.server_tick ∷ [])
    else (walked, hp, monster_delta DeltaType.monster_progress_fixed walked r.server_tick ∷ [])

unfoldable pub advance_all : Room → ℤ → Table ℤ MonsterState → Table ℤ MonsterState × ℤ × List Delta
unfolding advance_monster
advance_all r hp [] = ([], hp, [])
advance_all r hp ((id, m) ∷ ms) =
    let (m', hp', ds) = advance_monster r hp m in
    let (ms', hp'', ds') = advance_all r hp' ms in ((id, m') ∷ ms', hp'', ds ++ ds')

unfoldable pub advance_monsters : Room → Room
unfolding advance_all
advance_monsters r =
    let (ms, hp, ds) = advance_all r r.base_hp r.monsters in
    record r { monsters = ms; base_hp = hp; deltas = r.deltas ++ ds }

unfoldable pub has_alive : ℤ → Table ℤ MonsterState → Bool
has_alive wave_id [] = false
has_alive wave_id ((id, m) ∷ ms) =
    (eqb_ℤ m.wave_id wave_id && is_alive m.status) || has_alive wave_id ms

unfoldable pub cleanup_wave : Table ℤ MonsterState → MonsterWaveState → MonsterWaveState
unfolding has_alive
cleanup_wave monsters w =
    if w.finished || ltb_ℤ w.spawned_count w.config.monster_count
    then w
    else record w { finished = not (has_alive w.wave_id monsters) }

unfoldable pub cleanup_waves : Table ℤ MonsterState → List MonsterWaveState → List MonsterWaveState
unfolding cleanup_wave
cleanup_waves monsters [] = []
cleanup_waves monsters (w ∷ ws) = cleanup_wave monsters w ∷ cleanup_waves monsters ws

unfoldable pub cleanup_finished_waves : Room → Room
unfolding cleanup_waves
cleanup_finished_waves r = record r { waves = cleanup_waves r.monsters r.waves }

unfoldable pub all_finished : List MonsterWaveState → Bool
all_finished [] = true
all_finished (w ∷ ws) = w.finished && all_finished ws

abbrev pub is_closed : RoomState → Bool
is_closed RoomState.closed = true
is_closed _ = false

unfoldable pub check_finish_conditions : Room → Room
unfolding finish all_finished
check_finish_conditions r =
    if is_closed r.state
    then r
    else if leb_ℤ r.base_hp (pos 0)
    then (finish FinishReason.lose r).0
    else if ltb_ℤ (pos 0) r.cfg.wave_timeout_tick
        && leb_ℤ r.cfg.wave_timeout_tick (sub64 r.server_tick r.start_tick)
    then (finish FinishReason.timeout r).0
    else if not (is_empty r.waves) && all_finished r.waves
    then (finish FinishReason.win r).0
    else r

-- One round of `AdvanceToTick`, from `r.serverTick++` on.
unfoldable pub tick : Room → Room
tick r = check_finish_conditions (
    cleanup_finished_waves (
      advance_monsters (
        spawn_wave_monsters
          (produce_miner_mana (record r { server_tick = add64 r.server_tick (pos 1) })))))

-- `if r.state == RoomStateCreated { r.Start() }`
unfoldable pub ensure_started : Room → Room
unfolding start
ensure_started r = elim r.state [ RoomState.created ↦ (start r).0 | _ ↦ r ]

unfoldable pub advance_rounds : ℕ → ℤ → Room → Room
advance_rounds zero target r = r
advance_rounds (suc fuel) target r = elim (ltb_ℤ r.server_tick target && not (is_closed r.state)) [
  | false ↦ r
  | true ↦ advance_rounds fuel target (tick (ensure_started r))
]

-- Each round moves the tick on by one.
unfoldable pub advance_to_tick : ℤ → Room → Room
unfolding advance_rounds
advance_to_tick target r = advance_rounds (pos_part (target -ℤ r.server_tick)) target r
