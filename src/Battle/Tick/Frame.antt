-- ===== src/Battle/Tick/Frame.antt =====
-- What each phase of a tick of src/service/battle/sync/room.go leaves alone.
use heli.Common.{ℕ, zero, suc, pos, add64, add32, List, [], ◌∷◌, ◌≡◌, refl, arith}
use heli.Battle.Types.{Room, MonsterWaveState}
use heli.Battle.Production.{produce_miner_mana}
use heli.Battle.Spawning.{
  spawn_monster, spawn_rounds, spawn_wave, spawn_waves, spawn_fuel, spawn_wave_monsters,
}
use heli.Battle.Tick.{advance_monsters, cleanup_finished_waves, check_finish_conditions, tick}

-- The same room but for the monsters, their counter, the waves and the deltas.
abbrev pub SameButMonsters : Room → Room → Type 0
SameButMonsters r s = s ≡ record r {
  next_monster_id = s.next_monster_id;
  monsters = s.monsters;
  waves = s.waves;
  deltas = s.deltas;
}

pub spawn_rounds_frame :
    (fuel : ℕ) (w : MonsterWaveState) (r : Room) → SameButMonsters r (spawn_rounds fuel w r).1
unfolding spawn_rounds
spawn_rounds_frame zero w r = refl
spawn_rounds_frame (suc fuel) w r = ground (
  arith,
  spawn_rounds_frame fuel (record w { spawned_count = add32 w.spawned_count (pos 1) })
      (spawn_monster w r),
)

spawn_wave_frame : (w : MonsterWaveState) (r : Room) → SameButMonsters r (spawn_wave w r).1
unfolding spawn_wave
spawn_wave_frame w r = ground (arith, spawn_rounds_frame (spawn_fuel w) w r)

spawn_waves_frame : (ws : List MonsterWaveState) (r : Room) → SameButMonsters r (spawn_waves ws r).1
unfolding spawn_waves
spawn_waves_frame [] r = refl
spawn_waves_frame (w ∷ ws) r =
    ground (arith, spawn_wave_frame w r, spawn_waves_frame ws (spawn_wave w r).1)

pub spawn_wave_monsters_frame : (r : Room) → SameButMonsters r (spawn_wave_monsters r)
unfolding spawn_wave_monsters
spawn_wave_monsters_frame r = ground (arith, spawn_waves_frame r.waves r)

pub produce_miner_mana_frame :
    (r : Room)
    → let s = produce_miner_mana r in s ≡ record r { players = s.players; deltas = s.deltas }
unfolding produce_miner_mana
produce_miner_mana_frame r = refl

pub advance_monsters_frame :
    (r : Room)
    → let s = advance_monsters r in
      s ≡ record r { monsters = s.monsters; base_hp = s.base_hp; deltas = s.deltas }
unfolding advance_monsters
advance_monsters_frame r = refl

pub cleanup_finished_waves_frame :
    (r : Room) → let s = cleanup_finished_waves r in s ≡ record r { waves = s.waves }
unfolding cleanup_finished_waves
cleanup_finished_waves_frame r = refl

pub check_finish_conditions_frame :
    (r : Room)
    → let s = check_finish_conditions r in
      s ≡ record r { state = s.state; finish_reason = s.finish_reason; end_tick = s.end_tick }
unfolding check_finish_conditions
check_finish_conditions_frame r = ground arith

-- A tick counts on by one, and touches neither the configuration nor the towers.
pub tick_frame :
    (r : Room)
    → let s = tick r in
      s ≡ record r {
        state = s.state;
        server_tick = add64 r.server_tick (pos 1);
        end_tick = s.end_tick;
        next_monster_id = s.next_monster_id;
        finish_reason = s.finish_reason;
        base_hp = s.base_hp;
        players = s.players;
        monsters = s.monsters;
        waves = s.waves;
        deltas = s.deltas;
      }
unfolding tick
tick_frame r =
    let started : Room = record r { server_tick = add64 r.server_tick (pos 1) } in
    let r₁ = produce_miner_mana started in
    let r₂ = spawn_wave_monsters r₁ in
    let r₃ = advance_monsters r₂ in
    let r₄ = cleanup_finished_waves r₃ in
    ground (
      arith,
      produce_miner_mana_frame started,
      spawn_wave_monsters_frame r₁,
      advance_monsters_frame r₂,
      cleanup_finished_waves_frame r₃,
      check_finish_conditions_frame r₄,
    )
