-- ===== src/Battle/Spawning.antt =====
-- src/service/battle/sync/room.go: `spawnWaveMonsters`, the monsters that a wave brings out.
use heli.Common.{
  ℕ, zero, suc, ◌&&◌, ◌||◌, ℤ, pos, pos_part, ◌-ℤ◌, ltb_ℤ, leb_ℤ, add64, mul64, add32, true, false,
  List, [], ◌∷◌, if◌then◌else◌, int_eq,
}
use heli.Common.Table.{insert}
use heli.Battle.Types.{Room, MonsterState, MonsterStatus, MonsterWaveState, DeltaType}
use heli.Battle.Room.{alloc_monster_id}
use heli.Battle.Deltas.{append_monster_delta}

unfoldable pub next_spawn_tick : MonsterWaveState → ℤ
next_spawn_tick w = add64 w.config.start_tick (mul64 w.spawned_count w.config.spawn_gap_tick)

unfoldable pub new_monster : MonsterWaveState → ℤ → ℤ → MonsterState
new_monster w id tick = record {
  monster_id = id;
  wave_id = w.wave_id;
  monster_type = w.config.monster_type;
  route_id = w.config.route_id;
  spawn_tick = tick;
  progress = pos 0;
  speed = w.config.speed;
  hp = w.config.hp;
  max_hp = w.config.hp;
  reward_gold = w.config.reward_gold;
  path_length = w.config.path_length;
  status = MonsterStatus.alive;
  finished_tick = pos 0;
}

unfoldable pub spawn_monster : MonsterWaveState → Room → Room
unfolding new_monster alloc_monster_id append_monster_delta
spawn_monster w r =
    let (id, r₁) = alloc_monster_id r in
    let m = new_monster w id r.server_tick in
    append_monster_delta DeltaType.monster_spawned m
      (record r₁ { monsters = insert id m r₁.monsters })

-- The inner loop of `spawnWaveMonsters`: a spawn that is due, while the wave has monsters left.
unfoldable pub spawn_rounds : ℕ → MonsterWaveState → Room → MonsterWaveState × Room
unfolding spawn_monster next_spawn_tick
spawn_rounds zero w r = (w, r)
spawn_rounds (suc fuel) w r =
    elim (ltb_ℤ w.spawned_count w.config.monster_count && leb_ℤ (next_spawn_tick w) r.server_tick) [
      | false ↦ (w, r)
      | true ↦
          spawn_rounds fuel (record w { spawned_count = add32 w.spawned_count (pos 1) })
            (spawn_monster w r)
    ]

-- A round spawns one monster.
unfoldable pub spawn_fuel : MonsterWaveState → ℕ
spawn_fuel w = pos_part (w.config.monster_count -ℤ w.spawned_count)

unfoldable pub spawn_wave : MonsterWaveState → Room → MonsterWaveState × Room
unfolding spawn_rounds spawn_fuel
spawn_wave w r =
    if w.finished || ltb_ℤ r.server_tick w.config.start_tick
    then (w, r)
    else spawn_rounds (spawn_fuel w) w r

unfoldable pub spawn_waves : List MonsterWaveState → Room → List MonsterWaveState × Room
unfolding spawn_wave
spawn_waves [] r = ([], r)
spawn_waves (w ∷ ws) r =
    let (w', r₁) = spawn_wave w r in let (ws', r₂) = spawn_waves ws r₁ in (w' ∷ ws', r₂)

unfoldable pub spawn_wave_monsters : Room → Room
unfolding spawn_waves
spawn_wave_monsters r = let (ws, r₁) = spawn_waves r.waves r in record r₁ { waves = ws }
