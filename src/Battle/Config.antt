-- ===== src/Battle/Config.antt =====
-- src/service/battle/sync/room.go: the configuration that `NewRoom` completes, and its waves.
use mathlib.Core.Option
use heli.Common.{ℕ, suc, ℤ, pos, leb_ℤ, wrap32, false, List, [], ◌∷◌, some, if◌then◌else◌, int_eq}
use heli.Battle.Types.{RoomConfig, MonsterWaveConfig, MonsterWaveState}

-- `if z <= 0 { z = default }`
abbrev pub positive_or : ℤ → ℤ → ℤ
positive_or z default = if leb_ℤ z (pos 0) then default else z

pub default_monster_waves : List MonsterWaveConfig
default_monster_waves =
    record {
      start_tick = pos 1;
      route_id = pos 1;
      monster_type = pos 101;
      monster_count = pos 2;
      spawn_gap_tick = pos 2;
      speed = pos 40;
      hp = pos 10;
      reward_gold = pos 5;
      path_length = pos 100;
    }
    ∷ record {
      start_tick = pos 6;
      route_id = pos 1;
      monster_type = pos 102;
      monster_count = pos 2;
      spawn_gap_tick = pos 2;
      speed = pos 50;
      hp = pos 12;
      reward_gold = pos 6;
      path_length = pos 100;
    }
    ∷ []

unfoldable pub normal_wave : MonsterWaveConfig → MonsterWaveConfig
normal_wave w = record w {
  spawn_gap_tick = positive_or w.spawn_gap_tick (pos 1);
  speed = positive_or w.speed (pos 1);
  hp = positive_or w.hp (pos 1);
  path_length = positive_or w.path_length (pos 100);
}

-- The loop of `NewRoom` over the configured waves, from index `idx` on.
unfoldable pub build_waves : ℕ → List MonsterWaveConfig → List MonsterWaveState
build_waves idx [] = []
build_waves idx (w ∷ ws) =
    let rest = build_waves (suc idx) ws in
    if leb_ℤ w.monster_count (pos 0)
    then rest
    else record {
      wave_id = wrap32 (pos (suc idx));
      config = normal_wave w;
      spawned_count = pos 0;
      finished = false;
    }
      ∷ rest

unfoldable pub normal_config : RoomConfig → RoomConfig
normal_config cfg = record cfg {
  tower_max_level = positive_or cfg.tower_max_level (pos 5);
  base_hp = positive_or cfg.base_hp (pos 3);
  monster_damage = positive_or cfg.monster_damage (pos 1);
  wave_timeout_tick = positive_or cfg.wave_timeout_tick (pos 600);
  monster_waves = some (Option.get_or cfg.monster_waves default_monster_waves);
}
