-- ===== src/Battle/Room.antt =====
-- src/service/battle/sync/room.go: making a room, its life cycle and the helpers of its operations.
use mathlib.Core.Option
use heli.Common.{
  suc, ◌%◌, ◌&&◌, ◌||◌, ℤ, pos, eqb_ℤ, add64, Bool, true, false, List, [], ◌∷◌, Option, none, some,
  length, get_elem?, if◌then◌else◌, int_eq,
}
use heli.Common.Table.{find, insert}
use heli.Battle.Types.{RoomConfig, Room, RoomState, FinishReason, PlayerState, ErrorCode}
use heli.Battle.Results.{Result, ◌>>◌, refuse_if, accept, ◌>>◌}
use heli.Battle.Config.{positive_or, default_monster_waves, normal_wave, build_waves, normal_config}

unfoldable pub new_room : RoomConfig → Room
unfolding normal_config build_waves normal_wave
new_room cfg = record {
  cfg = normal_config cfg;
  state = RoomState.created;
  server_tick = pos 0;
  start_tick = pos 0;
  end_tick = pos 0;
  next_tower_id = pos 1;
  next_miner_id = pos 1;
  next_wave_id = pos 0;
  next_monster_id = pos 1;
  random_index = 0;
  finish_reason = FinishReason.unset;
  settled = false;
  base_hp = positive_or cfg.base_hp (pos 3);
  players = [];
  towers = [];
  grid_tower = [];
  monsters = [];
  waves = build_waves 0 (Option.get_or cfg.monster_waves default_monster_waves);
  deltas = [];
}

-- `if len(deck) == 0 { deck = fallback }`
abbrev pub deck_or : List ℤ → List ℤ → List ℤ
deck_or [] fallback = fallback
deck_or (x ∷ xs) fallback = x ∷ xs

abbrev pub is_empty {ℓ} : {A : Type ℓ} → List A → Bool
is_empty [] = true
is_empty (x ∷ xs) = false

abbrev pub is_some {ℓ} : {A : Type ℓ} → Option A → Bool
is_some none = false
is_some (some a) = true

unfoldable pub add_player : ℤ → List ℤ → Room → Result Room
add_player player_id deck r = do
  refuse_if (is_some (find player_id r.players)) ErrorCode.player_exists
  let deck' = deck_or deck r.cfg.default_tower_deck
  refuse_if (is_empty deck') ErrorCode.no_tower_in_deck
  accept (record r {
    players =
        insert player_id
          (record {
            player_id = player_id;
            gold = r.cfg.initial_gold;
            mana = r.cfg.initial_mana;
            tower_deck = deck';
            miners = [];
          })
          r.players;
  })

unfoldable pub start : Room → Room × Bool
start r = elim r.state [
  | RoomState.created ↦ (record r { state = RoomState.running; start_tick = r.server_tick }, true)
  | _ ↦ (r, false)
]

unfoldable pub finish : FinishReason → Room → Room × Bool
finish reason r = elim r.state [
  | RoomState.closed ↦ (r, false)
  | _ ↦ (
    record r { state = RoomState.closed; finish_reason = reason; end_tick = r.server_tick },
    true,
  )
]

unfoldable pub abort : Room → Room × Bool
unfolding finish
abort r = finish FinishReason.abort r

unfoldable pub mark_settled : Room → Room × Bool
mark_settled r = if r.settled then (r, false) else (record r { settled = true }, true)

unfoldable pub contains : ℤ → List ℤ → Bool
contains x [] = false
contains x (y ∷ ys) = eqb_ℤ y x || contains x ys

unfoldable pub can_build_on : ℤ → ℤ → Room → Bool
unfolding contains
can_build_on player_id grid_id r =
    let grids = Option.get_or (find player_id r.cfg.build_grids_by_player) [] in
    if is_empty grids && is_empty r.cfg.build_grids_by_player then true else contains grid_id grids

-- The pool that `nextTowerType` draws from.
unfoldable pub tower_pool : PlayerState → Room → List ℤ
tower_pool p r = deck_or (deck_or r.cfg.random_tower_types p.tower_deck) r.cfg.default_tower_deck

-- An empty pool has no element at any index.
unfoldable pub next_tower_type : PlayerState → Room → Option (ℤ × Room)
unfolding tower_pool
next_tower_type p r =
    let pool = tower_pool p r in
    elim (get_elem? pool (r.random_index % length pool)) [
      | none ↦ none
      | some type_id ↦ some (type_id, record r { random_index = suc r.random_index })
    ]

unfoldable pub alloc_tower_id : Room → ℤ × Room
alloc_tower_id r = (r.next_tower_id, record r { next_tower_id = add64 r.next_tower_id (pos 1) })

unfoldable pub alloc_miner_id : Room → ℤ × Room
alloc_miner_id r = (r.next_miner_id, record r { next_miner_id = add64 r.next_miner_id (pos 1) })

unfoldable pub alloc_monster_id : Room → ℤ × Room
alloc_monster_id r =
    (r.next_monster_id, record r { next_monster_id = add64 r.next_monster_id (pos 1) })
