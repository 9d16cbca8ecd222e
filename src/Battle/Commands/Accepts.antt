-- ===== src/Battle/Commands/Accepts.antt =====
-- When the player operations of src/service/battle/sync/room.go go through, and that a refused one
-- changes nothing.
use heli.Common.{
  ◌%◌, ℤ, ◌≤ℤ◌, ◌<ℤ◌, ltb_ℤ, leb_ℤ, not, ◌&&◌, eqb_ℤ, eqb_ℤ_iff, Bool, true, false, String, none,
  some, length, get_elem?, ◌≡◌, ◌≢◌, ◌⊎◌, inl, inr, arith, int_eq, suc, Bool-cases, Option-cases,
}
use heli.Common.Table.{find}
use heli.Battle.Commands.Area.{InArea, InArea-can_build_on, can_build_on-InArea}
use heli.Battle.Types.{Room, PlayerState, TowerState}
use heli.Battle.Room.{can_build_on, is_some, tower_pool, next_tower_type}
use heli.Battle.Commands.{
  build_tower, reroll_tower, merge_tower, buy_miner, place_tower, retype_tower, fuse_towers,
  add_miner,
}

-- The type that the room's round-robin index draws from the player's pool.
abbrev pub Draws : PlayerState → Room → ℤ → Type 0
Draws p r type_id =
    get_elem? (tower_pool p r) (r.random_index % length (tower_pool p r)) ≡ some type_id

abbrev pub drawn_room : Room → Room
drawn_room r = record r { random_index = suc r.random_index }

next_tower_type-Draws :
    (p : PlayerState) (r : Room) (type_id : ℤ) {r' : Room}
    → next_tower_type p r ≡ some (type_id, r')
    → Draws p r type_id × (r' ≡ drawn_room r)
unfolding next_tower_type
next_tower_type-Draws p r type_id h = ground arith

pub record CanBuild (player_id grid_id : ℤ) (r : Room) (p : PlayerState) (type_id : ℤ)
    : Type 0 where
  pub known : find player_id r.players ≡ some p
  pub in_area : InArea player_id grid_id r
  pub vacant : find grid_id r.grid_tower ≡ none
  pub affordable : r.cfg.build_cost_gold ≤ℤ p.gold
  pub drawn : Draws p r type_id

pub build_tower-eq_of_CanBuild :
    (player_id : ℤ) (op_id : String) (grid_id : ℤ) (r : Room) (p : PlayerState) (type_id : ℤ)
    → CanBuild player_id grid_id r p type_id
    → build_tower player_id op_id grid_id r
      ≡ place_tower player_id op_id grid_id type_id p (drawn_room r)
unfolding build_tower next_tower_type
build_tower-eq_of_CanBuild player_id op_id grid_id r p type_id c =
    let in_area : can_build_on player_id grid_id r ≡ true =
      InArea-can_build_on player_id grid_id r c.in_area in
    ground arith

abbrev build_test : ℤ → ℤ → Room → PlayerState → Bool
build_test player_id grid_id r p =
    can_build_on player_id grid_id r
    && (not (is_some (find grid_id r.grid_tower)) && leb_ℤ r.cfg.build_cost_gold p.gold)

-- A build either meets `CanBuild` and places the tower, or reports a failure and changes nothing.
pub build_tower_cases :
    (player_id : ℤ) (op_id : String) (grid_id : ℤ) (r : Room)
    → ((p : PlayerState) × (type_id : ℤ) × CanBuild player_id grid_id r p type_id
        × (build_tower player_id op_id grid_id r
            ≡ place_tower player_id op_id grid_id type_id p (drawn_room r)))
      ⊎ (((build_tower player_id op_id grid_id r).0 ≡ r)
          × ((build_tower player_id op_id grid_id r).1.is_ok ≡ false))
unfolding build_tower next_tower_type
build_tower_cases player_id op_id grid_id r = elim (Option-cases (find player_id r.players)) [
  | inl unknown ↦ inr (ground arith)
  | inr (p, known) ↦
      elim (Option-cases (get_elem? (tower_pool p r) (r.random_index % length (tower_pool p r)))) [
        | inl empty ↦ inr (ground arith)
        | inr (type_id, drawn) ↦ elim (Bool-cases (build_test player_id grid_id r p)) [
          | inl good ↦
              let c : CanBuild player_id grid_id r p type_id = record {
                known = known;
                in_area = can_build_on-InArea player_id grid_id r (ground arith);
                vacant = ground arith;
                affordable = ground arith;
                drawn = drawn;
              } in
              inl (p, type_id, c, build_tower-eq_of_CanBuild player_id op_id grid_id r p type_id c)
          | inr bad ↦ inr (ground arith)
        ]
      ]
]

pub record CanReroll (player_id tower_id : ℤ) (r : Room) (p : PlayerState) (t : TowerState)
    (type_id : ℤ) : Type 0 where
  pub known : find player_id r.players ≡ some p
  pub found : find tower_id r.towers ≡ some t
  pub owned : t.owner_player_id ≡ player_id
  pub affordable : r.cfg.reroll_cost_mana ≤ℤ p.mana
  pub drawn : Draws p r type_id

pub reroll_tower-eq_of_CanReroll :
    (player_id : ℤ) (op_id : String) (tower_id : ℤ) (r : Room) (p : PlayerState) (t : TowerState)
    (type_id : ℤ)
    → CanReroll player_id tower_id r p t type_id
    → reroll_tower player_id op_id tower_id r
      ≡ retype_tower player_id op_id tower_id type_id p t (drawn_room r)
unfolding reroll_tower next_tower_type
reroll_tower-eq_of_CanReroll player_id op_id tower_id r p t type_id c =
    ground (arith, eqb_ℤ_iff t.owner_player_id player_id)

-- A reroll either meets `CanReroll` and retypes the tower, or fails and changes nothing.
pub reroll_tower_cases :
    (player_id : ℤ) (op_id : String) (tower_id : ℤ) (r : Room)
    → ((p : PlayerState) × (t : TowerState) × (type_id : ℤ) × CanReroll player_id tower_id r p t
          type_id
        × (reroll_tower player_id op_id tower_id r
            ≡ retype_tower player_id op_id tower_id type_id p t (drawn_room r)))
      ⊎ (((reroll_tower player_id op_id tower_id r).0 ≡ r)
          × ((reroll_tower player_id op_id tower_id r).1.is_ok ≡ false))
unfolding reroll_tower next_tower_type
reroll_tower_cases player_id op_id tower_id r = elim (Option-cases (find player_id r.players)) [
  | inl unknown ↦ inr (ground arith)
  | inr (p, known) ↦ elim (Option-cases (find tower_id r.towers)) [
    | inl missing ↦ inr (ground arith)
    | inr (t, found) ↦
        elim (Option-cases
          (get_elem? (tower_pool p r) (r.random_index % length (tower_pool p r)))) [
            | inl empty ↦ inr (ground arith)
            | inr (type_id, drawn) ↦
                elim (Bool-cases
                  (eqb_ℤ t.owner_player_id player_id && leb_ℤ r.cfg.reroll_cost_mana p.mana)) [
                    | inl good ↦
                        let c : CanReroll player_id tower_id r p t type_id =
                          ground (arith, eqb_ℤ_iff t.owner_player_id player_id) in
                        inl (
                          p,
                          t,
                          type_id,
                          c,
                          reroll_tower-eq_of_CanReroll player_id op_id tower_id r p t type_id c,
                        )
                    | inr bad ↦ inr (ground arith)
                  ]
          ]
  ]
]

pub record CanMerge (player_id main_id material_id : ℤ) (r : Room) (p : PlayerState)
    (m t : TowerState) (type_id : ℤ) : Type 0 where
  pub known : find player_id r.players ≡ some p
  pub main_found : find main_id r.towers ≡ some m
  pub material_found : find material_id r.towers ≡ some t
  pub main_owned : m.owner_player_id ≡ player_id
  pub material_owned : t.owner_player_id ≡ player_id
  pub same_type : m.type_id ≡ t.type_id
  pub same_level : m.level ≡ t.level
  pub distinct : main_id ≢ material_id
  pub below_max : m.level <ℤ r.cfg.tower_max_level
  pub drawn : Draws p r type_id

abbrev merge_test : ℤ → ℤ → ℤ → Room → TowerState → TowerState → Bool
merge_test player_id main_id material_id r m t =
    eqb_ℤ m.owner_player_id player_id
    && (eqb_ℤ t.owner_player_id player_id
        && (eqb_ℤ m.type_id t.type_id
            && (eqb_ℤ m.level t.level
                && (not (eqb_ℤ main_id material_id) && not (leb_ℤ r.cfg.tower_max_level m.level)))))

merge_test-CanMerge :
    (player_id main_id material_id : ℤ) (r : Room) (p : PlayerState) (m t : TowerState)
    (type_id : ℤ)
    → find player_id r.players ≡ some p
    → find main_id r.towers ≡ some m
    → find material_id r.towers ≡ some t
    → Draws p r type_id
    → merge_test player_id main_id material_id r m t ≡ true
    → CanMerge player_id main_id material_id r p m t type_id
merge_test-CanMerge player_id main_id material_id r p m t type_id known fm ft drawn good = ground (
  arith,
  eqb_ℤ_iff m.owner_player_id player_id,
  eqb_ℤ_iff t.owner_player_id player_id,
  eqb_ℤ_iff m.type_id t.type_id,
  eqb_ℤ_iff m.level t.level,
  eqb_ℤ_iff main_id material_id,
)

CanMerge-merge_test :
    (player_id main_id material_id : ℤ) (r : Room) (p : PlayerState) (m t : TowerState)
    (type_id : ℤ)
    → CanMerge player_id main_id material_id r p m t type_id
    → merge_test player_id main_id material_id r m t ≡ true
CanMerge-merge_test player_id main_id material_id r p m t type_id c = ground (
  arith,
  eqb_ℤ_iff m.owner_player_id player_id,
  eqb_ℤ_iff t.owner_player_id player_id,
  eqb_ℤ_iff m.type_id t.type_id,
  eqb_ℤ_iff m.level t.level,
  eqb_ℤ_iff main_id material_id,
)

pub merge_tower-eq_of_CanMerge :
    (player_id : ℤ) (op_id : String) (main_id material_id : ℤ) (r : Room) (p : PlayerState)
    (m t : TowerState) (type_id : ℤ)
    → CanMerge player_id main_id material_id r p m t type_id
    → merge_tower player_id op_id main_id material_id r
      ≡ fuse_towers player_id op_id main_id material_id type_id m t (drawn_room r)
unfolding merge_tower next_tower_type
merge_tower-eq_of_CanMerge player_id op_id main_id material_id r p m t type_id c =
    ground (arith, CanMerge-merge_test player_id main_id material_id r p m t type_id c)

-- A merge either meets `CanMerge` and fuses the two towers, or fails and changes nothing.
pub merge_tower_cases :
    (player_id : ℤ) (op_id : String) (main_id material_id : ℤ) (r : Room)
    → ((p : PlayerState) × (m : TowerState) × (t : TowerState) × (type_id : ℤ) × CanMerge player_id
          main_id material_id r p m t type_id
        × (merge_tower player_id op_id main_id material_id r
            ≡ fuse_towers player_id op_id main_id material_id type_id m t (drawn_room r)))
      ⊎ (((merge_tower player_id op_id main_id material_id r).0 ≡ r)
          × ((merge_tower player_id op_id main_id material_id r).1.is_ok ≡ false))
unfolding merge_tower next_tower_type
merge_tower_cases player_id op_id main_id material_id r =
    elim (Option-cases (find player_id r.players)) [
      | inl unknown ↦ inr (ground arith)
      | inr (p, known) ↦ elim (Option-cases (find main_id r.towers)) [
        | inl missing ↦ inr (ground arith)
        | inr (m, fm) ↦ elim (Option-cases (find material_id r.towers)) [
          | inl missing ↦ inr (ground arith)
          | inr (t, ft) ↦
              elim (Option-cases
                (get_elem? (tower_pool p r) (r.random_index % length (tower_pool p r)))) [
                  | inl empty ↦ inr (ground arith)
                  | inr (type_id, drawn) ↦
                      elim (Bool-cases (merge_test player_id main_id material_id r m t)) [
                        | inl good ↦
                            let c =
                              merge_test-CanMerge player_id main_id material_id r p m t type_id
                                known fm ft drawn good in
                            inl (
                              p,
                              m,
                              t,
                              type_id,
                              c,
                              merge_tower-eq_of_CanMerge player_id op_id main_id material_id r p m t
                                  type_id c,
                            )
                        | inr bad ↦ inr (ground arith)
                      ]
                ]
        ]
      ]
    ]

-- A purchase either finds the player with enough gold and adds the miner, or fails and changes
-- nothing.
pub buy_miner_cases :
    (player_id : ℤ) (op_id : String) (r : Room)
    → ((p : PlayerState) × (find player_id r.players ≡ some p)
        × (r.cfg.miner_cost_gold ≤ℤ p.gold)
        × (buy_miner player_id op_id r ≡ add_miner player_id op_id p r))
      ⊎ (((buy_miner player_id op_id r).0 ≡ r) × ((buy_miner player_id op_id r).1.is_ok ≡ false))
unfolding buy_miner
buy_miner_cases player_id op_id r = elim (Option-cases (find player_id r.players)) [
  | inl unknown ↦ inr (ground arith)
  | inr (p, known) ↦ elim (Bool-cases (ltb_ℤ p.gold r.cfg.miner_cost_gold)) [
    | inl short ↦ inr (ground arith)
    | inr enough ↦ inl (p, known, ground arith, ground arith)
  ]
]
