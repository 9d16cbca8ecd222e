-- ===== src/Battle/Settle.antt =====
-- The settlement of src/service/battle/sync/room.go against the players of the room.
use mathlib.Core.List.{Perm}
use heli.Common.{
  ℤ, String, List, [], ◌∷◌, map, true, some, ◌≡◌, ◌↔◌, refl, inl, inr, arith, All, eqb_ℤ, eqb_ℤ_iff,
  int_eq, Bool-cases,
}
use heli.Common.Table.{Table, find}
use heli.Common.Sort.{sort_by, IsSorted, sort_by-IsSorted, sort_by-perm, sort_by-All}
use heli.Battle.Types.{Room, PlayerState, PlayerSettlement, FinishReason}
use heli.Battle.View.{build_settlement, settle_players, ids}

-- Every player stands in the map under its own id.
abbrev pub PlayersNamed : Table ℤ PlayerState → Type 0
PlayersNamed = All (λ e. e.1.player_id ≡ e.0)

abbrev Found : Table ℤ PlayerState → ℤ → Type 0
Found players id = (p : PlayerState) × (find id players ≡ some p) × (p.player_id ≡ id)

Found-cons :
    (id : ℤ) (p : PlayerState) (players : Table ℤ PlayerState) (j : ℤ)
    → p.player_id ≡ id
    → Found players j
    → Found ((id, p) ∷ players) j
unfolding find
Found-cons id p players j named f = elim (Bool-cases (eqb_ℤ id j)) [
  | inl same ↦ (p, ground arith, ground (arith, eqb_ℤ_iff id j))
  | inr other ↦ (f.0, ground arith, f.2)
]

Found-weaken :
    (id : ℤ) (p : PlayerState) (players : Table ℤ PlayerState) (xs : List ℤ)
    → p.player_id ≡ id
    → All (Found players) xs
    → All (Found ((id, p) ∷ players)) xs
Found-weaken id p players [] named a = tt
Found-weaken id p players (x ∷ xs) named a =
    (Found-cons id p players x named a.0, Found-weaken id p players xs named a.1)

ids-Found :
    (players : Table ℤ PlayerState) → PlayersNamed players → All (Found players) (ids players)
unfolding find
ids-Found [] n = tt
ids-Found ((id, p) ∷ players) n = (
  (p, ground (arith, eqb_ℤ_iff id id), n.0),
  Found-weaken id p players (ids players) n.0 (ids-Found players n.1),
)

abbrev pub player_ids : List PlayerSettlement → List ℤ
player_ids = map (λ s. s.player_id)

-- The entry says what the player of its id holds.
abbrev pub Reports : Table ℤ PlayerState → PlayerSettlement → Type 0
Reports players s =
    (p : PlayerState) × (find s.player_id players ≡ some p) × (s.gold ≡ p.gold) × (s.mana ≡ p.mana)

settle_players_ids :
    (xs : List ℤ) (players : Table ℤ PlayerState)
    → All (Found players) xs
    → player_ids (settle_players xs players) ≡ xs
unfolding settle_players
settle_players_ids [] players a = refl
settle_players_ids (x ∷ xs) players ((p, found, named), rest) =
    rw (found, settle_players) (ground (arith, settle_players_ids xs players rest))

settle_players-Reports :
    (xs : List ℤ) (players : Table ℤ PlayerState)
    → All (Found players) xs
    → All (Reports players) (settle_players xs players)
unfolding settle_players
settle_players-Reports [] players a = tt
settle_players-Reports (x ∷ xs) players ((p, found, named), rest) =
    rw (found, settle_players)
      ((p, simp named found, refl, refl), settle_players-Reports xs players rest)

-- The settlement lists every player of the room exactly once, by rising id, with the gold and the
-- mana that the player holds; and it is a win exactly if the room finished with a win. Each player
-- must stand in the map under its own id.
pub build_settlement_lem :
    (room_id : String) (r : Room)
    → PlayersNamed r.players
    → let s = build_settlement room_id r in
      Perm (player_ids s.players) (ids r.players)
      × IsSorted (λ id. id) (player_ids s.players)
      × All (Reports r.players) s.players
      × ((s.win ≡ true) ↔ (r.finish_reason ≡ FinishReason.win))
unfolding build_settlement
build_settlement_lem room_id r named =
    let found =
      sort_by-All (λ id. id) (Found r.players) (ids r.players) (ids-Found r.players named) in
    let same = settle_players_ids (sort_by (λ id. id) (ids r.players)) r.players found in
    (
      rw same (sort_by-perm (λ id. id) (ids r.players)),
      rw same (sort_by-IsSorted (λ id. id) (ids r.players)),
      settle_players-Reports (sort_by (λ id. id) (ids r.players)) r.players found,
      ground arith,
    )
