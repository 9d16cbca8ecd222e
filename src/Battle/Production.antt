-- ===== src/Battle/Production.antt =====
-- src/service/battle/sync/room.go: `produceMinerMana`, the mana that miners bring.
use heli.Common.{
  ℕ, zero, suc, ℤ, pos_part, ◌-ℤ◌, leb_ℤ, add64, true, false, List, [], ◌∷◌, ◌++◌, int_eq,
}
use heli.Common.Table.{Table}
use heli.Battle.Types.{Room, PlayerState, MinerState, Delta, DeltaType, blank_delta}
use heli.Battle.Commands.{produce_interval}

unfoldable pub produced_delta : Room → PlayerState → MinerState → Delta
produced_delta r p m = record (blank_delta DeltaType.miner_produced r.server_tick) {
  player_id = p.player_id;
  miner_id = m.miner_id;
  gold = p.gold;
  mana = p.mana;
}

-- The inner loop of `produceMinerMana`: one round of mana for each interval that has passed. It
-- returns the player, the miner and the deltas of the rounds.
unfoldable pub produce_rounds :
    ℕ → Room → PlayerState → MinerState → PlayerState × MinerState × List Delta
unfolding produced_delta
produce_rounds zero r p m = (p, m, [])
produce_rounds (suc fuel) r p m = elim (leb_ℤ m.next_produce_tick r.server_tick) [
  | false ↦ (p, m, [])
  | true ↦
      let p' : PlayerState = record p { mana = add64 p.mana r.cfg.miner_produce_mana } in
      let m' : MinerState = record m {
        next_produce_tick = add64 m.next_produce_tick (produce_interval r);
      } in
      let (q, n, ds) = produce_rounds fuel r p' m' in (q, n, produced_delta r p' m' ∷ ds)
]

-- A round moves the miner on by at least one tick.
unfoldable pub rounds_fuel : Room → MinerState → ℕ
rounds_fuel r m = suc (pos_part (r.server_tick -ℤ m.next_produce_tick))

unfoldable pub produce_miners :
    Room → PlayerState → Table ℤ MinerState → PlayerState × Table ℤ MinerState × List Delta
unfolding produce_rounds rounds_fuel
produce_miners r p [] = (p, [], [])
produce_miners r p ((id, m) ∷ ms) =
    let (q, m', ds) = produce_rounds (rounds_fuel r m) r p m in
    let (q', ms', ds') = produce_miners r q ms in (q', (id, m') ∷ ms', ds ++ ds')

unfoldable pub produce_players : Room → Table ℤ PlayerState → Table ℤ PlayerState × List Delta
unfolding produce_miners
produce_players r [] = ([], [])
produce_players r ((id, p) ∷ ps) =
    let (q, ms, ds) = produce_miners r p p.miners in
    let (qs, ds') = produce_players r ps in ((id, record q { miners = ms }) ∷ qs, ds ++ ds')

unfoldable pub produce_miner_mana : Room → Room
unfolding produce_players
produce_miner_mana r =
    let (ps, ds) = produce_players r r.players in record r { players = ps; deltas = r.deltas ++ ds }
