-- ===== src/Battle/Tick/Miners.antt =====
-- The production of a miner in src/service/battle/sync/room.go in closed form.
use heli.Common.{
  ℕ, zero, suc, ◌+◌, ◌-◌, ◌*◌, ◌/◌, ◌^◌, ◌≤◌, ◌<◌, pos, leb, ◌≡◌, sym, ◌∙◌, ap, inl, inr, true,
  false, arith, go_laws, int_laws, length, add64, Bool-cases, if◌then◌else◌, List, ◌∷◌, leb_ℤ, [],
}
use native.Mathlib.Nat.{div-eq-sub-div, div-eq_of_lt, lt-div-mul-add}
use heli.Battle.Types.{Room, PlayerState, MinerState, Delta}
use heli.Battle.Commands.{produce_interval}
use heli.Battle.Production.{produced_delta, produce_rounds, rounds_fuel}

-- The rounds due at tick `now` for a miner whose next production is at `next`.
abbrev pub rounds_due : ℕ → ℕ → ℕ → ℕ
rounds_due next now interval = if leb next now then (now - next) / interval + 1 else 0

sub_again : (a b c : ℕ) → b - a - c ≡ b - (a + c)
sub_again a b c = omega arith

rounds_due_step :
    (next now interval : ℕ)
    → 0 < interval
    → next ≤ now
    → rounds_due next now interval ≡ suc (rounds_due (next + interval) now interval)
rounds_due_step next now interval h k = elim (Bool-cases (leb (next + interval) now)) [
  | inl more ↦ ground (
    arith,
    div-eq-sub-div {m = interval} {n = now - next} h (ground arith),
    ap (λ (t : ℕ). t / interval) (sub_again next now interval),
  )
  | inr last ↦ ground (arith, div-eq_of_lt {n = now - next} {m = interval} (ground arith))
]

rounds_due_past :
    (next now interval : ℕ) → 0 < interval → now < next + rounds_due next now interval * interval
rounds_due_past next now interval h = elim (Bool-cases (leb next now)) [
  | inl due ↦
      let soon : next ≤ now = ground arith in
      rw due (omega (arith, lt-div-mul-add {a = now - next} {b = interval} h))
  | inr early ↦ let later : now < next = ground arith in rw early (omega arith)
]

module _ (r : Room) (now interval gain : ℕ) (at : r.server_tick ≡ pos now)
    (every : produce_interval r ≡ pos interval) (each : r.cfg.miner_produce_mana ≡ pos gain)
    (moves : 0 < interval) (late : now + interval < 2 ^ 63) where
  abbrev one_round : PlayerState → PlayerState
  one_round p = record p { mana = add64 p.mana r.cfg.miner_produce_mana }

  abbrev one_interval : MinerState → MinerState
  one_interval m = record m { next_produce_tick = add64 m.next_produce_tick (produce_interval r) }

  round_due :
      (fuel : ℕ) (p : PlayerState) (m : MinerState)
      → leb_ℤ m.next_produce_tick r.server_tick ≡ true
      → let (q, n, ds) = produce_rounds fuel r (one_round p) (one_interval m) in
        produce_rounds (suc fuel) r p m
        ≡ (q, n, produced_delta r (one_round p) (one_interval m) ∷ ds)
  unfolding produce_rounds
  round_due fuel p m due = rw (due, produce_rounds)

  round_early :
      (fuel : ℕ) (p : PlayerState) (m : MinerState)
      → leb_ℤ m.next_produce_tick r.server_tick ≡ false
      → produce_rounds (suc fuel) r p m ≡ (p, m, [])
  unfolding produce_rounds
  round_early fuel p m early = rw (early, produce_rounds)

  abbrev Produced :
      ℕ → ℕ → PlayerState → MinerState → PlayerState × MinerState × List Delta → Type 0
  Produced next mana p m (q, n, ds) =
      let k = rounds_due next now interval in
      (q ≡ record p { mana = pos (mana + k * gain) })
      × (n ≡ record m { next_produce_tick = pos (next + k * interval) })
      × (length ds ≡ k)

  -- Nothing is due, and the loop stops.
  Produced-none :
      (next mana : ℕ) (p : PlayerState) (m : MinerState)
      → p.mana ≡ pos mana
      → m.next_produce_tick ≡ pos next
      → rounds_due next now interval ≡ 0
      → Produced next mana p m (p, m, [])
  Produced-none next mana p m hp hm none_due =
      let hp' : p.mana ≡ pos (mana + rounds_due next now interval * gain) =
        rw none_due (ground arith) in
      let hm' : m.next_produce_tick ≡ pos (next + rounds_due next now interval * interval) =
        rw none_due (ground arith) in
      (ground arith, ground arith, sym none_due)

  -- Enough fuel, and mana that stays an int64: the miner has exactly the rounds that are due.
  produce_rounds_lem :
      (fuel next mana : ℕ) (p : PlayerState) (m : MinerState)
      → p.mana ≡ pos mana
      → m.next_produce_tick ≡ pos next
      → now < next + fuel
      → mana + rounds_due next now interval * gain < 2 ^ 63
      → Produced next mana p m (produce_rounds fuel r p m)
  produce_rounds_lem zero next mana p m hp hm enough fits =
      unfold produce_rounds in (Produced-none next mana p m hp hm (ground arith))
  produce_rounds_lem (suc fuel) next mana p m hp hm enough fits = elim (Bool-cases (leb next now)) [
    | inr early ↦
        rw (round_early fuel p m (ground arith)) (Produced-none next mana p m hp hm (ground arith))
    | inl due ↦
        let soon : next ≤ now = ground arith in
        let step = rounds_due_step next now interval moves (ground arith) in
        let by_gain = ap (λ (t : ℕ). t * gain) step in
        let by_interval = ap (λ (t : ℕ). t * interval) step in
        let hp' : (one_round p).mana ≡ pos (mana + gain) = rw (hp, each) (omega go_laws) in
        let hm' : (one_interval m).next_produce_tick ≡ pos (next + interval) =
          rw (hm, every) (omega go_laws) in
        let ih =
          produce_rounds_lem fuel (next + interval) (mana + gain) (one_round p) (one_interval m) hp'
            hm' (omega arith) (omega arith) in
        rw (round_due fuel p m (ground arith)) (
          ih.0 ∙ ap (λ (t : ℕ). record p { mana = pos t }) (omega arith),
          ih.1 ∙ ap (λ (t : ℕ). record m { next_produce_tick = pos t }) (omega arith),
          ap suc ih.2 ∙ sym step,
        )
  ]

-- A miner that is due at tick `next` and looked at at tick `now` has one round of mana for each
-- interval that has passed, `(now - next) / interval + 1` of them, or none before `next`; it is then
-- due again after `now`, and there is one delta for each round. The loop ends with the fuel that
-- the model gives to it. The condition is that no tick and no sum of mana leaves int64.
pub produce_rounds_exact :
    (r : Room) (p : PlayerState) (m : MinerState) (now interval gain next mana : ℕ)
    → r.server_tick ≡ pos now
    → produce_interval r ≡ pos interval
    → r.cfg.miner_produce_mana ≡ pos gain
    → m.next_produce_tick ≡ pos next
    → p.mana ≡ pos mana
    → 0 < interval
    → now + interval < 2 ^ 63
    → mana + rounds_due next now interval * gain < 2 ^ 63
    → let (q, n, ds) = produce_rounds (rounds_fuel r m) r p m in
      let k = rounds_due next now interval in
      (q ≡ record p { mana = pos (mana + k * gain) })
      × (n ≡ record m { next_produce_tick = pos (next + k * interval) })
      × (length ds ≡ k)
      × (now < next + k * interval)
unfolding rounds_fuel
produce_rounds_exact r p m now interval gain next mana at every each hm hp moves late fits =
    let enough : now < next + rounds_fuel r m = rw (at, hm) (omega int_laws) in
    let (q, n, l) =
      produce_rounds_lem r now interval gain at every each moves late (rounds_fuel r m) next mana p
        m hp hm enough fits in
    (q, n, l, rounds_due_past next now interval moves)
