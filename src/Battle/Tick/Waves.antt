-- ===== src/Battle/Tick/Waves.antt =====
-- How many monsters `spawnWaveMonsters` of src/service/battle/sync/room.go has brought out by a tick.
use Prim.Native.Nat.{min, max}
use native.Mathlib.Nat.{le-div_iff_mul-le}
use heli.Common.{
  ℕ, zero, suc, ◌+◌, ◌-◌, ◌*◌, ◌/◌, ◌^◌, ◌≤◌, ◌<◌, ℤ, pos, leb, ltb, leb_ℤ, ltb_ℤ, ◌&&◌, ◌||◌, true,
  false, ◌≡◌, refl, ◌∙◌, ap, inl, inr, arith, int_laws, add64_pos, add32, add32_pos, mul64_pos,
  Bool, length, length-append, Bool-cases, if◌then◌else◌,
}
use heli.Battle.Types.{Room, MonsterWaveState, MonsterWaveConfig}
use heli.Battle.Spawning.{spawn_rounds, spawn_wave, spawn_fuel, spawn_monster, next_spawn_tick}

-- The spawns that the timetable of a wave puts at or before a tick.
abbrev pub spawns_due : ℕ → ℕ → ℕ → ℕ
spawns_due start now gap = if leb start now then (now - start) / gap + 1 else 0

spawns_due_iff :
    (start now gap k : ℕ) → 0 < gap → leb (start + k * gap) now ≡ ltb k (spawns_due start now gap)
spawns_due_iff start now gap k h = elim (Bool-cases (leb start now)) [
  | inl begun ↦ ground (arith, le-div_iff_mul-le {k = gap} {x = k} {y = now - start} h)
  | inr early ↦ ground arith
]

spawn_monster_clock :
    (w : MonsterWaveState) (r : Room) → (spawn_monster w r).server_tick ≡ r.server_tick
unfolding spawn_monster
spawn_monster_clock w r = refl

spawn_monster_deltas :
    (w : MonsterWaveState) (r : Room) → length (spawn_monster w r).deltas ≡ length r.deltas + 1
unfolding spawn_monster
spawn_monster_deltas w r = length-append {0} r.deltas _

-- The count when the loop stops, and when it goes on.
count_still :
    (k count due : ℕ) → (ltb k count && ltb k due) ≡ false → k ≤ count → k ≡ max k (min count due)
count_still k count due h le = ground arith

count_onward :
    (k count due : ℕ)
    → (ltb k count && ltb k due) ≡ true
    → max (k + 1) (min count due) ≡ max k (min count due)
count_onward k count due h = ground arith

count_below : (k count due : ℕ) → (ltb k count && ltb k due) ≡ true → k < count
count_below k count due h = ground arith

-- The loop's own test, at a wave with `k` monsters out.
abbrev spawn_test : MonsterWaveState → Room → Bool
spawn_test w r =
    ltb_ℤ w.spawned_count w.config.monster_count && leb_ℤ (next_spawn_tick w) r.server_tick

spawn_stops :
    (fuel : ℕ) (w : MonsterWaveState) (r : Room)
    → spawn_test w r ≡ false
    → spawn_rounds (suc fuel) w r ≡ (w, r)
unfolding spawn_rounds
spawn_stops fuel w r e = rw (e, spawn_rounds)

spawn_goes_on :
    (fuel : ℕ) (w : MonsterWaveState) (r : Room)
    → spawn_test w r ≡ true
    → spawn_rounds (suc fuel) w r
      ≡ spawn_rounds fuel
          (record w { spawned_count = add32 w.spawned_count (pos 1) })
          (spawn_monster w r)
unfolding spawn_rounds
spawn_goes_on fuel w r e = rw (e, spawn_rounds)

module _ (cfg : MonsterWaveConfig) (start gap count now : ℕ) (at : cfg.start_tick ≡ pos start)
    (every : cfg.spawn_gap_tick ≡ pos gap) (many : cfg.monster_count ≡ pos count) (moves : 0 < gap)
    (int32 : count < 2 ^ 31) (fits : start + count * gap < 2 ^ 63) where
  next_spawn_lem :
      (k : ℕ) (w : MonsterWaveState)
      → w.config ≡ cfg
      → w.spawned_count ≡ pos k
      → k < count
      → next_spawn_tick w ≡ pos (start + k * gap)
  unfolding next_spawn_tick
  next_spawn_lem k w hw hk h =
      let below : k * gap ≤ count * gap = grind arith in
      rw (hw, hk, at, every, mul64_pos k gap (omega arith))
        (add64_pos start (k * gap) (omega arith))

  spawn_test_lem :
      (k : ℕ) (w : MonsterWaveState) (r : Room)
      → w.config ≡ cfg
      → w.spawned_count ≡ pos k
      → r.server_tick ≡ pos now
      → spawn_test w r ≡ (ltb k count && ltb k (spawns_due start now gap))
  spawn_test_lem k w r hw hk ht = elim (Bool-cases (ltb k count)) [
    | inl more ↦
        rw (next_spawn_lem k w hw hk (ground arith), hw, hk, many, ht)
          (ground (arith, spawns_due_iff start now gap k moves))
    | inr all ↦ rw (hw, hk, many) (ground arith)
  ]

  abbrev Spawned : ℕ → MonsterWaveState → Room → MonsterWaveState × Room → Type 0
  Spawned k w r (w', r') =
      let k' = max k (min count (spawns_due start now gap)) in
      (w' ≡ record w { spawned_count = pos k' }) × (length r'.deltas + k ≡ length r.deltas + k')

  Spawned-none :
      (k : ℕ) (w : MonsterWaveState) (r : Room)
      → w.spawned_count ≡ pos k
      → k ≡ max k (min count (spawns_due start now gap))
      → Spawned k w r (w, r)
  Spawned-none k w r hk e = (
    ap (λ (z : ℤ). record w { spawned_count = z }) (hk ∙ ap pos e),
    ap (λ (t : ℕ). length r.deltas + t) e,
  )

  spawn_rounds_count :
      (fuel k : ℕ) (w : MonsterWaveState) (r : Room)
      → w.config ≡ cfg
      → w.spawned_count ≡ pos k
      → r.server_tick ≡ pos now
      → k ≤ count
      → count ≤ k + fuel
      → Spawned k w r (spawn_rounds fuel w r)
  spawn_rounds_count zero k w r hw hk ht le enough =
      unfold spawn_rounds in (Spawned-none k w r hk (omega arith))
  spawn_rounds_count (suc fuel) k w r hw hk ht le enough =
      let due : ℕ = spawns_due start now gap in
      elim (Bool-cases (ltb k count && ltb k due)) [
        | inr stop ↦
            rw (spawn_stops fuel w r (spawn_test_lem k w r hw hk ht ∙ stop))
              (Spawned-none k w r hk (count_still k count due stop le))
        | inl go ↦
            let w₁ : MonsterWaveState = record w {
              spawned_count = add32 w.spawned_count (pos 1);
            } in
            let less = count_below k count due go in
            let hk₁ : w₁.spawned_count ≡ pos (k + 1) = rw hk (add32_pos k 1 (omega arith)) in
            let onward = count_onward k count due go in
            let ih =
              spawn_rounds_count fuel (k + 1) w₁ (spawn_monster w r) hw hk₁
                (spawn_monster_clock w r ∙ ht) (omega arith) (omega arith) in
            rw (spawn_goes_on fuel w r (spawn_test_lem k w r hw hk ht ∙ go)) (
              ih.0 ∙ ap (λ (t : ℕ). record w { spawned_count = pos t }) onward,
              omega (arith, ih.1, spawn_monster_deltas w r, onward),
            )
      ]

  spawn_wave_lem :
      (k : ℕ) (w : MonsterWaveState) (r : Room)
      → w.config ≡ cfg
      → w.finished ≡ false
      → w.spawned_count ≡ pos k
      → r.server_tick ≡ pos now
      → k ≤ count
      → Spawned k w r (spawn_wave w r)
  unfolding spawn_wave spawn_fuel
  spawn_wave_lem k w r hw hf hk ht le = elim (Bool-cases (ltb now start)) [
    | inl early ↦
        let skip : (w.finished || ltb_ℤ r.server_tick w.config.start_tick) ≡ true =
          rw (hf, hw, at, ht) (ground arith) in
        rw skip (Spawned-none k w r hk (ground arith))
    | inr begun ↦
        let look : (w.finished || ltb_ℤ r.server_tick w.config.start_tick) ≡ false =
          rw (hf, hw, at, ht) (ground arith) in
        rw look
          (spawn_rounds_count (spawn_fuel w) k w r hw hk ht le (rw (hw, hk, many) (omega int_laws)))
  ]

-- An unfinished wave with `k` monsters out has, after `spawnWaveMonsters` looked at it, all that its
-- timetable puts at or before this tick, `(now - start) / gap + 1` from `start` on, but never more
-- than the wave holds and never fewer than before; and each one spawned left one delta. The
-- numbers must fit: the count in int32, the last tick of the timetable in int64.
pub spawn_wave_timetable :
    (w : MonsterWaveState) (r : Room) (start gap count now k : ℕ)
    → w.config.start_tick ≡ pos start
    → w.config.spawn_gap_tick ≡ pos gap
    → w.config.monster_count ≡ pos count
    → w.spawned_count ≡ pos k
    → r.server_tick ≡ pos now
    → w.finished ≡ false
    → 0 < gap
    → k ≤ count
    → count < 2 ^ 31
    → start + count * gap < 2 ^ 63
    → let (w', r') = spawn_wave w r in
      let k' = max k (min count (spawns_due start now gap)) in
      (w' ≡ record w { spawned_count = pos k' }) × (length r'.deltas + k ≡ length r.deltas + k')
spawn_wave_timetable w r start gap count now k at every many hk ht hf moves le int32 fits =
    spawn_wave_lem w.config start gap count now at every many moves int32 fits k w r refl hf hk ht
      le
