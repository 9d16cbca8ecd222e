-- ===== src/Battle/Tick/Base.antt =====
-- The monsters' walk and the hit points of the base, in `advanceMonsters` of
-- src/service/battle/sync/room.go.
use heli.Common.{
  ℕ, ◌+◌, ◌-◌, ◌*◌, ◌^◌, ◌<◌, ℤ, pos, ◌<ℤ◌, leb_ℤ, Bool, ◌&&◌, [], ◌∷◌, ◌≡◌, refl, ◌∙◌, ap, inl,
  inr, arith, go_laws, add64, sub64_id, ◌-ℤ◌, if◌then◌else◌, Bool-cases, All,
}
use heli.Common.Table.{Table}
use heli.Battle.Types.{Room, MonsterState, MonsterStatus}
use heli.Battle.Tick.{hit_base, is_alive, advance_monster, advance_all, advance_monsters}

-- The monster reaches the end of its path in this tick.
abbrev pub arrives : MonsterState → Bool
arrives m = is_alive m.status && leb_ℤ m.path_length (add64 m.progress m.speed)

pub arrivals : Table ℤ MonsterState → ℕ
arrivals [] = 0
arrivals ((id, m) ∷ ms) = if arrives m then arrivals ms + 1 else arrivals ms

module _ (r : Room) (damage : ℕ) (each : r.cfg.monster_damage ≡ pos damage)
    (small : damage < 2 ^ 63) where
  hit_base_lem : (hp : ℕ) → hp < 2 ^ 63 → hit_base r (pos hp) ≡ pos (hp - damage)
  unfolding hit_base
  hit_base_lem hp h =
      rw (each, sub64_id (pos hp) (pos damage) (omega go_laws)) (unfold ◌-ℤ◌ in (ground arith))

  advance_monster_hp :
      (hp : ℕ) (m : MonsterState)
      → hp < 2 ^ 63
      → (advance_monster r (pos hp) m).1 ≡ pos (if arrives m then hp - damage else hp)
  unfolding advance_monster
  advance_monster_hp hp m h = ground (arith, hit_base_lem hp h)

  advance_all_hp :
      (hp : ℕ) (ms : Table ℤ MonsterState)
      → hp < 2 ^ 63
      → (advance_all r (pos hp) ms).1 ≡ pos (hp - damage * arrivals ms)
  unfolding advance_all arrivals
  advance_all_hp hp [] h = ap pos (omega arith)
  advance_all_hp hp ((id, m) ∷ ms) h = elim (Bool-cases (arrives m)) [
    | inl there ↦
        let hit : (advance_monster r (pos hp) m).1 ≡ pos (hp - damage) =
          advance_monster_hp hp m h ∙ rw there in
        rw (hit, there) (advance_all_hp (hp - damage) ms (omega arith) ∙ ap pos (omega arith))
    | inr walking ↦
        let safe : (advance_monster r (pos hp) m).1 ≡ pos hp =
          advance_monster_hp hp m h ∙ rw walking in
        rw (safe, walking) (advance_all_hp hp ms h)
  ]

-- In one tick the base loses `MonsterDamage` for each monster that arrives, and stops at 0, in
-- whatever order the map of monsters is walked.
pub advance_monsters_base :
    (r : Room) (hp damage : ℕ)
    → r.base_hp ≡ pos hp
    → r.cfg.monster_damage ≡ pos damage
    → hp < 2 ^ 63
    → damage < 2 ^ 63
    → (advance_monsters r).base_hp ≡ pos (hp - damage * arrivals r.monsters)
unfolding advance_monsters
advance_monsters_base r hp damage e each h small =
    rw e (advance_all_hp r damage each small hp r.monsters h)

-- A monster under way is short of the end of its path, and one that has arrived stands at it.
pub record Walks (m : MonsterState) : Type 0 where
  pub under_way : m.status ≡ MonsterStatus.alive → m.progress <ℤ m.path_length
  pub at_end : m.status ≡ MonsterStatus.arrived → m.progress ≡ m.path_length

abbrev pub AllWalk : Table ℤ MonsterState → Type 0
AllWalk = All (λ e. Walks e.1)

advance_monster-Walks :
    (r : Room) (hp : ℤ) (m : MonsterState) → Walks m → Walks (advance_monster r hp m).0
unfolding advance_monster
advance_monster-Walks r hp m w = elim (Bool-cases (is_alive m.status)) [
  | inl going ↦ elim (Bool-cases (leb_ℤ m.path_length (add64 m.progress m.speed))) [
    | inl there ↦ rw (going, there) (record { under_way = λ e. ground arith; at_end = λ e. refl })
    | inr short ↦
        rw (going, short) (record { under_way = λ e. ground arith; at_end = λ e. ground arith })
  ]
  | inr over ↦ rw over w
]

advance_all-AllWalk :
    (r : Room) (hp : ℤ) (ms : Table ℤ MonsterState) → AllWalk ms → AllWalk (advance_all r hp ms).0
unfolding advance_all
advance_all-AllWalk r hp [] w = tt
advance_all-AllWalk r hp ((id, m) ∷ ms) w =
    (advance_monster-Walks r hp m w.0, advance_all-AllWalk r (advance_monster r hp m).1 ms w.1)

-- If every monster that is alive is short of the end of its path, and every one that has arrived
-- stands at its end, then the same holds after one tick's walk.
pub advance_monsters-AllWalk :
    (r : Room) → AllWalk r.monsters → AllWalk (advance_monsters r).monsters
unfolding advance_monsters
advance_monsters-AllWalk r w = advance_all-AllWalk r r.base_hp r.monsters w
