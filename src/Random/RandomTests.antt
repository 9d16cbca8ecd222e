-- ===== src/Random/RandomTests.antt =====
-- Three entries, a source that counts, and the theorems there.
use mathlib.Core.List.{Perm}
use native.Mathlib.Nat.{mod-lt}
use heli.Common.{
  ℕ, suc, ◌+◌, ◌%◌, ◌≤◌, ◌<◌, ℤ, pos, negsuc, ◌<ℤ◌, ◌≤ℤ◌, eqb_ℤ, add32, wrap32, ◌+ℤ◌, ◌-ℤ◌, int_eq,
  List, [], ◌∷◌, ◌++◌, Bool, false, some, ◌≡◌, ◌↔◌, refl, arith, length, All,
}
use heli.Random.Weights.{TWeight, merge, Source, new_x_weight, pick_static}
use heli.Random.Select.{TWeightSelector, built, new_weight_selector, random_weight_n}
use heli.Random.Pick.{Fits, pick_share}
use heli.Random.Draw.{items}
use heli.Random.Exhaust.{count_drawn, draws_without_replacement}
use heli.Random.Filter.{rand_weight_n_by_filter}
use heli.Random.Passes.{rand_weight_n_by_filter_passes}

abbrev counting_n : ℤ → ℕ → ℤ × ℕ
counting_n (pos k) s = (pos (s % k), suc s)
counting_n (negsuc k) s = (pos 0, s)

counting_range :
    (n : ℤ) (s : ℕ) → pos 0 <ℤ n → (pos 0 ≤ℤ (counting_n n s).0) × ((counting_n n s).0 <ℤ n)
counting_range (pos k) s p = (omega arith, omega (arith, mod-lt s {m = k} (omega arith)))
counting_range (negsuc k) s p = absurd (omega arith)

abbrev counting : Source ℕ
counting = record { int32_n = counting_n; int32_n_range = counting_range }

abbrev chests : List (TWeight ℤ)
chests =
    record { weight = pos 5; item = pos 101 }
    ∷ record { weight = pos 3; item = pos 102 }
    ∷ record { weight = pos 2; item = pos 103 }
    ∷ []

chests-Fits : Fits chests
chests-Fits = record { positive = omega arith; small = omega arith }

-- 5, 6 and 7 pick the second.
pick_share_example :
    (pick_static (new_x_weight chests) (pos 7) ≡ some (pos 102, 1)) ↔ ((5 ≤ 7) × (7 < 5 + 3))
pick_share_example =
    pick_share chests chests-Fits 7 1 (record { weight = pos 3; item = pos 102 }) (omega arith) refl

abbrev chest_selector : TWeightSelector ℤ
chest_selector = record { kind = merge; static = new_x_weight chests }

chests_built : new_weight_selector chests merge ≡ built chest_selector
unfolding new_weight_selector
chests_built = refl

two_drawn :
    random_weight_n counting chest_selector (pos 2) false 6 ≡ some ((pos 102 ∷ pos 101 ∷ []), 8)
unfolding random_weight_n new_x_weight eqb_ℤ add32 wrap32 ◌+ℤ◌ ◌-ℤ◌
two_drawn = refl

draws_without_replacement_example :
    (out : List ℤ × ℕ) × (random_weight_n counting chest_selector (pos 2) false 6 ≡ some out)
    × (length out.0 ≡ count_drawn 2 (length chests))
    × (left : List ℤ) × Perm (out.0 ++ left) (items chests)
draws_without_replacement_example =
    draws_without_replacement counting chests chest_selector 2 6 chests_built (omega arith)
      (omega arith)

abbrev is_known : ℤ → Bool
is_known a = eqb_ℤ a (pos 102)

rand_weight_n_by_filter_passes_example :
    (out : List ℤ × ℕ) × (rand_weight_n_by_filter counting chest_selector 2 false (pos 1) is_known 6
      ≡ some out)
    × All (λ a. is_known a ≡ false) out.0
rand_weight_n_by_filter_passes_example =
    rand_weight_n_by_filter_passes counting is_known chest_selector 2 false (pos 1) 6 (omega arith)
      (omega arith) (λ e. cc)
