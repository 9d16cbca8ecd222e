-- ===== src/SortedList.antt =====
-- src/deps/basal/sortedlist.go: a list kept in the order of a score, which is searched by bisection. The functions
-- of the score and of the key are parameters; `capacity` and `reduceSpace`, which change no element, are left out.
pub mod Places
pub mod Kept
pub mod Order
mod SortedListTests
use heli.Common.{
  ◌||◌, ◌&&◌, not, ℕ, suc, zero, ◌-◌, ℤ, pos, negsuc, ltb, leb_ℤ, eqb_ℤ, Bool, true, false, List,
  [], ◌∷◌, ◌++◌, Option, none, some, if◌then◌else◌, length, get_elem?, ◌-ℤ◌,
}
use heli.Common.Search.{search}
use heli.Common.Sort.{sort_by}

pub record SortedList {ℓ} (A : Type ℓ) : Type ℓ where
  pub buf : List A
  pub score_repeat : Bool
  pub reverse : Bool

-- `append` and `copy` of Add, and `append(buf[:index], buf[index+1:]...)`.
unfoldable pub insert_at {ℓ} : {A : Type ℓ} → ℕ → A → List A → List A
insert_at zero v xs = v ∷ xs
insert_at (suc i) v [] = v ∷ []
insert_at (suc i) v (x ∷ xs) = x ∷ insert_at i v xs

unfoldable pub remove_at {ℓ} : {A : Type ℓ} → ℕ → List A → List A
remove_at i [] = []
remove_at zero (x ∷ xs) = xs
remove_at (suc i) (x ∷ xs) = x ∷ remove_at i xs

-- `b` may stand behind `a`.
abbrev pub in_order : Bool → ℤ → ℤ → Bool
in_order reverse a b = if reverse then leb_ℤ b a else leb_ℤ a b

-- An index from an int.
abbrev pub index_within : ℤ → ℕ → Option ℕ
index_within (pos i) n = if ltb i n then some i else none
index_within (negsuc i) n = none

module _ {ℓ} {A : Type ℓ} where
  unfoldable pub new_sorted_list : Bool → Bool → SortedList A
  new_sorted_list score_repeat reverse = record {
    buf = [];
    score_repeat = score_repeat;
    reverse = reverse;
  }

  unfoldable pub get : ℤ → SortedList A → Option A
  get index l = elim (index_within index (length l.buf)) [
    | none ↦ none
    | some i ↦ get_elem? l.buf i
  ]

  unfoldable pub front : SortedList A → Option A
  front l = get_elem? l.buf 0

  unfoldable pub back : SortedList A → Option A
  back l = if ltb 0 (length l.buf) then get_elem? l.buf (length l.buf - 1) else none

  unfoldable pub pop_front : SortedList A → SortedList A × Option A
  unfolding front remove_at
  pop_front l =
      if ltb 0 (length l.buf) then (record l { buf = remove_at 0 l.buf }, front l) else (l, none)

  unfoldable pub pop_back : SortedList A → SortedList A × Option A
  unfolding back remove_at
  pop_back l =
      if ltb 0 (length l.buf)
      then (record l { buf = remove_at (length l.buf - 1) l.buf }, back l)
      else (l, none)

  unfoldable pub remove_by_index : ℤ → SortedList A → SortedList A × Bool
  unfolding remove_at
  remove_by_index index l = elim (index_within index (length l.buf)) [
    | none ↦ (l, false)
    | some i ↦ (record l { buf = remove_at i l.buf }, true)
  ]

  unfoldable pub clear : SortedList A → SortedList A
  clear l = record l { buf = [] }

  -- Where `SearchByKey` finds the key.
  unfoldable pub search_key : (A → ℤ) → ℤ → List A → Option ℕ
  search_key get_key key [] = none
  search_key get_key key (v ∷ vs) =
      let rest = search_key get_key key vs in
      if eqb_ℤ (get_key v) key then some 0 else elim rest [ none ↦ none | some i ↦ some (suc i) ]

  unfoldable pub remove_by_key : (A → ℤ) → ℤ → SortedList A → SortedList A × Bool
  unfolding search_key remove_at
  remove_by_key get_key key l = elim (search_key get_key key l.buf) [
    | none ↦ (l, false)
    | some i ↦ (record l { buf = remove_at i l.buf }, true)
  ]

  unfoldable pub batch_remove_by_keys : (A → ℤ) → List ℤ → SortedList A → SortedList A
  unfolding remove_by_key
  batch_remove_by_keys get_key [] l = l
  batch_remove_by_keys get_key (key ∷ keys) l =
      batch_remove_by_keys get_key keys (remove_by_key get_key key l).0

  -- `Add` behind its search.
  unfoldable pub add_found : A → ℕ × Bool → SortedList A → SortedList A × Bool
  unfolding insert_at
  add_found v (index, found) l =
      if found && not l.score_repeat
      then (l, false)
      else (record l { buf = insert_at index v l.buf }, true)

  module _ (get_score : A → ℤ) where
    -- `my.getScore(my.buf[i])`, for an index of the list.
    abbrev pub score_at : List A → ℕ → ℤ
    score_at vs i = elim (get_elem? vs i) [ none ↦ pos 0 | some v ↦ get_score v ]

    abbrev pub reaches : Bool → ℤ → List A → ℕ → Bool
    reaches reverse score vs i = in_order reverse score (score_at vs i)

    unfoldable pub search_by_score : ℤ → SortedList A → ℕ × Bool
    unfolding search
    search_by_score score l =
        let n = length l.buf in
        let index = search n (reaches l.reverse score l.buf) in
        if ltb 0 n then (index, ltb index n && eqb_ℤ (score_at l.buf index) score) else (0, false)

    unfoldable pub add : A → SortedList A → SortedList A × Bool
    unfolding search_by_score add_found
    add v l = add_found v (search_by_score (get_score v) l) l

    unfoldable pub remove_by_score : ℤ → SortedList A → SortedList A × Bool
    unfolding search_by_score remove_at
    remove_by_score score l =
        let (index, found) = search_by_score score l in
        if found then (record l { buf = remove_at index l.buf }, true) else (l, false)

    -- `sort.Slice` from the greatest score to the least.
    abbrev pub sort_down : List A → List A
    sort_down vs = sort_by (λ v. pos 0 -ℤ get_score v) vs

    unfoldable pub batch_add : List A → SortedList A → SortedList A
    unfolding sort_by
    batch_add values l = record l { buf = sort_down (l.buf ++ sort_down values) }
