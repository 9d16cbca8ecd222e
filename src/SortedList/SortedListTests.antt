-- ===== src/SortedList/SortedListTests.antt =====
-- Runs of src/deps/basal/sortedlist.go on numbers that are their own score and key.
use heli.Common.{ℤ, pos, eqb_ℤ, ◌-ℤ◌, true, false, List, [], ◌∷◌, ◌≡◌, refl}
use heli.Common.Search.{search, bisect}
use heli.Common.Sort.{sort_by, place}
use heli.SortedList.{
  SortedList, new_sorted_list, add, add_found, insert_at, search_by_score, batch_add,
  remove_by_score,
}
use heli.SortedList.Places.{Ordered, Distinct, place_of, has_score}
use heli.SortedList.Order.{ListCall, adds, removes_by_score, call_all, Added, Removed, calls_sorted}

abbrev own : ℤ → ℤ
own n = n

abbrev rising : SortedList ℤ
rising = record { buf = pos 2 ∷ pos 5 ∷ pos 9 ∷ []; score_repeat = false; reverse = false }

placed : (add own (pos 6) rising).0.buf ≡ pos 2 ∷ pos 5 ∷ pos 6 ∷ pos 9 ∷ []
unfolding add add_found insert_at search_by_score search bisect eqb_ℤ
placed = refl

-- BatchAdd sorts a rising list downwards, and the bisection no longer finds what is there.
lost : (search_by_score own (pos 1) (batch_add own (pos 1 ∷ []) rising)).1 ≡ false
unfolding batch_add sort_by place search_by_score search bisect eqb_ℤ ◌-ℤ◌
lost = refl

abbrev calls : List (ListCall ℤ)
calls = adds (pos 5) ∷ adds (pos 2) ∷ adds (pos 5) ∷ removes_by_score (pos 2) ∷ []

calls_sorted_example :
    let l = call_all own own calls (new_sorted_list false true) in
    Ordered own true l.buf
    × (false ≡ false → Distinct own true l.buf)
    × ((score : ℤ)
        → search_by_score own score l
          ≡ (place_of own true score l.buf, has_score own true score l.buf))
    × ((v : ℤ) → Added own own false true v l (add own v l))
    × ((score : ℤ) → Removed own own false true score l (remove_by_score own score l))
calls_sorted_example = calls_sorted own own false true calls
