-- ===== src/Gate/User/Window.antt =====
-- src/service/gate/gateuser/gate_user.go: the ring of request times against the times of all accepted
-- requests. Lists of times here start with the newest.
use heli.Common.{
  ℕ, zero, suc, ◌+◌, ◌%◌, ◌≤◌, ◌<◌, List, [], ◌∷◌, ◌++◌, true, false, ◌≡◌, ◌≢◌, refl, sym, ap, ◌∙◌,
  inl, inr, arith, ltb, Bool-cases, length, get_or, set, get_or-set_self, get_or-set_ne,
  if◌then◌else◌, subst,
}
use heli.Gate.User.Limit.{drop_old, burst_count}

-- Each time is at most the one before it in the list, and the first at most `last`.
abbrev pub Falling : ℕ → List ℕ → Type 0
Falling last [] = Unit
Falling last (t ∷ ts) = (t ≤ last) × Falling t ts

-- The times less than five seconds back.
abbrev pub keep : ℕ → List ℕ → List ℕ
keep now [] = []
keep now (t ∷ ts) = if ltb now (t + 5000) then t ∷ keep now ts else keep now ts

-- How many times lie less than `w` milliseconds back.
abbrev pub recent_count : ℕ → ℕ → List ℕ → ℕ
recent_count w now [] = 0
recent_count w now (t ∷ ts) =
    if ltb now (t + w) then suc (recent_count w now ts) else recent_count w now ts

-- What the ring holds.
abbrev pub newest : List ℕ → ℕ → ℕ → List ℕ
newest times h zero = []
newest times h (suc n) = get_or times ((h + n) % 15) 0 ∷ newest times h n

pub length-newest : (times : List ℕ) (h n : ℕ) → length (newest times h n) ≡ n
length-newest times h zero = refl
length-newest times h (suc n) = ap suc (length-newest times h n)

-- The oldest stands at the head of the ring.
newest-snoc :
    (times : List ℕ) (h n : ℕ)
    → h < 15
    → newest times h (suc n) ≡ newest times ((h + 1) % 15) n ++ (get_or times h 0 ∷ [])
newest-snoc times h zero small =
    let e : (h + 0) % 15 ≡ h = omega arith in ap (λ (i : ℕ). get_or times i 0 ∷ []) e
newest-snoc times h (suc n) small =
    let e : (h + suc n) % 15 ≡ ((h + 1) % 15 + n) % 15 = omega arith in
    ap (λ (i : ℕ). get_or times i 0 ∷ newest times h (suc n)) e
    ∙ ap (◌∷◌ (get_or times (((h + 1) % 15 + n) % 15) 0)) (newest-snoc times h n small)

newest-set :
    (times : List ℕ) (h m n now : ℕ)
    → h < 15
    → n ≤ m
    → m < 15
    → newest (set times ((h + m) % 15) now) h n ≡ newest times h n
newest-set times h m zero now small le room = refl
newest-set times h m (suc n) now small le room =
    let apart : (h + m) % 15 ≢ (h + n) % 15 = λ e. absurd (omega arith) in
    rw (get_or-set_ne times ((h + m) % 15) ((h + n) % 15) now 0 apart) (
      ap (◌∷◌ (get_or times ((h + n) % 15) 0))
        (newest-set times h m n now small (omega arith) room))

-- A write behind the newest adds it.
pub newest-push :
    (times : List ℕ) (h n now : ℕ)
    → length times ≡ 15
    → h < 15
    → n < 15
    → newest (set times ((h + n) % 15) now) h (suc n) ≡ now ∷ newest times h n
newest-push times h n now size small room = rw (
  get_or-set_self times ((h + n) % 15) now 0 (omega arith),
  newest-set times h n n now small (omega arith) room,
)

Falling-front : (last t : ℕ) (xs : List ℕ) → Falling last (xs ++ (t ∷ [])) → Falling last xs
Falling-front last t [] f = tt
Falling-front last t (x ∷ xs) f = (f.0, Falling-front x t xs f.1)

Falling-last : (last t : ℕ) (xs : List ℕ) → Falling last (xs ++ (t ∷ [])) → t ≤ last
Falling-last last t [] f = f.0
Falling-last last t (x ∷ xs) f = omega (arith, Falling-last x t xs f.1)

pub Falling-mono : (last now : ℕ) (xs : List ℕ) → last ≤ now → Falling last xs → Falling now xs
Falling-mono last now [] le f = tt
Falling-mono last now (x ∷ xs) le f = (omega arith, f.1)

-- If the oldest is kept, all are.
keep_all :
    (now last t : ℕ) (xs : List ℕ)
    → Falling last (xs ++ (t ∷ []))
    → ltb now (t + 5000) ≡ true
    → keep now (xs ++ (t ∷ [])) ≡ xs ++ (t ∷ [])
keep_all now last t [] f h = rw h
keep_all now last t (x ∷ xs) f h =
    let le = Falling-last x t xs f.1 in
    let here : ltb now (x + 5000) ≡ true = ground arith in
    rw here (ap (◌∷◌ x) (keep_all now x t xs f.1 h))

keep_front :
    (now t : ℕ) (xs : List ℕ) → ltb now (t + 5000) ≡ false → keep now (xs ++ (t ∷ [])) ≡ keep now xs
keep_front now t [] h = rw h
keep_front now t (x ∷ xs) h = ground (arith, keep_front now t xs h)

-- What is left of the ring is what lies within the window.
pub drop_old_lem :
    (now last : ℕ) (times : List ℕ) (h n : ℕ)
    → h < 15
    → Falling last (newest times h n)
    → (newest times (drop_old now times h n).0 (drop_old now times h n).1
        ≡ keep now (newest times h n))
      × ((drop_old now times h n).0 < 15)
      × ((drop_old now times h n).1 ≤ n)
unfolding drop_old
drop_old_lem now last times h zero small f = (refl, small, omega arith)
drop_old_lem now last times h (suc n) small f =
    let front = newest times ((h + 1) % 15) n in
    let old = get_or times h 0 in
    let split : newest times h (suc n) ≡ front ++ (old ∷ []) = newest-snoc times h n small in
    let f' : Falling last (front ++ (old ∷ [])) =
      subst (λ (xs : List ℕ). Falling last xs) split f in
    elim (Bool-cases (ltb now (old + 5000))) [
      | inl kept ↦ rw kept (
        split ∙ sym (keep_all now last old front f' kept) ∙ ap (keep now) (sym split),
        small,
        omega arith,
      )
      | inr gone ↦
          let (same, in_range, fewer) =
            drop_old_lem now last times ((h + 1) % 15) n (omega arith)
              (Falling-front last old front f') in
          rw gone (
            same ∙ sym (keep_front now old front gone) ∙ ap (keep now) (sym split),
            in_range,
            omega arith,
          )
    ]

recent_count_none :
    (w now last : ℕ) (xs : List ℕ)
    → Falling last xs
    → ltb now (last + w) ≡ false
    → recent_count w now xs ≡ 0
recent_count_none w now last [] f h = refl
recent_count_none w now last (x ∷ xs) f h =
    let here : ltb now (x + w) ≡ false = ground arith in
    rw here (recent_count_none w now x xs f.1 here)

-- The loop stops at the first that is not recent: those behind it are older.
pub burst_count_lem :
    (now last : ℕ) (times : List ℕ) (h n count : ℕ)
    → Falling last (newest times h n)
    → burst_count now times h n count ≡ count + recent_count 1000 now (newest times h n)
unfolding burst_count
burst_count_lem now last times h zero count f = omega arith
burst_count_lem now last times h (suc n) count f =
    let e : (h + n + 15) % 15 ≡ (h + n) % 15 = omega arith in
    let t = get_or times ((h + n) % 15) 0 in
    rw e (elim (Bool-cases (ltb now (t + 1000))) [
      | inl recent ↦ rw recent (burst_count_lem now t times h n (count + 1) f.1 ∙ omega arith)
      | inr old ↦
          rw old (rw (recent_count_none 1000 now t (newest times h n) f.1 old) (omega arith))
    ])

pub length-keep : (now : ℕ) (xs : List ℕ) → length (keep now xs) ≡ recent_count 5000 now xs
length-keep now [] = refl
length-keep now (x ∷ xs) = ground (arith, length-keep now xs)

pub recent_count-keep :
    (w now : ℕ) (xs : List ℕ) → w ≤ 5000 → recent_count w now (keep now xs) ≡ recent_count w now xs
recent_count-keep w now [] le = refl
recent_count-keep w now (x ∷ xs) le = ground (arith, recent_count-keep w now xs le)

pub keep-keep : (now last : ℕ) (xs : List ℕ) → last ≤ now → keep now (keep last xs) ≡ keep now xs
keep-keep now last [] le = refl
keep-keep now last (x ∷ xs) le = ground (arith, keep-keep now last xs le)

pub keep-Falling : (now last : ℕ) (xs : List ℕ) → Falling last xs → Falling last (keep now xs)
keep-Falling now last [] f = tt
keep-Falling now last (x ∷ xs) f = elim (Bool-cases (ltb now (x + 5000))) [
  | inl kept ↦ rw kept (f.0, keep-Falling now x xs f.1)
  | inr gone ↦ rw gone (keep-Falling now last xs (Falling-mono x last xs f.0 f.1))
]
