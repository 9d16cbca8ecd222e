-- ===== src/Gate/User/Requests.antt =====
-- src/service/gate/gateuser/gate_user.go: runs of requests at the limiter.
use heli.Common.{
  ℕ, suc, ◌+◌, ◌%◌, ◌≤◌, ◌<◌, ℤ, List, [], ◌∷◌, Bool, true, false, ◌&&◌, ◌≡◌, refl, sym, ap, ◌∙◌,
  subst, inl, inr, arith, ltb, leb, Bool-cases, length, set, length-set, if◌then◌else◌,
}
use heli.Gate.User.{GateUser, new_gate_user}
use heli.Gate.User.Limit.{burst_count, admit, try_accept_client_request}
use heli.Gate.User.Window.{
  Falling, keep, recent_count, newest, length-newest, newest-push, Falling-mono, drop_old_lem,
  burst_count_lem, length-keep, recent_count-keep, keep-keep, keep-Falling,
}

-- Fewer than 15 lie within five seconds, and fewer than 8 within one.
abbrev pub window_admits : ℕ → List ℕ → Bool
window_admits now hist = ltb (recent_count 5000 now hist) 15 && ltb (recent_count 1000 now hist) 8

abbrev noted : Bool → ℕ → List ℕ → List ℕ
noted true now hist = now ∷ hist
noted false now hist = hist

-- The ring holds those of the accepted times that lay within the window at the last request.
record Tracks {ℓ} {B : Type ℓ} (g : GateUser B) (hist : List ℕ) (last : ℕ) : Type 0 where
  head_in : g.client_req_head < 15
  count_in : g.client_req_count ≤ 15
  sized : length g.client_req_times ≡ 15
  holds : newest g.client_req_times g.client_req_head g.client_req_count ≡ keep last hist
  falling : Falling last hist

module _ {ℓ} {B : Type ℓ} where
  admit-Tracks :
      (now : ℕ) (g : GateUser B) (hist : List ℕ)
      → Tracks g hist now
      → ((admit now g).0 ≡ window_admits now hist)
        × Tracks (admit now g).1 (noted (admit now g).0 now hist) now
  unfolding admit
  admit-Tracks now g hist track =
      let times = g.client_req_times in
      let h = g.client_req_head in
      let n = g.client_req_count in
      let held : List ℕ = newest times h n in
      let in_window : n ≡ recent_count 5000 now hist =
        sym (length-newest times h n) ∙ ap length track.holds ∙ length-keep now hist in
      let falls : Falling now held =
        subst (λ (xs : List ℕ). Falling now xs) (sym track.holds)
          (keep-Falling now now hist track.falling) in
      let burst : burst_count now times h n 0 ≡ recent_count 1000 now hist =
        let counted = burst_count_lem now now times h n 0 falls in
        let of_held = ap (λ (xs : List ℕ). recent_count 1000 now xs) track.holds in
        let of_kept = recent_count-keep 1000 now hist (omega arith) in omega arith in
      elim (Bool-cases (leb 15 n)) [
        | inl full ↦ rw full (ground arith, track)
        | inr room ↦ elim (Bool-cases (leb 8 (burst_count now times h n 0))) [
          | inl fast ↦ rw (room, fast) (ground arith, track)
          | inr slow ↦
              let fits : n < 15 = ground arith in
              rw (room, slow)
                (
                  ground arith,
                  record {
                    head_in = track.head_in;
                    count_in = omega arith;
                    sized = length-set times ((h + n) % 15) now ∙ track.sized;
                    holds =
                        ap (newest (set times ((h + n) % 15) now) h) {y = suc n} (omega arith)
                        ∙ newest-push times h n now track.sized track.head_in fits
                        ∙ ap (◌∷◌ now) track.holds
                        ∙ kept_now now hist;
                    falling = (omega arith, track.falling);
                  },
                )
        ]
      ]
    where
      kept_now : (now : ℕ) (hist : List ℕ) → now ∷ keep now hist ≡ keep now (now ∷ hist)
      kept_now now hist = let e : ltb now (now + 5000) ≡ true = ground arith in rw e

  try_accept-Tracks :
      (last now : ℕ) (g : GateUser B) (hist : List ℕ)
      → Tracks g hist last
      → last ≤ now
      → ((try_accept_client_request now g).0 ≡ window_admits now hist)
        × Tracks
            (try_accept_client_request now g).1
            (noted (try_accept_client_request now g).0 now hist)
            now
  unfolding try_accept_client_request
  try_accept-Tracks last now g hist track le =
      let times = g.client_req_times in
      let falls : Falling last (newest times g.client_req_head g.client_req_count) =
        subst (λ (xs : List ℕ). Falling last xs) (sym track.holds)
          (keep-Falling last last hist track.falling) in
      let dropped =
        drop_old_lem now last times g.client_req_head g.client_req_count track.head_in falls in
      admit-Tracks now _ hist (record {
        head_in = dropped.1;
        count_in = let c = track.count_in in omega (arith, dropped.2);
        sized = track.sized;
        holds = dropped.0 ∙ ap (keep now) track.holds ∙ keep-keep now last hist le;
        falling = Falling-mono last now hist le track.falling;
      })

-- The readings of the clock do not fall.
abbrev pub Rising : ℕ → List ℕ → Type 0
Rising last [] = Unit
Rising last (t ∷ ts) = (last ≤ t) × Rising t ts

module _ {ℓ} {B : Type ℓ} where
  -- The answers to a row of requests.
  abbrev pub answers : GateUser B → List ℕ → List Bool
  answers g [] = []
  answers g (now ∷ nows) =
      let (accepted, g') = try_accept_client_request now g in accepted ∷ answers g' nows

  -- The times of the requests that are accepted, after those of `hist`.
  abbrev pub accepted_times : GateUser B → List ℕ → List ℕ → List ℕ
  accepted_times g hist [] = hist
  accepted_times g hist (now ∷ nows) =
      let (accepted, g') = try_accept_client_request now g in
      accepted_times g' (noted accepted now hist) nows

-- The answers of a limiter that remembers every request that it has accepted.
abbrev pub window_answers : List ℕ → List ℕ → List Bool
window_answers hist [] = []
window_answers hist (now ∷ nows) =
    window_admits now hist ∷ window_answers (noted (window_admits now hist) now hist) nows

-- How many of the times lie in the `w` milliseconds from `from` on.
abbrev pub within : ℕ → ℕ → List ℕ → ℕ
within w from [] = 0
within w from (t ∷ ts) =
    if leb from t && ltb t (from + w) then suc (within w from ts) else within w from ts

within-le :
    (w from now : ℕ) (hist : List ℕ) → now < from + w → within w from hist ≤ recent_count w now hist
within-le w from now [] h = omega arith
within-le w from now (t ∷ ts) h = ground (arith, within-le w from now ts h)

abbrev Bounded : List ℕ → Type 0
Bounded hist = (from : ℕ) → (within 5000 from hist ≤ 15) × (within 1000 from hist ≤ 8)

grow :
    (now : ℕ) (hist : List ℕ) (from : ℕ)
    → (within 5000 from hist ≤ 15) × (within 1000 from hist ≤ 8)
    → window_admits now hist ≡ true
    → (within 5000 from (now ∷ hist) ≤ 15) × (within 1000 from (now ∷ hist) ≤ 8)
grow now hist from b admitted =
    (ground (arith, within-le 5000 from now hist), ground (arith, within-le 1000 from now hist))

noted-Bounded :
    (now : ℕ) (hist : List ℕ) → Bounded hist → Bounded (noted (window_admits now hist) now hist)
noted-Bounded now hist b = elim (Bool-cases (window_admits now hist)) [
  | inl admitted ↦ rw admitted (λ from. grow now hist from (b from) admitted)
  | inr refused ↦ rw refused b
]

module _ {ℓ} {B : Type ℓ} where
  answers-Tracks :
      (nows : List ℕ) (last : ℕ) (g : GateUser B) (hist : List ℕ)
      → Tracks g hist last
      → Rising last nows
      → answers g nows ≡ window_answers hist nows
  answers-Tracks [] last g hist track r = refl
  answers-Tracks (now ∷ nows) last g hist track (le, r) =
      let (same, track') = try_accept-Tracks last now g hist track le in
      let g' = (try_accept_client_request now g).1 in
      rw same (
        ap (◌∷◌ (window_admits now hist)) (
          answers-Tracks nows now g' (noted (window_admits now hist) now hist)
            (subst (λ (b : Bool). Tracks g' (noted b now hist) now) same track') r))

  fresh-Tracks : (gamer_id sess_id : ℤ) → Tracks (new_gate_user B gamer_id sess_id) [] 0
  unfolding new_gate_user
  fresh-Tracks gamer_id sess_id = record {
    head_in = omega arith;
    count_in = omega arith;
    sized = refl;
    holds = refl;
    falling = tt;
  }

  accepted-Bounded :
      (nows : List ℕ) (last : ℕ) (g : GateUser B) (hist : List ℕ)
      → Tracks g hist last
      → Rising last nows
      → Bounded hist
      → Bounded (accepted_times g hist nows)
  accepted-Bounded [] last g hist track r b = b
  accepted-Bounded (now ∷ nows) last g hist track (le, r) b =
      let (same, track') = try_accept-Tracks last now g hist track le in
      let next = try_accept_client_request now g in
      accepted-Bounded nows now next.1 (noted next.0 now hist) track' r
        (subst (λ (a : Bool). Bounded (noted a now hist)) (sym same) (noted-Bounded now hist b))

-- A new user's limiter answers every row of requests, whose clock readings do not fall, exactly as one
-- that remembers all accepted requests: it accepts a request if fewer than 15 of them lie less than five
-- seconds back and fewer than 8 less than one second, and refuses it otherwise.
pub answers_exact {ℓ} :
    (B : Type ℓ) (gamer_id sess_id : ℤ) (nows : List ℕ)
    → Rising 0 nows
    → answers (new_gate_user B gamer_id sess_id) nows ≡ window_answers [] nows
answers_exact B gamer_id sess_id nows r =
    answers-Tracks nows 0 (new_gate_user B gamer_id sess_id) [] (fresh-Tracks gamer_id sess_id) r

-- However many requests come, as long as the clock does not go back: of those that a new user's limiter
-- accepts at most 15 lie in any five seconds, and at most 8 in any one second.
pub accepted_bounded {ℓ} :
    (B : Type ℓ) (gamer_id sess_id : ℤ) (nows : List ℕ) (from : ℕ)
    → Rising 0 nows
    → (within 5000 from (accepted_times (new_gate_user B gamer_id sess_id) [] nows) ≤ 15)
      × (within 1000 from (accepted_times (new_gate_user B gamer_id sess_id) [] nows) ≤ 8)
accepted_bounded B gamer_id sess_id nows from r =
    accepted-Bounded nows 0 (new_gate_user B gamer_id sess_id) [] (fresh-Tracks gamer_id sess_id) r
      (λ _. (omega arith, omega arith)) from
