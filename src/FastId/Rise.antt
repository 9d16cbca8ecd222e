-- ===== src/FastId/Rise.antt =====
-- src/deps/fastid/fastid.go: ids rise as long as the clock does not go back.
use native.Mathlib.Nat.{mod-lt}
use heli.Common.{
  ℕ, suc, ◌+◌, ◌-◌, ◌*◌, ◌/◌, ◌^◌, ◌≤◌, ◌<◌, ℤ, pos, negsuc, pos_part, ◌≤ℤ◌, ◌<ℤ◌, ltb_ℤ, leb_ℤ,
  leb, add64, add64_pos, sub64, Is64, List, [], ◌∷◌, false, some, ◌≡◌, refl, sym, ap, ◌∙◌, inl, inr,
  arith, Bool-cases, Option-cases, subst,
}
use heli.Common.Shift.{shr64, mask64, masked64}
use heli.FastId.{
  Config, get_current_timestamp, get_seq_from_id, get_time_from_id, compose_id, try_id, gen_ids,
  seq_mask,
}
use heli.FastId.Layout.{seq_of, time_of, compose, above, higher, layout_parts, pow-pos}
use heli.FastId.Parts.{Fits, layout, nonneg, part-lt, pow-int64, seq-pos, compose-pos}

mask-pos : (k : ℕ) → k ≤ 63 → mask64 k ≡ pos (2 ^ k - 1)
unfolding mask64
mask-pos k h = let small : leb 64 k ≡ false = ground arith in rw small refl

-- A timestamp has timeBits bits and is not negative.
timestamp-bits :
    (c : Config) (start clock : ℤ)
    → c.time_bits ≤ 63
    → (pos 0 ≤ℤ get_current_timestamp c start clock)
      × (pos_part (get_current_timestamp c start clock) < 2 ^ c.time_bits)
unfolding get_current_timestamp
timestamp-bits c start clock h = bits (shr64 (sub64 clock start) 20)
  where
    bits :
        (z : ℤ)
        → (pos 0 ≤ℤ masked64 z c.time_bits) × (pos_part (masked64 z c.time_bits) < 2 ^ c.time_bits)
    bits (pos n) =
        let small : leb 64 c.time_bits ≡ false = ground arith in
        let low = mod-lt n {m = 2 ^ c.time_bits} (pow-pos c.time_bits) in
        unfold masked64 in rw small (omega arith, low)
    bits (negsuc n) =
        let small : leb 64 c.time_bits ≡ false = ground arith in
        let up = pow-pos c.time_bits in unfold masked64 in rw small (omega arith, omega arith)

module _ (c : Config) (fits : Fits c) (last : ℕ) (held : c.last_id ≡ pos last) where
  last_seq : get_seq_from_id c c.last_id ≡ pos (seq_of (layout c) last)
  last_seq = let widths = fits.widths in ap (get_seq_from_id c) held ∙ seq-pos c last (omega arith)

  last_time : get_time_from_id c c.last_id ≡ pos (time_of (layout c) last)
  unfolding get_time_from_id shr64
  last_time = ap (get_time_from_id c) held

  -- What an id that a round gives out is.
  abbrev Better : ℕ → ℤ → Type 0
  Better now id =
      (id_nat : ℕ) × (id ≡ pos id_nat)
      × (last < id_nat)
      × (id_nat < 2 ^ 63)
      × (time_of (layout c) id_nat ≡ now)

  composed-Better :
      (now seq : ℕ)
      → now < 2 ^ c.time_bits
      → seq < 2 ^ c.seq_bits
      → time_of (layout c) last * 2 ^ c.seq_bits + seq_of (layout c) last
        < now * 2 ^ c.seq_bits + seq
      → Better now (compose_id c (pos now) (pos seq))
  composed-Better now seq now_fits seq_fits h =
      let machine = part-lt c.machine_id (2 ^ c.machine_bits) fits.machine_low fits.machine_high in
      let (made, total) = compose-pos c fits now seq now_fits seq_fits in
      let (time, number, engine) = layout_parts (layout c) machine now seq seq_fits in
      (compose (layout c) now seq, made, above (layout c) machine last now seq h, total, time)

  -- A round gives out a greater id with the time of its reading, unless the clock went back.
  try_id-Better :
      (now : ℕ) (id : ℤ)
      → now < 2 ^ c.time_bits
      → time_of (layout c) last ≤ now
      → try_id (pos now) c ≡ some id
      → Better now id
  unfolding try_id
  try_id-Better now id now_fits on_time h =
      let widths = fits.widths in
      let seq = seq_of (layout c) last in
      let small = mod-lt (last / 2 ^ c.machine_bits) {m = 2 ^ c.seq_bits} (pow-pos c.seq_bits) in
      elim (Bool-cases (ltb_ℤ (get_time_from_id c c.last_id) (pos now))) [
        | inl later ↦
            let made : compose_id c (pos now) (pos 0) ≡ id = ground arith in
            let new_time : time_of (layout c) last < now = ground (arith, last_time) in
            subst (Better now) made (
              composed-Better now 0 now_fits (pow-pos c.seq_bits) (
                higher (layout c) machine_ok (time_of (layout c) last) now (2 ^ c.seq_bits) seq 0
                  small new_time))
        | inr same ↦ elim (Bool-cases (leb_ℤ (seq_mask c) (get_seq_from_id c c.last_id))) [
          | inl full ↦ absurd (ground arith)
          | inr room ↦
              let made : compose_id c (pos now) (add64 (get_seq_from_id c c.last_id) (pos 1)) ≡ id =
                ground arith in
              let now_time : time_of (layout c) last ≡ now = ground (arith, last_time) in
              let mask = mask-pos c.seq_bits (omega arith) in
              let fits_next : suc seq < 2 ^ c.seq_bits = ground (arith, last_seq, mask) in
              let bound = pow-int64 c.seq_bits (omega arith) in
              let next : add64 (get_seq_from_id c c.last_id) (pos 1) ≡ pos (suc seq) =
                ap (λ (s : ℤ). add64 s (pos 1)) last_seq
                ∙ add64_pos seq 1 (omega arith)
                ∙ ap pos (omega arith) in
              subst (Better now) (ap (compose_id c (pos now)) (sym next) ∙ made)
                (composed-Better now (suc seq) now_fits fits_next (rw now_time (omega arith)))
        ]
      ]
    where
      machine_ok : pos_part c.machine_id < 2 ^ c.machine_bits
      machine_ok = part-lt c.machine_id (2 ^ c.machine_bits) fits.machine_low fits.machine_high

abbrev pub Rising : ℤ → List ℤ → Type 0
Rising last [] = Unit
Rising last (id ∷ ids) = (last <ℤ id) × Rising id ids

-- The timestamps of the readings do not go back, and not behind `t`.
abbrev pub Steady : Config → ℤ → ℤ → List ℤ → Type 0
Steady c start t [] = Unit
Steady c start t (clock ∷ readings) =
    (t ≤ℤ get_current_timestamp c start clock)
    × Steady c start (get_current_timestamp c start clock) readings

Steady-mono :
    (c : Config) (start t u : ℤ) (readings : List ℤ)
    → t ≤ℤ u
    → Steady c start u readings
    → Steady c start t readings
Steady-mono c start t u [] h s = tt
Steady-mono c start t u (clock ∷ readings) h (le, s) = (omega arith, s)

all_ids-Rising :
    (start : ℤ) (readings : List ℤ) (c : Config)
    → Fits c
    → (last : ℕ) → c.last_id ≡ pos last
    → Steady c start (pos (time_of (layout c) last)) readings
    → Rising (pos last) (gen_ids start readings c).0
unfolding gen_ids get_current_timestamp
all_ids-Rising start [] c fits last held steady = tt
all_ids-Rising start (clock ∷ readings) c fits last held (le, steady) =
    let now = get_current_timestamp c start clock in
    let widths = fits.widths in
    let (low, high) = timestamp-bits c start clock (omega arith) in
    let now_nat = nonneg now low in
    elim (Option-cases (try_id now c)) [
      | inl waits ↦
          rw (waits, gen_ids)
            (all_ids-Rising start readings c fits last held
              (Steady-mono c start (pos (time_of (layout c) last)) now readings le steady))
      | inr (id, made) ↦
          let (id_nat, same, up, total, time) =
            try_id-Better c fits last held (pos_part now) id high (omega arith)
              (ap (λ (n : ℤ). try_id n c) (sym now_nat) ∙ made) in
          let fits' : Fits (record c { last_id = id }) = record {
            widths = fits.widths;
            machine_low = fits.machine_low;
            machine_high = fits.machine_high;
          } in
          let time_now : now ≡ pos (time_of (layout c) id_nat) = now_nat ∙ ap pos (sym time) in
          let rest =
            all_ids-Rising start readings (record c { last_id = id }) fits' id_nat same
              (subst (λ (t : ℤ). Steady c start t readings) time_now steady) in
          rw (made, gen_ids)
            (
              rw same (omega arith),
              subst (λ (t : ℤ). Rising t (gen_ids start readings (record c { last_id = id })).0)
                  (sym same) rest,
            )
    ]

-- As long as the clock's timestamps do not go back, behind the time of the last id or behind an earlier one, each
-- id that is given out is greater than all before it, however often a round has to wait, and however the
-- readings wrap in int64 before they are masked. The widths must add up to 63 at most, the machine's id must
-- fit its bits, and the last id be an int64 that is not negative.
pub gen_ids-Rising :
    (start : ℤ) (readings : List ℤ) (c : Config)
    → Fits c
    → pos 0 ≤ℤ c.last_id
    → Is64 c.last_id
    → Steady c start (get_time_from_id c c.last_id) readings
    → Rising c.last_id (gen_ids start readings c).0
gen_ids-Rising start readings c fits low int64 steady =
    let last = pos_part c.last_id in
    let held = nonneg c.last_id low in
    subst (λ (t : ℤ). Rising t (gen_ids start readings c).0) (sym held)
      (all_ids-Rising start readings c fits last held
        (subst (λ (t : ℤ). Steady c start t readings) (last_time c fits last held) steady))
