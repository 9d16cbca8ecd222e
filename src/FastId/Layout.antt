-- ===== src/FastId/Layout.antt =====
-- The layout of an id of src/deps/fastid/fastid.go over natural numbers, where a shift is a product or a quotient
-- by a power of two.
use native.Mathlib.Nat.{
  div-div-eq-div-mul, mul-add-div_right, mul-add-mod_self_right, div-eq_of_lt, mod-eq_of_lt,
  pow-suc, lt-div-mul-add, mod-eq-sub-div-mul, div-mul-le_self,
}
use heli.Common.{ℕ, zero, suc, ◌+◌, ◌*◌, ◌/◌, ◌%◌, ◌^◌, ◌≤◌, ◌<◌, ◌≡◌, sym, ap, ◌∙◌, arith}

pub record Layout : Type 0 where
  pub seq_bits : ℕ
  pub machine_bits : ℕ
  pub machine_id : ℕ

abbrev pub seq_of : Layout → ℕ → ℕ
seq_of c id = (id / 2 ^ c.machine_bits) % 2 ^ c.seq_bits

abbrev pub time_of : Layout → ℕ → ℕ
time_of c id = id / 2 ^ (c.machine_bits + c.seq_bits)

abbrev pub machine_of : Layout → ℕ → ℕ
machine_of c id = id % 2 ^ c.machine_bits

abbrev pub compose : Layout → ℕ → ℕ → ℕ
compose c now seq =
    now * 2 ^ (c.machine_bits + c.seq_bits) + seq * 2 ^ c.machine_bits + c.machine_id

pub pow_add : (a b : ℕ) → 2 ^ (a + b) ≡ 2 ^ a * 2 ^ b
pow_add a zero = grind arith
pow_add a (suc b) =
    let e : a + suc b ≡ suc (a + b) = omega arith in
    let ih = pow_add a b in
    let right = pow-suc 2 b in ap (λ (n : ℕ). 2 ^ n) e ∙ pow-suc 2 (a + b) ∙ grind arith

pub pow-pos : (a : ℕ) → 0 < 2 ^ a
pow-pos zero = omega arith
pow-pos (suc a) = let ih = pow-pos a in let s = pow-suc 2 a in omega arith

pub nested : (n s m t x c : ℕ) → x ≡ m * t → n * x + s * m + c ≡ (n * t + s) * m + c
nested n s m t x c h = grind arith

module _ (c : Layout) (machine_fits : c.machine_id < 2 ^ c.machine_bits) where
  -- An id without the machine's bits.
  high-part : (now seq : ℕ) → compose c now seq / 2 ^ c.machine_bits ≡ now * 2 ^ c.seq_bits + seq
  high-part now seq =
      let high = now * 2 ^ c.seq_bits + seq in
      let gone = div-eq_of_lt {n = c.machine_id} {m = 2 ^ c.machine_bits} machine_fits in
      ap (λ (id : ℕ). id / 2 ^ c.machine_bits)
        (nested now seq (2 ^ c.machine_bits) (2 ^ c.seq_bits) (2 ^ (c.machine_bits + c.seq_bits))
          c.machine_id (pow_add c.machine_bits c.seq_bits))
      ∙ mul-add-div_right {m = 2 ^ c.machine_bits} (pow-pos c.machine_bits) high c.machine_id
      ∙ rw gone (omega arith)

  -- The time of any id, by way of its high part.
  time-high : (id : ℕ) → time_of c id ≡ id / 2 ^ c.machine_bits / 2 ^ c.seq_bits
  time-high id =
      ap (λ (d : ℕ). id / d) (pow_add c.machine_bits c.seq_bits)
      ∙ sym (div-div-eq-div-mul id (2 ^ c.machine_bits) (2 ^ c.seq_bits))

  pub layout_parts :
      (now seq : ℕ)
      → seq < 2 ^ c.seq_bits
      → (time_of c (compose c now seq) ≡ now)
        × (seq_of c (compose c now seq) ≡ seq)
        × (machine_of c (compose c now seq) ≡ c.machine_id)
  layout_parts now seq fits =
      let gone = div-eq_of_lt {n = seq} {m = 2 ^ c.seq_bits} fits in
      (
        time-high (compose c now seq)
            ∙ ap (λ (h : ℕ). h / 2 ^ c.seq_bits) (high-part now seq)
            ∙ mul-add-div_right {m = 2 ^ c.seq_bits} (pow-pos c.seq_bits) now seq
            ∙ rw gone (omega arith),
        ap (λ (h : ℕ). h % 2 ^ c.seq_bits) (high-part now seq)
            ∙ mul-add-mod_self_right now (2 ^ c.seq_bits) seq
            ∙ mod-eq_of_lt {n = seq} {m = 2 ^ c.seq_bits} fits,
        ap (λ (id : ℕ). id % 2 ^ c.machine_bits)
              (nested now seq (2 ^ c.machine_bits) (2 ^ c.seq_bits)
                (2 ^ (c.machine_bits + c.seq_bits)) c.machine_id
                (pow_add c.machine_bits c.seq_bits))
            ∙ mul-add-mod_self_right (now * 2 ^ c.seq_bits + seq) (2 ^ c.machine_bits) c.machine_id
            ∙ mod-eq_of_lt {n = c.machine_id} {m = 2 ^ c.machine_bits} machine_fits,
      )

  -- The id is below every id with a greater high part.
  below :
      (last high : ℕ)
      → last / 2 ^ c.machine_bits < high
      → last < high * 2 ^ c.machine_bits + c.machine_id
  below last high h =
      let bound = lt-div-mul-add {a = last} {b = 2 ^ c.machine_bits} (pow-pos c.machine_bits) in
      let q = last / 2 ^ c.machine_bits in
      let up : (q + 1) * 2 ^ c.machine_bits ≤ high * 2 ^ c.machine_bits = grind arith in
      let open_up : (q + 1) * 2 ^ c.machine_bits ≡ q * 2 ^ c.machine_bits + 2 ^ c.machine_bits =
        grind arith in
      omega arith

  -- The high part of an id is its time and its sequence number.
  high-split :
      (last : ℕ) → last / 2 ^ c.machine_bits ≡ time_of c last * 2 ^ c.seq_bits + seq_of c last
  high-split last =
      let q = last / 2 ^ c.machine_bits in
      let t = time-high last in
      let r = mod-eq-sub-div-mul q (2 ^ c.seq_bits) in
      let le = div-mul-le_self q (2 ^ c.seq_bits) in rw (t, r) (omega arith)

  pub above :
      (last now seq : ℕ)
      → time_of c last * 2 ^ c.seq_bits + seq_of c last < now * 2 ^ c.seq_bits + seq
      → last < compose c now seq
  above last now seq h =
      let split = high-split last in
      let high : last / 2 ^ c.machine_bits < now * 2 ^ c.seq_bits + seq = rw split h in
      rw
        (nested now seq (2 ^ c.machine_bits) (2 ^ c.seq_bits) (2 ^ (c.machine_bits + c.seq_bits))
          c.machine_id (pow_add c.machine_bits c.seq_bits))
        (below last (now * 2 ^ c.seq_bits + seq) high)

  pub higher : (t now w seq next : ℕ) → seq < w → t < now → t * w + seq < now * w + next
  higher t now w seq next small later =
      let up : (t + 1) * w ≤ now * w = grind arith in
      let open_up : (t + 1) * w ≡ t * w + w = grind arith in omega arith

-- An id of parts that fit their bits fits the sum of the widths.
pub compose-lt :
    (c : Layout) (bits now seq : ℕ)
    → c.machine_id < 2 ^ c.machine_bits
    → seq < 2 ^ c.seq_bits
    → now < 2 ^ bits
    → compose c now seq < 2 ^ (bits + c.seq_bits + c.machine_bits)
compose-lt c bits now seq machine_fits seq_fits now_fits =
    let m = 2 ^ c.machine_bits in
    let t = 2 ^ c.seq_bits in
    let high : now * t + seq < 2 ^ bits * t = in_product now (2 ^ bits) seq t now_fits seq_fits in
    rw
      (
        nested now seq m t (2 ^ (c.machine_bits + c.seq_bits)) c.machine_id
            (pow_add c.machine_bits c.seq_bits),
        pow_add (bits + c.seq_bits) c.machine_bits,
        pow_add bits c.seq_bits,
      )
      (in_product (now * t + seq) (2 ^ bits * t) c.machine_id m high machine_fits)
  where
    in_product : (a w x m : ℕ) → a < w → x < m → a * m + x < w * m
    in_product a w x m h k =
        let up : (a + 1) * m ≤ w * m = grind arith in
        let open_up : (a + 1) * m ≡ a * m + m = grind arith in omega arith
