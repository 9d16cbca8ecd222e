-- ===== src/FastId/Parts.antt =====
-- src/deps/fastid/fastid.go: the parts of an id that fits an int64.
use native.Mathlib.Nat.{pow-le-pow_right}
use heli.Common.{
  ℕ, ◌+◌, ◌*◌, ◌/◌, ◌%◌, ◌^◌, ◌≤◌, ◌<◌, ℤ, pos, negsuc, pos_part, ◌≤ℤ◌, ◌<ℤ◌, leb, add64, add64_pos,
  mul64, mul64_pos, wrap32, wrap32_id, false, ◌≡◌, refl, sym, ap, ◌∙◌, arith,
}
use heli.Common.Shift.{shl64, shr64, masked64}
use heli.FastId.{Config, get_seq_from_id, get_time_from_id, get_machine_id_from_fast_id, compose_id}
use heli.FastId.Layout.{Layout, seq_of, compose, compose-lt, layout_parts}

-- The widths are those of an int64 that is not negative, and the machine's id fits its own.
pub record Fits (c : Config) : Type 0 where
  pub widths : c.time_bits + c.seq_bits + c.machine_bits ≤ 63
  pub machine_low : pos 0 ≤ℤ c.machine_id
  pub machine_high : c.machine_id <ℤ pos (2 ^ c.machine_bits)

abbrev pub layout : Config → Layout
layout c = record {
  seq_bits = c.seq_bits;
  machine_bits = c.machine_bits;
  machine_id = pos_part c.machine_id;
}

pub nonneg : (z : ℤ) → pos 0 ≤ℤ z → z ≡ pos (pos_part z)
nonneg (pos n) h = refl
nonneg (negsuc n) h = absurd (omega arith)

pub part-lt : (z : ℤ) (n : ℕ) → pos 0 ≤ℤ z → z <ℤ pos n → pos_part z < n
part-lt (pos m) n low high = omega arith
part-lt (negsuc m) n low high = absurd (omega arith)

pub pow-int64 : (k : ℕ) → k ≤ 63 → 2 ^ k ≤ 2 ^ 63
pow-int64 k h = pow-le-pow_right {n = 2} (omega arith) {i = k} {j = 63} h

pub masked-pos : (n k : ℕ) → k ≤ 63 → masked64 (pos n) k ≡ pos (n % 2 ^ k)
unfolding masked64
masked-pos n k h = let small : leb 64 k ≡ false = ground arith in rw small refl

pub seq-pos :
    (c : Config) (n : ℕ) → c.seq_bits ≤ 63 → get_seq_from_id c (pos n) ≡ pos (seq_of (layout c) n)
unfolding get_seq_from_id shr64
seq-pos c n h = masked-pos (n / 2 ^ c.machine_bits) c.seq_bits h

shl-pos : (n k : ℕ) → n * 2 ^ k < 2 ^ 63 → shl64 (pos n) k ≡ pos (n * 2 ^ k)
unfolding shl64 mul64
shl-pos n k h = mul64_pos n (2 ^ k) h

sum-pos : (x y m : ℕ) → x + y + m < 2 ^ 63 → add64 (add64 (pos x) (pos y)) (pos m) ≡ pos (x + y + m)
sum-pos x y m h = rw (add64_pos x y (omega arith)) (add64_pos (x + y) m h)

-- The id in int64 is the one over natural numbers, and fits.
pub compose-pos :
    (c : Config)
    → Fits c
    → (now seq : ℕ) → now < 2 ^ c.time_bits
    → seq < 2 ^ c.seq_bits
    → (compose_id c (pos now) (pos seq) ≡ pos (compose (layout c) now seq))
      × (compose (layout c) now seq < 2 ^ 63)
unfolding compose_id
compose-pos c fits now seq now_fits seq_fits =
    let machine = nonneg c.machine_id fits.machine_low in
    let small =
      compose-lt (layout c) c.time_bits now seq
        (part-lt c.machine_id (2 ^ c.machine_bits) fits.machine_low fits.machine_high) seq_fits
        now_fits in
    let bound = pow-int64 (c.time_bits + c.seq_bits + c.machine_bits) fits.widths in
    let total : compose (layout c) now seq < 2 ^ 63 = omega arith in
    let x = now * 2 ^ (c.machine_bits + c.seq_bits) in
    let y = seq * 2 ^ c.machine_bits in
    (
      rw
          (
            shl-pos now (c.machine_bits + c.seq_bits) (omega arith),
            shl-pos seq c.machine_bits (omega arith),
          )
          (ap (λ (m : ℤ). add64 (add64 (pos x) (pos y)) m) machine
            ∙ sum-pos x y (pos_part c.machine_id) total),
      total,
    )

-- The parts of an id can be read back. Where the widths add up to 63 at most, and that of the machine is at most
-- 31: an id composed of a time of timeBits bits, a sequence number of seqBits bits and the machine's id, of
-- machineBits bits, none of them negative, is not negative and has exactly these parts, in int64 and, for the
-- machine's id, in int32.
pub id_parts :
    (c : Config)
    → Fits c
    → c.machine_bits ≤ 31
    → (now seq : ℤ) → pos 0 ≤ℤ now
    → now <ℤ pos (2 ^ c.time_bits)
    → pos 0 ≤ℤ seq
    → seq <ℤ pos (2 ^ c.seq_bits)
    → (pos 0 ≤ℤ compose_id c now seq)
      × (get_time_from_id c (compose_id c now seq) ≡ now)
      × (get_seq_from_id c (compose_id c now seq) ≡ seq)
      × (get_machine_id_from_fast_id c (compose_id c now seq) ≡ c.machine_id)
unfolding get_time_from_id get_machine_id_from_fast_id shr64
id_parts c fits narrow now seq now_low now_high seq_low seq_high =
    let now_pos = nonneg now now_low in
    let seq_nat = nonneg seq seq_low in
    let machine = nonneg c.machine_id fits.machine_low in
    let machine_fits =
      part-lt c.machine_id (2 ^ c.machine_bits) fits.machine_low fits.machine_high in
    let widths = fits.widths in
    let seq_fits = part-lt seq (2 ^ c.seq_bits) seq_low seq_high in
    let now_fits = part-lt now (2 ^ c.time_bits) now_low now_high in
    let (made, total) = compose-pos c fits (pos_part now) (pos_part seq) now_fits seq_fits in
    let id : compose_id c now seq ≡ pos (compose (layout c) (pos_part now) (pos_part seq)) =
      ap (λ (n : ℤ). compose_id c n seq) now_pos
      ∙ ap (λ (n : ℤ). compose_id c (pos (pos_part now)) n) seq_nat
      ∙ made in
    let (time, number, engine) =
      layout_parts (layout c) machine_fits (pos_part now) (pos_part seq) seq_fits in
    let n = compose (layout c) (pos_part now) (pos_part seq) in
    let low : pos_part c.machine_id < 2 ^ 31 =
      (let up = pow-le-pow_right {n = 2} (omega arith) {i = c.machine_bits} {j = 31} narrow in
        omega arith) in
    rw id (
      omega arith,
      ap pos time ∙ sym now_pos,
      seq-pos c n (omega arith) ∙ ap pos number ∙ sym seq_nat,
      ap wrap32 (masked-pos n c.machine_bits (omega arith) ∙ ap pos engine)
          ∙ wrap32_id (pos (pos_part c.machine_id)) (omega arith)
          ∙ sym machine,
    )
