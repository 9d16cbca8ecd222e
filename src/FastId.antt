-- ===== src/FastId.antt =====
-- src/deps/fastid/fastid.go: the ids that the servers give out, in int64. The masks of a configuration are those of
-- its widths. The Unix time in nanoseconds of a reading of the clock, and the start of the epoch, are arguments. A
-- round whose exchange of `lastID` fails has changed nothing, and is left out.
pub mod Layout
pub mod Parts
pub mod Rise
mod FastIdTests
use heli.Common.Shift.{shl64, shr64, mask64, masked64}
use heli.Common.{
  ℕ, ◌+◌, ℤ, pos, ltb_ℤ, leb_ℤ, add64, sub64, wrap32, Bool, true, false, List, [], ◌∷◌, Option,
  none, some, if◌then◌else◌,
}

pub record Config : Type 0 where
  pub time_bits : ℕ
  pub seq_bits : ℕ
  pub machine_bits : ℕ
  pub machine_id : ℤ
  pub last_id : ℤ

unfoldable pub construct_config_with_machine_id : ℕ → ℕ → ℕ → ℤ → Config
unfolding masked64
construct_config_with_machine_id time_bits seq_bits machine_bits machine_id = record {
  time_bits = time_bits;
  seq_bits = seq_bits;
  machine_bits = machine_bits;
  machine_id = masked64 machine_id machine_bits;
  last_id = pos 0;
}

abbrev pub seq_mask : Config → ℤ
seq_mask c = mask64 c.seq_bits

unfoldable pub get_seq_from_id : Config → ℤ → ℤ
unfolding shr64 masked64
get_seq_from_id c id = masked64 (shr64 id c.machine_bits) c.seq_bits

unfoldable pub get_time_from_id : Config → ℤ → ℤ
unfolding shr64
get_time_from_id c id = shr64 id (c.machine_bits + c.seq_bits)

unfoldable pub get_machine_id_from_fast_id : Config → ℤ → ℤ
unfolding masked64 wrap32
get_machine_id_from_fast_id c id = wrap32 (masked64 id c.machine_bits)

-- `clock` is `time.Now().UnixNano()`.
unfoldable pub get_current_timestamp : Config → ℤ → ℤ → ℤ
unfolding shr64 masked64 sub64
get_current_timestamp c start_epoch_nano clock =
    masked64 (shr64 (sub64 clock start_epoch_nano) 20) c.time_bits

-- `now<<(machineBits+seqBits) + seq<<machineBits + machineID`
unfoldable pub compose_id : Config → ℤ → ℤ → ℤ
unfolding shl64 add64
compose_id c now seq =
    add64 (add64 (shl64 now (c.machine_bits + c.seq_bits)) (shl64 seq c.machine_bits)) c.machine_id

-- One round of `GenInt64ID` at the timestamp `now`: it waits, `none`, or stores an id.
unfoldable pub try_id : ℤ → Config → Option ℤ
unfolding get_seq_from_id get_time_from_id compose_id mask64 add64
try_id now c =
    let seq = get_seq_from_id c c.last_id in
    if ltb_ℤ (get_time_from_id c c.last_id) now
    then some (compose_id c now (pos 0))
    else if leb_ℤ (seq_mask c) seq
    then none
    else some (compose_id c now (add64 seq (pos 1)))

-- Rounds at the given readings of the clock: the ids that they give out, and the generator after them.
unfoldable pub gen_ids : ℤ → List ℤ → Config → List ℤ × Config
unfolding try_id get_current_timestamp
gen_ids start_epoch_nano [] c = ([], c)
gen_ids start_epoch_nano (clock ∷ readings) c =
    elim (try_id (get_current_timestamp c start_epoch_nano clock) c) [
      | none ↦ gen_ids start_epoch_nano readings c
      | some id ↦
          let (ids, c') = gen_ids start_epoch_nano readings (record c { last_id = id }) in
          (id ∷ ids, c')
    ]
