-- ===== src/FastId/FastIdTests.antt =====
-- The theorems on ids at a generator with 40 bits of time, 10 of sequence and 13 of the machine, and what goes
-- wrong beyond their bounds.
use heli.Common.{
  ◌≡◌, ◌≤ℤ◌, refl, [], ◌∷◌, pos, negsuc, ◌*ℤ◌, ◌+ℤ◌, ◌-ℤ◌, add64, sub64, wrap64, ◌-◌, ◌^◌, arith,
}
use heli.Common.Shift.{shl64, shr64, masked64}
use heli.FastId.{
  Config, compose_id, get_time_from_id, get_seq_from_id, get_machine_id_from_fast_id, gen_ids,
  get_current_timestamp, construct_config_with_machine_id,
}
use heli.FastId.Parts.{Fits, id_parts}
use heli.FastId.Rise.{Rising, gen_ids-Rising}

abbrev common_config : Config
common_config = record {
  time_bits = 40;
  seq_bits = 10;
  machine_bits = 13;
  machine_id = pos 258;
  last_id = pos 0;
}

common_config-Fits : Fits common_config
common_config-Fits = record {
  widths = omega arith;
  machine_low = omega arith;
  machine_high = omega arith;
}

-- Of 8450 = 2 ^ 13 + 258 the configuration keeps the low 13 bits.
masked_machine : construct_config_with_machine_id 40 10 13 (pos 8450) ≡ common_config
unfolding construct_config_with_machine_id
masked_machine = refl

-- A time of 41 bits would shift into the sign.
shifted_out :
    get_time_from_id common_config (compose_id common_config (pos (2 ^ 40)) (pos 0))
    ≡ negsuc (2 ^ 40 - 1)
unfolding get_time_from_id compose_id shl64 shr64 add64 wrap64 ◌*ℤ◌ ◌+ℤ◌
shifted_out = refl

id_parts_example :
    (pos 0 ≤ℤ compose_id common_config (pos 1000) (pos 7))
    × (get_time_from_id common_config (compose_id common_config (pos 1000) (pos 7)) ≡ pos 1000)
    × (get_seq_from_id common_config (compose_id common_config (pos 1000) (pos 7)) ≡ pos 7)
    × (get_machine_id_from_fast_id common_config (compose_id common_config (pos 1000) (pos 7))
        ≡ pos 258)
id_parts_example =
    id_parts common_config common_config-Fits (omega arith) (pos 1000) (pos 7) (omega arith)
      (omega arith) (omega arith) (omega arith)

-- Two readings of one tick, and a later one.
gen_ids-Rising_example :
    Rising (pos 0) (gen_ids (pos 0) (pos 5242880 ∷ pos 5242881 ∷ pos 9437184 ∷ []) common_config).0
unfolding get_time_from_id get_current_timestamp ◌-ℤ◌ sub64 wrap64 shr64 masked64
gen_ids-Rising_example =
    gen_ids-Rising (pos 0) (pos 5242880 ∷ pos 5242881 ∷ pos 9437184 ∷ []) common_config
      common_config-Fits (omega arith) (omega arith, omega arith)
      (omega arith, (omega arith, (omega arith, tt)))
