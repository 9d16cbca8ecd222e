-- ===== src/Packet/PacketTests.antt =====
-- A frame of two bytes of body, and the theorems at it.
use heli.Common.{ℕ, List, [], ◌∷◌, ◌++◌, Option, some, ◌≡◌, refl, arith, if◌then◌else◌}
use heli.Packet.{
  ok, err, check_code_failed, payload_too_short, pack_message, read_packet, body_bytes, is_rpc,
}
use heli.Packet.Frames.{read-pack, read_damaged}

-- Messages that are their own bytes.
abbrev own : List ℕ → Option (List ℕ)
own bs = some bs

abbrev greeting : Option (List ℕ)
greeting = some (104 ∷ 105 ∷ [])

abbrev greeting_frame : List ℕ
greeting_frame = 12 ∷ 0 ∷ 31 ∷ 1 ∷ 2 ∷ 0 ∷ 3 ∷ 0 ∷ 9 ∷ 1 ∷ 0 ∷ 0 ∷ 104 ∷ 105 ∷ []

packs_greeting : pack_message own 1 2 3 265 greeting ≡ ok greeting_frame
unfolding pack_message
packs_greeting = refl

short_payload : read_packet (5 ∷ 0 ∷ 1 ∷ 2 ∷ []) ≡ err payload_too_short
unfolding read_packet
short_payload = refl

read-pack_example :
    (body : List ℕ) × (body_bytes own greeting ≡ some body)
    × (read_packet (greeting_frame ++ (7 ∷ []))
        ≡ ok (
          record {
            msg_type = 1;
            main_cmd = 2;
            sub_cmd = 3;
            rpc_call_id = if is_rpc 1 then 265 else 0;
            body = body;
          },
          7 ∷ [],
        ))
read-pack_example =
    read-pack own 1 2 3 265 greeting greeting_frame (7 ∷ []) (omega arith) (omega arith)
      (omega arith) packs_greeting

read_damaged_example :
    read_packet (12 ∷ 0 ∷ 31 ∷ 1 ∷ 2 ∷ 0 ∷ 3 ∷ 0 ∷ 9 ∷ 1 ∷ 0 ∷ 0 ∷ 104 ∷ 106 ∷ 7 ∷ [])
    ≡ err check_code_failed
read_damaged_example =
    read_damaged own 1 2 3 265 greeting 12 0 105 106
      (31 ∷ 1 ∷ 2 ∷ 0 ∷ 3 ∷ 0 ∷ 9 ∷ 1 ∷ 0 ∷ 0 ∷ 104 ∷ []) [] (7 ∷ []) packs_greeting (omega arith)
      (omega arith) (λ e. omega (arith, e))
