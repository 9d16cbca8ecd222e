-- ===== src/Packet.antt =====
-- src/deps/msg/binary_packet.go: the frames of the binary protocol, as lists of bytes.
pub mod Frames
mod PacketTests
use Prim.Native.Nat.{bit_and}
use heli.Common.{
  ℕ, zero, suc, ◌+◌, ◌-◌, ◌*◌, ◌/◌, ◌%◌, ◌^◌, List, [], ◌∷◌, ◌++◌, Bool, true, false, not, Option,
  none, some, ltb, ◌==◌, length, if◌then◌else◌,
}

pub record Packet : Type 0 where
  pub msg_type : ℕ
  pub main_cmd : ℕ
  pub sub_cmd : ℕ
  pub rpc_call_id : ℕ
  pub body : List ℕ

pub data PacketError : Type 0 where
  marshal_failed payload_too_large unexpected_eof payload_too_short check_code_failed : PacketError
  missing_cmd missing_rpc_call_id : PacketError

pub data Result {ℓ} (A : Type ℓ) : Type ℓ where
  ok : A → Result A
  err : PacketError → Result A

-- `binary.LittleEndian.PutUint16` and `PutUint32`.
abbrev pub put_uint16 : ℕ → List ℕ
put_uint16 v = v % 256 ∷ v / 256 % 256 ∷ []

abbrev pub put_uint32 : ℕ → List ℕ
put_uint32 v = v % 256 ∷ v / 256 % 256 ∷ v / 65536 % 256 ∷ v / 16777216 % 256 ∷ []

abbrev pub uint16 : ℕ → ℕ → ℕ
uint16 a b = a + b * 256

abbrev pub uint32 : ℕ → ℕ → ℕ → ℕ → ℕ
uint32 a b c d = a + b * 256 + c * 65536 + d * 16777216

-- `msgType & MsgTypeRPC != 0`
unfoldable pub is_rpc : ℕ → Bool
is_rpc msg_type = not (bit_and msg_type 1 == 0)

-- `sum += value` for each byte, on a byte.
unfoldable pub sum_from : ℕ → List ℕ → ℕ
sum_from sum [] = sum
sum_from sum (b ∷ bs) = sum_from ((sum + b) % 256) bs

-- `^sum + 1` on a byte.
abbrev pub check_code : ℕ → ℕ
check_code sum = (255 - sum + 1) % 256

abbrev pub payload_len : ℕ → List ℕ → ℕ
payload_len msg_type body = if is_rpc msg_type then 6 + length body + 4 else 6 + length body

-- The bytes that the check code covers.
unfoldable pub covered : ℕ → ℕ → ℕ → ℕ → List ℕ → List ℕ
covered msg_type main_cmd sub_cmd rpc_call_id body =
    msg_type
    ∷ (put_uint16 main_cmd
        ++ (put_uint16 sub_cmd
            ++ (if is_rpc msg_type then put_uint32 rpc_call_id ++ body else body)))

unfoldable pub frame_of : ℕ → ℕ → ℕ → ℕ → List ℕ → List ℕ
unfolding sum_from
frame_of msg_type main_cmd sub_cmd rpc_call_id body =
    let rest = covered msg_type main_cmd sub_cmd rpc_call_id body in
    put_uint16 (payload_len msg_type body) ++ (check_code (sum_from 0 rest) ∷ rest)

-- `proto.Marshal` is `marshal`; a message that is nil has no bytes.
abbrev pub body_bytes {ℓ} : {M : Type ℓ} → (M → Option (List ℕ)) → Option M → Option (List ℕ)
body_bytes marshal none = some []
body_bytes marshal (some m) = marshal m

unfoldable pub pack_message {ℓ} :
    {M : Type ℓ} → (M → Option (List ℕ)) → ℕ → ℕ → ℕ → ℕ → Option M → Result (List ℕ)
unfolding frame_of covered is_rpc
pack_message marshal msg_type main_cmd sub_cmd rpc_call_id body_msg =
    elim (body_bytes marshal body_msg) [
      | none ↦ err marshal_failed
      | some body ↦
          if ltb 65535 (payload_len msg_type body)
          then err payload_too_large
          else ok (frame_of msg_type main_cmd sub_cmd rpc_call_id body)
    ]

-- `io.ReadFull` of so many bytes, and what the reader still holds.
unfoldable pub read_full : ℕ → List ℕ → Option (List ℕ × List ℕ)
read_full zero bs = some ([], bs)
read_full (suc n) [] = none
read_full (suc n) (b ∷ bs) = elim (read_full n bs) [
  | none ↦ none
  | some (taken, rest) ↦ some (b ∷ taken, rest)
]

-- What follows the type and the commands.
unfoldable pub read_body : ℕ → ℕ → ℕ → List ℕ → Result Packet
unfolding is_rpc
read_body msg_type main_cmd sub_cmd bs =
    if is_rpc msg_type
    then with_call_id bs
    else ok (record {
      msg_type = msg_type;
      main_cmd = main_cmd;
      sub_cmd = sub_cmd;
      rpc_call_id = 0;
      body = bs;
    })
  where
    with_call_id : List ℕ → Result Packet
    with_call_id (a ∷ b ∷ c ∷ d ∷ body) = ok (record {
      msg_type = msg_type;
      main_cmd = main_cmd;
      sub_cmd = sub_cmd;
      rpc_call_id = uint32 a b c d;
      body = body;
    })
    with_call_id bs = err missing_rpc_call_id

-- The payload from its check code on.
unfoldable pub read_payload : List ℕ → Result Packet
unfolding read_body
read_payload (check ∷ msg_type ∷ a ∷ b ∷ c ∷ d ∷ bs) =
    read_body msg_type (uint16 a b) (uint16 c d) bs
read_payload bs = err missing_cmd

abbrev pub with_rest : List ℕ → Result Packet → Result (Packet × List ℕ)
with_rest rest (ok p) = ok (p, rest)
with_rest rest (err e) = err e

unfoldable pub check_payload : List ℕ → List ℕ → Result (Packet × List ℕ)
unfolding read_payload sum_from
check_payload payload rest =
    if not (sum_from 0 payload == 0)
    then err check_code_failed
    else with_rest rest (read_payload payload)

unfoldable pub read_sized : ℕ → List ℕ → Result (Packet × List ℕ)
unfolding check_payload read_full
read_sized len bs = if ltb len 6 then err payload_too_short else (elim (read_full len bs) [
  | none ↦ err unexpected_eof
  | some (payload, rest) ↦ check_payload payload rest
])

unfoldable pub read_packet : List ℕ → Result (Packet × List ℕ)
unfolding read_sized
read_packet (a ∷ b ∷ bs) = read_sized (uint16 a b) bs
read_packet bs = err unexpected_eof
