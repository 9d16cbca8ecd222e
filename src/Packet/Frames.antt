-- ===== src/Packet/Frames.antt =====
-- src/deps/msg/binary_packet.go: frames read back, and frames that were damaged.
use heli.Common.{
  ℕ, suc, ◌+◌, ◌/◌, ◌%◌, ◌^◌, ◌≤◌, ◌<◌, List, [], ◌∷◌, ◌++◌, false, Option, some, ◌≡◌, ◌≢◌, refl,
  sym, ap, ◌∙◌, inl, inr, arith, ltb, ◌==◌, Bool-cases, Option-cases, length, length-append, drop,
  get_or, if◌then◌else◌,
}
use heli.Packet.{
  body_bytes, check_code_failed, ok, err, put_uint16, uint16, uint32, is_rpc, sum_from, check_code,
  payload_len, covered, frame_of, pack_message, read_full, read_payload, check_payload, read_sized,
  read_packet,
}

abbrev total : List ℕ → ℕ
total [] = 0
total (b ∷ bs) = b + total bs

total-append : (xs ys : List ℕ) → total (xs ++ ys) ≡ total xs + total ys
total-append [] ys = omega arith
total-append (x ∷ xs) ys = omega (arith, total-append xs ys)

sum_from-total : (sum : ℕ) (bs : List ℕ) → sum < 256 → sum_from sum bs ≡ (sum + total bs) % 256
unfolding sum_from
sum_from-total sum [] h = omega arith
sum_from-total sum (b ∷ bs) h = omega (arith, sum_from-total ((sum + b) % 256) bs (omega arith))

read_full-append : (bs rest : List ℕ) → read_full (length bs) (bs ++ rest) ≡ some (bs, rest)
unfolding read_full
read_full-append [] rest = refl
read_full-append (b ∷ bs) rest = rw (read_full-append bs rest)

length-covered :
    (t m s r : ℕ) (body : List ℕ) → suc (length (covered t m s r body)) ≡ payload_len t body
unfolding covered
length-covered t m s r body = ground arith

-- A payload behind its length.
read_framed :
    (payload rest : List ℕ)
    → 6 ≤ length payload
    → length payload < 2 ^ 16
    → read_packet (put_uint16 (length payload) ++ (payload ++ rest)) ≡ check_payload payload rest
unfolding read_packet
read_framed payload rest long short =
    let n = length payload in
    let size : uint16 (n % 256) (n / 256 % 256) ≡ n = omega arith in
    ap (λ (k : ℕ). read_sized k (payload ++ rest)) size ∙ sized
  where
    sized : read_sized (length payload) (payload ++ rest) ≡ check_payload payload rest
    sized =
        let enough : ltb (length payload) 6 ≡ false = ground arith in
        unfold read_sized in rw (enough, read_full-append payload rest) refl

-- The sum of a checked payload is 0.
checked_sum : (bs : List ℕ) → sum_from 0 (check_code (sum_from 0 bs) ∷ bs) ≡ 0
checked_sum bs =
    let sum = sum_from-total 0 bs (omega arith) in
    let all = sum_from-total 0 (check_code (sum_from 0 bs) ∷ bs) (omega arith) in omega arith

read_payload-covered :
    (t m s r check : ℕ) (body : List ℕ)
    → m < 2 ^ 16
    → s < 2 ^ 16
    → r < 2 ^ 32
    → read_payload (check ∷ covered t m s r body)
      ≡ ok (record {
        msg_type = t;
        main_cmd = m;
        sub_cmd = s;
        rpc_call_id = if is_rpc t then r else 0;
        body = body;
      })
unfolding read_payload covered
read_payload-covered t m s r check body hm hs hr =
    let main : uint16 (m % 256) (m / 256 % 256) ≡ m = omega arith in
    let sub : uint16 (s % 256) (s / 256 % 256) ≡ s = omega arith in
    let call : uint32 (r % 256) (r / 256 % 256) (r / 65536 % 256) (r / 16777216 % 256) ≡ r =
      omega arith in
    elim (Bool-cases (is_rpc t)) [
      | inl yes_rpc ↦ rw (yes_rpc, main, sub, call) refl
      | inr no_rpc ↦ rw (no_rpc, main, sub) refl
    ]

read_packet-frame_of :
    (t m s r : ℕ) (body rest : List ℕ)
    → m < 2 ^ 16
    → s < 2 ^ 16
    → r < 2 ^ 32
    → payload_len t body < 2 ^ 16
    → read_packet (frame_of t m s r body ++ rest)
      ≡ ok (
        record {
          msg_type = t;
          main_cmd = m;
          sub_cmd = s;
          rpc_call_id = if is_rpc t then r else 0;
          body = body;
        },
        rest,
      )
unfolding frame_of
read_packet-frame_of t m s r body rest hm hs hr fits =
    let tail = covered t m s r body in
    let check = check_code (sum_from 0 tail) in
    let size : payload_len t body ≡ length (check ∷ tail) = sym (length-covered t m s r body) in
    let long : 6 ≤ length (check ∷ tail) = ground (arith, length-covered t m s r body) in
    ap (λ (n : ℕ). read_packet (put_uint16 n ++ (check ∷ (tail ++ rest)))) size
    ∙ read_framed (check ∷ tail) rest long (omega arith)
    ∙ checked
  where
    checked :
        check_payload (check_code (sum_from 0 (covered t m s r body)) ∷ covered t m s r body) rest
        ≡ ok (
          record {
            msg_type = t;
            main_cmd = m;
            sub_cmd = s;
            rpc_call_id = if is_rpc t then r else 0;
            body = body;
          },
          rest,
        )
    checked =
        unfold check_payload in
        rw
          (
            checked_sum (covered t m s r body),
            read_payload-covered t m s r (check_code (sum_from 0 (covered t m s r body))) body hm hs
                hr,
          )
          refl

module _ {ℓ} {M : Type ℓ} (marshal : M → Option (List ℕ)) where
  packed_frame :
      (t m s r : ℕ) (body_msg : Option M) (frame : List ℕ)
      → pack_message marshal t m s r body_msg ≡ ok frame
      → (body : List ℕ) × (body_bytes marshal body_msg ≡ some body)
        × (payload_len t body < 2 ^ 16)
        × (frame ≡ frame_of t m s r body)
  unfolding pack_message
  packed_frame t m s r body_msg frame h = elim (Option-cases (body_bytes marshal body_msg)) [
    | inl failed ↦ absurd (ground arith)
    | inr (body, made) ↦ elim (Bool-cases (ltb 65535 (payload_len t body))) [
      | inl large ↦ absurd (ground arith)
      | inr fits ↦ (body, made, ground arith, ground arith)
    ]
  ]

  -- A frame that PackMessage made, with whatever follows it in the stream, is read back as the packet of
  -- its type, its commands, the bytes of its message, and its call id if its type has the RPC flag, else 0;
  -- the reader is left at what follows. The arguments fit their widths.
  pub read-pack :
      (t m s r : ℕ) (body_msg : Option M) (frame rest : List ℕ)
      → m < 2 ^ 16
      → s < 2 ^ 16
      → r < 2 ^ 32
      → pack_message marshal t m s r body_msg ≡ ok frame
      → (body : List ℕ) × (body_bytes marshal body_msg ≡ some body)
        × (read_packet (frame ++ rest)
            ≡ ok (
              record {
                msg_type = t;
                main_cmd = m;
                sub_cmd = s;
                rpc_call_id = if is_rpc t then r else 0;
                body = body;
              },
              rest,
            ))
  read-pack t m s r body_msg frame rest hm hs hr h =
      let (body, made, fits, is_frame) = packed_frame t m s r body_msg frame h in
      (
        body,
        made,
        ap (λ (f : List ℕ). read_packet (f ++ rest)) is_frame
            ∙ read_packet-frame_of t m s r body rest hm hs hr fits,
      )

damaged :
    (pre post rest : List ℕ) (b b' : ℕ)
    → b < 256
    → b' < 256
    → b' ≢ b
    → sum_from 0 (pre ++ (b ∷ post)) ≡ 0
    → check_payload (pre ++ (b' ∷ post)) rest ≡ err check_code_failed
unfolding check_payload
damaged pre post rest b b' hb hb' apart good =
    let was = sum_from-total 0 (pre ++ (b ∷ post)) (omega arith) in
    let now = sum_from-total 0 (pre ++ (b' ∷ post)) (omega arith) in
    let parts = total-append pre (b ∷ post) in
    let parts' = total-append pre (b' ∷ post) in
    let bad : sum_from 0 (pre ++ (b' ∷ post)) ≢ 0 = λ e. apart (omega arith) in
    let test : (sum_from 0 (pre ++ (b' ∷ post)) == 0) ≡ false = ground arith in rw test refl

module _ {ℓ} {M : Type ℓ} (marshal : M → Option (List ℕ)) where
  -- If one byte behind the length of a frame that PackMessage made is changed, ReadPacket refuses the frame
  -- for its check code, whatever follows in the stream.
  pub read_damaged :
      (t m s r : ℕ) (body_msg : Option M) (l₀ l₁ b b' : ℕ) (pre post rest : List ℕ)
      → pack_message marshal t m s r body_msg ≡ ok (l₀ ∷ l₁ ∷ (pre ++ (b ∷ post)))
      → b < 256
      → b' < 256
      → b' ≢ b
      → read_packet (l₀ ∷ l₁ ∷ ((pre ++ (b' ∷ post)) ++ rest)) ≡ err check_code_failed
  unfolding frame_of
  read_damaged t m s r body_msg l₀ l₁ b b' pre post rest h hb hb' apart =
      let (body, made, fits, is_frame) =
        packed_frame marshal t m s r body_msg (l₀ ∷ l₁ ∷ (pre ++ (b ∷ post))) h in
      let tail = covered t m s r body in
      let whole : List ℕ = check_code (sum_from 0 tail) ∷ tail in
      let same : pre ++ (b ∷ post) ≡ whole = ap (drop 2) is_frame in
      let low : l₀ ≡ payload_len t body % 256 = ap (λ (f : List ℕ). get_or f 0 0) is_frame in
      let high : l₁ ≡ payload_len t body / 256 % 256 = ap (λ (f : List ℕ). get_or f 1 0) is_frame in
      let payload' = pre ++ (b' ∷ post) in
      let size : length payload' ≡ payload_len t body =
        length-append pre (b' ∷ post)
        ∙ sym (length-append pre (b ∷ post))
        ∙ ap length same
        ∙ length-covered t m s r body in
      let long : 6 ≤ length payload' = ground arith in
      let good = ap (sum_from 0) same ∙ checked_sum tail in
      ap (λ (x : ℕ). read_packet (x ∷ l₁ ∷ (payload' ++ rest)))
        (low ∙ ap (λ (n : ℕ). n % 256) (sym size))
      ∙ ap (λ (x : ℕ). read_packet (length payload' % 256 ∷ x ∷ (payload' ++ rest)))
          (high ∙ ap (λ (n : ℕ). n / 256 % 256) (sym size))
      ∙ read_framed payload' rest long (omega arith)
      ∙ damaged pre post rest b b' hb hb' apart good
