-- ===== src/Gate/User/Resend.antt =====
-- src/service/gate/gateuser/gate_user.go: the queue of messages that wait for an acknowledgement.
use heli.Common.{
  ℕ, zero, suc, ◌+◌, ◌%◌, ◌^◌, ◌≤◌, ◌-◌, ◌<◌, leb, leb_ℤ, pos, String, List, [], ◌∷◌, ◌++◌, map,
  Bool, true, ◌||◌, ◌≡◌, refl, sym, ap, ◌∙◌, subst, inl, inr, arith, Bool-cases, length, drop, ℤ,
  eqb_ℤ,
}
use heli.Gate.User.{
  Message, SendMessageInfo, GateUser, new_gate_user, is_seq_greater, is_stale, drop_stale,
  drop_acked, add_send_message_seq_ack, resend, resend_unack_messages, can_reconnect, set_sess_id,
  set_logout_reason, take_logout_reason,
}
use heli.Gate.User.Limit.{
  check_and_update_seq_ack_and_limit, check_and_update_ack_seq, Checked, ok, err,
  try_accept_client_request, admit, drop_old, burst_count, limited,
}
use text.Mathlib.Text.{◌==◌ as str_eq}
use heli.Gate.User.Serial.{ahead, not_ahead}

module _ {ℓ} {B : Type ℓ} where
  -- The numbers of the messages follow one another, from the one after `s` to `e`.
  abbrev pub Follows : ℕ → List (SendMessageInfo B) → ℕ → Type 0
  Follows s [] e = s % 2 ^ 16 ≡ e
  Follows s (m ∷ q) e = (m.message.seq ≡ (s + 1) % 2 ^ 16) × Follows (s + 1) q e

  -- The queue ends with the last number that was given out.
  abbrev InOrder : GateUser B → Type 0
  InOrder g = (s : ℕ) × Follows s g.send_queue g.seq

  Follows-snoc :
      (s e : ℕ) (q : List (SendMessageInfo B)) (m : SendMessageInfo B)
      → Follows s q e
      → m.message.seq ≡ (e + 1) % 2 ^ 16
      → Follows s (q ++ (m ∷ [])) ((e + 1) % 2 ^ 16)
  Follows-snoc s e [] m f h =
      let e' : (e + 1) % 2 ^ 16 ≡ (s + 1) % 2 ^ 16 = omega arith in (h ∙ e', sym e')
  Follows-snoc s e (x ∷ q) m (here, f) h = (here, Follows-snoc (s + 1) e q m f h)

  drop_stale-Follows :
      (now s e : ℕ) (q : List (SendMessageInfo B))
      → Follows s q e
      → (s' : ℕ) × Follows s' (drop_stale now q) e
  unfolding drop_stale
  drop_stale-Follows now s e [] f = (s, f)
  drop_stale-Follows now s e (m ∷ q) (here, f) = elim (Bool-cases (is_stale now m)) [
    | inl old ↦ rw old (drop_stale-Follows now (s + 1) e q f)
    | inr fresh ↦ rw fresh (s, (here, f))
  ]

  drop_acked-Follows :
      (now cack s e : ℕ) (q : List (SendMessageInfo B))
      → Follows s q e
      → (s' : ℕ) × Follows s' (drop_acked now cack q) e
  unfolding drop_acked
  drop_acked-Follows now cack s e [] f = (s, f)
  drop_acked-Follows now cack s e (m ∷ q) (here, f) =
      elim (Bool-cases (is_seq_greater cack (m.message.seq % 2 ^ 16) || is_stale now m)) [
        | inl gone ↦ rw gone (drop_acked-Follows now cack (s + 1) e q f)
        | inr left ↦ rw left (s, (here, f))
      ]

  resend_none :
      (s i j : ℕ) (q : List (SendMessageInfo B)) (e : ℕ)
      → Follows (s + j) q e
      → i ≤ j
      → j + length q < i + 2 ^ 15
      → resend ((s + i) % 2 ^ 16) q ≡ map (λ m. m.message) q
  unfolding resend
  resend_none s i j [] e f le short = refl
  resend_none s i j (m ∷ q) e (here, f) le short =
      let at_hand : m.message.seq % 2 ^ 16 ≡ (s + (j + 1)) % 2 ^ 16 = omega arith in
      let up = ahead s i (j + 1) (omega arith) (omega arith) in
      let f' : Follows (s + (j + 1)) q e =
        subst (λ (k : ℕ). Follows k q e) {x = s + j + 1} {y = s + (j + 1)} (omega arith) f in
      rw (at_hand, up)
        (ap (◌∷◌ m.message) (resend_none s i (j + 1) q e f' (omega arith) (omega arith)))

  resend_from :
      (s i j : ℕ) (q : List (SendMessageInfo B)) (e n : ℕ)
      → Follows (s + j) q e
      → i ≡ j + n
      → n ≤ length q
      → length q < 2 ^ 15
      → resend ((s + i) % 2 ^ 16) q ≡ map (λ m. m.message) (drop n q)
  unfolding resend
  resend_from s i j q e zero f at le short = resend_none s i j q e f (omega arith) (omega arith)
  resend_from s i j [] e (suc n) f at le short = absurd (omega arith)
  resend_from s i j (m ∷ q) e (suc n) (here, f) at le short =
      let at_hand : m.message.seq % 2 ^ 16 ≡ (s + (j + 1)) % 2 ^ 16 = omega arith in
      let down = not_ahead s i (j + 1) (omega arith) (omega arith) in
      let f' : Follows (s + (j + 1)) q e =
        subst (λ (k : ℕ). Follows k q e) {x = s + j + 1} {y = s + (j + 1)} (omega arith) f in
      rw (at_hand, down)
        (resend_from s i (j + 1) q e n f' (omega arith) (omega arith) (omega arith))

  Follows-end :
      (s e : ℕ) (q : List (SendMessageInfo B)) → Follows s q e → e ≡ (s + length q) % 2 ^ 16
  Follows-end s e [] f = let e' : s % 2 ^ 16 ≡ e = f in omega arith
  Follows-end s e (m ∷ q) (here, f) = omega (arith, Follows-end (s + 1) e q f)

-- What happens to a user of the gate; a check that fails leaves it as it was.
pub data UserCall {ℓ} (B : Type ℓ) : Type ℓ where
  send : ℤ → ℕ → Message B → UserCall B
  client_request : ℤ → ℕ → ℕ → ℕ → ℕ → UserCall B
  check_seq : ℤ → ℕ → ℕ → ℕ → UserCall B
  try_accept : ℕ → UserCall B
  reconnect : ℕ → UserCall B
  set_sess : ℤ → UserCall B
  set_reason : ℤ → String → UserCall B
  take_reason : ℤ → UserCall B

module _ {ℓ} {B : Type ℓ} where
  abbrev left : GateUser B → Checked (GateUser B) → GateUser B
  left g (ok g') = g'
  left g (err e) = g

  abbrev left_limited : GateUser B → Checked (Bool × GateUser B) → GateUser B
  left_limited g (ok (limited, g')) = g'
  left_limited g (err e) = g

  abbrev pub call : UserCall B → GateUser B → GateUser B
  call (send sess_id now msg) g = (add_send_message_seq_ack sess_id now msg g).1
  call (client_request sess_id cseq cack now now_ms) g =
      left_limited g (check_and_update_seq_ack_and_limit sess_id cseq cack now now_ms g)
  call (check_seq sess_id cseq cack now) g =
      left g (check_and_update_ack_seq sess_id cseq cack now g)
  call (try_accept now) g = (try_accept_client_request now g).1
  call (reconnect now) g = (can_reconnect now g).1
  call (set_sess sess_id) g = set_sess_id sess_id g
  call (set_reason sess_id reason) g = set_logout_reason sess_id reason g
  call (take_reason sess_id) g = (take_logout_reason sess_id g).1

  abbrev pub calls : List (UserCall B) → GateUser B → GateUser B
  calls [] g = g
  calls (c ∷ cs) g = calls cs (call c g)

  try_accept-InOrder :
      (now : ℕ) (g : GateUser B) → InOrder g → InOrder (try_accept_client_request now g).1
  unfolding try_accept_client_request admit
  try_accept-InOrder now g f =
      let (head, n) = drop_old now g.client_req_times g.client_req_head g.client_req_count in
      elim (Bool-cases (leb 15 n)) [
        | inl full ↦ rw full f
        | inr room ↦ elim (Bool-cases (leb 8 (burst_count now g.client_req_times head n 0))) [
          | inl fast ↦ rw (room, fast) f
          | inr slow ↦ rw (room, slow) f
        ]
      ]

  checked-InOrder :
      (sess_id : ℤ) (cseq cack now : ℕ) (g : GateUser B)
      → InOrder g
      → InOrder (left g (check_and_update_ack_seq sess_id cseq cack now g))
  unfolding check_and_update_ack_seq
  checked-InOrder sess_id cseq cack now g f = elim (Bool-cases (eqb_ℤ g.sess_id sess_id)) [
    | inr other ↦ rw other f
    | inl same ↦ elim (Bool-cases (is_seq_greater cseq g.ack)) [
      | inr old ↦ rw (same, old) f
      | inl new ↦ rw (same, new) (drop_acked-Follows now cack f.0 g.seq g.send_queue f.1)
    ]
  ]

  limited-InOrder :
      (now_ms : ℕ) (g : GateUser B) (c : Checked (GateUser B))
      → InOrder (left g c)
      → InOrder (left_limited g (limited now_ms c))
  limited-InOrder now_ms g (ok g') f = try_accept-InOrder now_ms g' f
  limited-InOrder now_ms g (err e) f = f

  sent-InOrder :
      (sess_id : ℤ) (now : ℕ) (msg : Message B) (g : GateUser B)
      → InOrder g
      → InOrder (add_send_message_seq_ack sess_id now msg g).1
  unfolding add_send_message_seq_ack
  sent-InOrder sess_id now msg g f = elim (Bool-cases (eqb_ℤ g.sess_id sess_id)) [
    | inr other ↦ rw other f
    | inl same ↦
        let m : SendMessageInfo B = record {
          send_time = now;
          message = record msg { seq = (g.seq + 1) % 2 ^ 16; ack = g.ack; need_ack = true };
        } in
        rw same (
          drop_stale-Follows now f.0 ((g.seq + 1) % 2 ^ 16) (g.send_queue ++ (m ∷ []))
            (Follows-snoc f.0 g.seq g.send_queue m f.1 refl))
  ]

  reconnect-InOrder : (now : ℕ) (g : GateUser B) → InOrder g → InOrder (can_reconnect now g).1
  reconnect-InOrder now g f =
      let g' = (can_reconnect now g).1 in
      let queue : g'.send_queue ≡ g.send_queue = unfold can_reconnect in ground arith in
      let number : g'.seq ≡ g.seq = unfold can_reconnect in ground arith in rw (queue, number) f

  reason-InOrder :
      (sess_id : ℤ) (g : GateUser B) → InOrder g → InOrder (take_logout_reason sess_id g).1
  reason-InOrder sess_id g f =
      let g' = (take_logout_reason sess_id g).1 in
      let queue : g'.send_queue ≡ g.send_queue = unfold take_logout_reason in ground arith in
      let number : g'.seq ≡ g.seq = unfold take_logout_reason in ground arith in
      rw (queue, number) f

  call-InOrder : (c : UserCall B) (g : GateUser B) → InOrder g → InOrder (call c g)
  unfolding check_and_update_seq_ack_and_limit set_sess_id set_logout_reason
  call-InOrder (send sess_id now msg) g f = sent-InOrder sess_id now msg g f
  call-InOrder (client_request sess_id cseq cack now now_ms) g f =
      limited-InOrder now_ms g (check_and_update_ack_seq sess_id cseq cack now g)
        (checked-InOrder sess_id cseq cack now g f)
  call-InOrder (check_seq sess_id cseq cack now) g f = checked-InOrder sess_id cseq cack now g f
  call-InOrder (try_accept now) g f = try_accept-InOrder now g f
  call-InOrder (reconnect now) g f = reconnect-InOrder now g f
  call-InOrder (set_sess sess_id) g f = f
  call-InOrder (set_reason sess_id reason) g f =
      elim (Bool-cases (leb_ℤ sess_id (pos 0) || str_eq reason "")) [
        | inl none_given ↦ rw none_given f
        | inr given ↦ rw given f
      ]
  call-InOrder (take_reason sess_id) g f = reason-InOrder sess_id g f

  calls-InOrder : (cs : List (UserCall B)) (g : GateUser B) → InOrder g → InOrder (calls cs g)
  calls-InOrder [] g f = f
  calls-InOrder (c ∷ cs) g f = calls-InOrder cs (call c g) (call-InOrder c g f)

  -- After any calls on a new user of the gate, if fewer than 2 ^ 15 messages wait: to a client that has
  -- got all but the last `lacks` of those that wait, and so acknowledges the number that lies `lacks`
  -- before the last one given out, exactly these last messages are sent again, in their order.
  pub resend_exact :
      (gamer_id sess_id : ℤ) (cs : List (UserCall B)) (lacks : ℕ)
      → length (calls cs (new_gate_user B gamer_id sess_id)).send_queue < 2 ^ 15
      → lacks ≤ length (calls cs (new_gate_user B gamer_id sess_id)).send_queue
      → (let g = calls cs (new_gate_user B gamer_id sess_id) in
          resend_unack_messages ((g.seq + 2 ^ 16 - lacks) % 2 ^ 16) g
          ≡ map (λ m. m.message) (drop (length g.send_queue - lacks) g.send_queue))
  unfolding new_gate_user resend_unack_messages
  resend_exact gamer_id sess_id cs lacks short le =
      let g = calls cs (new_gate_user B gamer_id sess_id) in
      let (s, f) = calls-InOrder cs (new_gate_user B gamer_id sess_id) (0, refl) in
      let q = g.send_queue in
      let n = length q - lacks in
      let last = Follows-end s g.seq q f in
      let asked : (g.seq + 2 ^ 16 - lacks) % 2 ^ 16 ≡ (s + n) % 2 ^ 16 = omega arith in
      let f' : Follows (s + 0) q g.seq =
        subst (λ (k : ℕ). Follows k q g.seq) {x = s} {y = s + 0} (omega arith) f in
      ap (λ (a : ℕ). resend a q) asked
      ∙ resend_from s n 0 q g.seq n f' (omega arith) (omega arith) short
