-- ===== src/Gate/User.antt =====
-- src/service/gate/gateuser/gate_user.go: a user of the gate. Clock readings are numbers of seconds or
-- of milliseconds since 1970, and `a - b < c` of two readings is written `a < b + c`.
pub mod Limit
pub mod Window
pub mod Requests
pub mod Serial
pub mod Resend
use heli.Common.{
  ℕ, zero, suc, ◌+◌, ◌-◌, ◌^◌, ◌%◌, ℤ, pos, ltb_ℤ, leb_ℤ, int_eq, eqb_ℤ, add32, String, List, [],
  ◌∷◌, ◌++◌, Bool, true, false, not, ◌&&◌, ◌||◌, Option, none, some, ltb, leb, length,
  if◌then◌else◌,
}
use heli.Common.Table.{Table, find, insert, erase}
use text.Mathlib.Text.{◌==◌ as str_eq}

-- A message with its head, `B` for what else it holds.
pub record Message {ℓ} (B : Type ℓ) : Type ℓ where
  pub seq : ℕ
  pub ack : ℕ
  pub need_ack : Bool
  pub body : B

pub record SendMessageInfo {ℓ} (B : Type ℓ) : Type ℓ where
  pub send_time : ℕ
  pub message : Message B

pub record GateUser {ℓ} (B : Type ℓ) : Type ℓ where
  pub gamer_id : ℤ
  pub seq : ℕ
  pub ack : ℕ
  pub send_queue : List (SendMessageInfo B)
  pub sess_id : ℤ
  pub logout_reasons : Table ℤ String
  pub recent_reconnects : List ℕ
  pub reconnect_count : ℤ
  pub client_req_head : ℕ
  pub client_req_count : ℕ
  pub client_req_times : List ℕ

-- `common.GATE_CACHE_USER_TIME`, in seconds.
abbrev pub gate_cache_user_time : ℕ
gate_cache_user_time = 60

abbrev reconnect_short_window_sec : ℕ
reconnect_short_window_sec = 60

abbrev reconnect_short_window_max : ℕ
reconnect_short_window_max = 5

abbrev token_used_max_times : ℤ
token_used_max_times = pos 10

abbrev pub zero_times : List ℕ
zero_times = 0 ∷ 0 ∷ 0 ∷ 0 ∷ 0 ∷ 0 ∷ 0 ∷ 0 ∷ 0 ∷ 0 ∷ 0 ∷ 0 ∷ 0 ∷ 0 ∷ 0 ∷ []

unfoldable pub new_gate_user {ℓ} : (B : Type ℓ) → ℤ → ℤ → GateUser B
new_gate_user B gamer_id sess_id = record {
  gamer_id = gamer_id;
  seq = 0;
  ack = 0;
  send_queue = [];
  sess_id = sess_id;
  logout_reasons = [];
  recent_reconnects = [];
  reconnect_count = pos 0;
  client_req_head = 0;
  client_req_count = 0;
  client_req_times = zero_times;
}

-- On numbers below 2 ^ 16.
unfoldable pub is_seq_greater : ℕ → ℕ → Bool
is_seq_greater s₁ s₂ = (ltb s₂ s₁ && ltb (s₁ - s₂) 32768) || (ltb s₁ s₂ && ltb 32768 (s₂ - s₁))

-- The readings within the window before `now`.
unfoldable pub recent : ℕ → List ℕ → List ℕ
recent now [] = []
recent now (t ∷ ts) =
    let rest = recent now ts in if ltb now (t + reconnect_short_window_sec) then t ∷ rest else rest

abbrev reason_or_empty : Option String → String
reason_or_empty none = ""
reason_or_empty (some reason) = reason

module _ {ℓ} {B : Type ℓ} where
  unfoldable pub inc_seq_and_pull_ack : GateUser B → (ℕ × ℕ) × GateUser B
  inc_seq_and_pull_ack g = let seq = (g.seq + 1) % 2 ^ 16 in ((seq, g.ack), record g { seq = seq })

  abbrev pub is_stale : ℕ → SendMessageInfo B → Bool
  is_stale now m = ltb (m.send_time + gate_cache_user_time) now

  -- The messages at the front that are too old are dropped.
  unfoldable pub drop_stale : ℕ → List (SendMessageInfo B) → List (SendMessageInfo B)
  drop_stale now [] = []
  drop_stale now (m ∷ q) = let rest = drop_stale now q in if is_stale now m then rest else m ∷ q

  unfoldable pub add_send_message : ℕ → Message B → GateUser B → GateUser B
  unfolding drop_stale
  add_send_message now msg g =
      let queue = g.send_queue ++ (record { send_time = now; message = msg } ∷ []) in
      record g { send_queue = drop_stale now queue }

  -- Those at the front that the client has acknowledged, or that are too old, are dropped.
  unfoldable pub drop_acked : ℕ → ℕ → List (SendMessageInfo B) → List (SendMessageInfo B)
  drop_acked now cack [] = []
  drop_acked now cack (m ∷ q) =
      let rest = drop_acked now cack q in
      if is_seq_greater cack (m.message.seq % 2 ^ 16) || is_stale now m then rest else m ∷ q

  unfoldable pub update_ack : ℕ → ℕ → ℕ → GateUser B → GateUser B
  unfolding drop_acked is_seq_greater
  update_ack now cseq cack g = record g {
    ack = cseq;
    send_queue = drop_acked now cack g.send_queue;
  }

  unfoldable pub can_reconnect : ℕ → GateUser B → Bool × GateUser B
  unfolding recent
  can_reconnect now g =
      let g₁ = record g { reconnect_count = add32 g.reconnect_count (pos 1) } in
      if ltb_ℤ token_used_max_times g₁.reconnect_count
      then (false, g₁)
      else (let g₂ = record g₁ { recent_reconnects = g.recent_reconnects ++ (now ∷ []) } in
          (not (leb reconnect_short_window_max (length (recent now g₂.recent_reconnects))), g₂))

  unfoldable pub match_sess_id : ℤ → GateUser B → Bool
  match_sess_id sess_id g = eqb_ℤ g.sess_id sess_id

  unfoldable pub set_sess_id : ℤ → GateUser B → GateUser B
  set_sess_id sess_id g = record g { sess_id = sess_id }

  unfoldable pub set_logout_reason : ℤ → String → GateUser B → GateUser B
  set_logout_reason sess_id reason g =
      if leb_ℤ sess_id (pos 0) || str_eq reason ""
      then g
      else record g { logout_reasons = insert sess_id reason g.logout_reasons }

  unfoldable pub take_logout_reason : ℤ → GateUser B → String × GateUser B
  take_logout_reason sess_id g = if leb_ℤ sess_id (pos 0) then ("", g) else (
    reason_or_empty (find sess_id g.logout_reasons),
    record g { logout_reasons = erase sess_id g.logout_reasons },
  )

  unfoldable pub add_send_message_seq_ack : ℤ → ℕ → Message B → GateUser B → Bool × GateUser B
  unfolding inc_seq_and_pull_ack add_send_message
  add_send_message_seq_ack sess_id now msg g =
      if not (eqb_ℤ g.sess_id sess_id)
      then (false, g)
      else (let ((seq, ack), g₁) = inc_seq_and_pull_ack g in
          (true, add_send_message now (record msg { seq = seq; ack = ack; need_ack = true }) g₁))

  -- What is sent again over the new connection, in this order.
  unfoldable pub resend : ℕ → List (SendMessageInfo B) → List (Message B)
  resend req_ack [] = []
  resend req_ack (m ∷ q) =
      let rest = resend req_ack q in
      if is_seq_greater (m.message.seq % 2 ^ 16) req_ack then m.message ∷ rest else rest

  unfoldable pub resend_unack_messages : ℕ → GateUser B → List (Message B)
  unfolding resend is_seq_greater
  resend_unack_messages req_ack g = resend req_ack g.send_queue
