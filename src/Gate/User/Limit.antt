-- ===== src/Gate/User/Limit.antt =====
-- src/service/gate/gateuser/gate_user.go: the limit on the requests of a client, and the check of the
-- numbers of a request.
use heli.Common.{
  ℕ, zero, suc, ◌+◌, ◌%◌, ℤ, eqb_ℤ, List, Bool, true, false, not, ltb, leb, get_or, set,
  if◌then◌else◌,
}
use heli.Gate.User.{GateUser, is_seq_greater, update_ack}

abbrev pub client_request_limit : ℕ
client_request_limit = 15

abbrev pub client_burst_limit : ℕ
client_burst_limit = 8

-- In milliseconds.
abbrev pub client_request_window_ms : ℕ
client_request_window_ms = 5000

abbrev pub client_burst_window_ms : ℕ
client_burst_window_ms = 1000

-- The head and the count that are left when the oldest requests have been dropped.
unfoldable pub drop_old : ℕ → List ℕ → ℕ → ℕ → ℕ × ℕ
drop_old now times head zero = (head, zero)
drop_old now times head (suc n) =
    let rest = drop_old now times ((head + 1) % client_request_limit) n in
    if ltb now (get_or times head 0 + client_request_window_ms) then (head, suc n) else rest

-- The rounds of the loop from the newest request on, `n` of which are left: the one at hand is the
-- request with `n - 1` older ones.
unfoldable pub burst_count : ℕ → List ℕ → ℕ → ℕ → ℕ → ℕ
burst_count now times head zero count = count
burst_count now times head (suc n) count =
    let rest = burst_count now times head n (count + 1) in
    if ltb now (
      get_or times ((head + n + client_request_limit) % client_request_limit) 0
      + client_burst_window_ms)
    then rest
    else count

module _ {ℓ} {B : Type ℓ} where
  -- The head and the count are those after the old requests have been dropped.
  unfoldable pub admit : ℕ → GateUser B → Bool × GateUser B
  admit now g =
      if leb client_request_limit g.client_req_count
      then (false, g)
      else if leb client_burst_limit
          (burst_count now g.client_req_times g.client_req_head g.client_req_count 0)
      then (false, g)
      else (let tail = (g.client_req_head + g.client_req_count) % client_request_limit in
          (
            true,
            record g {
              client_req_times = set g.client_req_times tail now;
              client_req_count = g.client_req_count + 1;
            },
          ))

  unfoldable pub try_accept_client_request : ℕ → GateUser B → Bool × GateUser B
  unfolding admit drop_old burst_count
  try_accept_client_request now g =
      let (head, count) = drop_old now g.client_req_times g.client_req_head g.client_req_count in
      admit now (record g { client_req_head = head; client_req_count = count })

pub data SeqError : Type 0 where
  sess_mismatch seq_not_greater user_not_found : SeqError

pub data Checked {ℓ} (A : Type ℓ) : Type ℓ where
  ok : A → Checked A
  err : SeqError → Checked A

module _ {ℓ} {B : Type ℓ} where
  -- At the time `now` in seconds.
  unfoldable pub check_and_update_ack_seq : ℤ → ℕ → ℕ → ℕ → GateUser B → Checked (GateUser B)
  unfolding update_ack is_seq_greater
  check_and_update_ack_seq sess_id cseq cack now g =
      if not (eqb_ℤ g.sess_id sess_id)
      then err sess_mismatch
      else if not (is_seq_greater cseq g.ack)
      then err seq_not_greater
      else ok (update_ack now cseq cack g)

  abbrev pub limited : ℕ → Checked (GateUser B) → Checked (Bool × GateUser B)
  limited now_ms (ok g) =
      let (accepted, g') = try_accept_client_request now_ms g in ok (not accepted, g')
  limited now_ms (err e) = err e

  -- Whether the request is over the limit.
  unfoldable pub check_and_update_seq_ack_and_limit :
      ℤ → ℕ → ℕ → ℕ → ℕ → GateUser B → Checked (Bool × GateUser B)
  unfolding try_accept_client_request check_and_update_ack_seq
  check_and_update_seq_ack_and_limit sess_id cseq cack now now_ms g =
      limited now_ms (check_and_update_ack_seq sess_id cseq cack now g)
