-- ===== src/Gate/GateTests.antt =====
-- Runs of a gate user, and the theorems at concrete inputs.
use heli.Common.{
  ℕ, ◌+◌, ◌-◌, ◌%◌, ◌^◌, ◌≤◌, pos, List, [], ◌∷◌, map, true, false, ◌≡◌, refl, arith, length, drop,
  eqb_ℤ, ap, pos_part,
}
use heli.Common.Table.{insert, find}
use heli.Gate.User.{
  GateUser, Message, new_gate_user, resend_unack_messages, add_send_message_seq_ack,
}
use heli.Gate.User.Limit.{try_accept_client_request, err, sess_mismatch}
use heli.Gate.User.Requests.{
  answers, accepted_times, window_answers, within, answers_exact, accepted_bounded,
}
use heli.Gate.User.Resend.{UserCall, calls, send, resend_exact}
use heli.Gate.Users.{
  GateUserMgr, replace_sess, del_by_sess, clear_sess_by_sess, check_and_update_seq_ack,
  mgr_check_seq_ack_and_limit,
}
use heli.Gate.Users.Sessions.{replaced_session_harmless}

abbrev newcomer : GateUser (Unit {0})
newcomer = new_gate_user (Unit {0}) (pos 7) (pos 70)

-- Eight at once, a ninth that is too fast, and one a second later.
abbrev clicks : List ℕ
clicks = 10 ∷ 10 ∷ 10 ∷ 10 ∷ 10 ∷ 10 ∷ 10 ∷ 10 ∷ 11 ∷ 1010 ∷ []

answers-clicks :
    answers newcomer clicks
    ≡ true ∷ true ∷ true ∷ true ∷ true ∷ true ∷ true ∷ true ∷ false ∷ true ∷ []
unfolding new_gate_user try_accept_client_request
answers-clicks = refl

answers_exact_example : answers newcomer clicks ≡ window_answers [] clicks
answers_exact_example = answers_exact (Unit {0}) (pos 7) (pos 70) clicks (omega arith)

accepted_bounded_example :
    (within 5000 10 (accepted_times newcomer [] clicks) ≤ 15)
    × (within 1000 10 (accepted_times newcomer [] clicks) ≤ 8)
accepted_bounded_example = accepted_bounded (Unit {0}) (pos 7) (pos 70) clicks 10 (omega arith)

abbrev hello : Message (Unit {0})
hello = record { seq = 0; ack = 0; need_ack = false; body = tt }

abbrev three_sent : List (UserCall (Unit {0}))
three_sent = send (pos 70) 100 hello ∷ send (pos 70) 101 hello ∷ send (pos 70) 102 hello ∷ []

three_wait : length (calls three_sent newcomer).send_queue ≡ 3
unfolding new_gate_user add_send_message_seq_ack eqb_ℤ
three_wait = refl

resend_exact_example :
    resend_unack_messages
      (((calls three_sent newcomer).seq + 2 ^ 16 - 2) % 2 ^ 16)
      (calls three_sent newcomer)
    ≡ map
        (λ m. m.message)
        (drop
          (length (calls three_sent newcomer).send_queue - 2)
          (calls three_sent newcomer).send_queue)
resend_exact_example =
    resend_exact (pos 7) (pos 70) three_sent 2 (rw three_wait (omega arith))
      (rw three_wait (omega arith))

abbrev gate : GateUserMgr (Unit {0})
gate = record { users = (pos 7, newcomer) ∷ []; no_need_seq_ack_msg_id = [] }

abbrev gate_after : GateUserMgr (Unit {0})
gate_after = record gate { users = (pos 7, record newcomer { sess_id = pos 71 }) ∷ [] }

replaced : replace_sess (pos 7) (pos 70) (pos 71) gate ≡ (true, gate_after)
unfolding replace_sess find insert new_gate_user eqb_ℤ
replaced = refl

replaced_session_harmless_example :
    (del_by_sess (pos 7) (pos 70) gate_after ≡ (false, gate_after))
    × (clear_sess_by_sess (pos 7) (pos 70) gate_after ≡ (false, gate_after))
    × (check_and_update_seq_ack (pos 7) (pos 70) 1 0 100 gate_after ≡ err sess_mismatch)
    × (mgr_check_seq_ack_and_limit (pos 7) (pos 70) 1 0 100 200 gate_after ≡ err sess_mismatch)
replaced_session_harmless_example =
    replaced_session_harmless (pos 7) (pos 70) (pos 71) 1 0 100 200 gate gate_after
      (λ e. omega (arith, ap pos_part e)) replaced
