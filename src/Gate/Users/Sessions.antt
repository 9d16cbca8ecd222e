-- ===== src/Gate/Users/Sessions.antt =====
-- src/service/gate/gateuser/gate_user_mgr.go: what a connection that was replaced can still do.
use heli.Common.{
  ℕ, ℤ, true, false, some, ◌≡◌, ◌≢◌, refl, ap, ◌∙◌, inl, inr, arith, Option-cases, eqb_ℤ, int_eq,
}
use heli.Common.Keys.{beq_ne}
use heli.Common.Table.{find, insert, find-insert_self}
use heli.Gate.User.{GateUser}
use heli.Gate.User.Limit.{
  err, sess_mismatch, check_and_update_ack_seq, check_and_update_seq_ack_and_limit,
}
use heli.Gate.Users.{
  GateUserMgr, replace_sess, del_by_sess, clear_sess_by_sess, check_and_update_seq_ack,
  mgr_check_seq_ack_and_limit,
}

module _ {ℓ} {B : Type ℓ} where
  -- With a session that is not the user's, the user is not removed, its session is not cleared, and a request
  -- is not accepted, with or without the limit.
  stale_lem :
      (gamer_id sess_id : ℤ) (cseq cack now now_ms : ℕ) (m : GateUserMgr B) (g : GateUser B)
      → find gamer_id m.users ≡ some g
      → eqb_ℤ g.sess_id sess_id ≡ false
      → (del_by_sess gamer_id sess_id m ≡ (false, m))
        × (clear_sess_by_sess gamer_id sess_id m ≡ (false, m))
        × (check_and_update_seq_ack gamer_id sess_id cseq cack now m ≡ err sess_mismatch)
        × (mgr_check_seq_ack_and_limit gamer_id sess_id cseq cack now now_ms m ≡ err sess_mismatch)
  unfolding del_by_sess clear_sess_by_sess check_and_update_seq_ack mgr_check_seq_ack_and_limit
      check_and_update_seq_ack_and_limit
  stale_lem gamer_id sess_id cseq cack now now_ms m g h other =
      (ground arith, ground arith, ground (arith, refused), ground (arith, limit_refused))
    where
      refused : check_and_update_ack_seq sess_id cseq cack now g ≡ err sess_mismatch
      refused = unfold check_and_update_ack_seq in rw other refl

      limit_refused :
          check_and_update_seq_ack_and_limit sess_id cseq cack now now_ms g ≡ err sess_mismatch
      limit_refused = unfold check_and_update_seq_ack_and_limit in rw refused refl

  replaced_user :
      (gamer_id old_sess new_sess : ℤ) (m m' : GateUserMgr B)
      → replace_sess gamer_id old_sess new_sess m ≡ (true, m')
      → (g : GateUser B) × (find gamer_id m'.users ≡ some g) × (g.sess_id ≡ new_sess)
  unfolding replace_sess
  replaced_user gamer_id old_sess new_sess m m' h = elim (Option-cases (find gamer_id m.users)) [
    | inl missing ↦ absurd (ground arith)
    | inr (g, there) ↦
        let g' : GateUser B = record g { sess_id = new_sess } in
        let next : m' ≡ record m { users = insert gamer_id g' m.users } = ground arith in
        (
          g',
          ap (λ (t : GateUserMgr B). find gamer_id t.users) next
              ∙ find-insert_self gamer_id g' m.users,
          refl,
        )
  ]

  -- Once the session of a user has been replaced by another: a request of the old session is refused for its
  -- session, by the check with the limit, which client requests go through, and by the one without; and
  -- neither DelBySess nor ClearSessBySess with the old session changes anything, so that the end of the old
  -- connection neither removes the user nor clears the new session.
  pub replaced_session_harmless :
      (gamer_id old_sess new_sess : ℤ) (cseq cack now now_ms : ℕ) (m m' : GateUserMgr B)
      → new_sess ≢ old_sess
      → replace_sess gamer_id old_sess new_sess m ≡ (true, m')
      → (del_by_sess gamer_id old_sess m' ≡ (false, m'))
        × (clear_sess_by_sess gamer_id old_sess m' ≡ (false, m'))
        × (check_and_update_seq_ack gamer_id old_sess cseq cack now m' ≡ err sess_mismatch)
        × (mgr_check_seq_ack_and_limit gamer_id old_sess cseq cack now now_ms m'
            ≡ err sess_mismatch)
  replaced_session_harmless gamer_id old_sess new_sess cseq cack now now_ms m m' apart h =
      let (g, there, new) = replaced_user gamer_id old_sess new_sess m m' h in
      stale_lem gamer_id old_sess cseq cack now now_ms m' g there
        (rw new (beq_ne ⦃e = int_eq⦄ new_sess old_sess apart))
