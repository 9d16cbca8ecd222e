-- ===== src/Gate/Users.antt =====
-- src/service/gate/gateuser/gate_user_mgr.go: the table of the users of a gate. Each function is one step:
-- it runs under the table's lock and the user's.
pub mod Sessions
use heli.Common.{
  ℕ, ℤ, pos, ltb_ℤ, leb_ℤ, int_eq, eqb_ℤ, String, List, [], ◌∷◌, Bool, true, false, not, ◌||◌, ◌&&◌,
  Option, none, some, if◌then◌else◌,
}
use heli.Common.Table.{Table, find, insert, erase}
use text.Mathlib.Text.{◌==◌ as str_eq}
use heli.Gate.User.{GateUser, new_gate_user, set_sess_id, set_logout_reason, take_logout_reason}
use heli.Gate.User.Limit.{
  Checked, ok, err, user_not_found, check_and_update_ack_seq, check_and_update_seq_ack_and_limit,
}

pub record GateUserMgr {ℓ} (B : Type ℓ) : Type ℓ where
  pub users : Table ℤ (GateUser B)
  pub no_need_seq_ack_msg_id : Table ℤ (Unit {0})

module _ {ℓ} {B : Type ℓ} where
  unfoldable pub get : ℤ → GateUserMgr B → Option (GateUser B)
  get gamer_id m = find gamer_id m.users

  abbrev pub put : ℤ → GateUser B → GateUserMgr B → GateUserMgr B
  put gamer_id g m = record m { users = insert gamer_id g m.users }

  abbrev pub del : ℤ → GateUserMgr B → GateUserMgr B
  del gamer_id m = record m { users = erase gamer_id m.users }

  unfoldable pub del_by_sess : ℤ → ℤ → GateUserMgr B → Bool × GateUserMgr B
  del_by_sess gamer_id sess_id m = elim (find gamer_id m.users) [
    | none ↦ (false, m)
    | some g ↦ if not (eqb_ℤ g.sess_id sess_id) then (false, m) else (true, del gamer_id m)
  ]

  unfoldable pub del_offline : ℤ → GateUserMgr B → Bool × GateUserMgr B
  del_offline gamer_id m = elim (find gamer_id m.users) [
    | none ↦ (false, m)
    | some g ↦ if not (eqb_ℤ g.sess_id (pos 0)) then (false, m) else (true, del gamer_id m)
  ]

  unfoldable pub clear_sess_by_sess : ℤ → ℤ → GateUserMgr B → Bool × GateUserMgr B
  unfolding set_sess_id
  clear_sess_by_sess gamer_id sess_id m = elim (find gamer_id m.users) [
    | none ↦ (false, m)
    | some g ↦
        if not (eqb_ℤ g.sess_id sess_id)
        then (false, m)
        else (true, put gamer_id (set_sess_id (pos 0) g) m)
  ]

  unfoldable pub replace_sess : ℤ → ℤ → ℤ → GateUserMgr B → Bool × GateUserMgr B
  unfolding set_sess_id
  replace_sess gamer_id sess_id new_sess_id m = elim (find gamer_id m.users) [
    | none ↦ (false, m)
    | some g ↦
        if not (eqb_ℤ g.sess_id sess_id) && not (eqb_ℤ g.sess_id (pos 0))
        then (false, m)
        else (true, put gamer_id (set_sess_id new_sess_id g) m)
  ]

  unfoldable pub mgr_set_logout_reason : ℤ → ℤ → String → GateUserMgr B → GateUserMgr B
  unfolding set_logout_reason
  mgr_set_logout_reason gamer_id sess_id reason m =
      if leb_ℤ gamer_id (pos 0) || (leb_ℤ sess_id (pos 0) || str_eq reason "")
      then m
      else (elim (find gamer_id m.users) [
        | none ↦ m
        | some g ↦ put gamer_id (set_logout_reason sess_id reason g) m
      ])

  unfoldable pub mgr_take_logout_reason : ℤ → ℤ → GateUserMgr B → String × GateUserMgr B
  unfolding take_logout_reason
  mgr_take_logout_reason gamer_id sess_id m =
      if leb_ℤ gamer_id (pos 0) || leb_ℤ sess_id (pos 0)
      then ("", m)
      else (elim (find gamer_id m.users) [
        | none ↦ ("", m)
        | some g ↦ let (reason, g') = take_logout_reason sess_id g in (reason, put gamer_id g' m)
      ])

  unfoldable pub need_set_ack_seq : ℤ → GateUserMgr B → Bool
  need_set_ack_seq msg_id m = elim (find msg_id m.no_need_seq_ack_msg_id) [
    | none ↦ true
    | some _ ↦ false
  ]

  unfoldable pub set_no_need_seq_ack_msg_id : ℤ → GateUserMgr B → GateUserMgr B
  set_no_need_seq_ack_msg_id msg_id m = record m {
    no_need_seq_ack_msg_id = insert msg_id tt m.no_need_seq_ack_msg_id;
  }

  unfoldable pub del_gate_user : ℤ → GateUserMgr B → Option (GateUser B) × GateUserMgr B
  del_gate_user gamer_id m = (find gamer_id m.users, del gamer_id m)

  abbrev pub checked_user : ℤ → GateUserMgr B → Checked (GateUser B) → Checked (GateUserMgr B)
  checked_user gamer_id m (ok g) = ok (put gamer_id g m)
  checked_user gamer_id m (err e) = err e

  unfoldable pub check_and_update_seq_ack :
      ℤ → ℤ → ℕ → ℕ → ℕ → GateUserMgr B → Checked (GateUserMgr B)
  unfolding check_and_update_ack_seq
  check_and_update_seq_ack gamer_id sess_id cseq cack now m = elim (find gamer_id m.users) [
    | none ↦ err user_not_found
    | some g ↦ checked_user gamer_id m (check_and_update_ack_seq sess_id cseq cack now g)
  ]

  abbrev pub limited_user :
      ℤ → GateUserMgr B → Checked (Bool × GateUser B) → Checked (Bool × GateUserMgr B)
  limited_user gamer_id m (ok (over, g)) = ok (over, put gamer_id g m)
  limited_user gamer_id m (err e) = err e

  unfoldable pub mgr_check_seq_ack_and_limit :
      ℤ → ℤ → ℕ → ℕ → ℕ → ℕ → GateUserMgr B → Checked (Bool × GateUserMgr B)
  unfolding check_and_update_seq_ack_and_limit
  mgr_check_seq_ack_and_limit gamer_id sess_id cseq cack now now_ms m =
      elim (find gamer_id m.users) [
        | none ↦ err user_not_found
        | some g ↦
            limited_user gamer_id m
              (check_and_update_seq_ack_and_limit sess_id cseq cack now now_ms g)
      ]

  -- The reasons that wait are kept when a user starts afresh.
  unfoldable pub add_gate_user : ℤ → ℤ → Bool → GateUserMgr B → GateUser B × GateUserMgr B
  unfolding new_gate_user
  add_gate_user gamer_id sess_id force_init m =
      let fresh = new_gate_user B gamer_id sess_id in
      elim (find gamer_id m.users) [
        | none ↦ (fresh, put gamer_id fresh m)
        | some g ↦
            if not force_init
            then (g, m)
            else (let renewed = record fresh { logout_reasons = g.logout_reasons } in
                (renewed, put gamer_id renewed m))
      ]

  unfoldable pub sessions_of : Table ℤ (GateUser B) → Table ℤ ℤ
  sessions_of [] = []
  sessions_of ((gamer_id, g) ∷ users) =
      let rest = sessions_of users in
      if leb_ℤ g.sess_id (pos 0) then rest else insert gamer_id g.sess_id rest

  unfoldable pub online_sessions : GateUserMgr B → Table ℤ ℤ
  unfolding sessions_of
  online_sessions m = sessions_of m.users
