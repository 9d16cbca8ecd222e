-- ===== src/Battle/Server/State.antt =====
-- src/service/battle/battleapp: the state of a battle server, its requests and its responses.
use heli.Common.{◌≡◌, ◌⊎◌, inl, inr, refl, ℤ, Bool, String, List, Option, int_eq, string_eq}
use heli.Common.Table.{Table}
use heli.Battle.Types.{Room, Settlement}
use heli.Battle.Proto.{BattleDeltaNtf}

-- A value, or the text of an error.
pub data Try {ℓ} (A : Type ℓ) : Type ℓ where
  given : A → Try A
  denied : String → Try A

pub Try-cases {ℓ} :
    {A : Type ℓ} (t : Try A)
    → ((message : String) × (t ≡ denied message)) ⊎ ((a : A) × (t ≡ given a))
Try-cases (given a) = inr (a, refl)
Try-cases (denied message) = inl (message, refl)

-- `loop` is nil, or holds whether its `settleOnce` has run.
pub record BattleRoom : Type 0 where
  pub id : String
  pub player_ids : List ℤ
  pub room : Room
  pub allowed_token : String
  pub joined_sess : Table ℤ ℤ
  pub loop : Option Bool
  pub settle_acked : Bool
  pub settle_ack_message : String
  pub last_settlement : Option Settlement
  pub last_settlement_err : String

-- A message to a session and its player.
pub record Packet : Type 0 where
  pub sess_id : ℤ
  pub player_id : ℤ
  pub body : BattleDeltaNtf

-- `settling` are the rooms whose settlement has been started and not yet looked at; `awaiting` those
-- whose settlement has been sent and not been answered; `reports` is all that was sent to logic.
pub record BattleSvr : Type 0 where
  pub rooms : Table String BattleRoom
  pub sent : List Packet
  pub settling : List String
  pub awaiting : List String
  pub reports : List Settlement

pub data ServerCode : Type 0 where
  success request_params session_invalid failed : ServerCode

pub data BattleOp : Type 0 where
  build_op reroll_op : Option ℤ → BattleOp
  merge_op : Option (ℤ × ℤ) → BattleOp
  buy_op other_op : BattleOp

pub record OpRsp : Type 0 where
  pub code : ServerCode
  pub message : String
  pub server_tick : ℤ
  pub tower_id : ℤ
  pub miner_id : ℤ
