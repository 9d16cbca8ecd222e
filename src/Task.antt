-- ===== src/Task.antt =====
-- src/service/logic/module/task/task_module_impl.go: the tasks of a player. The configuration tables, of
-- the generated code, are a parameter, and so are the zone and the offset of a day; the time that
-- `ctx.Now` gives is an argument. The module and its store are never nil.
pub mod Expiry
pub mod Once
pub mod Fresh
mod TaskTests
use heli.Common.{
  ◌||◌, ◌&&◌, not, ℕ, ℤ, pos, ltb_ℤ, leb_ℤ, eqb_ℤ, Bool, true, false, String, List, [], ◌∷◌, ◌++◌,
  Option, none, some, if◌then◌else◌, int_eq, ◌==◌, ◌%◌, length, map,
}
use heli.Common.Table.{Table, find, insert, erase}
use heli.Common.Sort.{sort_by}
use heli.Clock.{check_daily_fresh, check_weekly_fresh}
use heli.Item.Pack.{Item, Code, build_item}
use heli.Item.Module.{ItemModule, add_items, is_success}

pub data TaskState : Type 0 where
  doing finish over deleted skip : TaskState

-- `pb.GameTask`
pub record GameTask : Type 0 where
  pub id : ℤ
  pub state : TaskState
  pub progress : ℤ
  pub finish_num : ℤ
  pub last_time : ℤ
  pub start_time : ℤ
  pub end_time : ℤ
  pub task_type : ℤ

-- The fields of `docpb.Task` that the module reads.
pub record TaskConf : Type 0 where
  pub task_id : ℤ
  pub task_type : ℤ
  pub reward_item : List ℤ
  pub task_unlock : ℤ
  pub task_reset_type : ℤ

-- `TbTask`: what `GetDataList` and `Get` give.
pub record TaskTable : Type 0 where
  pub data_list : List (Option TaskConf)
  pub get_task : ℤ → Option TaskConf

pub data TaskMessage : Type 0 where
  task_info_ntf : Bool → List GameTask → Table ℤ GameTask → TaskMessage
  task_change_rsp : List GameTask → TaskMessage

-- `ops` are the fields handed to `AddUpdateOp`, and `sent` the messages, both oldest first.
pub record TaskModule : Type 0 where
  pub task_map : Table ℤ GameTask
  pub item : Option ItemModule
  pub ops : List String
  pub sent : List TaskMessage

abbrev pub task_reset_daily : ℤ
task_reset_daily = pos 1

abbrev pub task_reset_weekly : ℤ
task_reset_weekly = pos 2

abbrev pub is_over : TaskState → Bool
is_over over = true
is_over _ = false

abbrev pub is_finish : TaskState → Bool
is_finish finish = true
is_finish _ = false

-- The loop of `buildRewardItems`, for a list of an even length.
unfoldable pub reward_pairs : List ℤ → Option (List Item)
reward_pairs [] = some []
reward_pairs (conf_id ∷ []) = none
reward_pairs (conf_id ∷ num ∷ raw) =
    let rest = reward_pairs raw in
    if leb_ℤ conf_id (pos 0) || leb_ℤ num (pos 0)
    then none
    else elim rest [ none ↦ none | some items ↦ some (build_item conf_id num ∷ items) ]

unfoldable pub build_reward_items : List ℤ → Option (List Item)
unfolding reward_pairs
build_reward_items raw = if length raw % 2 == 0 then reward_pairs raw else none

-- The second loop of `sortedTasks`.
unfoldable pub tasks_of : Table ℤ GameTask → List ℤ → List GameTask
unfolding find
tasks_of m [] = []
tasks_of m (id ∷ ids) =
    let rest = tasks_of m ids in elim (find id m) [ none ↦ rest | some task ↦ task ∷ rest ]

unfoldable pub sorted_tasks : TaskModule → List GameTask
unfolding tasks_of sort_by
sorted_tasks s = tasks_of s.task_map (sort_by (λ id. id) (map (λ e. e.0) s.task_map))

unfoldable pub send_task_sync : TaskModule → TaskModule
unfolding sorted_tasks
send_task_sync s = record s { sent = s.sent ++ task_change_rsp (sorted_tasks s) ∷ [] }

unfoldable pub check_task_completed : ℤ → TaskModule → Bool
check_task_completed id s = elim (find id s.task_map) [
  | none ↦ false
  | some task ↦ is_finish task.state
]

unfoldable pub can_open_task : TaskConf → Table ℤ GameTask → Bool
can_open_task conf task_map =
    if leb_ℤ conf.task_id (pos 0)
    then false
    else if leb_ℤ conf.task_unlock (pos 0)
    then true
    else elim (find conf.task_unlock task_map) [ none ↦ false | some prev ↦ is_over prev.state ]

abbrev pub new_task : TaskConf → ℤ → GameTask
new_task conf now = record {
  id = conf.task_id;
  state = doing;
  progress = pos 0;
  finish_num = pos 0;
  last_time = now;
  start_time = now;
  end_time = pos 0;
  task_type = conf.task_type;
}

-- A round of the loop of `refreshOpenTasks`, and the loop.
unfoldable pub open_task : Option TaskConf → ℤ → Table ℤ GameTask → Table ℤ GameTask
unfolding can_open_task
open_task none now task_map = task_map
open_task (some conf) now task_map =
    if can_open_task conf task_map
    then elim (find conf.task_id task_map) [
      | none ↦ insert conf.task_id (new_task conf now) task_map
      | some _ ↦ task_map
    ]
    else task_map

unfoldable pub open_tasks : List (Option TaskConf) → ℤ → Table ℤ GameTask → Table ℤ GameTask
unfolding open_task
open_tasks [] now task_map = task_map
open_tasks (conf ∷ confs) now task_map = open_tasks confs now (open_task conf now task_map)

-- The end of `Reward`, and `m.ctx.Item().AddItems` under its guards.
unfoldable pub grant : List Item → TaskModule → TaskModule × Code
unfolding add_items
grant [] s = (s, Code.success)
grant (reward ∷ rewards) s = elim s.item [
  | none ↦ (s, Code.failed)
  | some item ↦
      let (item', code, ret) = add_items (reward ∷ rewards) item in
      (record s { item = some item' }, code)
]

unfoldable pub mark_over : ℤ → GameTask → TaskModule → TaskModule
mark_over id task s = record s {
  task_map = insert id (record task { state = over }) s.task_map;
  ops = s.ops ++ "task_map" ∷ [];
}

module _ (zone_offset off_set : ℤ) (doc : Option TaskTable) where
  unfoldable pub task_conf : ℤ → Option TaskConf
  task_conf id = elim doc [ none ↦ none | some table ↦ table.get_task id ]

  unfoldable pub need_reset : ℤ → ℤ → ℤ → Bool
  unfolding check_daily_fresh check_weekly_fresh
  need_reset reset_type start_time now =
      if eqb_ℤ reset_type task_reset_daily
      then ltb_ℤ (pos 0) start_time && check_daily_fresh zone_offset off_set start_time now
      else if eqb_ℤ reset_type task_reset_weekly
      then ltb_ℤ (pos 0) start_time && check_weekly_fresh zone_offset off_set start_time now
      else false

  -- What makes `resetExpiredTasks` delete a task.
  unfoldable pub expired : ℤ → GameTask → ℤ → Bool
  unfolding task_conf need_reset
  expired task_id task now = elim (task_conf task_id) [
    | none ↦ true
    | some conf ↦ need_reset conf.task_reset_type task.start_time now
  ]

  -- The first argument is what the loop over the map has still to visit.
  unfoldable pub reset_expired_tasks : Table ℤ GameTask → ℤ → Table ℤ GameTask → Table ℤ GameTask
  unfolding expired
  reset_expired_tasks [] now task_map = task_map
  reset_expired_tasks ((task_id, task) ∷ rest) now task_map =
      reset_expired_tasks rest now
        (if expired task_id task now then erase task_id task_map else task_map)

  unfoldable pub refresh_open_tasks : ℤ → TaskModule → TaskModule
  unfolding reset_expired_tasks open_tasks
  refresh_open_tasks now s = elim doc [
    | none ↦ s
    | some table ↦ record s {
      task_map = open_tasks table.data_list now (reset_expired_tasks s.task_map now s.task_map);
      ops = s.ops ++ "task_map" ∷ [];
    }
  ]

  unfoldable pub ensure_open_tasks : ℤ → TaskModule → TaskModule
  unfolding refresh_open_tasks
  ensure_open_tasks now s = elim s.task_map [ [] ↦ refresh_open_tasks now s | _ ↦ s ]

  unfoldable pub send_task_info : ℤ → TaskModule → TaskModule
  unfolding ensure_open_tasks sorted_tasks
  send_task_info now s =
      let s' = ensure_open_tasks now s in
      record s' { sent = s'.sent ++ task_info_ntf true (sorted_tasks s') s'.task_map ∷ [] }

  -- The part of `Reward` from `taskConf` on, for a task that has been finished.
  unfoldable pub pay_reward : ℤ → GameTask → TaskModule → TaskModule × Code × Option (List Item)
  unfolding task_conf build_reward_items grant mark_over
  pay_reward id task s = elim (task_conf id) [
    | none ↦ (s, Code.failed, none)
    | some conf ↦ elim (build_reward_items conf.reward_item) [
      | none ↦ (s, Code.failed, none)
      | some rewards ↦
          let (s', code) = grant rewards s in
          if is_success code
          then (mark_over id task s', Code.success, some rewards)
          else (s', code, none)
    ]
  ]

  -- `Reward` of a request, which may be nil, for a task.
  unfoldable pub reward : Option ℤ → ℤ → TaskModule → TaskModule × Code × Option (List Item)
  unfolding ensure_open_tasks pay_reward
  reward none now s = (s, Code.request_params, none)
  reward (some id) now s =
      if leb_ℤ id (pos 0)
      then (s, Code.request_params, none)
      else (let s' = ensure_open_tasks now s in
          elim (find id s'.task_map) [
            | none ↦ (s', Code.failed, none)
            | some task ↦ elim task.state [
              | finish ↦ pay_reward id task s'
              | _ ↦ (s', Code.failed, none)
            ]
          ])

  -- `Refresh` of a request, which may be nil.
  unfoldable pub refresh : Bool → ℤ → TaskModule → TaskModule × Code
  unfolding refresh_open_tasks
  refresh is_nil now s =
      if is_nil then (s, Code.request_params) else (refresh_open_tasks now s, Code.success)
