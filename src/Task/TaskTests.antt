-- ===== src/Task/TaskTests.antt =====
-- Runs of src/service/logic/module/task/task_module_impl.go on two tasks, of which the second opens when the
-- first is over.
use heli.Common.{
  ◌⊎◌, ◌≤◌, ℤ, pos, eqb_ℤ, int_eq, add64, sub64, wrap64, ◌+ℤ◌, ◌-ℤ◌, false, List, [], ◌∷◌, Option,
  none, some, ◌≡◌, refl, if◌then◌else◌,
}
use heli.Common.Table.{find, insert, erase}
use heli.Item.Merge.{item_map_to_slice, item_merge, merge_items, merge_item}
use heli.Item.Pack.{add_item, build_item}
use heli.Item.Module.{ItemModule}
use heli.Task.{
  GameTask, finish, refresh_open_tasks, TaskConf, TaskTable, TaskModule, new_task, reward, refresh,
  check_task_completed, build_reward_items,
}
use heli.Task.Fresh.{refresh_exact}
use heli.Task.Expiry.{Expires, Opens}
use mathlib.Core.List.{Memᴰ}
use heli.Task.Once.{Call, reward_call, refresh_call, info_call, payouts, rewards_once}

abbrev first : TaskConf
first = record {
  task_id = pos 1;
  task_type = pos 7;
  reward_item = pos 5 ∷ pos 10 ∷ [];
  task_unlock = pos 0;
  task_reset_type = pos 1;
}

abbrev second : TaskConf
second = record first { task_id = pos 2; task_unlock = pos 1 }

abbrev task_of : ℤ → Option TaskConf
task_of id = if eqb_ℤ id (pos 1) then some first else if eqb_ℤ id (pos 2) then some second else none

abbrev table : TaskTable
table = record { data_list = some first ∷ none ∷ some second ∷ []; get_task = task_of }

abbrev no_items : ItemModule
no_items = record { pack = record { item_map = []; ops = [] }; sent = [] }

abbrev finished : GameTask
finished = record (new_task first (pos 1704049200)) { state = finish }

abbrev ready : TaskModule
ready = record { task_map = (pos 1, finished) ∷ []; item = some no_items; ops = []; sent = [] }

odd_rewards : build_reward_items (pos 5 ∷ []) ≡ none
unfolding build_reward_items
odd_rewards = refl

two_rewards :
    build_reward_items (pos 5 ∷ pos 1 ∷ pos 6 ∷ pos 2 ∷ [])
    ≡ some (build_item (pos 5) (pos 1) ∷ build_item (pos 6) (pos 2) ∷ [])
unfolding build_reward_items
two_rewards = refl

abbrev calls : List (ℤ × Call)
calls =
    (pos 1704049300, reward_call (some (pos 1)))
    ∷ (pos 1704049301, reward_call (some (pos 1)))
    ∷ (pos 1704056400, refresh_call false)
    ∷ (pos 1704056401, info_call)
    ∷ (pos 1704056402, reward_call (some (pos 1)))
    ∷ []

paid_now :
    ((reward (pos 28800) (pos 14400) (some table) (some (pos 1)) (pos 1704049300) ready).2)
    ≡ some (build_item (pos 5) (pos 10) ∷ [])
unfolding reward find insert eqb_ℤ item_map_to_slice item_merge merge_items merge_item add_item
paid_now = refl

rewards_once_example :
    (payouts (pos 28800) (pos 14400) (some table) (pos 1) calls ready ≤ 1)
    × (check_task_completed (pos 1) ready ≡ false
        → payouts (pos 28800) (pos 14400) (some table) (pos 1) calls ready ≡ 0)
rewards_once_example = rewards_once (pos 28800) (pos 14400) (some table) (pos 1) calls ready

-- The first task has expired by then, and opens anew; the second is still locked.
after_refresh :
    (refresh (pos 28800) (pos 14400) (some table) false (pos 1704056400) ready).0.task_map
    ≡ (pos 1, new_task first (pos 1704056400)) ∷ []
unfolding refresh insert find erase eqb_ℤ add64 sub64 wrap64 ◌+ℤ◌ ◌-ℤ◌
after_refresh = refl

refresh_exact_example :
    let m =
      (refresh_open_tasks (pos 28800) (pos 14400) (some table) (pos 1704056400) ready).task_map in
    ((id : ℤ) (task : GameTask)
      → find id ready.task_map ≡ some task
      → ¬ Expires (pos 28800) (pos 14400) table id task (pos 1704056400)
      → find id m ≡ some task)
    × ((id : ℤ) (task : GameTask)
        → find id m ≡ some task
        → ((find id ready.task_map ≡ some task)
            × (¬ Expires (pos 28800) (pos 14400) table id task (pos 1704056400)))
          ⊎ ((conf : TaskConf) × Memᴰ (some conf) table.data_list
              × (id ≡ conf.task_id)
              × (task ≡ new_task conf (pos 1704056400))
              × Opens conf m))
    × ((conf : TaskConf)
        → Memᴰ (some conf) table.data_list
        → Opens conf m
        → (task : GameTask) × (find conf.task_id m ≡ some task))
refresh_exact_example =
    refresh_exact (pos 28800) (pos 14400) (pos 1704056400) table ready (unfold find in refl, tt)
