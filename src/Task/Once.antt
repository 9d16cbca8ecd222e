-- ===== src/Task/Once.antt =====
-- src/service/logic/module/task/task_module_impl.go: how often a task pays its reward.
use heli.Common.{
  ℕ, ◌+◌, ◌≤◌, ℤ, eqb_ℤ, Bool, true, false, List, [], ◌∷◌, Option, none, some, ◌≡◌, refl, inl, inr,
  arith, if◌then◌else◌, int_eq, Bool-cases, Option-cases,
}
use heli.Common.Table.{Table, find, erase, find-insert, find-erase}
use heli.Item.Pack.{Item}
use heli.Task.{
  finish, over, is_finish, GameTask, TaskConf, TaskTable, TaskModule, new_task, open_task,
  open_tasks, grant, mark_over, expired, reset_expired_tasks, refresh_open_tasks, ensure_open_tasks,
  send_task_info, send_task_sync, pay_reward, reward, refresh, check_task_completed,
}

abbrev counts : Option GameTask → ℕ
counts none = 0
counts (some task) = if is_finish task.state then 1 else 0

counts_le : (o : Option GameTask) → counts o ≤ 1
counts_le none = omega arith
counts_le (some task) = ground arith

not_completed :
    (o : Option GameTask)
    → elim o [ none ↦ false | some task ↦ is_finish task.state ] ≡ false
    → counts o ≡ 0
not_completed none h = refl
not_completed (some task) h = rw h refl

-- 1 if the task waits for its reward.
abbrev waiting : ℤ → Table ℤ GameTask → ℕ
waiting id m = counts (find id m)

waiting-erase : (id k : ℤ) (m : Table ℤ GameTask) → waiting id (erase k m) ≤ waiting id m
waiting-erase id k m = rw (find-erase k id m) (elim (Bool-cases (int_eq.beq k id)) [
  | inl same ↦ rw same (omega arith)
  | inr other ↦ rw other (omega arith)
])

waiting-open_task :
    (id : ℤ) (conf : Option TaskConf) (now : ℤ) (m : Table ℤ GameTask)
    → waiting id (open_task conf now m) ≤ waiting id m
unfolding open_task
waiting-open_task id none now m = omega arith
waiting-open_task id (some conf) now m =
    let other = find-insert conf.task_id id (new_task conf now) m in
    ground (arith, int_eq.beq_iff conf.task_id id, other)

waiting-open_tasks :
    (id : ℤ) (confs : List (Option TaskConf)) (now : ℤ) (m : Table ℤ GameTask)
    → waiting id (open_tasks confs now m) ≤ waiting id m
unfolding open_tasks
waiting-open_tasks id [] now m = omega arith
waiting-open_tasks id (conf ∷ confs) now m =
    omega (
      arith,
      waiting-open_task id conf now m,
      waiting-open_tasks id confs now (open_task conf now m),
    )

grant-task_map :
    (rewards : List Item) (s : TaskModule) → ((grant rewards s).0).task_map ≡ s.task_map
unfolding grant
grant-task_map [] s = refl
grant-task_map (reward ∷ rewards) s = ground arith

waiting-mark_over :
    (id k : ℤ) (task : GameTask) (s : TaskModule)
    → waiting id (mark_over k task s).task_map ≡ (if eqb_ℤ k id then 0 else waiting id s.task_map)
unfolding mark_over
waiting-mark_over id k task s =
    rw (find-insert k id (record task { state = over }) s.task_map) (ground arith)

-- 1 if that reply, to that request, pays the reward of the task.
abbrev pays : ℤ → Option ℤ → Option (List Item) → ℕ
pays id (some k) (some rewards) = if eqb_ℤ k id then 1 else 0
pays id _ _ = 0

module _ (zone_offset off_set : ℤ) where
  reset_waiting :
      (doc : Option TaskTable) (id : ℤ) (rest : Table ℤ GameTask) (now : ℤ) (m : Table ℤ GameTask)
      → waiting id (reset_expired_tasks zone_offset off_set doc rest now m) ≤ waiting id m
  unfolding reset_expired_tasks
  reset_waiting doc id [] now m = omega arith
  reset_waiting doc id ((k, task) ∷ rest) now m =
      elim (Bool-cases (expired zone_offset off_set doc k task now)) [
        | inl gone ↦
            rw gone (omega (arith, waiting-erase id k m, reset_waiting doc id rest now (erase k m)))
        | inr kept ↦ rw kept (reset_waiting doc id rest now m)
      ]

  opened_waiting :
      (doc : Option TaskTable) (id now : ℤ) (table : TaskTable) (m : Table ℤ GameTask)
      → waiting id
          (open_tasks table.data_list now (reset_expired_tasks zone_offset off_set doc m now m))
        ≤ waiting id m
  opened_waiting doc id now table m =
      let reset = reset_expired_tasks zone_offset off_set doc m now m in
      omega (arith, reset_waiting doc id m now m, waiting-open_tasks id table.data_list now reset)

  refresh_waiting :
      (doc : Option TaskTable) (id now : ℤ) (s : TaskModule)
      → waiting id (refresh_open_tasks zone_offset off_set doc now s).task_map
        ≤ waiting id s.task_map
  unfolding refresh_open_tasks
  refresh_waiting none id now s = omega arith
  refresh_waiting (some table) id now s = opened_waiting (some table) id now table s.task_map

  ensure_waiting :
      (doc : Option TaskTable) (id now : ℤ) (s : TaskModule)
      → waiting id (ensure_open_tasks zone_offset off_set doc now s).task_map
        ≤ waiting id s.task_map
  unfolding ensure_open_tasks
  ensure_waiting doc id now s = ground (arith, refresh_waiting doc id now s)

  waiting-pay_reward :
      (doc : Option TaskTable) (id k : ℤ) (task : GameTask) (s : TaskModule)
      → find k s.task_map ≡ some task
      → task.state ≡ finish
      → waiting id ((pay_reward zone_offset off_set doc k task s).0).task_map
          + pays id (some k) ((pay_reward zone_offset off_set doc k task s).2)
        ≤ waiting id s.task_map
  unfolding pay_reward
  waiting-pay_reward doc id k task s found finished =
      let one : waiting k s.task_map ≡ 1 = rw (found, finished) refl in
      grind
        (arith, one, int_eq.beq_iff k id, waiting-mark_over id k task, grant-task_map, Option-cases)

  reward_task_waiting :
      (doc : Option TaskTable) (id k now : ℤ) (s : TaskModule)
      → waiting id ((reward zone_offset off_set doc (some k) now s).0).task_map
          + pays id (some k) ((reward zone_offset off_set doc (some k) now s).2)
        ≤ waiting id s.task_map
  unfolding reward
  reward_task_waiting doc id k now s =
      let s' = ensure_open_tasks zone_offset off_set doc now s in
      let fewer = ensure_waiting doc id now s in
      grind (arith, fewer, λ (task : GameTask). waiting-pay_reward doc id k task s')

  waiting-reward :
      (doc : Option TaskTable) (id : ℤ) (req : Option ℤ) (now : ℤ) (s : TaskModule)
      → waiting id ((reward zone_offset off_set doc req now s).0).task_map
          + pays id req ((reward zone_offset off_set doc req now s).2)
        ≤ waiting id s.task_map
  unfolding reward
  waiting-reward doc id none now s = omega arith
  waiting-reward doc id (some k) now s = reward_task_waiting doc id k now s

-- A call on the module, with the time at which it comes.
pub data Call : Type 0 where
  reward_call : Option ℤ → Call
  refresh_call : Bool → Call
  info_call sync_call : Call

module _ (zone_offset off_set : ℤ) (doc : Option TaskTable) where
  -- How often the calls pay the reward of the task.
  unfoldable pub payouts : ℤ → List (ℤ × Call) → TaskModule → ℕ
  payouts id [] s = 0
  payouts id ((now, reward_call req) ∷ calls) s =
      let (s', code, paid) = reward zone_offset off_set doc req now s in
      pays id req paid + payouts id calls s'
  payouts id ((now, refresh_call is_nil) ∷ calls) s =
      payouts id calls ((refresh zone_offset off_set doc is_nil now s).0)
  payouts id ((now, info_call) ∷ calls) s =
      payouts id calls (send_task_info zone_offset off_set doc now s)
  payouts id ((now, sync_call) ∷ calls) s = payouts id calls (send_task_sync s)

  payouts-waiting :
      (id : ℤ) (calls : List (ℤ × Call)) (s : TaskModule)
      → payouts id calls s ≤ waiting id s.task_map
  unfolding payouts send_task_info send_task_sync refresh
  payouts-waiting id [] s = omega arith
  payouts-waiting id ((now, reward_call req) ∷ calls) s =
      let s' = (reward zone_offset off_set doc req now s).0 in
      omega
        (arith, waiting-reward zone_offset off_set doc id req now s, payouts-waiting id calls s')
  payouts-waiting id ((now, refresh_call true) ∷ calls) s = payouts-waiting id calls s
  payouts-waiting id ((now, refresh_call false) ∷ calls) s =
      let s' = refresh_open_tasks zone_offset off_set doc now s in
      omega (arith, refresh_waiting zone_offset off_set doc id now s, payouts-waiting id calls s')
  payouts-waiting id ((now, info_call) ∷ calls) s =
      let s' = send_task_info zone_offset off_set doc now s in
      omega (arith, ensure_waiting zone_offset off_set doc id now s, payouts-waiting id calls s')
  payouts-waiting id ((now, sync_call) ∷ calls) s = payouts-waiting id calls (send_task_sync s)

  -- For any calls that reward, refresh and send tasks, at any times: the reward of a task is paid at most
  -- once, also where resets open the task again, and never if the task is not finished when they begin.
  pub rewards_once :
      (id : ℤ) (calls : List (ℤ × Call)) (s : TaskModule)
      → (payouts id calls s ≤ 1) × (check_task_completed id s ≡ false → payouts id calls s ≡ 0)
  unfolding check_task_completed
  rewards_once id calls s =
      let few = payouts-waiting id calls s in
      let one = counts_le (find id s.task_map) in
      (omega arith, λ h. omega (arith, not_completed (find id s.task_map) h))
