-- ===== src/Task/Expiry.antt =====
-- src/service/logic/module/task/task_module_impl.go: when a task has expired, and when one may be opened, said
-- without the code's tests.
use heli.Common.{
  ℤ, pos, eqb_ℤ, eqb_ℤ_iff, ◌<ℤ◌, ◌≤ℤ◌, leb_ℤ, true, none, some, ◌≡◌, ◌⊎◌, refl, inl, inr, arith,
  int_eq, Bool-cases, Option-cases,
}
use heli.Common.Table.{Table, find}
use heli.Clock.{
  check_daily_fresh, check_weekly_fresh, check_daily_fresh_with_offset,
  check_weekly_fresh_with_offset,
}
use heli.Task.{
  GameTask, TaskState, TaskConf, TaskTable, can_open_task, is_over, expired, task_conf, need_reset,
}

-- The task is of a daily or a weekly kind, has a start, and its day or its week is over.
abbrev pub Lapsed : ℤ → ℤ → TaskConf → GameTask → ℤ → Type 0
Lapsed zone_offset off_set conf task now =
    (pos 0 <ℤ task.start_time)
    × (((conf.task_reset_type ≡ pos 1)
          × (check_daily_fresh_with_offset zone_offset task.start_time now off_set ≡ true))
        ⊎ ((conf.task_reset_type ≡ pos 2)
            × (check_weekly_fresh_with_offset zone_offset task.start_time now off_set ≡ true)))

-- The configuration has no such task, or it has one that has lapsed.
abbrev pub Expires : ℤ → ℤ → TaskTable → ℤ → GameTask → ℤ → Type 0
Expires zone_offset off_set table id task now =
    (table.get_task id ≡ none)
    ⊎ ((conf : TaskConf) × (table.get_task id ≡ some conf)
        × Lapsed zone_offset off_set conf task now)

-- The task's id is positive, and it has no task that unlocks it, or that one is there and over.
abbrev pub Opens : TaskConf → Table ℤ GameTask → Type 0
Opens conf m =
    (pos 0 <ℤ conf.task_id)
    × ((conf.task_unlock ≤ℤ pos 0)
        ⊎ ((prev : GameTask) × (find conf.task_unlock m ≡ some prev)
            × (prev.state ≡ TaskState.over)))

over_state : (s : TaskState) → is_over s ≡ true → s ≡ TaskState.over
over_state s h = ground arith

pub can_open-Opens :
    (conf : TaskConf) (m : Table ℤ GameTask) → can_open_task conf m ≡ true → Opens conf m
unfolding can_open_task
can_open-Opens conf m h = elim (Bool-cases (leb_ℤ conf.task_unlock (pos 0))) [
  | inl free ↦ (ground arith, inl (ground arith))
  | inr bound ↦ elim (Option-cases (find conf.task_unlock m)) [
    | inl missing ↦ absurd (ground arith)
    | inr (prev, there) ↦ (ground arith, inr (prev, there, over_state prev.state (ground arith)))
  ]
]

pub Opens-can_open :
    (conf : TaskConf) (m : Table ℤ GameTask) → Opens conf m → can_open_task conf m ≡ true
unfolding can_open_task
Opens-can_open conf m (positive, inl free) = ground arith
Opens-can_open conf m (positive, inr (prev, there, done)) = ground arith

daily_same :
    (zone_offset off_set start now : ℤ)
    → check_daily_fresh zone_offset off_set start now
      ≡ check_daily_fresh_with_offset zone_offset start now off_set
unfolding check_daily_fresh check_daily_fresh_with_offset
daily_same zone_offset off_set start now = refl

weekly_same :
    (zone_offset off_set start now : ℤ)
    → check_weekly_fresh zone_offset off_set start now
      ≡ check_weekly_fresh_with_offset zone_offset start now off_set
unfolding check_weekly_fresh check_weekly_fresh_with_offset
weekly_same zone_offset off_set start now = refl

module _ (zone_offset off_set : ℤ) where
  need_reset-Lapsed :
      (conf : TaskConf) (task : GameTask) (now : ℤ)
      → need_reset zone_offset off_set none conf.task_reset_type task.start_time now ≡ true
      → Lapsed zone_offset off_set conf task now
  unfolding need_reset
  need_reset-Lapsed conf task now h = elim (Bool-cases (eqb_ℤ conf.task_reset_type (pos 1))) [
    | inl daily ↦ (
      ground arith,
      inl (
        (eqb_ℤ_iff conf.task_reset_type (pos 1)).0 daily,
        ground (arith, daily_same zone_offset off_set task.start_time now),
      ),
    )
    | inr other ↦ elim (Bool-cases (eqb_ℤ conf.task_reset_type (pos 2))) [
      | inl weekly ↦ (
        ground arith,
        inr (
          (eqb_ℤ_iff conf.task_reset_type (pos 2)).0 weekly,
          ground (arith, weekly_same zone_offset off_set task.start_time now),
        ),
      )
      | inr none_such ↦ absurd (ground arith)
    ]
  ]

  pub expired-Expires :
      (table : TaskTable) (id : ℤ) (task : GameTask) (now : ℤ)
      → expired zone_offset off_set (some table) id task now ≡ true
      → Expires zone_offset off_set table id task now
  unfolding expired task_conf need_reset
  expired-Expires table id task now h = elim (Option-cases (table.get_task id)) [
    | inl missing ↦ inl missing
    | inr (conf, there) ↦ inr (conf, there, need_reset-Lapsed conf task now (ground arith))
  ]

  pub Expires-expired :
      (table : TaskTable) (id : ℤ) (task : GameTask) (now : ℤ)
      → Expires zone_offset off_set table id task now
      → expired zone_offset off_set (some table) id task now ≡ true
  unfolding expired task_conf need_reset eqb_ℤ
  Expires-expired table id task now (inl missing) = ground arith
  Expires-expired table id task now (inr (conf, there, (begun, inl (daily, fresh)))) =
      ground (arith, daily_same zone_offset off_set task.start_time now)
  Expires-expired table id task now (inr (conf, there, (begun, inr (weekly, fresh)))) =
      ground (arith, weekly_same zone_offset off_set task.start_time now)
