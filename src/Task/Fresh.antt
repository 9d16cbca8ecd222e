-- ===== src/Task/Fresh.antt =====
-- src/service/logic/module/task/task_module_impl.go: the tasks that a refresh leaves.
use heli.Common.{
  ℤ, eqb_ℤ, eqb_ℤ_iff, Bool, true, false, ◌&&◌, ◌||◌, List, [], ◌∷◌, Option, none, some, ◌≡◌, ◌⊎◌,
  refl, sym, subst, ◌∙◌, inl, inr, arith, if◌then◌else◌, int_eq, Bool-cases, Option-cases,
}
use mathlib.Core.List.{Memᴰ}
use mathlib.Core.List.Memᴰ.{head, tail}
use heli.Common.Table.{
  Table, find, erase, find-insert, find-insert_self, find-erase, find-insert_inv, Unique,
}
use heli.Task.Expiry.{
  Expires, Opens, expired-Expires, Expires-expired, can_open-Opens, Opens-can_open,
}
use heli.Task.{
  GameTask, TaskConf, TaskTable, TaskModule, can_open_task, new_task, open_task, open_tasks,
  expired, reset_expired_tasks, refresh_open_tasks, is_over,
}

module _ (zone_offset off_set : ℤ) (doc : Option TaskTable) (now : ℤ) where
  -- The loop visits an entry of that key which it deletes.
  abbrev visits_stale : ℤ → Table ℤ GameTask → Bool
  visits_stale id [] = false
  visits_stale id ((k, task) ∷ rest) =
      (eqb_ℤ k id && expired zone_offset off_set doc k task now) || visits_stale id rest

  find-reset :
      (id : ℤ) (rest m : Table ℤ GameTask)
      → find id (reset_expired_tasks zone_offset off_set doc rest now m)
        ≡ (if visits_stale id rest then none else find id m)
  unfolding reset_expired_tasks
  find-reset id [] m = refl
  find-reset id ((k, task) ∷ rest) m =
      elim (Bool-cases (expired zone_offset off_set doc k task now)) [
        | inl stale ↦ rw (stale, find-reset id rest (erase k m), find-erase k id m) (ground arith)
        | inr kept ↦ rw (kept, find-reset id rest m) (ground arith)
      ]

  visits_absent : (id : ℤ) (m : Table ℤ GameTask) → find id m ≡ none → visits_stale id m ≡ false
  unfolding find
  visits_absent id [] h = refl
  visits_absent id ((k, task) ∷ m) h = ground (arith, visits_absent id m)

  visits_found :
      (id : ℤ) (task : GameTask) (m : Table ℤ GameTask)
      → Unique m
      → find id m ≡ some task
      → visits_stale id m ≡ expired zone_offset off_set doc id task now
  unfolding find
  visits_found id task [] u h = absurd (ground arith)
  visits_found id task ((k, t) ∷ m) (fresh, u) h = elim (Bool-cases (eqb_ℤ k id)) [
    | inr other ↦ rw other (visits_found id task m u (rw other at h))
    | inl same ↦
        let key : k ≡ id = (eqb_ℤ_iff k id).0 same in
        let here : t ≡ task = ground arith in
        let none_later = visits_absent id m (rw (sym key) fresh) in
        rw (key, here, none_later) (ground (arith, eqb_ℤ_iff id id))
  ]

  -- What a reset has left was there, and has not expired.
  reset-kept :
      (id : ℤ) (task : GameTask) (m : Table ℤ GameTask)
      → Unique m
      → find id (reset_expired_tasks zone_offset off_set doc m now m) ≡ some task
      → (find id m ≡ some task) × (expired zone_offset off_set doc id task now ≡ false)
  reset-kept id task m u h =
      let left = find-reset id m m in
      let visited = λ (found : find id m ≡ some task). visits_found id task m u found in
      elim (Bool-cases (visits_stale id m)) [
        | inl stale ↦ absurd (ground arith)
        | inr none_stale ↦
            let found : find id m ≡ some task = ground arith in
            (found, sym (visits_found id task m u found) ∙ none_stale)
      ]

  open_task-keeps :
      (id : ℤ) (task : GameTask) (conf : Option TaskConf) (m : Table ℤ GameTask)
      → find id m ≡ some task
      → find id (open_task conf now m) ≡ some task
  unfolding open_task
  open_task-keeps id task none m h = h
  open_task-keeps id task (some conf) m h =
      ground
        (arith, int_eq.beq_iff conf.task_id id, find-insert conf.task_id id (new_task conf now) m)

  open_tasks-keeps :
      (id : ℤ) (task : GameTask) (confs : List (Option TaskConf)) (m : Table ℤ GameTask)
      → find id m ≡ some task
      → find id (open_tasks confs now m) ≡ some task
  unfolding open_tasks
  open_tasks-keeps id task [] m h = h
  open_tasks-keeps id task (conf ∷ confs) m h =
      open_tasks-keeps id task confs (open_task conf now m) (open_task-keeps id task conf m h)

  -- Whether the task is over.
  abbrev over_at : ℤ → Table ℤ GameTask → Bool
  over_at id m = elim (find id m) [ none ↦ false | some task ↦ is_over task.state ]

  open_task-over :
      (id : ℤ) (conf : Option TaskConf) (m : Table ℤ GameTask)
      → over_at id (open_task conf now m) ≡ over_at id m
  unfolding open_task
  open_task-over id none m = refl
  open_task-over id (some conf) m =
      ground
        (arith, int_eq.beq_iff conf.task_id id, find-insert conf.task_id id (new_task conf now) m)

  can_open-after :
      (other : TaskConf) (conf : Option TaskConf) (m : Table ℤ GameTask)
      → can_open_task other (open_task conf now m) ≡ can_open_task other m
  unfolding can_open_task
  can_open-after other conf m = rw (open_task-over other.task_unlock conf m) refl

  open_task-opens :
      (conf : TaskConf) (m : Table ℤ GameTask)
      → can_open_task conf m ≡ true
      → (task : GameTask) × (find conf.task_id (open_task (some conf) now m) ≡ some task)
  unfolding open_task
  open_task-opens conf m h = elim (Option-cases (find conf.task_id m)) [
    | inl absent ↦
        (new_task conf now, rw (h, absent) (find-insert_self conf.task_id (new_task conf now) m))
    | inr (task, found) ↦ (task, rw (h, found) found)
  ]

  open_task-from :
      (id : ℤ) (task : GameTask) (conf : Option TaskConf) (m : Table ℤ GameTask)
      → find id (open_task conf now m) ≡ some task
      → (find id m ≡ some task)
        ⊎ ((c : TaskConf) × (conf ≡ some c)
            × (id ≡ c.task_id)
            × (task ≡ new_task c now)
            × (can_open_task c m ≡ true))
  unfolding open_task
  open_task-from id task none m h = inl h
  open_task-from id task (some conf) m h = elim (Bool-cases (can_open_task conf m)) [
    | inr closed ↦ inl (rw closed at h)
    | inl opens ↦ elim (Option-cases (find conf.task_id m)) [
      | inr (old, found) ↦ inl (rw (opens, found) at h)
      | inl absent ↦
          let placed = rw (opens, absent) at h in
          elim (find-insert_inv conf.task_id id (new_task conf now) task m placed) [
            | inl (key, here) ↦ inr (conf, refl, sym key, sym here, opens)
            | inr (other, old) ↦ inl old
          ]
    ]
  ]

  open_tasks-from :
      (id : ℤ) (task : GameTask) (confs : List (Option TaskConf)) (m : Table ℤ GameTask)
      → find id (open_tasks confs now m) ≡ some task
      → (find id m ≡ some task)
        ⊎ ((c : TaskConf) × Memᴰ (some c) confs
            × (id ≡ c.task_id)
            × (task ≡ new_task c now)
            × (can_open_task c m ≡ true))
  unfolding open_tasks
  open_tasks-from id task [] m h = inl h
  open_tasks-from id task (conf ∷ confs) m h =
      elim (open_tasks-from id task confs (open_task conf now m) h) [
        | inr (c, listed, key, new, opens) ↦
            inr (c, tail listed, key, new, sym (can_open-after c conf m) ∙ opens)
        | inl before ↦ elim (open_task-from id task conf m before) [
          | inl old ↦ inl old
          | inr (c, here, key, new, opens) ↦ inr (c, head (sym here), key, new, opens)
        ]
      ]

  can_open-all :
      (conf : TaskConf) (confs : List (Option TaskConf)) (m : Table ℤ GameTask)
      → can_open_task conf (open_tasks confs now m) ≡ can_open_task conf m
  unfolding open_tasks
  can_open-all conf [] m = refl
  can_open-all conf (c ∷ confs) m =
      can_open-all conf confs (open_task c now m) ∙ can_open-after conf c m

  open_tasks-opens :
      (conf : TaskConf) (confs : List (Option TaskConf)) (m : Table ℤ GameTask)
      → Memᴰ (some conf) confs
      → can_open_task conf (open_tasks confs now m) ≡ true
      → (task : GameTask) × (find conf.task_id (open_tasks confs now m) ≡ some task)
  unfolding open_tasks
  open_tasks-opens conf [] m listed h = elim listed [ ]
  open_tasks-opens conf (c ∷ confs) m (tail listed) h =
      open_tasks-opens conf confs (open_task c now m) listed h
  open_tasks-opens conf (c ∷ confs) m (head here) h =
      let opens = sym (can_open-all conf (c ∷ confs) m) ∙ h in
      let (task, found) = open_task-opens conf m opens in
      (
        task,
        open_tasks-keeps conf.task_id task confs (open_task c now m)
            (subst (λ o. find conf.task_id (open_task o now m) ≡ some task) here found),
      )

unexpired :
    (zone_offset off_set : ℤ) (table : TaskTable) (now id : ℤ) (task : GameTask)
    → ¬ Expires zone_offset off_set table id task now
    → expired zone_offset off_set (some table) id task now ≡ false
unexpired zone_offset off_set table now id task lasts =
    elim (Bool-cases (expired zone_offset off_set (some table) id task now)) [
      | inl stale ↦ absurd (lasts (expired-Expires zone_offset off_set table id task now stale))
      | inr fresh ↦ fresh
    ]

-- A refresh of tasks with different ids, under a configuration. A task expires where the configuration has none of
-- its id, or one of the daily or weekly kind, with a start whose day or week is over. A task that has not
-- expired stays as it is; every task afterwards is such a task, or one of the configuration's that is new as
-- of now and may be opened; and every task of the configuration that may be opened is there. A task may be
-- opened if its id is positive and no task unlocks it, or the one that does is there and over.
pub refresh_exact :
    (zone_offset off_set now : ℤ) (table : TaskTable) (s : TaskModule)
    → Unique s.task_map
    → let m = (refresh_open_tasks zone_offset off_set (some table) now s).task_map in
      ((id : ℤ) (task : GameTask)
        → find id s.task_map ≡ some task
        → ¬ Expires zone_offset off_set table id task now
        → find id m ≡ some task)
      × ((id : ℤ) (task : GameTask)
          → find id m ≡ some task
          → ((find id s.task_map ≡ some task) × (¬ Expires zone_offset off_set table id task now))
            ⊎ ((conf : TaskConf) × Memᴰ (some conf) table.data_list
                × (id ≡ conf.task_id)
                × (task ≡ new_task conf now)
                × Opens conf m))
      × ((conf : TaskConf)
          → Memᴰ (some conf) table.data_list
          → Opens conf m
          → (task : GameTask) × (find conf.task_id m ≡ some task))
unfolding refresh_open_tasks
refresh_exact zone_offset off_set now table s u =
    let doc = some table in
    let old = s.task_map in
    let reset = reset_expired_tasks zone_offset off_set doc old now old in
    (
      λ id task found lasts.
          let fresh : expired zone_offset off_set doc id task now ≡ false =
            unexpired zone_offset off_set table now id task lasts in
          let kept : find id reset ≡ some task =
            rw
              (
                find-reset zone_offset off_set doc now id old old,
                visits_found zone_offset off_set doc now id task old u found,
                fresh,
              )
              found in
          open_tasks-keeps zone_offset off_set doc now id task table.data_list reset kept,
      λ id task found.
          elim (open_tasks-from zone_offset off_set doc now id task table.data_list reset found) [
            | inr (conf, listed, key, new, opens) ↦
                let after = can_open-all zone_offset off_set doc now conf table.data_list reset in
                inr (
                  conf,
                  listed,
                  key,
                  new,
                  can_open-Opens conf (open_tasks table.data_list now reset) (after ∙ opens),
                )
            | inl kept ↦
                let (there, fresh) = reset-kept zone_offset off_set doc now id task old u kept in
                inl (
                  there,
                  λ e.
                      let stale = Expires-expired zone_offset off_set table id task now e in
                      absurd (ground arith),
                )
          ],
      λ conf listed opens.
          open_tasks-opens zone_offset off_set doc now conf table.data_list reset listed
            (Opens-can_open conf (open_tasks table.data_list now reset) opens),
    )
