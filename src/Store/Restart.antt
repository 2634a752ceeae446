-- ===== src/Store/Restart.antt =====
-- recoverAfterRestart (src/storage/store.ts) against a description of what a restart may do.
use imgent.Prelude.{
  ℕ, ◌≡◌, refl, String, none, some, true, false, ◌⊎◌, inl, inr, List, arith, Bool-cases, In, set_if,
  In-update_where,
}
use imgent.Store.Rows.{
  TaskStatus, TaskRow, SteerState, SteerRow, ApprovalRow, is_running, status_beq,
}
use imgent.Store.Db.{Db}
use imgent.Store.Tasks.{find_task}
use imgent.Store.Recovery.{
  recover_after_restart, may_replay, must_not_replay, requeue, bury, recovery_error, unsafe_error,
  requeued_tasks, is_submitting, is_abandoned, expire,
}
use imgent.Store.Lookup.{find_task-update}

-- What a restart at `now` makes of the task `t`.
pub data Restarted (now : ℕ) (t u : TaskRow) : Type 0 where
  replayed :
      t.status ≡ TaskStatus.active
      → t.dangerous_side_effect_started ≡ false
      → u.status ≡ TaskStatus.retry_wait
      → u.next_attempt_at ≡ some now
      → u.attempt ≡ t.attempt
      → Restarted now t u
  buried :
      (t.status ≡ TaskStatus.waiting_approval)
        ⊎ ((t.status ≡ TaskStatus.active) × (t.dangerous_side_effect_started ≡ true))
      → u.status ≡ TaskStatus.dead_letter
      → u.next_attempt_at ≡ none
      → Restarted now t u
  untouched : is_running t.status ≡ false → u ≡ t → Restarted now t u

-- The two updates on one row.
abbrev restarted : ℕ → String → String → TaskRow → TaskRow
restarted now uuid uuid' t =
    set_if must_not_replay (bury (unsafe_error uuid'))
      (set_if may_replay (requeue now (recovery_error uuid)) t)

status_active : (s : TaskStatus) → status_beq s TaskStatus.active ≡ true → s ≡ TaskStatus.active
status_active s h = ground arith

status_waiting :
    (s : TaskStatus)
    → status_beq s TaskStatus.waiting_approval ≡ true
    → s ≡ TaskStatus.waiting_approval
status_waiting s h = ground arith

burial_reasons :
    (t : TaskRow)
    → must_not_replay t ≡ true
    → (t.status ≡ TaskStatus.waiting_approval)
      ⊎ ((t.status ≡ TaskStatus.active) × (t.dangerous_side_effect_started ≡ true))
burial_reasons t m = elim (Bool-cases (status_beq t.status TaskStatus.waiting_approval)) [
  | inl w ↦ inl (status_waiting t.status w)
  | inr w ↦ inr (status_active t.status (ground arith), ground arith)
]

idle_of :
    (t : TaskRow) → may_replay t ≡ false → must_not_replay t ≡ false → is_running t.status ≡ false
idle_of t e m = ground arith

restarted_cases :
    (now : ℕ) (uuid uuid' : String) (t : TaskRow) → Restarted now t (restarted now uuid uuid' t)
restarted_cases now uuid uuid' t = elim (Bool-cases (may_replay t)) [
  | inl e ↦
      replayed (status_active t.status (ground arith)) (ground arith) (ground arith) (ground arith)
        (ground arith)
  | inr e ↦ elim (Bool-cases (must_not_replay t)) [
    | inl m ↦ buried (burial_reasons t m) (ground arith) (ground arith)
    | inr m ↦ untouched (idle_of t e m) (rw (e, m))
  ]
]

restarted_idle :
    (now : ℕ) (uuid uuid' : String) (t : TaskRow)
    → is_running (restarted now uuid uuid' t).status ≡ false
restarted_idle now uuid uuid' t = elim (restarted_cases now uuid uuid' t) [
  | replayed a d s n k ↦ ground arith
  | buried r s n ↦ ground arith
  | untouched i e ↦ rw e i
]

steer_settled :
    (r : SteerRow)
    → is_submitting (set_if is_submitting (λ s. record s { state = SteerState.uncertain }) r)
      ≡ false
steer_settled r = ground arith

approval_settled :
    (now : ℕ) (tasks : List TaskRow) (b : ApprovalRow)
    → is_abandoned tasks (set_if (is_abandoned tasks) (expire now) b) ≡ false
approval_settled now tasks b = ground arith

-- Every task that a lookup finds is found again after a restart: an active one with nothing dangerous
-- started is due for a retry at once, with its attempts as they were; one that waited for an answer
-- or had started something dangerous is buried; any other is as it was.
pub find_task-recover :
    (now : ℕ) (uuid uuid' id : String) (db : Db) (t : TaskRow)
    → find_task id db ≡ some t
    → (u : TaskRow) × (find_task id (recover_after_restart now uuid uuid' db).0 ≡ some u)
      × Restarted now t u
unfolding recover_after_restart
find_task-recover now uuid uuid' id db t e = (
  restarted now uuid uuid' t,
  find_task-update id must_not_replay (bury (unsafe_error uuid')) first _ _ refl (λ u. refl)
      (find_task-update id may_replay (requeue now (recovery_error uuid)) db first t refl
        (λ u. refl) e),
  restarted_cases now uuid uuid' t,
)
  where
    first : Db
    first = record db { tasks = requeued_tasks now uuid db }

-- What a restart leaves.
pub record Quiet (db after : Db) : Type 0 where
  pub idle : (u : TaskRow) → In u after.tasks → is_running u.status ≡ false
  pub settled : (s : SteerRow) → In s after.task_steers → is_submitting s ≡ false
  pub expired : (a : ApprovalRow) → In a after.approvals → is_abandoned db.tasks a ≡ false

-- After a restart no task runs, no steer is in flight, and no approval is pending whose task was
-- waiting for it.
pub recover_after_restart-Quiet :
    (now : ℕ) (uuid uuid' : String) (db : Db) → Quiet db (recover_after_restart now uuid uuid' db).0
unfolding recover_after_restart
recover_after_restart-Quiet now uuid uuid' db = record {
  idle = λ u m.
      let (v, k, e) = In-update_where must_not_replay (bury (unsafe_error uuid')) _ u m in
      let (t, l, q) = In-update_where may_replay (requeue now (recovery_error uuid)) db.tasks v k in
      rw (e, q) (restarted_idle now uuid uuid' t);
  settled = λ s m.
      let (r, k, e) = In-update_where is_submitting _ db.task_steers s m in rw e (steer_settled r);
  expired = λ a m.
      let (b, k, e) = In-update_where (is_abandoned db.tasks) (expire now) db.approvals a m in
      rw e (approval_settled now db.tasks b);
}
