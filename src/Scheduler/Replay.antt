-- ===== src/Scheduler/Replay.antt =====
-- A turn that was given a follow-up is not run again (src/storage/store.ts, src/queue/scheduler.ts).
use imgent.Prelude.{
  ℕ, ◌≡◌, ◌≢◌, refl, ◌∙◌, eq_iff, String, some, Bool, true, false, [], ◌∷◌, arith, Bool-cases, inl,
  inr, In-update_where, find_where-some,
}
use imgent.Errors.Descriptor.{ErrorDescriptor}
use imgent.Store.Rows.{TaskStatus, TaskRow, SteerState, is_running}
use imgent.Store.Db.{Db}
use imgent.Store.Tasks.{
  StoredTask, has_id, find_task, task, may_transition, transition_task, no_fields,
}
use imgent.Store.Steers.{
  mark_dangerous_side_effect, may_steer_found, submit_steer, begin_steer, Resolution, withdraw,
  withdraw_steer, set_steer_state, resolve_steer,
}
use imgent.Store.Lookup.{find_task_of_same, has_id-find_task, find_task-update}
use imgent.Scheduler.{Texts, FailureDraws, handle_driver_error}
use imgent.Scheduler.Retry.{retried, buried, failed, handle_driver_error-Settled}

abbrev requeue : String → Db → Db × Bool
requeue input = transition_task input (TaskStatus.active ∷ []) TaskStatus.queued no_fields

marked_dangerous :
    (id : String) (db : Db) (r : TaskRow)
    → find_task id (mark_dangerous_side_effect id db) ≡ some r
    → r.dangerous_side_effect_started ≡ true
unfolding find_task mark_dangerous_side_effect
marked_dangerous id db r e =
    let (m, own) = find_where-some (has_id id) _ r e in
    let (t, n, q) =
      In-update_where (has_id id) (λ t. record t { dangerous_side_effect_started = true }) db.tasks
        r m in
    ground arith

submitted_dangerous :
    (now : ℕ) (input target : String) (db : Db) (r : TaskRow)
    → find_task target (submit_steer now input target db) ≡ some r
    → r.dangerous_side_effect_started ≡ true
unfolding submit_steer
submitted_dangerous now input target db r e = marked_dangerous target _ r e

abbrev start : String → Db → Db × Bool
start input = transition_task input (TaskStatus.queued ∷ []) TaskStatus.active no_fields

steered_dangerous :
    (now : ℕ) (input target : String) (db : Db) (r : TaskRow)
    → (begin_steer now input target db).1 ≡ true
    → find_task target (begin_steer now input target db).0 ≡ some r
    → r.dangerous_side_effect_started ≡ true
unfolding begin_steer
steered_dangerous now input target db r b e =
    elim (Bool-cases (may_steer_found (task input db) (task target db))) [
      | inr n ↦ absurd (ground arith)
      | inl y ↦ elim (Bool-cases (start input db).1) [
        | inr c ↦ absurd (ground arith)
        | inl c ↦
            submitted_dangerous now input target (start input db).0 r (rw (y, c, begin_steer) at e)
      ]
    ]

away : (input id : String) (r : TaskRow) → r.id ≡ id → input ≢ id → has_id input r ≡ false
away input id r own other = ground (arith, eq_iff r.id input)

-- What becomes of the follow-up leaves the row of another task alone.
withdrawn_found :
    (input id : String) (db : Db) (r : TaskRow)
    → find_task id db ≡ some r
    → input ≢ id
    → find_task id (withdraw_steer input db) ≡ some r
unfolding withdraw_steer transition_task
withdrawn_found input id db r e other =
    let off = away input id r (has_id-find_task id db r e) other in
    let once : find_task id (requeue input db).0 ≡ some r =
      find_task-update id (may_transition input (TaskStatus.active ∷ [])) _ db (requeue input db).0
        r refl (λ u. refl) e
      ∙ ground (arith, off) in
    elim (Bool-cases (requeue input db).1) [
      | inr c ↦ rw (c, withdraw_steer) once
      | inl c ↦
          rw (c, withdraw_steer)
            (find_task-update id (has_id input) withdraw (requeue input db).0 _ r refl (λ u. refl)
                once
              ∙ ground (arith, off))
    ]

resolved_found :
    (uuid input id : String) (how : Resolution) (db : Db) (r : TaskRow)
    → find_task id db ≡ some r
    → input ≢ id
    → find_task id (resolve_steer uuid input how db) ≡ some r
unfolding resolve_steer set_steer_state transition_task
resolved_found uuid input id Resolution.accepted db r e other =
    find_task_of_same id db (set_steer_state input SteerState.accepted db) refl ∙ e
resolved_found uuid input id Resolution.rejected db r e other =
    withdrawn_found input id (set_steer_state input SteerState.rejected db) r
      (find_task_of_same id db (set_steer_state input SteerState.rejected db) refl ∙ e) other
resolved_found uuid input id Resolution.uncertain db r e other =
    let off = away input id r (has_id-find_task id db r e) other in
    find_task-update id (may_transition input (TaskStatus.active ∷ [])) _
      (set_steer_state input SteerState.uncertain db)
      (resolve_steer uuid input Resolution.uncertain db) r refl (λ u. refl)
      (find_task_of_same id db (set_steer_state input SteerState.uncertain db) refl ∙ e)
    ∙ ground (arith, off)

-- After a follow-up was handed to a running turn, and the steer of it was accepted, refused or left
-- uncertain, a failure of that turn buries the turn's task, whatever the error: the task is not
-- queued for another try and does not simply fail. The follow-up is another task than the turn's.
pub handle_driver_error_steered :
    (texts : Texts) (now now' : ℕ) (draws : FailureDraws) (uuid input : String) (how : Resolution)
    (t : StoredTask) (d : ErrorDescriptor) (db : Db) (r : TaskRow)
    → input ≢ t.id
    → (begin_steer now input t.id db).1 ≡ true
    → find_task t.id (begin_steer now input t.id db).0 ≡ some r
    → is_running r.status ≡ true
    → (u : TaskRow) × (find_task t.id (
          handle_driver_error texts now' draws t d
            (resolve_steer uuid input how (begin_steer now input t.id db).0))
        ≡ some u)
      × (u.status ≡ TaskStatus.dead_letter)
handle_driver_error_steered texts now now' draws uuid input how t d db r other b e h =
    let danger = steered_dangerous now input t.id db r b e in
    let steered = (begin_steer now input t.id db).0 in
    let (u, found, settled) =
      handle_driver_error-Settled texts now' draws t d (resolve_steer uuid input how steered) r
        (resolved_found uuid input t.id how steered r e other) h in
    (
      u,
      found,
      elim settled [
        | retried at may s n l g ↦ absurd (ground (arith, may.harmless))
        | buried reason s n ↦ s
        | failed not_may harmless safe s n ↦ absurd (ground arith)
      ],
    )
