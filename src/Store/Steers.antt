-- ===== src/Store/Steers.antt =====
-- src/storage/store.ts: a follow-up message that is handed to the turn that runs (beginSteer,
-- resolveSteer, settleSteeredInputs, markDangerousSideEffect), and how a turn completes.
use imgent.Prelude.{
  ℕ, ◌+◌, ◌-◌, String, Option, none, some, Bool, true, false, not, ◌&&◌, ◌==◌, List, [], ◌∷◌, ◌++◌,
  if◌then◌else◌, ltb, is_some, any_where, filter_where, update_where,
}
use imgent.Errors.Codes.{task_unsafe_replay}
use imgent.Errors.Descriptor.{no_options, new_error}
use imgent.Messaging.{OutboundMessage}
use imgent.Store.Rows.{
  TaskStatus, TaskRow, SteerState, SteerRow, status_beq, is_pending, is_running, is_open,
}
use imgent.Store.Db.{Db}
use imgent.Store.Tasks.{
  StoredTask, has_id, task, first_created, no_fields, with_error, transition_task,
}
use imgent.Store.Outbox.{enqueue_outbound, enqueue_memory_outbox}

-- IMGentStore.markDangerousSideEffect
unfoldable pub mark_dangerous_side_effect : String → Db → Db
mark_dangerous_side_effect id db = record db {
  tasks =
      update_where (has_id id) (λ t. record t { dangerous_side_effect_started = true }) db.tasks;
}

abbrev pub steers_input : String → SteerRow → Bool
steers_input input s = s.input_task_id == input

-- INSERT ... ON CONFLICT(input_task_id) DO UPDATE
abbrev pub put_steer : ℕ → String → String → List SteerRow → List SteerRow
put_steer now input target steers =
    if any_where (steers_input input) steers
    then update_where (steers_input input)
        (λ s. record s { target_task_id = target; state = SteerState.submitting }) steers
    else steers
      ++ record {
        input_task_id = input;
        target_task_id = target;
        state = SteerState.submitting;
        created_at = now;
      }
        ∷ []

-- The negation of the test under which beginSteer returns false.
abbrev pub may_steer : StoredTask → StoredTask → Bool
may_steer input target =
    status_beq input.status TaskStatus.queued
    && is_running target.status
    && input.execution_key == target.execution_key
    && input.principal_id == target.principal_id
    && not (is_some input.schedule_run_id)
    && not (is_some target.schedule_run_id)

abbrev pub may_steer_found : Option StoredTask → Option StoredTask → Bool
may_steer_found none target = false
may_steer_found (some input) none = false
may_steer_found (some input) (some target) = may_steer input target

abbrev pub count_attempt : String → Db → Db
count_attempt id db = record db {
  tasks = update_where (has_id id) (λ t. record t { attempt = t.attempt + 1 }) db.tasks;
}

-- What beginSteer writes once the input is active.
unfoldable pub submit_steer : ℕ → String → String → Db → Db
submit_steer now input target db =
    let counted = count_attempt input db in
    let put = record counted { task_steers = put_steer now input target counted.task_steers } in
    mark_dangerous_side_effect target (mark_dangerous_side_effect input put)

-- IMGentStore.beginSteer
unfoldable pub begin_steer : ℕ → String → String → Db → Db × Bool
begin_steer now input target db =
    if may_steer_found (task input db) (task target db)
    then (let (started, changed) =
          transition_task input (TaskStatus.queued ∷ []) TaskStatus.active no_fields db in
        if changed then (submit_steer now input target started, true) else (started, false))
    else (db, false)

pub data Resolution : Type 0 where
  accepted rejected uncertain : Resolution

abbrev pub steer_state : Resolution → SteerState
steer_state Resolution.accepted = SteerState.accepted
steer_state Resolution.rejected = SteerState.rejected
steer_state Resolution.uncertain = SteerState.uncertain

unfoldable pub set_steer_state : String → SteerState → Db → Db
set_steer_state input state db = record db {
  task_steers = update_where (steers_input input) (λ s. record s { state = state }) db.task_steers;
}

-- dangerous_side_effect_started = 0, attempt = attempt - 1; an attempt that is there is positive.
abbrev pub withdraw : TaskRow → TaskRow
withdraw t = record t { dangerous_side_effect_started = false; attempt = t.attempt - 1 }

unfoldable pub withdraw_steer : String → Db → Db
withdraw_steer input db =
    let (requeued, changed) =
      transition_task input (TaskStatus.active ∷ []) TaskStatus.queued no_fields db in
    if changed
    then record requeued { tasks = update_where (has_id input) withdraw requeued.tasks }
    else requeued

-- IMGentStore.resolveSteer
unfoldable pub resolve_steer : String → String → Resolution → Db → Db
unfolding new_error
resolve_steer uuid input Resolution.accepted db = set_steer_state input SteerState.accepted db
resolve_steer uuid input Resolution.rejected db =
    withdraw_steer input (set_steer_state input SteerState.rejected db)
resolve_steer uuid input Resolution.uncertain db =
    (transition_task input (TaskStatus.active ∷ []) TaskStatus.dead_letter
      (with_error (new_error task_unsafe_replay no_options uuid).descriptor)
      (set_steer_state input SteerState.uncertain db)).0

abbrev pub is_accepted : SteerState → Bool
is_accepted SteerState.accepted = true
is_accepted _ = false

abbrev pub accepted_for : String → SteerRow → Bool
accepted_for target s = s.target_task_id == target && is_accepted s.state

-- id IN (SELECT input_task_id FROM task_steers WHERE target_task_id = ? AND state = 'accepted')
abbrev pub was_steered_into : String → List SteerRow → TaskRow → Bool
was_steered_into target steers t =
    any_where (λ s. accepted_for target s && s.input_task_id == t.id) steers

abbrev pub settles : String → List SteerRow → TaskRow → Bool
settles target steers t = status_beq t.status TaskStatus.active && was_steered_into target steers t

unfoldable pub settle_with : String → StoredTask → Db → Db
settle_with id target db = if is_open target.status then db else record db {
  tasks =
      update_where (settles id db.task_steers)
        (λ t. record t { status = target.status; error = target.error }) db.tasks;
}

-- IMGentStore.settleSteeredInputs
unfoldable pub settle_steered_inputs : String → Db → Db
settle_steered_inputs id db = elim (task id db) [
  | none ↦ db
  | some target ↦ settle_with id target db
]

-- IMGentStore.nextQueuedFollowUp; the rows stand in rowid order.
unfoldable pub next_queued_follow_up : StoredTask → Db → Option StoredTask
next_queued_follow_up target db =
    elim (first_created (
      filter_where (λ t. t.execution_key == target.execution_key && is_pending t.status)
        db.tasks)) [ none ↦ none | some row ↦ task row.id db ]

-- IMGentStore.completeTask
unfoldable pub complete_task : ℕ → String → String → String → Bool → Db → Db × Bool
complete_task now curation_id id final_text curate db =
    let (done, changed) =
      transition_task id (TaskStatus.active ∷ []) TaskStatus.succeeded
        (record no_fields { final_text = some final_text }) db in
    let settled = if changed then settle_steered_inputs id done else done in
    (
      if changed && curate then enqueue_memory_outbox now curation_id id settled else settled,
      changed,
    )

-- IMGentStore.completeTaskWithOutbound
unfoldable pub complete_task_with_outbound :
    ℕ → String → String → String → String → Bool → OutboundMessage → Db → Db × Bool
complete_task_with_outbound now curation_id outbound_id id final_text curate message db =
    let (done, changed) =
      transition_task id (TaskStatus.active ∷ []) TaskStatus.succeeded
        (record no_fields { final_text = some final_text }) db in
    let sent =
      (enqueue_outbound now outbound_id message (some id) (settle_steered_inputs id done)).0 in
    if changed
    then (if curate then enqueue_memory_outbox now curation_id id sent else sent, true)
    else (done, false)

abbrev pub later_steer : SteerRow → Option SteerRow → SteerRow
later_steer s none = s
later_steer s (some t) = if ltb t.created_at s.created_at then s else t

-- ORDER BY created_at DESC, rowid DESC LIMIT 1; the rows stand in rowid order.
unfoldable pub last_created : List SteerRow → Option SteerRow
last_created [] = none
last_created (s ∷ ss) = some (later_steer s (last_created ss))

-- IMGentStore.latestSteeredInput
unfoldable pub latest_steered_input : String → Db → Option StoredTask
latest_steered_input target db =
    elim (last_created (filter_where (accepted_for target) db.task_steers)) [
      | none ↦ none
      | some s ↦ task s.input_task_id db
    ]
