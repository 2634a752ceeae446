-- ===== src/Store/Recovery.antt =====
-- src/storage/store.ts: recoverAfterRestart, what a start makes of the work that the last process
-- left running.
use imgent.Prelude.{
  ℕ, String, none, some, Bool, true, false, not, ◌&&◌, ◌||◌, ◌==◌, leb, if◌then◌else◌, List,
  any_where, update_where, count_where,
}
use imgent.Errors.Codes.{process_restart_recovery, task_unsafe_replay}
use imgent.Errors.Descriptor.{ErrorDescriptor, no_options, new_error}
use imgent.Store.Rows.{
  TaskStatus, TaskRow, SteerState, SteerRow, ApprovalStatus, ApprovalRow, CurationStatus,
  CurationRow, status_beq,
}
use imgent.Store.Db.{Db}

abbrev pub is_pending_approval : ApprovalStatus → Bool
is_pending_approval ApprovalStatus.pending = true
is_pending_approval _ = false

-- The pending approvals of a task that waits for one.
abbrev pub is_abandoned : List TaskRow → ApprovalRow → Bool
is_abandoned tasks a =
    is_pending_approval a.status
    && any_where (λ t. status_beq t.status TaskStatus.waiting_approval && t.id == a.task_id) tasks

abbrev pub expire : ℕ → ApprovalRow → ApprovalRow
expire now a = record a { status = ApprovalStatus.expired; decided_at = some now }

abbrev pub is_submitting : SteerRow → Bool
is_submitting s = elim s.state [ SteerState.submitting ↦ true | _ ↦ false ]

abbrev pub is_processing : CurationRow → Bool
is_processing c = elim c.status [ CurationStatus.processing ↦ true | _ ↦ false ]

abbrev pub restart_curation : ℕ → ErrorDescriptor → CurationRow → CurationRow
restart_curation now e c = record c {
  status = if leb 3 c.attempt then CurationStatus.dead_letter else CurationStatus.retry_wait;
  next_attempt_at = now;
  last_error = some e;
}

-- status = 'active' AND dangerous_side_effect_started = 0
abbrev pub may_replay : TaskRow → Bool
may_replay t = status_beq t.status TaskStatus.active && not t.dangerous_side_effect_started

abbrev pub requeue : ℕ → ErrorDescriptor → TaskRow → TaskRow
requeue now e t = record t {
  status = TaskStatus.retry_wait;
  error = some e;
  incident_id = e.incident_id;
  next_attempt_at = some now;
}

-- status = 'waiting_approval' OR (status = 'active' AND dangerous_side_effect_started = 1)
abbrev pub must_not_replay : TaskRow → Bool
must_not_replay t =
    status_beq t.status TaskStatus.waiting_approval
    || status_beq t.status TaskStatus.active && t.dangerous_side_effect_started

abbrev pub bury : ErrorDescriptor → TaskRow → TaskRow
bury e t = record t {
  status = TaskStatus.dead_letter;
  error = some e;
  incident_id = e.incident_id;
  next_attempt_at = none;
}

pub record Recovered : Type 0 where
  pub requeued : ℕ
  pub dead_lettered : ℕ

abbrev pub recovery_error : String → ErrorDescriptor
recovery_error uuid = (new_error process_restart_recovery no_options uuid).descriptor

abbrev pub unsafe_error : String → ErrorDescriptor
unsafe_error uuid = (new_error task_unsafe_replay no_options uuid).descriptor

-- The tasks after the first of the two UPDATE statements on them.
abbrev pub requeued_tasks : ℕ → String → Db → List TaskRow
requeued_tasks now uuid db = update_where may_replay (requeue now (recovery_error uuid)) db.tasks

-- IMGentStore.recoverAfterRestart
unfoldable pub recover_after_restart : ℕ → String → String → Db → Db × Recovered
recover_after_restart now uuid uuid' db = (
  record db {
    tasks = update_where must_not_replay (bury (unsafe_error uuid')) (requeued_tasks now uuid db);
    task_steers =
        update_where is_submitting (λ s. record s { state = SteerState.uncertain }) db.task_steers;
    approvals = update_where (is_abandoned db.tasks) (expire now) db.approvals;
    memory_outbox =
        update_where is_processing (restart_curation now (recovery_error uuid)) db.memory_outbox;
  },
  record {
    requeued = count_where may_replay db.tasks;
    dead_lettered = count_where must_not_replay (requeued_tasks now uuid db);
  },
)
