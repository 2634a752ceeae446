-- ===== src/Store/Tasks.antt =====
-- src/storage/store.ts: the life of a task. claimNextTask, transitionTask, completeTask,
-- cancelConversation, task and what they read.
use imgent.Prelude.{
  ℕ, ◌+◌, String, Option, none, some, Bool, false, not, ◌&&◌, ◌||◌, ◌==◌, List, [], ◌∷◌, map, ltb,
  leb, nat_beq, if◌then◌else◌, or_else, present, any_where, filter_where, find_where, count_where,
  update_where,
}
use imgent.Errors.Descriptor.{ErrorDescriptor}
use imgent.Messaging.{InboundMessage, ReplyContext}
use imgent.Store.Rows.{TaskStatus, TaskRow, status_beq, is_pending, is_running, is_open}
use imgent.Store.Db.{Db}

-- StoredTask
pub record StoredTask : Type 0 where
  pub id : String
  pub inbound_event_id : Option String
  pub schedule_run_id : Option String
  pub agent_profile_id : String
  pub principal_id : String
  pub conversation_space_id : String
  pub conversation_key : String
  pub execution_key : String
  pub session_key : Option String
  pub idempotency_key : String
  pub curate_memory : Bool
  pub status : TaskStatus
  pub attempt : ℕ
  pub dangerous_side_effect_started : Bool
  pub message : InboundMessage
  pub final_text : Option String
  pub error : Option ErrorDescriptor
  pub next_attempt_at : Option ℕ
  pub created_at : ℕ

-- `if (replyContext) message.replyContext = replyContext`
abbrev pub with_reply_context : Option ReplyContext → InboundMessage → InboundMessage
with_reply_context none m = m
with_reply_context (some c) m = record m { reply_context = some c }

-- The row as `task` returns it.
abbrev pub stored_task : TaskRow → StoredTask
stored_task r = record {
  id = r.id;
  inbound_event_id = present r.inbound_event_id;
  schedule_run_id = present r.schedule_run_id;
  agent_profile_id = r.agent_profile_id;
  principal_id = r.principal_id;
  conversation_space_id = r.conversation_space_id;
  conversation_key = r.conversation_key;
  execution_key = r.execution_key;
  session_key = present r.session_key;
  idempotency_key = r.idempotency_key;
  curate_memory = r.curate_memory;
  status = r.status;
  attempt = r.attempt;
  dangerous_side_effect_started = r.dangerous_side_effect_started;
  message = with_reply_context r.reply_context r.message;
  final_text = present r.final_text;
  error = r.error;
  next_attempt_at = r.next_attempt_at;
  created_at = r.created_at;
}

abbrev pub has_id : String → TaskRow → Bool
has_id id t = t.id == id

unfoldable pub find_task : String → Db → Option TaskRow
find_task id db = find_where (has_id id) db.tasks

-- IMGentStore.task
unfoldable pub task : String → Db → Option StoredTask
unfolding find_task
task id db = elim (find_task id db) [ none ↦ none | some r ↦ some (stored_task r) ]

-- t.status = 'queued' OR t.next_attempt_at <= now
abbrev pub due_at : ℕ → Option ℕ → Bool
due_at now none = false
due_at now (some t) = leb t now

abbrev pub is_due : ℕ → TaskRow → Bool
is_due now t = status_beq t.status TaskStatus.queued || due_at now t.next_attempt_at

abbrev pub same_key : TaskRow → TaskRow → Bool
same_key a b = a.execution_key == b.execution_key

-- earlier.created_at < t.created_at, or equal with a smaller rowid
abbrev pub is_earlier : TaskRow → TaskRow → Bool
is_earlier a t =
    ltb a.created_at t.created_at || nat_beq a.created_at t.created_at && ltb a.rowid t.rowid

-- The two NOT EXISTS clauses.
abbrev pub runs_for : TaskRow → TaskRow → Bool
runs_for t a = same_key a t && is_running a.status

abbrev pub waits_before : TaskRow → TaskRow → Bool
waits_before t e = same_key e t && is_open e.status && is_earlier e t

-- The WHERE clause of claimNextTask.
unfoldable pub is_claimable : ℕ → List TaskRow → TaskRow → Bool
is_claimable now rows t =
    is_pending t.status
    && is_due now t
    && not (any_where (runs_for t) rows)
    && not (any_where (waits_before t) rows)

abbrev pub sooner : TaskRow → Option TaskRow → Option TaskRow
sooner t none = some t
sooner t (some u) = if ltb u.created_at t.created_at then some u else some t

-- ORDER BY created_at LIMIT 1, the smaller rowid among equals
unfoldable pub first_created : List TaskRow → Option TaskRow
first_created [] = none
first_created (t ∷ ts) = sooner t (first_created ts)

unfoldable pub next_claim : ℕ → List TaskRow → Option TaskRow
next_claim now rows = first_created (filter_where (is_claimable now rows) rows)

abbrev pub claimed : TaskRow → TaskRow
claimed t = record t { status = TaskStatus.active; attempt = t.attempt + 1; next_attempt_at = none }

-- The object that claimNextTask builds from the row that it read before its UPDATE.
abbrev pub claimed_task : TaskRow → StoredTask
claimed_task r = record (stored_task r) {
  status = TaskStatus.active;
  attempt = r.attempt + 1;
  final_text = none;
  error = none;
  next_attempt_at = none;
}

-- IMGentStore.claimNextTask
unfoldable pub claim_next_task : ℕ → Db → Db × Option StoredTask
claim_next_task now db = elim (next_claim now db.tasks) [
  | none ↦ (db, none)
  | some r ↦ (
    record db { tasks = update_where (λ t. has_id r.id t && is_pending t.status) claimed db.tasks },
    some (claimed_task r),
  )
]

-- The optional fields of transitionTask.
pub record TransitionFields : Type 0 where
  pub final_text : Option String
  pub error : Option ErrorDescriptor
  pub next_attempt_at : Option ℕ

abbrev pub no_fields : TransitionFields
no_fields = record { final_text = none; error = none; next_attempt_at = none }

abbrev pub with_error : ErrorDescriptor → TransitionFields
with_error e = record { final_text = none; error = some e; next_attempt_at = none }

abbrev pub incident_of : Option ErrorDescriptor → Option String
incident_of none = none
incident_of (some e) = e.incident_id

abbrev pub transitioned : TaskStatus → TransitionFields → TaskRow → TaskRow
transitioned to fields t = record t {
  status = to;
  final_text = or_else fields.final_text t.final_text;
  error = fields.error;
  incident_id = incident_of fields.error;
  next_attempt_at = fields.next_attempt_at;
}

-- status IN (from)
abbrev pub is_one_of : List TaskStatus → TaskStatus → Bool
is_one_of [] s = false
is_one_of (f ∷ from) s = status_beq f s || is_one_of from s

abbrev pub may_transition : String → List TaskStatus → TaskRow → Bool
may_transition id from t = has_id id t && is_one_of from t.status

-- IMGentStore.transitionTask
unfoldable pub transition_task :
    String → List TaskStatus → TaskStatus → TransitionFields → Db → Db × Bool
transition_task id from to fields db = (
  record db { tasks = update_where (may_transition id from) (transitioned to fields) db.tasks },
  nat_beq (count_where (may_transition id from) db.tasks) 1,
)

-- The WHERE clauses of cancelConversation.
abbrev pub of_conversation : String → String → TaskRow → Bool
of_conversation key principal t = t.conversation_key == key && t.principal_id == principal

abbrev pub runs_in : String → String → TaskRow → Bool
runs_in key principal t = of_conversation key principal t && is_running t.status

abbrev pub waits_in : String → String → TaskRow → Bool
waits_in key principal t = of_conversation key principal t && is_pending t.status

abbrev pub cancelled : TaskRow → TaskRow
cancelled t = record t { status = TaskStatus.cancelled }

pub record Cancelled : Type 0 where
  pub active_turn_ids : List String
  pub cancelled_queued : ℕ

-- IMGentStore.cancelConversation
unfoldable pub cancel_conversation : String → String → Db → Db × Cancelled
cancel_conversation key principal db = (
  record db { tasks = update_where (waits_in key principal) cancelled db.tasks },
  record {
    active_turn_ids = map (λ t. t.id) (filter_where (runs_in key principal) db.tasks);
    cancelled_queued = count_where (waits_in key principal) db.tasks;
  },
)
