-- ===== src/Scheduler.antt =====
-- src/queue/scheduler.ts: which follow-ups go to the turn that runs, and what becomes of a turn
-- that fails. The texts of replies (src/i18n, src/im) are an argument.
pub mod Retry
pub mod Replay
use imgent.Prelude.{
  ℕ, ◌+◌, String, Option, none, some, Bool, true, false, not, ◌&&◌, ◌||◌, ◌==◌, [], ◌∷◌, leb, ltb,
  min, if◌then◌else◌, or_value, is_some, same_text, find_where, text_append,
}
use imgent.Errors.Types.{is_backoff, is_safe}
use imgent.Errors.Codes.{
  code_text, internal_unexpected_error, task_unsafe_replay, task_retry_exhausted,
}
use imgent.Errors.Descriptor.{ErrorDescriptor, no_options, new_error}
use imgent.Errors.Normalize.{descriptor, normalize_error}
use imgent.Messaging.{OutboundMessage, ReplyRef, text, same_role}
use imgent.Store.Rows.{TaskStatus, status_beq}
use imgent.Store.Db.{Db}
use imgent.Store.Tasks.{StoredTask, TransitionFields, task, with_error, transition_task}
use imgent.Store.Outbox.{enqueue_outbound, add_dead_letter}
use imgent.Store.Steers.{latest_steered_input}

-- The texts that are shown to the user: an error's, and a scheduled reply's from its text, the
-- schedule's name and time, and whether a system prefix is kept.
pub record Texts : Type 0 where
  pub error_text : ErrorDescriptor → StoredTask → String
  pub scheduled_text : String → String → ℕ → Bool → String

pub data FollowUpMode : Type 0 where
  steer queue : FollowUpMode

-- The fields of AgentProfile that the scheduler's decisions read.
pub record AgentProfile : Type 0 where
  pub id : String
  pub workspace : String
  pub follow_up_mode : Option FollowUpMode
  pub memory_enabled : Bool

abbrev pub is_queue : Option FollowUpMode → Bool
is_queue (some queue) = true
is_queue _ = false

-- SteeringTurn, without its promise; `can_steer_turn` says that the driver has steerTurn.
pub record SteeringTurn : Type 0 where
  pub task : StoredTask
  pub can_steer_turn : Bool
  pub workspace : String
  pub ready : Bool
  pub closing : Bool

abbrev pub profile_workspace : Option AgentProfile → Option String
profile_workspace none = none
profile_workspace (some p) = some p.workspace

abbrev pub workspace_of : Option String → Option AgentProfile → Option String
workspace_of none p = profile_workspace p
workspace_of (some w) p = some w

abbrev pub profile_mode : Option AgentProfile → Option FollowUpMode
profile_mode none = none
profile_mode (some p) = p.follow_up_mode

-- ConversationScheduler.canSteer; `profile` is the input's profile and `assigned` the workspace
-- that workspaceFor gives for the input.
unfoldable pub can_steer : Option AgentProfile → Option String → SteeringTurn → StoredTask → Bool
can_steer profile assigned turn input =
    not turn.closing
    && turn.can_steer_turn
    && not (is_queue (profile_mode profile))
    && status_beq input.status TaskStatus.queued
    && not (is_some input.schedule_run_id)
    && not (is_some turn.task.schedule_run_id)
    && input.agent_profile_id == turn.task.agent_profile_id
    && input.principal_id == turn.task.principal_id
    && input.execution_key == turn.task.execution_key
    && same_text input.session_key turn.task.session_key
    && same_text (workspace_of assigned profile) (some turn.workspace)
    && same_role input.message.actor.role turn.task.message.actor.role

-- The name and time of the schedule that started a task.
pub record Scheduled : Type 0 where
  pub name : String
  pub scheduled_for : ℕ

-- SELECT s.name, sr.scheduled_for FROM schedule_runs sr JOIN schedules s ... WHERE sr.id = ?
unfoldable pub scheduled_of : Option String → Db → Option Scheduled
scheduled_of none db = none
scheduled_of (some run) db = elim (find_where (λ r. r.id == run) db.schedule_runs) [
  | none ↦ none
  | some r ↦ elim (find_where (λ s. s.id == r.schedule_id) db.schedules) [
    | none ↦ none
    | some s ↦ some (record { name = s.name; scheduled_for = r.scheduled_for })
  ]
]

abbrev pub plain_reply : StoredTask → StoredTask → String → String → OutboundMessage
plain_reply t input body key = record {
  bot_instance_id = t.message.bot_instance_id;
  conversation = t.message.conversation;
  parts = text body ∷ [];
  reply_to = some (record { message_id = input.message.message_id; actor_platform_user_id = none });
  reply_context = input.message.reply_context;
  idempotency_key = key;
}

abbrev pub scheduled_reply : StoredTask → String → String → OutboundMessage
scheduled_reply t body key = record {
  bot_instance_id = t.message.bot_instance_id;
  conversation = t.message.conversation;
  parts = text body ∷ [];
  reply_to = none;
  reply_context = none;
  idempotency_key = key;
}

-- `${task.id}:${suffix}`
abbrev pub reply_key : StoredTask → String → String
reply_key t suffix = text_append t.id (text_append ":" suffix)

-- ConversationScheduler.replyMessage
unfoldable pub reply_message : Texts → StoredTask → String → String → Db → OutboundMessage
reply_message texts t body suffix db = elim (scheduled_of t.schedule_run_id db) [
  | none ↦ plain_reply t (or_value (latest_steered_input t.id db) t) body (reply_key t suffix)
  | some s ↦
      scheduled_reply t (texts.scheduled_text body s.name s.scheduled_for (not (suffix == "final")))
        (reply_key t suffix)
]

-- What the failure of a turn draws: UUIDs for its errors and ids for its rows.
pub record FailureDraws : Type 0 where
  pub canonical_uuid : String
  pub final_uuid : String
  pub dead_id : String
  pub outbound_id : String

-- ConversationScheduler.finishWithError
unfoldable pub finish_with_error :
    Texts → ℕ → String → StoredTask → ErrorDescriptor → TaskStatus → Db → Db
finish_with_error texts now outbound_id t d status db =
    let finished =
      (transition_task t.id
        (TaskStatus.active ∷ TaskStatus.waiting_approval ∷ TaskStatus.retry_wait ∷ []) status
        (with_error d) db).0 in
    let message =
      reply_message texts t (texts.error_text d t) (text_append "error:" (code_text d.code))
        finished in
    (enqueue_outbound now outbound_id message (some t.id) finished).0

-- The descriptor that normalizeError makes of the driver's.
abbrev pub canonical : String → ErrorDescriptor → ErrorDescriptor
canonical uuid d = (normalize_error (descriptor d) internal_unexpected_error uuid).descriptor

abbrev pub can_retry : StoredTask → ErrorDescriptor → Bool
can_retry t d =
    is_backoff d.retry.strategy
    && is_safe d.retry.replay
    && not t.dangerous_side_effect_started
    && ltb t.attempt 3

abbrev pub retry_delay : StoredTask → ErrorDescriptor → ℕ
retry_delay t d =
    min (or_value d.retry.retry_after_ms (if leb t.attempt 1 then 2000 else 10000)) 300000

abbrev pub retry_fields : ℕ → StoredTask → ErrorDescriptor → TransitionFields
retry_fields now t d = record {
  final_text = none;
  error = some d;
  next_attempt_at = some (now + retry_delay t d);
}

abbrev pub final_descriptor : String → StoredTask → ErrorDescriptor → ErrorDescriptor
final_descriptor uuid t d =
    if is_backoff d.retry.strategy && leb 3 t.attempt
    then (new_error task_retry_exhausted no_options uuid).descriptor
    else d

abbrev pub unsafe_descriptor : String → ErrorDescriptor
unsafe_descriptor uuid = (new_error task_unsafe_replay no_options uuid).descriptor

abbrev pub is_unsafe : StoredTask → ErrorDescriptor → Bool
is_unsafe t d = t.dangerous_side_effect_started || not (is_safe d.retry.replay)

-- A dead letter, and the task with it.
unfoldable pub bury_failure : Texts → ℕ → FailureDraws → StoredTask → Db → Db
bury_failure texts now draws t db =
    finish_with_error texts now draws.outbound_id t (unsafe_descriptor draws.final_uuid)
      TaskStatus.dead_letter
      (add_dead_letter now draws.dead_id draws.final_uuid "task.unsafe-replay"
        (descriptor (unsafe_descriptor draws.final_uuid)) (some t.message.bot_instance_id)
        (some t.id) db)

-- The branches of handleDriverError, on the task as it now stands and the canonical descriptor.
unfoldable pub settle_failure :
    Texts → ℕ → FailureDraws → StoredTask → StoredTask → ErrorDescriptor → Db → Db
settle_failure texts now draws t current d db =
    if can_retry current d
    then (transition_task t.id (TaskStatus.active ∷ TaskStatus.waiting_approval ∷ [])
        TaskStatus.retry_wait (retry_fields now current d) db).0
    else if is_unsafe current d
    then bury_failure texts now draws t db
    else finish_with_error texts now draws.outbound_id t
        (final_descriptor draws.final_uuid current d) TaskStatus.failed db

-- ConversationScheduler.handleDriverError
unfoldable pub handle_driver_error :
    Texts → ℕ → FailureDraws → StoredTask → ErrorDescriptor → Db → Db
handle_driver_error texts now draws t d db =
    settle_failure texts now draws t (or_value (task t.id db) t) (canonical draws.canonical_uuid d)
      db
