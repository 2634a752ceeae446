-- ===== src/Store/Rows.antt =====
-- src/storage/migrations.ts: the columns of each table as a record. JSON columns hold the value
-- that they encode, encrypted ones the value that they decrypt to, times are milliseconds. The
-- column `updated_at`, which nothing reads, is left out.
use imgent.Prelude.{ℕ, String, Option, Bool, true, false, nat_beq}
use imgent.Errors.Descriptor.{ErrorDescriptor}
use imgent.Messaging.{InboundMessage, OutboundMessage, ReplyContext, SendMode}

pub data TaskStatus : Type 0 where
  queued active retry_wait waiting_approval succeeded cancelled failed dead_letter : TaskStatus

abbrev pub rank : TaskStatus → ℕ
rank TaskStatus.queued = 0
rank TaskStatus.active = 1
rank TaskStatus.retry_wait = 2
rank TaskStatus.waiting_approval = 3
rank TaskStatus.succeeded = 4
rank TaskStatus.cancelled = 5
rank TaskStatus.failed = 6
rank TaskStatus.dead_letter = 7

abbrev pub status_beq : TaskStatus → TaskStatus → Bool
status_beq a b = nat_beq (rank a) (rank b)

-- status IN ('queued', 'retry_wait')
abbrev pub is_pending : TaskStatus → Bool
is_pending TaskStatus.queued = true
is_pending TaskStatus.retry_wait = true
is_pending _ = false

-- status IN ('active', 'waiting_approval')
abbrev pub is_running : TaskStatus → Bool
is_running TaskStatus.active = true
is_running TaskStatus.waiting_approval = true
is_running _ = false

-- status IN ('queued', 'active', 'retry_wait', 'waiting_approval')
abbrev pub is_open : TaskStatus → Bool
is_open TaskStatus.queued = true
is_open TaskStatus.active = true
is_open TaskStatus.retry_wait = true
is_open TaskStatus.waiting_approval = true
is_open _ = false

-- tasks, with its implicit rowid
pub record TaskRow : Type 0 where
  pub rowid : ℕ
  pub id : String
  pub inbound_event_id : Option String
  pub schedule_run_id : Option String
  pub agent_profile_id : String
  pub principal_id : String
  pub conversation_space_id : String
  pub conversation_key : String
  pub execution_key : String
  pub session_key : Option String
  pub idempotency_key : String
  pub message : InboundMessage
  pub reply_context : Option ReplyContext
  pub curate_memory : Bool
  pub status : TaskStatus
  pub attempt : ℕ
  pub dangerous_side_effect_started : Bool
  pub final_text : Option String
  pub error : Option ErrorDescriptor
  pub incident_id : Option String
  pub next_attempt_at : Option ℕ
  pub created_at : ℕ

pub data SteerState : Type 0 where
  submitting accepted rejected uncertain : SteerState

-- task_steers
pub record SteerRow : Type 0 where
  pub input_task_id : String
  pub target_task_id : String
  pub state : SteerState
  pub created_at : ℕ

pub data Risk : Type 0 where
  low medium high : Risk

pub data ApprovalStatus : Type 0 where
  pending allowed denied expired : ApprovalStatus

-- packages/contracts/src/approval.ts
pub data AgentRequestAnswer : Type 0 where
  allow deny : Option Bool → AgentRequestAnswer
  answer : String → AgentRequestAnswer

-- approvals
pub record ApprovalRow : Type 0 where
  pub request_id : String
  pub task_id : String
  pub conversation_key : String
  pub principal_id : String
  pub tool_name : String
  pub sanitized_input : String
  pub risk : Risk
  pub status : ApprovalStatus
  pub created_at : ℕ
  pub expires_at : ℕ
  pub decided_at : Option ℕ
  pub decision : Option AgentRequestAnswer

pub data OutboundStatus : Type 0 where
  pending sending retry_wait sent dead_letter : OutboundStatus

-- outbound_messages
pub record OutboundRow : Type 0 where
  pub id : String
  pub task_id : Option String
  pub bot_instance_id : String
  pub idempotency_key : String
  pub status : OutboundStatus
  pub payload : OutboundMessage
  pub reply_context : Option ReplyContext
  pub platform_message_id : Option String
  pub send_mode : Option SendMode
  pub attempt : ℕ
  pub next_attempt_at : ℕ
  pub last_error : Option ErrorDescriptor
  pub created_at : ℕ

-- dead_letters; the redacted diagnostic is left out.
pub record DeadLetterRow : Type 0 where
  pub id : String
  pub category : String
  pub bot_instance_id : Option String
  pub reference_id : Option String
  pub error : ErrorDescriptor
  pub created_at : ℕ

pub data CurationStatus : Type 0 where
  pending processing retry_wait succeeded dead_letter : CurationStatus

-- memory_outbox
pub record CurationRow : Type 0 where
  pub id : String
  pub task_id : String
  pub status : CurationStatus
  pub attempt : ℕ
  pub next_attempt_at : ℕ
  pub last_error : Option ErrorDescriptor
  pub created_at : ℕ
