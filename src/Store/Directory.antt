-- ===== src/Store/Directory.antt =====
-- src/storage/migrations.ts: the rows of conversations, people, sessions, schedules and received
-- messages, and of the audit log. The column `updated_at` is left out.
use imgent.Prelude.{ℕ, String, Option, Bool}
use imgent.Messaging.{Platform, ConversationKind, ActorRole, InboundMessage, ReplyContext}

-- conversation_spaces
pub record SpaceRow : Type 0 where
  pub id : String
  pub agent_profile_id : String
  pub platform : Platform
  pub bot_instance_id : String
  pub kind : ConversationKind
  pub platform_conversation_id : String
  pub created_at : ℕ

-- platform_identities
pub record IdentityRow : Type 0 where
  pub id : String
  pub agent_profile_id : String
  pub platform : Platform
  pub bot_instance_id : String
  pub platform_user_id : String
  pub principal_id : String
  pub display_name : Option String
  pub paired : Bool
  pub created_at : ℕ

-- group_memberships
pub record MembershipRow : Type 0 where
  pub conversation_space_id : String
  pub principal_id : String
  pub platform_member_id : Option String
  pub display_name : Option String
  pub role : ActorRole
  pub confirmed_at : ℕ

-- group_authorizations
pub record AuthorizationRow : Type 0 where
  pub conversation_space_id : String
  pub authorized_by_principal_id : String
  pub created_at : ℕ

pub data DriverKind : Type 0 where
  codex claude_code : DriverKind

-- agent_sessions
pub record SessionRow : Type 0 where
  pub conversation_key : String
  pub driver : DriverKind
  pub session_id : String
  pub workspace : String

pub data Locale : Type 0 where
  zh_cn en_us : Locale

pub data GroupMode : Type 0 where
  triggered full : GroupMode

pub data ScheduleKind : Type 0 where
  once cron : ScheduleKind

pub data ContextMode : Type 0 where
  fresh series : ContextMode

pub data ScheduleStatus : Type 0 where
  active paused completed blocked : ScheduleStatus

-- schedules
pub record ScheduleRow : Type 0 where
  pub id : String
  pub name : String
  pub prompt : String
  pub conversation_space_id : String
  pub principal_id : String
  pub agent_profile_id : String
  pub schedule_kind : ScheduleKind
  pub schedule_expression : String
  pub timezone : Option String
  pub context_mode : ContextMode
  pub status : ScheduleStatus
  pub next_run_at : Option ℕ
  pub skipped_run_count : ℕ
  pub blocked_reason : Option String
  pub removed_at : Option ℕ
  pub created_at : ℕ

-- schedule_runs
pub record ScheduleRunRow : Type 0 where
  pub id : String
  pub schedule_id : String
  pub scheduled_for : ℕ
  pub enqueued_at : ℕ

-- principals
pub record PrincipalRow : Type 0 where
  pub id : String
  pub agent_profile_id : String
  pub locale : Option Locale
  pub workspace : Option String
  pub created_at : ℕ

-- group_policies
pub record PolicyRow : Type 0 where
  pub conversation_space_id : String
  pub mode : GroupMode
  pub platform_full_capability : Bool
  pub changed_by_principal_id : Option String
  pub changed_at : ℕ

-- inbound_events; the message is without its reply context, or none once it has expired.
pub record EventRow : Type 0 where
  pub id : String
  pub platform : Platform
  pub bot_instance_id : String
  pub event_id : Option String
  pub message_id : String
  pub dedupe_key : String
  pub sequence : Option String
  pub conversation_space_id : String
  pub principal_id : String
  pub message : Option InboundMessage
  pub reply_context : Option ReplyContext
  pub received_at : ℕ
  pub raw_expires_at : Option ℕ

-- transport_checkpoints
pub record CheckpointRow : Type 0 where
  pub bot_instance_id : String
  pub checkpoint_key : String
  pub value : String

-- pairing_codes and binding_codes, whose second column names the identity
pub record CodeRow : Type 0 where
  pub code_hash : String
  pub platform_identity_id : String
  pub expires_at : ℕ
  pub used_at : Option ℕ

-- What the columns event_type and details_json of audit_events say.
pub data AuditEvent : Type 0 where
  schedule_event :
      String → String → ScheduleStatus → ScheduleKind → ContextMode → Option ℕ → AuditEvent
  identity_paired : String → Option String → AuditEvent
  workspace_changed : Option String → String → ℕ → AuditEvent
  identity_bound : IdentityRow → IdentityRow → AuditEvent
  identity_unbound : String → IdentityRow → AuditEvent
  group_authorized : AuditEvent
  ingestion_changed : GroupMode → AuditEvent

-- audit_events
pub record AuditRow : Type 0 where
  pub agent_profile_id : Option String
  pub principal_id : Option String
  pub conversation_space_id : Option String
  pub event : AuditEvent
  pub created_at : ℕ
