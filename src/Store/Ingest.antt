-- ===== src/Store/Ingest.antt =====
-- src/storage/store.ts: what becomes of a message that comes in.
pub mod Senders
pub mod Events
pub mod Kept
pub mod Duplicates
pub mod Again
pub mod Queued
use imgent.Prelude.{
  ℕ, ◌+◌, String, Option, none, some, Bool, true, false, not, ◌&&◌, ◌==◌, List, [], ◌∷◌, ◌++◌,
  text_append, if◌then◌else◌, or_value, find_where, update_where,
}
use imgent.Messaging.{
  Platform, ConversationKind, direct, group, is_group, ActorRole, InboundMessage, platform_beq,
  kind_beq,
}
use imgent.Store.Rows.{TaskStatus, TaskRow}
use imgent.Store.Directory.{
  SpaceRow, IdentityRow, MembershipRow, PrincipalRow, PolicyRow, GroupMode, EventRow, CheckpointRow,
}
use imgent.Store.Db.{
  Db, plain, Result, ok, err, Exec, pure, throw, run, gets, state, guard, ◌>>=◌, ◌>>◌, transaction,
}
use imgent.Store.Outbox.{enqueue_memory_outbox}
use imgent.Store.Inserts.{upsert, next_rowid, insert_task, put_membership}

-- CheckpointUpdate
pub record CheckpointUpdate : Type 0 where
  pub key : String
  pub value : String

abbrev pub is_checkpoint : String → String → CheckpointRow → Bool
is_checkpoint bot key c = c.bot_instance_id == bot && c.checkpoint_key == key

-- IMGentStore.setCheckpoint
unfoldable pub set_checkpoint : String → CheckpointUpdate → Db → Db
set_checkpoint bot c db = record db {
  transport_checkpoints =
      upsert (is_checkpoint bot c.key)
        (record { bot_instance_id = bot; checkpoint_key = c.key; value = c.value })
        db.transport_checkpoints;
}

abbrev pub value_of : Option CheckpointRow → Option String
value_of none = none
value_of (some c) = some c.value

-- IMGentStore.checkpoint
unfoldable pub checkpoint : String → String → Db → Option String
checkpoint bot key db = value_of (find_where (is_checkpoint bot key) db.transport_checkpoints)

-- if (checkpoint) this.setCheckpoint(...)
abbrev pub put_checkpoint : String → Option CheckpointUpdate → Db → Db
put_checkpoint bot none db = db
put_checkpoint bot (some c) db = set_checkpoint bot c db

pub record IngestResult : Type 0 where
  pub duplicate : Bool
  pub event_id : String
  pub task_id : Option String
  pub principal_id : String
  pub platform_identity_id : String
  pub conversation_space_id : String

-- The ids that an ingest draws; a context message draws its task's id like any other.
pub record IngestDraws : Type 0 where
  pub principal_id : String
  pub identity_id : String
  pub space_id : String
  pub event_id : String
  pub task_id : String
  pub curation_id : String

-- stripReplyContext
abbrev pub strip_reply_context : InboundMessage → InboundMessage
strip_reply_context m = record m { reply_context = none }

abbrev pub is_full : Option PolicyRow → Bool
is_full none = false
is_full (some p) = elim p.mode [ GroupMode.full ↦ true | GroupMode.triggered ↦ false ]

-- message.triggered === false
abbrev pub is_untriggered : InboundMessage → Bool
is_untriggered m = not (or_value m.triggered true)

-- ordinaryFullMessage
abbrev pub is_ordinary : InboundMessage → String → Db → Bool
is_ordinary m space db =
    is_group m.conversation.kind
    && is_untriggered m
    && is_full (find_where (λ p. p.conversation_space_id == space) db.group_policies)

abbrev pub expiry : Bool → ℕ → Option ℕ
expiry ordinary now = if ordinary then some (now + 604800000) else none

abbrev pub event_row : ℕ → String → InboundMessage → String → String → Bool → EventRow
event_row now id m space principal ordinary = record {
  id = id;
  platform = m.platform;
  bot_instance_id = m.bot_instance_id;
  event_id = m.event_id;
  message_id = m.message_id;
  dedupe_key = m.dedupe_key;
  sequence = m.sequence;
  conversation_space_id = space;
  principal_id = principal;
  message = some (strip_reply_context m);
  reply_context = m.reply_context;
  received_at = m.received_at;
  raw_expires_at = expiry ordinary now;
}

-- `${prefix}:${botInstanceId}:${dedupeKey}`
abbrev pub turn_key : String → String → String → String
turn_key prefix bot dedupe =
    text_append prefix (text_append ":" (text_append bot (text_append ":" dedupe)))

-- The task of an event.
abbrev pub event_task :
    ℕ
    → String
    → EventRow
    → String
    → String
    → InboundMessage
    → String
    → TaskStatus
    → List TaskRow
    → TaskRow
event_task now id e profile key m prefix status tasks = record {
  rowid = next_rowid tasks;
  id = id;
  inbound_event_id = some e.id;
  schedule_run_id = none;
  agent_profile_id = profile;
  principal_id = e.principal_id;
  conversation_space_id = e.conversation_space_id;
  conversation_key = key;
  execution_key = key;
  session_key = some key;
  idempotency_key = turn_key prefix e.bot_instance_id e.dedupe_key;
  message = m;
  reply_context = e.reply_context;
  curate_memory = true;
  status = status;
  attempt = 0;
  dangerous_side_effect_started = false;
  final_text = none;
  error = none;
  incident_id = none;
  next_attempt_at = none;
  created_at = now;
}
