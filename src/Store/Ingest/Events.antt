-- ===== src/Store/Ingest/Events.antt =====
-- src/storage/store.ts: ingest, enqueueInboundEvent, saveSession and session.
use imgent.Prelude.{
  List, ℕ, String, Option, none, some, Bool, true, false, not, ◌&&◌, ◌==◌, [], ◌∷◌, ◌++◌,
  find_where,
}
use imgent.Messaging.{InboundMessage}
use imgent.Store.Rows.{TaskStatus, TaskRow}
use imgent.Store.Directory.{IdentityRow, EventRow, SessionRow, DriverKind}
use imgent.Store.Db.{Db, plain, Exec, pure, throw, run, gets, state, ◌>>=◌, ◌>>◌, transaction}
use imgent.Store.Outbox.{enqueue_memory_outbox}
use imgent.Store.Inserts.{upsert, insert_task}
use imgent.Store.Ingest.{
  CheckpointUpdate, put_checkpoint, IngestResult, IngestDraws, strip_reply_context, is_untriggered,
  is_ordinary, event_row, event_task,
}
use imgent.Store.Ingest.Senders.{
  is_sender, ensure_identity, ensure_conversation_space, upsert_group_membership,
}

-- UNIQUE(bot_instance_id, dedupe_key)
abbrev pub is_event_of : InboundMessage → EventRow → Bool
is_event_of m e = e.bot_instance_id == m.bot_instance_id && e.dedupe_key == m.dedupe_key

abbrev pub identity_id : Option IdentityRow → String
identity_id none = ""
identity_id (some i) = i.id

abbrev pub duplicate_result : String → InboundMessage → EventRow → Db → IngestResult
duplicate_result profile m e db = record {
  duplicate = true;
  event_id = e.id;
  task_id = none;
  principal_id = e.principal_id;
  platform_identity_id = identity_id (find_where (is_sender profile m) db.platform_identities);
  conversation_space_id = e.conversation_space_id;
}

-- A message that was taken in before.
unfoldable pub ingest_duplicate :
    InboundMessage → String → Option CheckpointUpdate → EventRow → Exec IngestResult
ingest_duplicate m profile checkpoint e = do
  run (put_checkpoint m.bot_instance_id checkpoint)
  gets (duplicate_result profile m e)

-- The task of a new event: a context that only feeds the memory, a turn, or none.
unfoldable pub make_task :
    ℕ
    → IngestDraws
    → EventRow
    → String
    → String
    → InboundMessage
    → Bool
    → Bool
    → Exec (Option String)
make_task now draws e profile key m true enqueue = do
  insert_task (event_task now draws.task_id e profile key m "context" TaskStatus.succeeded)
  run (enqueue_memory_outbox now draws.curation_id draws.task_id)
  pure none
make_task now draws e profile key m false true = do
  insert_task (event_task now draws.task_id e profile key m "turn" TaskStatus.queued)
  pure (some draws.task_id)
make_task now draws e profile key m false false = pure none

abbrev pub add_event : EventRow → Db → Db
add_event e db = record db { inbound_events = db.inbound_events ++ e ∷ [] }

-- The event of a message that is new, with its task.
unfoldable pub put_event :
    ℕ
    → IngestDraws
    → InboundMessage
    → String
    → String
    → Option CheckpointUpdate
    → Bool
    → String
    → String × String
    → Exec IngestResult
put_event now draws m profile key checkpoint enqueue space identity = do
  run (upsert_group_membership now m space identity.1)
  ordinary ← gets (is_ordinary m space)
  run (add_event (event_row now draws.event_id m space identity.1 ordinary))
  task ←
      make_task now draws (event_row now draws.event_id m space identity.1 ordinary) profile key
        (strip_reply_context m) ordinary (enqueue && not (is_untriggered m))
  run (put_checkpoint m.bot_instance_id checkpoint)
  pure (record {
    duplicate = false;
    event_id = draws.event_id;
    task_id = task;
    principal_id = identity.1;
    platform_identity_id = identity.0;
    conversation_space_id = space;
  })

unfoldable pub ingest_new :
    ℕ
    → IngestDraws
    → InboundMessage
    → String
    → String
    → Option CheckpointUpdate
    → Bool
    → Exec IngestResult
ingest_new now draws m profile key checkpoint enqueue = do
  identity ← state (ensure_identity now draws profile m)
  space ← ensure_conversation_space now draws.space_id profile m
  put_event now draws m profile key checkpoint enqueue space identity

abbrev pub ingest_as :
    ℕ
    → IngestDraws
    → InboundMessage
    → String
    → String
    → Option CheckpointUpdate
    → Bool
    → Option EventRow
    → Exec IngestResult
ingest_as now draws m profile key checkpoint enqueue none =
    ingest_new now draws m profile key checkpoint enqueue
ingest_as now draws m profile key checkpoint enqueue (some e) =
    ingest_duplicate m profile checkpoint e

-- IMGentStore.ingest
unfoldable pub ingest :
    ℕ
    → IngestDraws
    → InboundMessage
    → String
    → String
    → Option CheckpointUpdate
    → Bool
    → Exec IngestResult
ingest now draws m profile key checkpoint enqueue = transaction (do
  duplicate ← gets (λ db. find_where (is_event_of m) db.inbound_events)
  ingest_as now draws m profile key checkpoint enqueue duplicate)

abbrev pub is_of_event : String → Option String → Bool
is_of_event id none = false
is_of_event id (some e) = e == id

abbrev pub insert_unless : Bool → String → (List TaskRow → TaskRow) → Exec (Option String)
insert_unless true task_id row = pure none
insert_unless false task_id row = insert_task row >> pure (some task_id)

-- The task of a stored event, unless it has expired or was not triggered.
abbrev pub enqueue_message :
    ℕ → String → EventRow → String → String → Option InboundMessage → Exec (Option String)
enqueue_message now task_id e profile key none = pure none
enqueue_message now task_id e profile key (some m) =
    insert_unless (is_untriggered m) task_id
      (event_task now task_id e profile key m "turn" TaskStatus.queued)

abbrev pub enqueue_event : ℕ → String → String → String → Option EventRow → Exec (Option String)
enqueue_event now task_id profile key none = throw plain
enqueue_event now task_id profile key (some e) = enqueue_message now task_id e profile key e.message

abbrev pub enqueue_once :
    ℕ → String → String → String → String → Option TaskRow → Exec (Option String)
enqueue_once now task_id event_id profile key (some t) = pure (some t.id)
enqueue_once now task_id event_id profile key none = do
  e ← gets (λ db. find_where (λ (e : EventRow). e.id == event_id) db.inbound_events)
  enqueue_event now task_id profile key e

-- IMGentStore.enqueueInboundEvent
unfoldable pub enqueue_inbound_event : ℕ → String → String → String → String → Exec (Option String)
enqueue_inbound_event now task_id event_id profile key = transaction (do
  existing ← gets (λ db. find_where (λ t. is_of_event event_id t.inbound_event_id) db.tasks)
  enqueue_once now task_id event_id profile key existing)

abbrev pub is_session : String → SessionRow → Bool
is_session key s = s.conversation_key == key

-- IMGentStore.saveSession
unfoldable pub save_session : String → DriverKind → String → String → Db → Db
save_session key driver id workspace db = record db {
  agent_sessions =
      upsert (is_session key)
        (record { conversation_key = key; driver = driver; session_id = id; workspace = workspace })
        db.agent_sessions;
}

-- IMGentStore.session
unfoldable pub session : String → Db → Option SessionRow
session key db = find_where (is_session key) db.agent_sessions
