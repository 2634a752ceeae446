-- ===== src/Store/Ingest/Again.antt =====
-- A message that comes again (src/storage/store.ts: ingest), and sessions that are read back.
use imgent.Prelude.{
  ℕ, ◌≡◌, inl, inr, refl, String, Option, none, some, Bool, true, ◌==◌, eq_refl, eq_iff, Bool-cases,
  find_where, if◌then◌else◌,
}
use imgent.Messaging.{InboundMessage}
use imgent.Store.Directory.{SessionRow, DriverKind}
use imgent.Store.Db.{Db, ok}
use imgent.Store.Inserts.{find_where-upsert, find_where-upsert_other}
use imgent.Store.Ingest.{CheckpointUpdate, put_checkpoint, IngestResult, IngestDraws}
use imgent.Store.Ingest.Events.{
  is_event_of, duplicate_result, ingest, is_session, save_session, session,
}
use imgent.Store.Ingest.Duplicates.{ingest-IsStored, ingest_known}

-- The answer for a message that was taken in before, with the ids of the first answer.
pub record IsRepeat (first again : IngestResult) : Type 0 where
  pub duplicate : again.duplicate ≡ true
  pub no_task : again.task_id ≡ none
  pub event_id : again.event_id ≡ first.event_id
  pub principal_id : again.principal_id ≡ first.principal_id
  pub space_id : again.conversation_space_id ≡ first.conversation_space_id

module _ (now : ℕ) (draws : IngestDraws) (m : InboundMessage) (profile key : String)
    (checkpoint : Option CheckpointUpdate) (enqueue : Bool) (r : IngestResult) (db : Db)
    (taken : (ingest now draws m profile key checkpoint enqueue db).0 ≡ ok r) where
  -- After a message was taken in, a message of the same bot instance and dedupe key, whatever else it
  -- says and under whatever profile, is reported as a duplicate with the ids of the first one, makes
  -- no task, and changes nothing but the checkpoint that comes with it.
  pub ingest-ingest :
      (later : ℕ) (draws' : IngestDraws) (m' : InboundMessage) (profile' key' : String)
      (checkpoint' : Option CheckpointUpdate) (enqueue' : Bool)
      → m'.bot_instance_id ≡ m.bot_instance_id
      → m'.dedupe_key ≡ m.dedupe_key
      → (again : IngestResult) × (ingest later draws' m' profile' key' checkpoint' enqueue'
            (ingest now draws m profile key checkpoint enqueue db).1
          ≡ (
            ok again,
            put_checkpoint m'.bot_instance_id checkpoint'
                (ingest now draws m profile key checkpoint enqueue db).1,
          ))
        × IsRepeat r again
  ingest-ingest later draws' m' profile' key' checkpoint' enqueue' b d =
      let stored = ingest-IsStored now draws m profile key checkpoint enqueue r db taken in
      let after = (ingest now draws m profile key checkpoint enqueue db).1 in
      let found : find_where (is_event_of m') after.inbound_events ≡ some stored.event =
        rw (b, d) stored.found in
      (
        duplicate_result profile' m' stored.event
            (put_checkpoint m'.bot_instance_id checkpoint' after),
        ingest_known later draws' m' profile' key' checkpoint' enqueue' stored.event after found,
        record {
          duplicate = refl;
          no_task = refl;
          event_id = stored.event_id;
          principal_id = stored.principal_id;
          space_id = stored.space_id;
        },
      )

abbrev session_row : String → DriverKind → String → String → SessionRow
session_row key driver id workspace = record {
  conversation_key = key;
  driver = driver;
  session_id = id;
  workspace = workspace;
}

-- A session that was saved is read back, and those of other keys are as before.
pub session-save_session :
    (key : String) (driver : DriverKind) (id workspace other : String) (db : Db)
    → session other (save_session key driver id workspace db)
      ≡ (if key == other then some (session_row key driver id workspace) else session other db)
unfolding session save_session
session-save_session key driver id workspace other db = elim (Bool-cases (key == other)) [
  | inl e ↦
      let k : key ≡ other = (eq_iff key other).0 e in
      let found =
        find_where-upsert (is_session key) (session_row key driver id workspace) db.agent_sessions
          (eq_refl key) in
      rw (e, ← k, found)
  | inr e ↦
      let kept =
        find_where-upsert_other (is_session key) (is_session other)
          (session_row key driver id workspace) db.agent_sessions e
          (λ s h.
            let k : s.conversation_key ≡ key = (eq_iff s.conversation_key key).0 h in rw (k) e) in
      rw (e, kept)
]
