-- ===== src/Tests/Ingest.antt =====
-- ingest, checkpoints and sessions (src/storage/store.ts) at concrete inputs.
use imgent.Prelude.{
  ◌==◌, ◌⊎◌, List, map, filter_where, ◌≡◌, refl, none, some, true, false, [], ◌∷◌, find_where,
  any_where,
}
use imgent.Messaging.{InboundMessage, text}
use imgent.Store.Directory.{DriverKind}
use imgent.Store.Db.{Db, empty_db, ok, transaction}
use imgent.Store.Inserts.{insert_task}
use imgent.Store.Ingest.{CheckpointUpdate, IngestResult, IngestDraws, set_checkpoint, checkpoint}
use imgent.Store.Ingest.Senders.{
  ensure_identity, ensure_conversation_space, upsert_group_membership,
}
use imgent.Store.Ingest.Queued.{enqueue_inbound_event-enqueue_inbound_event}
use imgent.Store.Ingest.Events.{
  enqueue_inbound_event, ingest, ingest_new, put_event, make_task, session, save_session,
}
use imgent.Store.Ingest.Duplicates.{checkpoint-set_checkpoint}
use imgent.Store.Ingest.Again.{IsRepeat, ingest-ingest, session-save_session}
use imgent.Store.Rows.{TaskRow}
use imgent.Store.Recent.{
  turn_of, insert_latest, latest_first, take, reverse, recent_rows, recent_inbound_turns,
}
use imgent.Store.Recent.Bounds.{History, recent_inbound_turns-History}
use imgent.Tests.Samples.{hello, running, busy}

abbrev draws : IngestDraws
draws = record {
  principal_id = "p1";
  identity_id = "i1";
  space_id = "s1";
  event_id = "e1";
  task_id = "t1";
  curation_id = "c1";
}

abbrev later_draws : IngestDraws
later_draws = record draws { event_id = "e2"; task_id = "t2" }

abbrev offset : CheckpointUpdate
offset = record { key = "offset"; value = "7" }

abbrev accepted : IngestResult
accepted = record {
  duplicate = false;
  event_id = "e1";
  task_id = some "t1";
  principal_id = "p1";
  platform_identity_id = "i1";
  conversation_space_id = "s1";
}

taken : (ingest 50 draws hello "profile" "k1" (some offset) true empty_db).0 ≡ ok accepted
unfolding ingest transaction ingest_new put_event make_task ensure_identity find_where
    ensure_conversation_space upsert_group_membership insert_task any_where
taken = refl

-- The same message in another wording.
abbrev reworded : InboundMessage
reworded = record hello { parts = text "hello again" ∷ [] }

ingest-ingest_example :
    (again : IngestResult) × (ingest 60 later_draws reworded "profile" "k1" none true
        (ingest 50 draws hello "profile" "k1" (some offset) true empty_db).1
      ≡ (ok again, (ingest 50 draws hello "profile" "k1" (some offset) true empty_db).1))
    × IsRepeat accepted again
ingest-ingest_example =
    ingest-ingest 50 draws hello "profile" "k1" (some offset) true accepted empty_db taken 60
      later_draws reworded "profile" "k1" none true refl refl

checkpoint-set_checkpoint_example :
    checkpoint "bot" "offset" (set_checkpoint "bot" offset empty_db) ≡ some "7"
checkpoint-set_checkpoint_example = checkpoint-set_checkpoint "bot" offset "bot" "offset" empty_db

session-save_session_example :
    session "k2" (save_session "k1" DriverKind.codex "x" "/a" empty_db) ≡ session "k2" empty_db
session-save_session_example = session-save_session "k1" DriverKind.codex "x" "/a" "k2" empty_db

-- The database after a message that was not to be queued at once.
abbrev unqueued : Db
unqueued = (ingest 50 draws hello "profile" "k1" none false empty_db).1

queues : (enqueue_inbound_event 55 "t9" "e1" "profile" "k1" unqueued).0 ≡ ok (some "t9")
unfolding ingest transaction ingest_new put_event make_task ensure_identity find_where
    ensure_conversation_space upsert_group_membership insert_task any_where enqueue_inbound_event
queues = refl

enqueue_inbound_event-enqueue_inbound_event_example :
    enqueue_inbound_event 60 "t10" "e1" "profile" "k1"
      (enqueue_inbound_event 55 "t9" "e1" "profile" "k1" unqueued).1
    ≡ (ok (some "t9"), (enqueue_inbound_event 55 "t9" "e1" "profile" "k1" unqueued).1)
enqueue_inbound_event-enqueue_inbound_event_example =
    enqueue_inbound_event-enqueue_inbound_event 55 "t9" "e1" "profile" "k1" unqueued "t9" 60 "t10"
      "profile" "k1" queues

recent_inbound_turns-History_example :
    ((find_where (λ (u : TaskRow). u.id == "t2") busy.tasks ≡ none)
      × (recent_inbound_turns "t2" 60 6 busy ≡ []))
    ⊎ ((current : TaskRow) × (find_where (λ (u : TaskRow). u.id == "t2") busy.tasks ≡ some current)
        × ((told : List TaskRow) × (recent_inbound_turns "t2" 60 6 busy ≡ map turn_of told)
            × History current 60 6 busy told))
recent_inbound_turns-History_example = recent_inbound_turns-History "t2" 60 6 busy

-- The running turn is the history of the follow-up behind it.
one_turn : recent_inbound_turns "t2" 60 6 busy ≡ turn_of running ∷ []
unfolding recent_inbound_turns recent_rows find_where filter_where latest_first insert_latest take
    reverse
one_turn = refl
