-- ===== src/Store/Ingest/Kept.antt =====
-- What the parts of ingest (src/storage/store.ts) leave of the table of events.
use imgent.Prelude.{
  ℕ, ◌≡◌, ◌⊎◌, inl, inr, refl, ◌∙◌, String, Option, none, some, Bool, true, false, ◌==◌, ◌&&◌, List,
  [], ◌∷◌, ◌++◌, Bool-cases, Option-cases, find_where, any_where,
}
use imgent.Messaging.{Platform, InboundMessage, is_group, platform_beq}
use imgent.Store.Rows.{TaskStatus, TaskRow}
use imgent.Store.Directory.{EventRow}
use imgent.Store.Db.{Db, Failure, constraint, plain, Result, ok, err}
use imgent.Store.Outbox.{enqueue_memory_outbox, curates}
use imgent.Store.Inserts.{insert_task}
use imgent.Store.Ingest.{CheckpointUpdate, set_checkpoint, put_checkpoint, IngestDraws, event_task}
use imgent.Store.Ingest.Senders.{
  is_sender, ensure_identity, is_space_of, ensure_conversation_space, upsert_group_membership,
  new_space, new_policies,
}
use imgent.Store.Ingest.Events.{make_task}

-- What keeps the table of events, if it does not throw.
abbrev pub KeepsEvents : {A : Type 0} → Result A × Db → Db → Type 0
KeepsEvents {A} r db =
    ((e : Failure) × (r.0 ≡ err e))
    ⊎ ((a : A) × (after : Db) × (r ≡ (ok a, after)) × (after.inbound_events ≡ db.inbound_events))

pub put_checkpoint-events :
    (bot : String) (c : Option CheckpointUpdate) (db : Db)
    → (put_checkpoint bot c db).inbound_events ≡ db.inbound_events
unfolding set_checkpoint
put_checkpoint-events bot none db = refl
put_checkpoint-events bot (some c) db = refl

enqueue_memory_outbox-events :
    (now : ℕ) (id task_id : String) (db : Db)
    → (enqueue_memory_outbox now id task_id db).inbound_events ≡ db.inbound_events
unfolding enqueue_memory_outbox
enqueue_memory_outbox-events now id task_id db =
    elim (Bool-cases (any_where (curates task_id) db.memory_outbox)) [
      | inl e ↦ rw (e, enqueue_memory_outbox)
      | inr e ↦ rw (e, enqueue_memory_outbox)
    ]

insert_task-events :
    (row : List TaskRow → TaskRow) (db : Db)
    → ((insert_task row db).0 ≡ err constraint)
      ⊎ ((after : Db) × (insert_task row db ≡ (ok tt, after))
          × (after.inbound_events ≡ db.inbound_events))
unfolding insert_task
insert_task-events row db =
    elim (Bool-cases
      (any_where (λ t. t.idempotency_key == (row db.tasks).idempotency_key) db.tasks)) [
        | inl e ↦ inl (rw (e, insert_task))
        | inr e ↦
            inr (record db { tasks = db.tasks ++ row db.tasks ∷ [] }, rw (e, insert_task), refl)
      ]

pub make_task-events :
    (now : ℕ) (draws : IngestDraws) (e : EventRow) (profile key : String) (m : InboundMessage)
    (ordinary enqueue : Bool) (db : Db)
    → KeepsEvents (make_task now draws e profile key m ordinary enqueue db) db
unfolding make_task
make_task-events now draws e profile key m true enqueue db =
    elim (insert_task-events
      (event_task now draws.task_id e profile key m "context" TaskStatus.succeeded) db) [
        | inl f ↦ inl (constraint, rw (f, make_task))
        | inr (after, f, same) ↦ inr (
          none,
          enqueue_memory_outbox now draws.curation_id draws.task_id after,
          rw (f, make_task),
          enqueue_memory_outbox-events now draws.curation_id draws.task_id after ∙ same,
        )
      ]
make_task-events now draws e profile key m false true db =
    elim (insert_task-events (event_task now draws.task_id e profile key m "turn" TaskStatus.queued)
      db) [
        | inl f ↦ inl (constraint, rw (f, make_task))
        | inr (after, f, same) ↦ inr (some draws.task_id, after, rw (f, make_task), same)
      ]
make_task-events now draws e profile key m false false db = inr (none, db, refl, refl)

pub upsert_group_membership-events :
    (now : ℕ) (m : InboundMessage) (space principal : String) (db : Db)
    → (upsert_group_membership now m space principal db).inbound_events ≡ db.inbound_events
unfolding upsert_group_membership
upsert_group_membership-events now m space principal db =
    elim (Bool-cases (is_group m.conversation.kind)) [
      | inl e ↦ rw (e, upsert_group_membership)
      | inr e ↦ rw (e, upsert_group_membership)
    ]

pub ensure_identity-events :
    (now : ℕ) (draws : IngestDraws) (profile : String) (m : InboundMessage) (db : Db)
    → (ensure_identity now draws profile m db).0.inbound_events ≡ db.inbound_events
unfolding ensure_identity
ensure_identity-events now draws profile m db =
    elim (Option-cases (find_where (is_sender profile m) db.platform_identities)) [
      | inl e ↦ rw (e, ensure_identity)
      | inr (i, e) ↦ rw (e, ensure_identity)
    ]

pub ensure_conversation_space-events :
    (now : ℕ) (id profile : String) (m : InboundMessage) (db : Db)
    → KeepsEvents (ensure_conversation_space now id profile m db) db
unfolding ensure_conversation_space
ensure_conversation_space-events now id profile m db =
    elim (Option-cases (find_where (is_space_of profile m) db.conversation_spaces)) [
      | inr (s, e) ↦ inr (s.id, db, rw (e, ensure_conversation_space), refl)
      | inl e ↦
          elim (Bool-cases
            (platform_beq m.platform Platform.wechat_ilink && is_group m.conversation.kind)) [
              | inl w ↦ inl (plain, rw (e, w, ensure_conversation_space))
              | inr w ↦ inr (
                id,
                record db {
                  conversation_spaces = db.conversation_spaces ++ new_space now id profile m ∷ [];
                  group_policies =
                      db.group_policies ++ new_policies (is_group m.conversation.kind) now id;
                },
                rw (e, w, ensure_conversation_space),
                refl,
              )
            ]
    ]
