-- ===== src/Store/Ingest/Duplicates.antt =====
-- A message is taken in once (src/storage/store.ts: ingest), and what is saved under a key is read
-- back under it.
use imgent.Prelude.{
  ℕ, ◌≡◌, inl, inr, ap, ◌∙◌, String, Option, none, some, Bool, true, false, not, ◌==◌, ◌&&◌, [],
  ◌∷◌, ◌++◌, arith, eq_refl, eq_iff, Bool-cases, Option-cases, find_where, if◌then◌else◌,
}
use imgent.Messaging.{InboundMessage}
use imgent.Store.Directory.{EventRow, CheckpointRow}
use imgent.Store.Db.{Result-cases, Db, Failure, ok, err, transaction}
use imgent.Store.Inserts.{find_where-upsert, find_where-upsert_other}
use imgent.Store.Inserts.{find_where-new}
use imgent.Store.Ingest.{
  CheckpointUpdate, is_checkpoint, set_checkpoint, checkpoint, put_checkpoint, IngestResult,
  IngestDraws, is_ordinary, event_row, is_untriggered, strip_reply_context,
}
use imgent.Store.Ingest.Senders.{ensure_identity, upsert_group_membership}
use imgent.Store.Ingest.Kept.{
  make_task-events, put_checkpoint-events, upsert_group_membership-events, ensure_identity-events,
  ensure_conversation_space-events,
}
use imgent.Store.Ingest.Events.{
  is_event_of, duplicate_result, ingest_duplicate, put_event, ingest_new, ingest, add_event,
}

abbrev checkpoint_row : String → CheckpointUpdate → CheckpointRow
checkpoint_row bot c = record { bot_instance_id = bot; checkpoint_key = c.key; value = c.value }

-- A checkpoint that was set is read back, and those of other bots and keys are as before.
pub checkpoint-set_checkpoint :
    (bot : String) (c : CheckpointUpdate) (other key : String) (db : Db)
    → checkpoint other key (set_checkpoint bot c db)
      ≡ (if bot == other && c.key == key then some c.value else checkpoint other key db)
unfolding checkpoint set_checkpoint
checkpoint-set_checkpoint bot c other key db = elim (Bool-cases (bot == other && c.key == key)) [
  | inl e ↦
      let b : bot ≡ other = (eq_iff bot other).0 (ground arith) in
      let k : c.key ≡ key = (eq_iff c.key key).0 (ground arith) in
      let mine : is_checkpoint bot c.key (checkpoint_row bot c) ≡ true =
        ground (arith, eq_refl bot, eq_refl c.key) in
      let found =
        find_where-upsert (is_checkpoint bot c.key) (checkpoint_row bot c) db.transport_checkpoints
          mine in
      rw (e, ← b, ← k, found)
  | inr e ↦
      let kept =
        find_where-upsert_other (is_checkpoint bot c.key) (is_checkpoint other key)
          (checkpoint_row bot c) db.transport_checkpoints e
          (λ r h.
            let rb : r.bot_instance_id ≡ bot = (eq_iff r.bot_instance_id bot).0 (ground arith) in
            let rk : r.checkpoint_key ≡ c.key = (eq_iff r.checkpoint_key c.key).0 (ground arith) in
            rw (rb, rk) e) in
      rw (e, kept)
]

module _ (now : ℕ) (draws : IngestDraws) (m : InboundMessage) (profile key : String)
    (checkpoint : Option CheckpointUpdate) (enqueue : Bool) where
  -- The event that an answer names is stored under the message's key.
  pub record IsStored (r : IngestResult) (after : Db) : Type 0 where
    pub event : EventRow
    pub found : find_where (is_event_of m) after.inbound_events ≡ some event
    pub event_id : event.id ≡ r.event_id
    pub principal_id : event.principal_id ≡ r.principal_id
    pub space_id : event.conversation_space_id ≡ r.conversation_space_id

  put_event-IsStored :
      (space : String) (identity : String × String) (r : IngestResult) (db : Db)
      → find_where (is_event_of m) db.inbound_events ≡ none
      → (put_event now draws m profile key checkpoint enqueue space identity db).0 ≡ ok r
      → IsStored r (put_event now draws m profile key checkpoint enqueue space identity db).1
  unfolding put_event
  put_event-IsStored space identity r db h succeeds =
      elim (make_task-events now draws event profile key (strip_reply_context m) ordinary turn
        added) [
          | inl (f, e) ↦ let first : err f ≡ ok r = rw (e, put_event) at succeeds in absurd (cc)
          | inr (task, after, e, same) ↦
              let final = put_checkpoint m.bot_instance_id checkpoint after in
              let events : final.inbound_events ≡ db.inbound_events ++ event ∷ [] =
                put_checkpoint-events m.bot_instance_id checkpoint after
                ∙ same
                ∙ ap (λ es. es ++ event ∷ [])
                    (upsert_group_membership-events now m space identity.1 db) in
              let mine : is_event_of m event ≡ true =
                ground (arith, eq_refl m.bot_instance_id, eq_refl m.dedupe_key) in
              let found : find_where (is_event_of m) final.inbound_events ≡ some event =
                rw (events) (find_where-new (is_event_of m) event db.inbound_events h mine) in
              let given : ok (answer task) ≡ ok r = rw (e, put_event) at succeeds in
              let same_answer : answer task ≡ r = cc given in
              rw (e, put_event)
                (record {
                  event = event;
                  found = found;
                  event_id = ap (λ (x : IngestResult). x.event_id) same_answer;
                  principal_id = ap (λ (x : IngestResult). x.principal_id) same_answer;
                  space_id = ap (λ (x : IngestResult). x.conversation_space_id) same_answer;
                })
        ]
    where
      joined : Db
      joined = upsert_group_membership now m space identity.1 db

      ordinary : Bool
      ordinary = is_ordinary m space joined

      event : EventRow
      event = event_row now draws.event_id m space identity.1 ordinary

      added : Db
      added = add_event event joined

      answer : Option String → IngestResult
      answer task = record {
        duplicate = false;
        event_id = draws.event_id;
        task_id = task;
        principal_id = identity.1;
        platform_identity_id = identity.0;
        conversation_space_id = space;
      }

      turn : Bool
      turn = enqueue && not (is_untriggered m)

  ingest_new-IsStored :
      (r : IngestResult) (db : Db)
      → find_where (is_event_of m) db.inbound_events ≡ none
      → (ingest_new now draws m profile key checkpoint enqueue db).0 ≡ ok r
      → IsStored r (ingest_new now draws m profile key checkpoint enqueue db).1
  unfolding ingest_new
  ingest_new-IsStored r db h succeeds =
      let identified = ensure_identity now draws profile m db in
      elim (ensure_conversation_space-events now draws.space_id profile m identified.0) [
        | inl (f, e) ↦ let first : err f ≡ ok r = rw (e, ingest_new) at succeeds in absurd (cc)
        | inr (space, after, e, same) ↦
            let none_yet : find_where (is_event_of m) after.inbound_events ≡ none =
              rw (same, ensure_identity-events now draws profile m db) h in
            rw (e, ingest_new)
              (put_event-IsStored space identified.1 r after none_yet
                (rw (e, ingest_new) at succeeds))
      ]

  pub ingest_known :
      (e : EventRow) (db : Db)
      → find_where (is_event_of m) db.inbound_events ≡ some e
      → ingest now draws m profile key checkpoint enqueue db ≡ (
        ok (duplicate_result profile m e (put_checkpoint m.bot_instance_id checkpoint db)),
        put_checkpoint m.bot_instance_id checkpoint db,
      )
  unfolding ingest transaction ingest_duplicate
  ingest_known e db h = rw (h, ingest, transaction, ingest_duplicate)

  ingest_fails :
      (f : Failure) (db : Db)
      → find_where (is_event_of m) db.inbound_events ≡ none
      → (ingest_new now draws m profile key checkpoint enqueue db).0 ≡ err f
      → ingest now draws m profile key checkpoint enqueue db ≡ (err f, db)
  unfolding ingest transaction
  ingest_fails f db h e = rw (h, e, ingest, transaction)

  ingest_works :
      (r : IngestResult) (db : Db)
      → find_where (is_event_of m) db.inbound_events ≡ none
      → (ingest_new now draws m profile key checkpoint enqueue db).0 ≡ ok r
      → ingest now draws m profile key checkpoint enqueue db
        ≡ (ok r, (ingest_new now draws m profile key checkpoint enqueue db).1)
  unfolding ingest transaction
  ingest_works r db h e = rw (h, e, ingest, transaction)

  pub ingest-IsStored :
      (r : IngestResult) (db : Db)
      → (ingest now draws m profile key checkpoint enqueue db).0 ≡ ok r
      → IsStored r (ingest now draws m profile key checkpoint enqueue db).1
  ingest-IsStored r db succeeds =
      elim (Option-cases (find_where (is_event_of m) db.inbound_events)) [
        | inr (e, h) ↦
            let after = put_checkpoint m.bot_instance_id checkpoint db in
            let given : ok (duplicate_result profile m e after) ≡ ok r =
              rw (ingest_known e db h) at succeeds in
            let same_answer : duplicate_result profile m e after ≡ r = cc given in
            rw (ingest_known e db h) (record {
              event = e;
              found = rw (put_checkpoint-events m.bot_instance_id checkpoint db) h;
              event_id = ap (λ (x : IngestResult). x.event_id) same_answer;
              principal_id = ap (λ (x : IngestResult). x.principal_id) same_answer;
              space_id = ap (λ (x : IngestResult). x.conversation_space_id) same_answer;
            })
        | inl h ↦ elim (Result-cases (ingest_new now draws m profile key checkpoint enqueue db).0) [
          | inl (f, e) ↦
              let first : err f ≡ ok r = rw (ingest_fails f db h e) at succeeds in absurd (cc)
          | inr (r', e) ↦
              let given : ok r' ≡ ok r = rw (ingest_works r' db h e) at succeeds in
              let same : r' ≡ r = cc given in
              rw (ingest_works r' db h e) (ingest_new-IsStored r db h (rw (← same) e))
        ]
      ]
