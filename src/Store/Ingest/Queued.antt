-- ===== src/Store/Ingest/Queued.antt =====
-- A stored event is queued once (src/storage/store.ts: enqueueInboundEvent).
use imgent.Prelude.{
  ℕ, ◌≡◌, inl, inr, ap, ◌∙◌, String, Option, none, some, Bool, true, false, ◌==◌, [], ◌∷◌, ◌++◌,
  Bool-cases, Option-cases, find_where, find_where-some, any_where,
}
use imgent.Messaging.{InboundMessage}
use imgent.Store.Rows.{TaskStatus, TaskRow}
use imgent.Store.Directory.{EventRow}
use imgent.Store.Db.{Db, constraint, plain, Result, ok, err, transaction}
use imgent.Store.Inserts.{insert_task, find_where-new}
use imgent.Store.Ingest.{is_untriggered, event_task}
use imgent.Store.Ingest.Events.{is_of_event, enqueue_inbound_event}

abbrev names : String → TaskRow → Bool
names event_id t = is_of_event event_id t.inbound_event_id

module _ (now : ℕ) (task_id event_id profile key : String) (db : Db) where
  abbrev pub result : Result (Option String) × Db
  result = enqueue_inbound_event now task_id event_id profile key db

  abbrev find_event : Option EventRow
  find_event = find_where (λ (e : EventRow). e.id == event_id) db.inbound_events

  pub queued_before :
      (t : TaskRow) → find_where (names event_id) db.tasks ≡ some t → result ≡ (ok (some t.id), db)
  unfolding enqueue_inbound_event transaction
  queued_before t h = rw (h, enqueue_inbound_event, transaction)

  -- The event's task, which the answer names.
  abbrev pub IsQueued : String → Db → Type 0
  IsQueued id after =
      (t : TaskRow) × (find_where (names event_id) after.tasks ≡ some t) × (t.id ≡ id)

  module _ (h : find_where (names event_id) db.tasks ≡ none) where
    no_event : find_event ≡ none → result ≡ (err plain, db)
    unfolding enqueue_inbound_event transaction
    no_event n = rw (h, n, enqueue_inbound_event, transaction)

    module _ (e : EventRow) (f : find_event ≡ some e) where
      expired : e.message ≡ none → result ≡ (ok none, db)
      unfolding enqueue_inbound_event transaction
      expired x = rw (h, f, x, enqueue_inbound_event, transaction)

      module _ (m : InboundMessage) (x : e.message ≡ some m) where
        untriggered : is_untriggered m ≡ true → result ≡ (ok none, db)
        unfolding enqueue_inbound_event transaction
        untriggered u = rw (h, f, x, u, enqueue_inbound_event, transaction)

        abbrev row : TaskRow
        row = event_task now task_id e profile key m "turn" TaskStatus.queued db.tasks

        abbrev taken : Bool
        taken = any_where (λ t. t.idempotency_key == row.idempotency_key) db.tasks

        clashes : is_untriggered m ≡ false → taken ≡ true → result ≡ (err constraint, db)
        unfolding enqueue_inbound_event transaction insert_task
        clashes u k = rw (h, f, x, u, k, enqueue_inbound_event, transaction, insert_task)

        queues :
            is_untriggered m ≡ false
            → taken ≡ false
            → result ≡ (ok (some task_id), record db { tasks = db.tasks ++ row ∷ [] })
        unfolding enqueue_inbound_event transaction insert_task
        queues u k = rw (h, f, x, u, k, enqueue_inbound_event, transaction, insert_task)

        new-IsQueued :
            (id : String)
            → is_untriggered m ≡ false
            → result.0 ≡ ok (some id)
            → IsQueued id result.1
        new-IsQueued id u succeeds = elim (Bool-cases taken) [
          | inl k ↦
              let first : Path (Result (Option String)) (err constraint) (ok (some id)) =
                rw (clashes u k) at succeeds in
              absurd (cc)
          | inr k ↦
              let given : Path (Result (Option String)) (ok (some task_id)) (ok (some id)) =
                rw (queues u k) at succeeds in
              let same : task_id ≡ id = cc given in
              let (_, own) =
                find_where-some (λ (r : EventRow). r.id == event_id) db.inbound_events e f in
              rw (queues u k) (row, find_where-new (names event_id) row db.tasks h own, same)
        ]

      found-IsQueued : (id : String) → result.0 ≡ ok (some id) → IsQueued id result.1
      found-IsQueued id succeeds = elim (Option-cases e.message) [
        | inl x ↦
            let first : Path (Result (Option String)) (ok none) (ok (some id)) =
              rw (expired x) at succeeds in
            absurd (cc)
        | inr (m, x) ↦ elim (Bool-cases (is_untriggered m)) [
          | inl u ↦
              let first : Path (Result (Option String)) (ok none) (ok (some id)) =
                rw (untriggered m x u) at succeeds in
              absurd (cc)
          | inr u ↦ new-IsQueued m x id u succeeds
        ]
      ]

  enqueue_inbound_event-IsQueued : (id : String) → result.0 ≡ ok (some id) → IsQueued id result.1
  enqueue_inbound_event-IsQueued id succeeds =
      elim (Option-cases (find_where (names event_id) db.tasks)) [
        | inr (t, h) ↦
            let given : Path (Result (Option String)) (ok (some t.id)) (ok (some id)) =
              rw (queued_before t h) at succeeds in
            let same : t.id ≡ id = cc given in rw (queued_before t h) (t, h, same)
        | inl h ↦ elim (Option-cases find_event) [
          | inl n ↦
              let first : Path (Result (Option String)) (err plain) (ok (some id)) =
                rw (no_event h n) at succeeds in
              absurd (cc)
          | inr (e, f) ↦ found-IsQueued h e f id succeeds
        ]
      ]

module _ (now : ℕ) (task_id event_id profile key : String) (db : Db) where
  -- After a stored event was queued as a task, queueing it again, at any time and under whatever
  -- profile and conversation, answers the same task and changes nothing.
  pub enqueue_inbound_event-enqueue_inbound_event :
      (id : String) (later : ℕ) (task_id' profile' key' : String)
      → (enqueue_inbound_event now task_id event_id profile key db).0 ≡ ok (some id)
      → enqueue_inbound_event later task_id' event_id profile' key'
          (enqueue_inbound_event now task_id event_id profile key db).1
        ≡ (ok (some id), (enqueue_inbound_event now task_id event_id profile key db).1)
  enqueue_inbound_event-enqueue_inbound_event id later task_id' profile' key' succeeds =
      let (t, found, same) =
        enqueue_inbound_event-IsQueued now task_id event_id profile key db id succeeds in
      queued_before later task_id' event_id profile' key' _ t found
      ∙ ap
          (λ (x : String).
            (ok (some x), (enqueue_inbound_event now task_id event_id profile key db).1))
          same
