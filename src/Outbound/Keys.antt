-- ===== src/Outbound/Keys.antt =====
-- enqueueOutbound (src/storage/store.ts) writes one message for one idempotency key.
use imgent.Prelude.{
  ℕ, ◌≡◌, ◌∙◌, String, Option, none, some, [], ◌∷◌, ◌++◌, eq_refl, Option-cases, inl, inr,
  find_where, find_where-append,
}
use imgent.Messaging.{OutboundMessage}
use imgent.Store.Rows.{OutboundRow}
use imgent.Store.Db.{Db}
use imgent.Store.Outbox.{has_idempotency_key, outbound_row, enqueue_outbound}

abbrev pub find_key : String → Db → Option OutboundRow
find_key key db = find_where (has_idempotency_key key) db.outbound_messages

enqueue_known :
    (now : ℕ) (id : String) (m : OutboundMessage) (task_id : Option String) (db : Db)
    (o : OutboundRow)
    → find_key m.idempotency_key db ≡ some o
    → enqueue_outbound now id m task_id db ≡ (db, o.id)
unfolding enqueue_outbound
enqueue_known now id m task_id db o e = rw (e, enqueue_outbound)

enqueue_new :
    (now : ℕ) (id : String) (m : OutboundMessage) (task_id : Option String) (db : Db)
    → find_key m.idempotency_key db ≡ none
    → enqueue_outbound now id m task_id db ≡ (
      record db { outbound_messages = db.outbound_messages ++ outbound_row now id m task_id ∷ [] },
      id,
    )
unfolding enqueue_outbound
enqueue_new now id m task_id db e = rw (e, enqueue_outbound)

pub find_key-enqueue_known :
    (now : ℕ) (id : String) (m : OutboundMessage) (task_id : Option String) (db : Db)
    (o : OutboundRow)
    → find_key m.idempotency_key db ≡ some o
    → find_key m.idempotency_key (enqueue_outbound now id m task_id db).0 ≡ some o
find_key-enqueue_known now id m task_id db o e = rw (enqueue_known now id m task_id db o e) e

pub find_key-enqueue_new :
    (now : ℕ) (id : String) (m : OutboundMessage) (task_id : Option String) (db : Db)
    → find_key m.idempotency_key db ≡ none
    → find_key m.idempotency_key (enqueue_outbound now id m task_id db).0
      ≡ some (outbound_row now id m task_id)
unfolding find_where
find_key-enqueue_new now id m task_id db e = rw (enqueue_new now id m task_id db e) (
    find_where-append (has_idempotency_key m.idempotency_key) db.outbound_messages
      (outbound_row now id m task_id ∷ [])
    ∙ rw (e, eq_refl m.idempotency_key))

-- The message of the key, once it is there.
pub find_key-enqueue :
    (now : ℕ) (id : String) (m : OutboundMessage) (task_id : Option String) (db : Db)
    → (o : OutboundRow) × (find_key m.idempotency_key (enqueue_outbound now id m task_id db).0
        ≡ some o)
      × (o.id ≡ (enqueue_outbound now id m task_id db).1)
unfolding enqueue_outbound find_where
find_key-enqueue now id m task_id db = elim (Option-cases (find_key m.idempotency_key db)) [
  | inr (o, e) ↦ (o, rw (e, enqueue_outbound) e, rw (e, enqueue_outbound))
  | inl e ↦ (
    outbound_row now id m task_id,
    rw (e, enqueue_outbound)
        (find_where-append (has_idempotency_key m.idempotency_key) db.outbound_messages
            (outbound_row now id m task_id ∷ [])
          ∙ rw (e, eq_refl m.idempotency_key)),
    rw (e, enqueue_outbound),
  )
]

-- Once a message of a key is queued, queueing any message of that key again changes nothing and
-- gives the id of the first.
pub enqueue_outbound-enqueue_outbound :
    (now now' : ℕ) (id id' : String) (m m' : OutboundMessage) (task_id task_id' : Option String)
    (db : Db)
    → m'.idempotency_key ≡ m.idempotency_key
    → enqueue_outbound now' id' m' task_id' (enqueue_outbound now id m task_id db).0
      ≡ enqueue_outbound now id m task_id db
enqueue_outbound-enqueue_outbound now now' id id' m m' task_id task_id' db same =
    let (o, found, own) = find_key-enqueue now id m task_id db in
    enqueue_known now' id' m' task_id' (enqueue_outbound now id m task_id db).0 o (rw same found)
    ∙ rw own
