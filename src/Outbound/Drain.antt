-- ===== src/Outbound/Drain.antt =====
-- src/runtime/outbound.ts: send and drain. An adapter answers each message by an outcome; the
-- draws of a row are a function of its id.
use imgent.Prelude.{
  ℕ, zero, suc, ◌+◌, String, Option, none, some, Bool, ◌&&◌, List, [], ◌∷◌, ltb, leb, if◌then◌else◌,
  find_where, filter_where, update_where,
}
use imgent.Errors.Codes.{outbound_platform_rejected, outbound_send_failed}
use imgent.Errors.Descriptor.{ErrorDescriptor, no_options, new_error}
use imgent.Errors.Normalize.{imgent_error}
use imgent.Messaging.{OutboundMessage}
use imgent.Store.Rows.{OutboundStatus, OutboundRow}
use imgent.Store.Db.{Db}
use imgent.Store.Outbox.{enqueue_outbound, add_dead_letter}
use imgent.Outbound.{
  Outcome, Draws, Dispatched, result, nothing, failure, has_outbound_id, is_sent, is_unsent,
  sent_result, dispatch,
}

-- What `send` makes of a dispatch that returned nothing.
abbrev pub sent_meanwhile : String → String → Option OutboundRow → Dispatched
sent_meanwhile uuid id none = failure (new_error outbound_send_failed no_options uuid)
sent_meanwhile uuid id (some row) =
    if is_sent row.status
    then elim (sent_result row) [
      | some r ↦ result r
      | none ↦ failure (new_error outbound_send_failed no_options uuid)
    ]
    else failure (new_error outbound_send_failed no_options uuid)

-- OutboundDispatcher.send, which returns a result or throws
unfoldable pub send :
    ℕ
    → Draws
    → String
    → (OutboundMessage → Outcome)
    → OutboundMessage
    → Option String
    → Db
    → Db × Dispatched
send now draws new_id adapter message task_id db =
    let (queued, id) = enqueue_outbound now new_id message task_id db in
    let (after, dispatched) = dispatch now draws adapter id queued in
    elim dispatched [
      | result r ↦ (after, result r)
      | failure e ↦ (after, failure e)
      | nothing ↦ (
        after,
        sent_meanwhile draws.uuid id (find_where (has_outbound_id id) after.outbound_messages),
      )
    ]

-- The WHERE clause of drain.
abbrev pub is_drainable : ℕ → OutboundRow → Bool
is_drainable now o = is_unsent o.status && leb o.next_attempt_at now && ltb o.attempt 3

-- ORDER BY created_at, the smaller rowid among equals
unfoldable pub insert_created : OutboundRow → List OutboundRow → List OutboundRow
insert_created o [] = o ∷ []
insert_created o (p ∷ ps) =
    let rest = insert_created o ps in if ltb p.created_at o.created_at then p ∷ rest else o ∷ p ∷ ps

unfoldable pub order_created : List OutboundRow → List OutboundRow
order_created [] = []
order_created (o ∷ os) = insert_created o (order_created os)

-- LIMIT n
unfoldable pub limit : ℕ → List OutboundRow → List OutboundRow
limit zero os = []
limit (suc n) [] = []
limit (suc n) (o ∷ os) = o ∷ limit n os

abbrev pub reject_row : ErrorDescriptor → OutboundRow → OutboundRow
reject_row e o = record o { status = OutboundStatus.dead_letter; last_error = some e }

-- There is no adapter for the bot.
unfoldable pub reject_missing : ℕ → Draws → OutboundRow → Db → Db
reject_missing now draws row db =
    let error = new_error outbound_platform_rejected no_options draws.uuid in
    add_dead_letter now draws.dead_id draws.uuid' "outbound.adapter-missing" (imgent_error error)
      (some row.bot_instance_id) (some row.id)
      (record db {
        outbound_messages =
            update_where (has_outbound_id row.id) (reject_row error.descriptor)
              db.outbound_messages;
      })

abbrev pub Adapters : Type 0
Adapters = String → Option (OutboundMessage → Outcome)

abbrev pub count_sent : Dispatched → ℕ
count_sent (result r) = 1
count_sent _ = 0

-- One round of the loop: the database and how many messages were sent.
unfoldable pub drain_row : ℕ → Draws → Adapters → OutboundRow → Db → Db × ℕ
drain_row now draws adapters row db = elim (adapters row.bot_instance_id) [
  | none ↦ (reject_missing now draws row db, 0)
  | some adapter ↦
      let (after, dispatched) = dispatch now draws adapter row.id db in
      (after, count_sent dispatched)
]

unfoldable pub drain_rows : ℕ → (String → Draws) → Adapters → List OutboundRow → Db → Db × ℕ
drain_rows now draws adapters [] db = (db, 0)
drain_rows now draws adapters (row ∷ rows) db =
    let (after, n) = drain_row now (draws row.id) adapters row db in
    let (done, m) = drain_rows now draws adapters rows after in (done, n + m)

-- OutboundDispatcher.drain
unfoldable pub drain : ℕ → (String → Draws) → Adapters → Db → Db × ℕ
drain now draws adapters db =
    drain_rows now draws adapters
      (limit 100 (order_created (filter_where (is_drainable now) db.outbound_messages))) db
