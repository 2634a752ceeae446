-- ===== src/Store/Outbox.antt =====
-- src/storage/store.ts: what a task leaves for others to do. enqueueOutbound, addDeadLetter and
-- enqueueMemoryOutbox. The id that `rowId` draws is an argument.
use imgent.Prelude.{
  ℕ, String, Option, none, some, Bool, ◌==◌, [], ◌∷◌, ◌++◌, if◌then◌else◌, find_where, any_where,
}
use imgent.Errors.Codes.{internal_unexpected_error}
use imgent.Errors.Normalize.{Thrown, normalize_error}
use imgent.Messaging.{OutboundMessage}
use imgent.Store.Rows.{OutboundStatus, OutboundRow, CurationStatus, CurationRow}
use imgent.Store.Db.{Db}

-- withoutReplyContext
abbrev pub without_reply_context : OutboundMessage → OutboundMessage
without_reply_context m = record m { reply_context = none }

abbrev pub has_idempotency_key : String → OutboundRow → Bool
has_idempotency_key key o = o.idempotency_key == key

abbrev pub outbound_row : ℕ → String → OutboundMessage → Option String → OutboundRow
outbound_row now id m task_id = record {
  id = id;
  task_id = task_id;
  bot_instance_id = m.bot_instance_id;
  idempotency_key = m.idempotency_key;
  status = OutboundStatus.pending;
  payload = without_reply_context m;
  reply_context = m.reply_context;
  platform_message_id = none;
  send_mode = none;
  attempt = 0;
  next_attempt_at = now;
  last_error = none;
  created_at = now;
}

-- IMGentStore.enqueueOutbound
unfoldable pub enqueue_outbound : ℕ → String → OutboundMessage → Option String → Db → Db × String
enqueue_outbound now id m task_id db =
    elim (find_where (has_idempotency_key m.idempotency_key) db.outbound_messages) [
      | some existing ↦ (db, existing.id)
      | none ↦ (
        record db {
          outbound_messages = db.outbound_messages ++ outbound_row now id m task_id ∷ [];
        },
        id,
      )
    ]

-- IMGentStore.addDeadLetter
unfoldable pub add_dead_letter :
    ℕ → String → String → String → Thrown → Option String → Option String → Db → Db
unfolding normalize_error
add_dead_letter now id uuid category error bot reference db = record db {
  dead_letters =
      db.dead_letters
      ++ record {
        id = id;
        category = category;
        bot_instance_id = bot;
        reference_id = reference;
        error = (normalize_error error internal_unexpected_error uuid).descriptor;
        created_at = now;
      }
        ∷ [];
}

abbrev pub curates : String → CurationRow → Bool
curates task_id c = c.task_id == task_id

-- IMGentStore.enqueueMemoryOutbox; ON CONFLICT(task_id) DO NOTHING
unfoldable pub enqueue_memory_outbox : ℕ → String → String → Db → Db
enqueue_memory_outbox now id task_id db =
    if any_where (curates task_id) db.memory_outbox then db else record db {
      memory_outbox =
          db.memory_outbox
          ++ record {
            id = id;
            task_id = task_id;
            status = CurationStatus.pending;
            attempt = 0;
            next_attempt_at = now;
            last_error = none;
            created_at = now;
          }
            ∷ [];
    }
