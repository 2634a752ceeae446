-- ===== src/Tests/Outbound.antt =====
-- src/runtime/outbound.ts at concrete inputs.
use imgent.Prelude.{◌≡◌, refl, none, some, [], ◌∷◌, find_where}
use imgent.Errors.Codes.{adapter_rate_limited}
use imgent.Errors.Descriptor.{no_options, new_error}
use imgent.Errors.Normalize.{imgent_error}
use imgent.Messaging.{OutboundMessage, SendMode}
use imgent.Store.Rows.{OutboundStatus, OutboundRow}
use imgent.Store.Db.{Db, empty_db}
use imgent.Store.Outbox.{outbound_row, enqueue_outbound}
use imgent.Outbound.{Outcome, delivered, refused, Draws, dispatch}
use imgent.Outbound.Delivery.{find_outbound, Ended}
use imgent.Outbound.Dispatch.{dispatch-Ended, dispatch_settled}
use imgent.Outbound.Keys.{enqueue_outbound-enqueue_outbound}
use imgent.Tests.Samples.{reply}

abbrev draws : Draws
draws = record { dead_id = "x1"; uuid = "u1"; uuid' = "u2" }

abbrev draws' : Draws
draws' = record { dead_id = "x2"; uuid = "u3"; uuid' = "u4" }

abbrev limiting : OutboundMessage → Outcome
limiting m = refused (imgent_error (new_error adapter_rate_limited no_options "u0"))

abbrev delivering : OutboundMessage → Outcome
delivering m = delivered (record { platform_message_id = some "p1"; mode = SendMode.proactive })

abbrev queued : OutboundRow
queued = outbound_row 5 "o1" reply (some "t1")

abbrev pending : Db
pending = record empty_db { outbound_messages = queued ∷ [] }

abbrev sent : OutboundRow
sent = record queued { status = OutboundStatus.sent; send_mode = some SendMode.proactive }

abbrev done : Db
done = record empty_db { outbound_messages = sent ∷ [] }

queued_found : find_outbound "o1" pending ≡ some queued
unfolding find_where
queued_found = refl

sent_found : find_outbound "o1" done ≡ some sent
unfolding find_where
sent_found = refl

dispatch-Ended_example :
    Ended 9 draws queued pending
      (limiting reply)
      (dispatch 9 draws limiting "o1" pending).0
      (dispatch 9 draws limiting "o1" pending).1
dispatch-Ended_example = dispatch-Ended 9 draws limiting "o1" pending queued queued_found refl

dispatch_settled_example :
    (dispatch 9 draws limiting "o1" done ≡ dispatch 9 draws' delivering "o1" done)
    × ((dispatch 9 draws limiting "o1" done).0 ≡ done)
dispatch_settled_example =
    dispatch_settled 9 draws draws' limiting delivering "o1" done sent sent_found refl

enqueue_outbound-enqueue_outbound_example :
    enqueue_outbound 7 "o2"
      (record reply { reply_context = none })
      none
      (enqueue_outbound 5 "o1" reply (some "t1") empty_db).0
    ≡ enqueue_outbound 5 "o1" reply (some "t1") empty_db
enqueue_outbound-enqueue_outbound_example =
    enqueue_outbound-enqueue_outbound 5 7 "o1" "o2" reply (record reply { reply_context = none })
      (some "t1") none empty_db refl
