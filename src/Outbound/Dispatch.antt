-- ===== src/Outbound/Dispatch.antt =====
-- dispatch (src/runtime/outbound.ts) from the claim of a row to its end.
use imgent.Prelude.{
  ℕ, ◌≡◌, inl, inr, refl, ap, subst, sym, ◌∙◌, String, Option, none, some, true, false, ◌&&◌, arith,
  eq_iff, Bool-cases, is_some, update_where, find_where-some,
}
use imgent.Messaging.{OutboundMessage, SendResult}
use imgent.Store.Rows.{OutboundRow}
use imgent.Store.Db.{Db}
use imgent.Outbound.{
  Outcome, Draws, has_outbound_id, is_sent, is_unsent, may_send, mark_sending, with_context,
  sent_result, claim_row, begin_dispatch, outcome_result, finish_dispatch, dispatch, to_send,
  answered,
}
use imgent.Outbound.Delivery.{find_outbound, Ended, find_outbound-update, finish_dispatch-Ended}

-- The row as a dispatch has claimed it.
abbrev claimed_db : String → Db → Db
claimed_db id db = record db {
  outbound_messages = update_where (may_send id) mark_sending db.outbound_messages;
}

find_outbound-claimed :
    (id : String) (db : Db) (row : OutboundRow)
    → find_outbound id db ≡ some row
    → is_unsent row.status ≡ true
    → find_outbound id (claimed_db id db) ≡ some (mark_sending row)
find_outbound-claimed id db row e h =
    find_outbound-update id (may_send id) mark_sending db (claimed_db id db) row refl (λ u. refl) e
    ∙ ground (arith, find_where-some (has_outbound_id id) db.outbound_messages row e)

begin_dispatch_unsent :
    (id : String) (db : Db) (row : OutboundRow)
    → find_outbound id db ≡ some row
    → is_unsent row.status ≡ true
    → begin_dispatch id db
      ≡ (claimed_db id db, to_send row (with_context row.reply_context row.payload))
unfolding begin_dispatch claim_row
begin_dispatch_unsent id db row e h =
    let unsent : is_sent row.status ≡ false = ground arith in
    rw (e, unsent, h, begin_dispatch, claim_row)

dispatch_unsent :
    (now : ℕ) (draws : Draws) (adapter : OutboundMessage → Outcome) (db : Db) (row : OutboundRow)
    → is_unsent row.status ≡ true
    → find_outbound row.id db ≡ some row
    → dispatch now draws adapter row.id db ≡ (
      finish_dispatch now draws row
          (adapter (with_context row.reply_context row.payload))
          (claimed_db row.id db),
      outcome_result draws (adapter (with_context row.reply_context row.payload)),
    )
unfolding dispatch
dispatch_unsent now draws adapter db row h e =
    let same = begin_dispatch_unsent row.id db row e h in
    let left : (begin_dispatch row.id db).0 ≡ claimed_db row.id db = ap (λ p. p.0) same in
    rw (same, left, dispatch)

dispatch_row-Ended :
    (now : ℕ) (draws : Draws) (adapter : OutboundMessage → Outcome) (db : Db) (row : OutboundRow)
    → is_unsent row.status ≡ true
    → find_outbound row.id db ≡ some row
    → Ended now draws row db
        (adapter (with_context row.reply_context row.payload))
        (dispatch now draws adapter row.id db).0
        (dispatch now draws adapter row.id db).1
dispatch_row-Ended now draws adapter db row h e =
    subst
      (λ p. Ended now draws row db (adapter (with_context row.reply_context row.payload)) p.0 p.1)
      (sym (dispatch_unsent now draws adapter db row h e))
      (finish_dispatch-Ended now draws row (claimed_db row.id db)
        (find_outbound-claimed row.id db row e h)
        (adapter (with_context row.reply_context row.payload)))

-- A dispatch of a message that is pending or waits to be sent again gives the adapter its payload
-- with its reply context, and makes one attempt more. Where the adapter delivers it, the row is sent
-- and the row and the caller have the adapter's result. Where the adapter refuses, the caller has the
-- error that the refusal is reported with, and the message either waits at most five minutes, for one
-- of the two passing codes before the third attempt, or it is given up, with one dead letter that
-- names it, since this was the third attempt or the code is final.
pub dispatch-Ended :
    (now : ℕ) (draws : Draws) (adapter : OutboundMessage → Outcome) (id : String) (db : Db)
    (row : OutboundRow)
    → find_outbound id db ≡ some row
    → is_unsent row.status ≡ true
    → Ended now draws row db
        (adapter (with_context row.reply_context row.payload))
        (dispatch now draws adapter id db).0
        (dispatch now draws adapter id db).1
dispatch-Ended now draws adapter id db row e h =
    subst
      (λ i.
        find_outbound i db ≡ some row
        → Ended now draws row db (adapter (with_context row.reply_context row.payload))
            (dispatch now draws adapter i db).0 (dispatch now draws adapter i db).1)
      ((eq_iff row.id id).0 (find_where-some (has_outbound_id id) db.outbound_messages row e).1)
      (dispatch_row-Ended now draws adapter db row h) e

begin_dispatch_settled :
    (id : String) (db : Db) (row : OutboundRow)
    → find_outbound id db ≡ some row
    → is_unsent row.status ≡ false
    → (r : Option SendResult) × (begin_dispatch id db ≡ (db, answered r))
unfolding begin_dispatch claim_row
begin_dispatch_settled id db row e h =
    elim (Bool-cases (is_sent row.status && is_some row.send_mode)) [
      | inl y ↦ (sent_result row, rw (e, y, begin_dispatch, claim_row))
      | inr n ↦ (none, rw (e, n, h, begin_dispatch, claim_row))
    ]

-- A message that is no longer pending is not given to the adapter: whatever the adapter is, the
-- database stays as it is and the answer is the same.
pub dispatch_settled :
    (now : ℕ) (draws draws' : Draws) (adapter adapter' : OutboundMessage → Outcome) (id : String)
    (db : Db) (row : OutboundRow)
    → find_outbound id db ≡ some row
    → is_unsent row.status ≡ false
    → (dispatch now draws adapter id db ≡ dispatch now draws' adapter' id db)
      × ((dispatch now draws adapter id db).0 ≡ db)
unfolding dispatch
dispatch_settled now draws draws' adapter adapter' id db row e h =
    let (r, same) = begin_dispatch_settled id db row e h in
    let left : (begin_dispatch id db).0 ≡ db = ap (λ p. p.0) same in
    rw (same, left, dispatch) (refl, refl)
