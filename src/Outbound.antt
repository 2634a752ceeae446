-- ===== src/Outbound.antt =====
-- src/runtime/outbound.ts: the dispatcher of messages to the platforms. What an adapter's `send`
-- does is an argument: it delivers with a result, or throws.
pub mod Drain
pub mod Failures
pub mod Delivery
pub mod Dispatch
pub mod Keys
use imgent.Prelude.{
  ℕ, ◌+◌, String, Option, none, some, Bool, true, false, not, ◌&&◌, ◌||◌, ◌==◌, List, [], ◌∷◌, ◌++◌,
  leb, ltb, min, if◌then◌else◌, or_value, is_some, find_where, filter_where, update_where,
}
use imgent.Errors.Types.{is_backoff}
use imgent.Errors.Codes.{
  ErrorCode, outbound_send_failed, outbound_rate_limited, adapter_rate_limited,
  outbound_context_expired, adapter_reply_context_invalid, adapter_request_rejected,
  adapter_auth_required, adapter_permission_denied, adapter_session_invalid,
  adapter_compatibility_error, outbound_platform_rejected,
}
use imgent.Errors.Descriptor.{ErrorDescriptor, ImgentError, ErrorOptions, no_options, new_error}
use imgent.Errors.Normalize.{Thrown, imgent_error, normalize_error}
use imgent.Messaging.{OutboundMessage, ReplyContext, SendResult}
use imgent.Store.Rows.{OutboundStatus, OutboundRow}
use imgent.Store.Db.{Db}
use imgent.Store.Outbox.{add_dead_letter}

-- nextAttempt
unfoldable pub next_attempt : ℕ → ℕ → ErrorDescriptor → ℕ
next_attempt now attempt d =
    now + min (or_value d.retry.retry_after_ms (if leb attempt 1 then 1000 else 5000)) 300000

-- The switch of outboundError.
unfoldable pub outbound_code : ErrorCode → ErrorCode
outbound_code outbound_rate_limited = outbound_rate_limited
outbound_code adapter_rate_limited = outbound_rate_limited
outbound_code outbound_context_expired = outbound_context_expired
outbound_code adapter_reply_context_invalid = outbound_context_expired
outbound_code adapter_request_rejected = outbound_platform_rejected
outbound_code adapter_auth_required = outbound_platform_rejected
outbound_code adapter_permission_denied = outbound_platform_rejected
outbound_code adapter_session_invalid = outbound_platform_rejected
outbound_code adapter_compatibility_error = outbound_platform_rejected
outbound_code outbound_platform_rejected = outbound_platform_rejected
outbound_code _ = outbound_send_failed

-- Only the two codes that are sent again keep the delay that the platform asked for.
abbrev pub kept_delay : ErrorCode → Option ℕ → Option ℕ
kept_delay outbound_rate_limited delay = delay
kept_delay outbound_send_failed delay = delay
kept_delay _ delay = none

-- outboundError
unfoldable pub outbound_error : Thrown → String → String → ImgentError
unfolding normalize_error outbound_code new_error
outbound_error e uuid uuid' =
    let n = normalize_error e outbound_send_failed uuid in
    let code = outbound_code n.code in
    new_error code
      (record no_options { retry_after_ms = kept_delay code n.descriptor.retry.retry_after_ms })
      uuid'

abbrev pub has_outbound_id : String → OutboundRow → Bool
has_outbound_id id o = o.id == id

abbrev pub is_sending : OutboundStatus → Bool
is_sending OutboundStatus.sending = true
is_sending _ = false

abbrev pub is_sent : OutboundStatus → Bool
is_sent OutboundStatus.sent = true
is_sent _ = false

-- status IN ('pending', 'retry_wait')
abbrev pub is_unsent : OutboundStatus → Bool
is_unsent OutboundStatus.pending = true
is_unsent OutboundStatus.retry_wait = true
is_unsent _ = false

-- The constructor of OutboundDispatcher: a send that a restart cut off is tried again.
unfoldable pub open_dispatcher : ℕ → Db → Db
open_dispatcher now db = record db {
  outbound_messages =
      update_where (λ o. is_sending o.status)
        (λ o. record o { status = OutboundStatus.retry_wait; next_attempt_at = now })
        db.outbound_messages;
}

abbrev pub may_send : String → OutboundRow → Bool
may_send id o = has_outbound_id id o && is_unsent o.status

abbrev pub mark_sending : OutboundRow → OutboundRow
mark_sending o = record o { status = OutboundStatus.sending; attempt = o.attempt + 1 }

abbrev pub with_context : Option ReplyContext → OutboundMessage → OutboundMessage
with_context none m = m
with_context (some c) m = record m { reply_context = some c }

-- What dispatch does before it calls the adapter: it answers from the row, it finds nothing to do,
-- or it claims the row and has a message to send.
pub data Claim : Type 0 where
  answered : Option SendResult → Claim
  to_send : OutboundRow → OutboundMessage → Claim

abbrev pub sent_result : OutboundRow → Option SendResult
sent_result o = elim o.send_mode [
  | none ↦ none
  | some mode ↦ some (record { platform_message_id = o.platform_message_id; mode = mode })
]

unfoldable pub claim_row : String → OutboundRow → Db → Db × Claim
claim_row id row db =
    if is_sent row.status && is_some row.send_mode
    then (db, answered (sent_result row))
    else if is_unsent row.status
    then (
      record db {
        outbound_messages = update_where (may_send id) mark_sending db.outbound_messages;
      },
      to_send row (with_context row.reply_context row.payload),
    )
    else (db, answered none)

unfoldable pub begin_dispatch : String → Db → Db × Claim
begin_dispatch id db = elim (find_where (has_outbound_id id) db.outbound_messages) [
  | none ↦ (db, answered none)
  | some row ↦ claim_row id row db
]

abbrev pub mark_sent : ℕ → SendResult → OutboundRow → OutboundRow
mark_sent now r o = record o {
  status = OutboundStatus.sent;
  platform_message_id = r.platform_message_id;
  send_mode = some r.mode;
  last_error = none;
  next_attempt_at = now;
}

-- The adapter has delivered.
unfoldable pub finish_sent : ℕ → String → SendResult → Db → Db
finish_sent now id r db = record db {
  outbound_messages = update_where (has_outbound_id id) (mark_sent now r) db.outbound_messages;
}

-- attempt >= 3 || strategy !== "backoff"
abbrev pub is_terminal : ℕ → ErrorDescriptor → Bool
is_terminal attempt d = leb 3 attempt || not (is_backoff d.retry.strategy)

abbrev pub mark_failed : ℕ → ℕ → ErrorDescriptor → OutboundRow → OutboundRow
mark_failed now attempt d o = record o {
  status = if is_terminal attempt d then OutboundStatus.dead_letter else OutboundStatus.retry_wait;
  last_error = some d;
  next_attempt_at = if is_terminal attempt d then now else next_attempt now attempt d;
}

-- The adapter has thrown; `row` is the row as it was before it was claimed.
unfoldable pub finish_failed : ℕ → String → String → OutboundRow → ImgentError → Db → Db
finish_failed now dead_id uuid row e db =
    let attempt = row.attempt + 1 in
    let failed : Db = record db {
      outbound_messages =
          update_where (has_outbound_id row.id) (mark_failed now attempt e.descriptor)
            db.outbound_messages;
    } in
    if is_terminal attempt e.descriptor
    then add_dead_letter now dead_id uuid "outbound.send" (imgent_error e)
        (some row.bot_instance_id) (some row.id) failed
    else failed

pub data Outcome : Type 0 where
  delivered : SendResult → Outcome
  refused : Thrown → Outcome

-- The identifiers that one dispatch may draw.
pub record Draws : Type 0 where
  pub dead_id : String
  pub uuid : String
  pub uuid' : String

unfoldable pub finish_dispatch : ℕ → Draws → OutboundRow → Outcome → Db → Db
finish_dispatch now draws row (delivered r) db = finish_sent now row.id r db
finish_dispatch now draws row (refused e) db =
    finish_failed now draws.dead_id draws.uuid row (outbound_error e draws.uuid draws.uuid') db

-- What dispatch returns: a result, undefined, or an error that it throws.
pub data Dispatched : Type 0 where
  result : SendResult → Dispatched
  nothing : Dispatched
  failure : ImgentError → Dispatched

abbrev pub dispatched_answer : Option SendResult → Dispatched
dispatched_answer none = nothing
dispatched_answer (some r) = result r

abbrev pub outcome_result : Draws → Outcome → Dispatched
outcome_result draws (delivered r) = result r
outcome_result draws (refused e) = failure (outbound_error e draws.uuid draws.uuid')

-- OutboundDispatcher.dispatch with nothing else between the claim and the adapter's answer.
unfoldable pub dispatch : ℕ → Draws → (OutboundMessage → Outcome) → String → Db → Db × Dispatched
dispatch now draws send id db =
    let (claimed, claim) = begin_dispatch id db in
    elim claim [
      | answered r ↦ (claimed, dispatched_answer r)
      | to_send row message ↦
          let outcome = send message in
          (finish_dispatch now draws row outcome claimed, outcome_result draws outcome)
    ]
