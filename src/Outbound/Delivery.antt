-- ===== src/Outbound/Delivery.antt =====
-- What one dispatch (src/runtime/outbound.ts) makes of a message, branch by branch.
use mathlib.Core.Option
use imgent.Prelude.{
  ℕ, ◌+◌, ◌≤◌, ◌<◌, ◌≡◌, ◌⊎◌, inl, inr, refl, ap, ◌∙◌, String, Option, some, Bool, true, false, leb,
  List, [], ◌∷◌, ◌++◌, arith, eq_refl, Bool-cases, set_if, find_where, update_where,
  find_where-update_where,
}
use imgent.Errors.Descriptor.{ErrorDescriptor, ImgentError}
use imgent.Errors.Normalize.{Thrown}
use imgent.Messaging.{SendResult}
use imgent.Store.Rows.{OutboundStatus, OutboundRow, DeadLetterRow}
use imgent.Store.Db.{Db}
use imgent.Store.Outbox.{add_dead_letter}
use imgent.Outbound.Failures.{IsPassing, IsFinal, error_cases}
use imgent.Outbound.{
  Outcome, delivered, refused, Draws, Dispatched, result, failure, outbound_error, next_attempt,
  has_outbound_id, mark_sending, mark_sent, mark_failed, is_terminal, sent_result, outcome_result,
  finish_sent, finish_failed, finish_dispatch,
}

abbrev pub find_outbound : String → Db → Option OutboundRow
find_outbound id db = find_where (has_outbound_id id) db.outbound_messages

next_attempt-bounds :
    (now attempt : ℕ) (d : ErrorDescriptor)
    → (now ≤ next_attempt now attempt d) × (next_attempt now attempt d ≤ now + 300000)
unfolding next_attempt
next_attempt-bounds now attempt d = (omega arith, omega arith)

pub find_outbound-update :
    (id : String) (p : OutboundRow → Bool) (f : OutboundRow → OutboundRow) (db after : Db)
    (o : OutboundRow)
    → after.outbound_messages ≡ update_where p f db.outbound_messages
    → ((u : OutboundRow) → has_outbound_id id (f u) ≡ has_outbound_id id u)
    → find_outbound id db ≡ some o
    → find_outbound id after ≡ some (set_if p f o)
find_outbound-update id p f db after o same ids e =
    ap (find_where (has_outbound_id id)) same
    ∙ find_where-update_where (has_outbound_id id) p f db.outbound_messages ids
    ∙ ap (Option.map (set_if p f)) e

-- What an attempt to send `row` makes of its row, of the dead letters, and returns, by what the adapter
-- did.
pub data Attempted (now : ℕ) (draws : Draws) (row u : OutboundRow)
    (letters letters' : List DeadLetterRow) : Outcome → Dispatched → Type 0 where
  went_out :
      (r : SendResult)
      → u.status ≡ OutboundStatus.sent
      → sent_result u ≡ some r
      → letters' ≡ letters
      → Attempted now draws row u letters letters' (delivered r) (result r)
  waits :
      (x : Thrown) (e : ImgentError)
      → e ≡ outbound_error x draws.uuid draws.uuid'
      → IsPassing e.code
      → row.attempt < 2
      → u.status ≡ OutboundStatus.retry_wait
      → now ≤ u.next_attempt_at
      → u.next_attempt_at ≤ now + 300000
      → letters' ≡ letters
      → Attempted now draws row u letters letters' (refused x) (failure e)
  given_up :
      (x : Thrown) (e : ImgentError)
      → e ≡ outbound_error x draws.uuid draws.uuid'
      → (2 ≤ row.attempt) ⊎ IsFinal e.code
      → u.status ≡ OutboundStatus.dead_letter
      → ((l : DeadLetterRow) × (letters' ≡ letters ++ l ∷ []) × (l.reference_id ≡ some row.id))
      → Attempted now draws row u letters letters' (refused x) (failure e)

finish_failed_waits :
    (now : ℕ) (dead_id uuid : String) (row : OutboundRow) (e : ImgentError) (db : Db)
    → is_terminal (row.attempt + 1) e.descriptor ≡ false
    → finish_failed now dead_id uuid row e db ≡ record db {
      outbound_messages =
          update_where
            (has_outbound_id row.id)
            (mark_failed now (row.attempt + 1) e.descriptor)
            db.outbound_messages;
    }
unfolding finish_failed
finish_failed_waits now dead_id uuid row e db h = rw (h, finish_failed)

finish_failed_final :
    (now : ℕ) (dead_id uuid : String) (row : OutboundRow) (e : ImgentError) (db : Db)
    → is_terminal (row.attempt + 1) e.descriptor ≡ true
    → ((finish_failed now dead_id uuid row e db).outbound_messages
        ≡ update_where
            (has_outbound_id row.id)
            (mark_failed now (row.attempt + 1) e.descriptor)
            db.outbound_messages)
      × ((l : DeadLetterRow) × ((finish_failed now dead_id uuid row e db).dead_letters
            ≡ db.dead_letters ++ l ∷ [])
          × (l.reference_id ≡ some row.id))
unfolding finish_failed add_dead_letter
finish_failed_final now dead_id uuid row e db h =
    rw (h, finish_failed, add_dead_letter) (refl, (_, refl, refl))

-- What has become of `row` in `after`.
abbrev pub Ended : ℕ → Draws → OutboundRow → Db → Outcome → Db → Dispatched → Type 0
Ended now draws row db outcome after d =
    (u : OutboundRow) × (find_outbound row.id after ≡ some u)
    × (u.attempt ≡ row.attempt + 1)
    × Attempted now draws row u db.dead_letters after.dead_letters outcome d

module _ (now : ℕ) (draws : Draws) (row : OutboundRow) (db : Db)
    (found : find_outbound row.id db ≡ some (mark_sending row)) where
  marked :
      (f : OutboundRow → OutboundRow) (after : Db)
      → after.outbound_messages ≡ update_where (has_outbound_id row.id) f db.outbound_messages
      → ((u : OutboundRow) → has_outbound_id row.id (f u) ≡ has_outbound_id row.id u)
      → find_outbound row.id after ≡ some (f (mark_sending row))
  marked f after same ids =
      find_outbound-update row.id (has_outbound_id row.id) f db after (mark_sending row) same ids
        found
      ∙ rw (eq_refl row.id)

  finish_sent-Ended :
      (r : SendResult)
      → Ended now draws row db (delivered r) (finish_sent now row.id r db) (result r)
  unfolding finish_sent
  finish_sent-Ended r = (
    mark_sent now r (mark_sending row),
    marked (mark_sent now r) (finish_sent now row.id r db) refl (λ u. refl),
    refl,
    went_out r refl refl refl,
  )

  module _ (x : Thrown) (e : ImgentError) (own : e ≡ outbound_error x draws.uuid draws.uuid') where
    failed : Db
    failed = finish_failed now draws.dead_id draws.uuid row e db

    finish_waits-Ended :
        IsPassing e.code
        → is_terminal (row.attempt + 1) e.descriptor ≡ false
        → Ended now draws row db (refused x) failed (failure e)
    unfolding failed
    finish_waits-Ended c h =
        let same = finish_failed_waits now draws.dead_id draws.uuid row e db h in
        let bounds = next_attempt-bounds now (row.attempt + 1) e.descriptor in
        (
          mark_failed now (row.attempt + 1) e.descriptor (mark_sending row),
          marked (mark_failed now (row.attempt + 1) e.descriptor) failed
              (ap (λ d. d.outbound_messages) same) (λ u. refl),
          refl,
          waits x e own c (ground arith) (rw h) (rw h bounds.0) (rw h bounds.1)
              (ap (λ d. d.dead_letters) same),
        )

    finish_final-Ended :
        (2 ≤ row.attempt) ⊎ IsFinal e.code
        → is_terminal (row.attempt + 1) e.descriptor ≡ true
        → Ended now draws row db (refused x) failed (failure e)
    unfolding failed
    finish_final-Ended c h =
        let (same, letter) = finish_failed_final now draws.dead_id draws.uuid row e db h in
        (
          mark_failed now (row.attempt + 1) e.descriptor (mark_sending row),
          marked (mark_failed now (row.attempt + 1) e.descriptor) failed same (λ u. refl),
          refl,
          given_up x e own c (rw h) letter,
        )

  finish_failed-Ended :
      (e : Thrown)
      → Ended now draws row db
          (refused e)
          (finish_failed now draws.dead_id draws.uuid row
            (outbound_error e draws.uuid draws.uuid')
            db)
          (failure (outbound_error e draws.uuid draws.uuid'))
  unfolding failed
  finish_failed-Ended e =
      let error = outbound_error e draws.uuid draws.uuid' in
      elim (error_cases e draws.uuid draws.uuid') [
        | inl (c, b) ↦ elim (Bool-cases (leb 3 (row.attempt + 1))) [
          | inl h ↦ finish_final-Ended e error refl (inl (ground arith)) (ground arith)
          | inr h ↦ finish_waits-Ended e error refl c (ground arith)
        ]
        | inr (c, b) ↦ finish_final-Ended e error refl (inr c) (ground arith)
      ]

  pub finish_dispatch-Ended :
      (outcome : Outcome)
      → Ended now draws row db outcome
          (finish_dispatch now draws row outcome db)
          (outcome_result draws outcome)
  unfolding finish_dispatch
  finish_dispatch-Ended (delivered r) = finish_sent-Ended r
  finish_dispatch-Ended (refused e) = finish_failed-Ended e
