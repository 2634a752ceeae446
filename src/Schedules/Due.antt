-- ===== src/Schedules/Due.antt =====
-- src/schedule/service.ts: what the planner does with the schedules that are due.
use imgent.Prelude.{
  ℕ, zero, suc, ◌+◌, String, Option, none, some, Bool, true, false, not, ◌&&◌, ◌||◌, List, [], ◌∷◌,
  leb, ltb, nat_beq, if◌then◌else◌, is_some, filter_where,
}
use imgent.Errors.Codes.{code_text}
use imgent.Store.Directory.{SpaceRow, ScheduleRow, ScheduleKind, ScheduleStatus}
use imgent.Store.Db.{
  Db, Failure, coded, constraint, plain, Result, ok, err, Exec, pure, run, gets, ◌>>=◌, ◌>>◌,
  transaction,
}
use imgent.Schedules.Rules.{Calendar}
use imgent.Schedules.Access.{Delivery, found_or, lift, require_space, require_executable}
use imgent.Schedules.Runs.{RunDraws, has_open_run, enqueue, audit}
use imgent.Schedules.Service.{stored_schedule, set_schedule}

abbrev pub is_active : ScheduleStatus → Bool
is_active ScheduleStatus.active = true
is_active _ = false

abbrev pub comes_by : ℕ → Option ℕ → Bool
comes_by now none = false
comes_by now (some t) = leb t now

-- The WHERE clause of processDue.
abbrev pub is_due : ℕ → ScheduleRow → Bool
is_due now s = is_active s.status && comes_by now s.next_run_at && not (is_some s.removed_at)

abbrev pub time_lt : Option ℕ → Option ℕ → Bool
time_lt none none = false
time_lt none (some b) = true
time_lt (some a) none = false
time_lt (some a) (some b) = ltb a b

abbrev pub time_beq : Option ℕ → Option ℕ → Bool
time_beq none none = true
time_beq (some a) (some b) = nat_beq a b
time_beq _ _ = false

-- ORDER BY next_run_at, created_at
abbrev pub comes_before : ScheduleRow → ScheduleRow → Bool
comes_before a b =
    time_lt a.next_run_at b.next_run_at
    || time_beq a.next_run_at b.next_run_at && ltb a.created_at b.created_at

abbrev pub sooner : ScheduleRow → Option ScheduleRow → Option ScheduleRow
sooner s none = some s
sooner s (some u) = if comes_before u s then some u else some s

-- LIMIT 1, the smaller rowid among equals; the rows stand in rowid order.
unfoldable pub first_due : List ScheduleRow → Option ScheduleRow
first_due [] = none
first_due (s ∷ ss) = sooner s (first_due ss)

unfoldable pub next_due : ℕ → Db → Option ScheduleRow
next_due now db = first_due (filter_where (is_due now) db.schedules)

-- A previous run that lies between the first that is due and now, or else the first that is due.
abbrev pub occurrence : ℕ → ℕ → Option ℕ → ℕ
occurrence first now none = first
occurrence first now (some previous) =
    if ltb previous first || ltb now previous then first else previous

abbrev pub cron_occurrence : ℕ → ℕ → Option (Option ℕ) → Result ℕ
cron_occurrence first now none = err plain
cron_occurrence first now (some previous) = ok (occurrence first now previous)

-- ScheduleService.scheduledOccurrence; `first` is the schedule's nextRunAt.
unfoldable pub scheduled_occurrence : Calendar → ℕ → ScheduleRow → ℕ → Result ℕ
scheduled_occurrence calendar now s first = elim s.schedule_kind [
  | ScheduleKind.once ↦ ok first
  | ScheduleKind.cron ↦
      cron_occurrence first now
        (calendar.previous_run s.schedule_expression s.timezone (now + 1000))
]

abbrev pub skip_count : Bool → ℕ
skip_count skipped = if skipped then 1 else 0

abbrev pub complete_schedule : Bool → ScheduleRow → ScheduleRow
complete_schedule skipped s = record s {
  status = ScheduleStatus.completed;
  next_run_at = none;
  skipped_run_count = s.skipped_run_count + skip_count skipped;
}

abbrev pub move_schedule : ℕ → Bool → ScheduleRow → ScheduleRow
move_schedule next skipped s = record s {
  next_run_at = some next;
  skipped_run_count = s.skipped_run_count + skip_count skipped;
}

abbrev pub advanced : Bool → Option ℕ → ScheduleRow → ScheduleRow
advanced skipped none = complete_schedule skipped
advanced skipped (some next) = move_schedule next skipped

-- The next time after `now`; nothing if a cron expression has come to its end.
abbrev pub next_time : Calendar → ℕ → ScheduleRow → Option (Option ℕ)
next_time calendar now s = elim s.schedule_kind [
  | ScheduleKind.once ↦ some none
  | ScheduleKind.cron ↦ calendar.next_run s.schedule_expression s.timezone now
]

-- ScheduleService.advance
unfoldable pub advance : Calendar → ℕ → ScheduleRow → Bool → Exec Unit
advance calendar now s skipped = do
  next ← found_or plain (next_time calendar now s)
  set_schedule s.id (advanced skipped next)

-- error.message, the code of an ImgentError
abbrev pub failure_text : Failure → String
failure_text (coded c) = code_text c
failure_text constraint = "constraint failed"
failure_text plain = "error"

abbrev pub block_schedule : Failure → ScheduleRow → ScheduleRow
block_schedule e s = record s {
  status = ScheduleStatus.blocked;
  blocked_reason = some (failure_text e);
  next_run_at = none;
}

unfoldable pub block : ℕ → ScheduleRow → Failure → Exec Bool
block now s e = do
  set_schedule s.id (block_schedule e)
  run (audit now "schedule.blocked" (record s { status = ScheduleStatus.blocked }))
  pure true

-- if (active === 0) this.enqueue(...)
abbrev pub enqueue_unless : Bool → ℕ → RunDraws → ScheduleRow → SpaceRow → ℕ → Exec Unit
enqueue_unless true now draws s space scheduled_for = pure tt
enqueue_unless false now draws s space scheduled_for =
    enqueue now draws s space scheduled_for false >>= λ _. pure tt

-- The transaction of processDue.
unfoldable pub start_due : Calendar → ℕ → RunDraws → ScheduleRow → SpaceRow → ℕ → Exec Unit
start_due calendar now draws s space scheduled_for = do
  active ← gets (has_open_run s.id)
  advance calendar now s active
  enqueue_unless active now draws s space scheduled_for

-- The space of a schedule that can be delivered to.
unfoldable pub executable_space : Delivery → String → Exec SpaceRow
executable_space delivery id = do
  space ← require_space id
  require_executable delivery space
  pure space

abbrev pub deliver_due : Calendar → ℕ → RunDraws → ScheduleRow → ℕ → Result SpaceRow → Exec Bool
deliver_due calendar now draws s scheduled_for (err e) = block now s e
deliver_due calendar now draws s scheduled_for (ok space) =
    transaction (start_due calendar now draws s space scheduled_for) >>= λ _. pure true

-- processDue on the schedule that is due first, whose next run is `first`.
unfoldable pub process_schedule : Delivery → Calendar → ℕ → RunDraws → ScheduleRow → ℕ → Exec Bool
process_schedule delivery calendar now draws s first = do
  scheduled_for ← lift (scheduled_occurrence calendar now s first)
  space ← gets (λ db. (executable_space delivery s.conversation_space_id db).0)
  deliver_due calendar now draws s scheduled_for space

-- if (!due?.next_run_at) return false
abbrev pub process_at : Delivery → Calendar → ℕ → RunDraws → ScheduleRow → Option ℕ → Exec Bool
process_at delivery calendar now draws row none = pure false
process_at delivery calendar now draws row (some first) =
    process_schedule delivery calendar now draws (stored_schedule row) first

abbrev pub process_next : Delivery → Calendar → ℕ → RunDraws → Option ScheduleRow → Exec Bool
process_next delivery calendar now draws none = pure false
process_next delivery calendar now draws (some row) =
    process_at delivery calendar now draws row row.next_run_at

-- ScheduleService.processDue
unfoldable pub process_due : Delivery → Calendar → ℕ → RunDraws → Exec Bool
process_due delivery calendar now draws = do
  due ← gets (next_due now)
  process_next delivery calendar now draws due

-- SchedulePlanner.pump: whether it has come to an end, by a turn that found nothing due or by an
-- error, within a number of turns. Each turn reads the clock and draws ids.
unfoldable pub pump : Delivery → Calendar → (ℕ → ℕ) → (ℕ → RunDraws) → ℕ → ℕ → Db → Bool × Db
pump delivery calendar clock draws zero turn db = (false, db)
pump delivery calendar clock draws (suc fuel) turn db =
    let (more, after) = process_due delivery calendar (clock turn) (draws turn) db in
    elim more [
      | ok true ↦ pump delivery calendar clock draws fuel (suc turn) after
      | _ ↦ (true, after)
    ]
