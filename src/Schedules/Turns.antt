-- ===== src/Schedules/Turns.antt =====
-- What one call of processDue (src/schedule/service.ts) comes to.
use imgent.Prelude.{
  ℕ, ◌+◌, ◌≡◌, ◌≤◌, ◌⊎◌, inl, inr, refl, String, Option, none, some, Bool, true, false, arith,
  Bool-cases, Option-cases, update_where, sym, subst, is_some, if◌then◌else◌,
}
use imgent.Store.Directory.{SpaceRow, ScheduleRow, ScheduleRunRow, ScheduleKind, ScheduleStatus}
use imgent.Store.Rows.{TaskRow}
use imgent.Store.Db.{Result-cases, Db, Failure, plain, Result, ok, err, transaction}
use imgent.Schedules.Rules.{Calendar}
use imgent.Schedules.Access.{Delivery}
use imgent.Schedules.Runs.{RunDraws, has_open_run, enqueue, audit}
use imgent.Schedules.Service.{has_schedule_id}
use imgent.Schedules.Due.{
  occurrence, cron_occurrence, scheduled_occurrence, next_time, advanced, advance, failure_text,
  block, start_due, deliver_due, process_schedule,
}
use imgent.Schedules.Started.{
  with_run, Starts, Refuses, stranger, run_known, task_known, enqueue-Enqueued,
}
use imgent.Schedules.Delivered.{IsDeliverable, Undeliverable, executable_space-cases}

abbrev pub with_schedule : String → (ScheduleRow → ScheduleRow) → Db → Db
with_schedule id f db = record db { schedules = update_where (has_schedule_id id) f db.schedules }

-- The next time of a schedule: none after the one run of a single time, else croner's answer.
abbrev pub IsNext : Calendar → ℕ → ScheduleRow → Option ℕ → Type 0
IsNext calendar now s next =
    ((s.schedule_kind ≡ ScheduleKind.once) × (next ≡ none))
    ⊎ ((s.schedule_kind ≡ ScheduleKind.cron)
        × (calendar.next_run s.schedule_expression s.timezone now ≡ some next))

-- A row that goes to its next time, or is completed where there is none, with some more skipped runs.
abbrev pub moves_on : ℕ → Option ℕ → ScheduleRow → ScheduleRow
moves_on extra next u = record u {
  status = if is_some next then u.status else ScheduleStatus.completed;
  next_run_at = next;
  skipped_run_count = u.skipped_run_count + extra;
}

-- A row that is blocked for a reason.
abbrev pub stops : Failure → ScheduleRow → ScheduleRow
stops e u = record u {
  status = ScheduleStatus.blocked;
  blocked_reason = some (failure_text e);
  next_run_at = none;
}

-- Why a turn fails: the calendar does not read the schedule, or the run cannot be added.
pub data Failing (delivery : Delivery) (calendar : Calendar) (now : ℕ) (s : ScheduleRow) (first : ℕ)
    (db : Db) : Failure → Type 0 where
  no_previous :
      s.schedule_kind ≡ ScheduleKind.cron
      → calendar.previous_run s.schedule_expression s.timezone (now + 1000) ≡ none
      → Failing delivery calendar now s first db plain
  no_next :
      s.schedule_kind ≡ ScheduleKind.cron
      → calendar.next_run s.schedule_expression s.timezone now ≡ none
      → Failing delivery calendar now s first db plain
  no_run :
      (space : SpaceRow) (at : ℕ) (e : Failure)
      → IsDeliverable delivery s.conversation_space_id db space
      → has_open_run s.id db ≡ false
      → first ≤ at
      → at ≤ now
      → Refuses s space at db e
      → Failing delivery calendar now s first db e

-- What the turn of the schedule `s`, due since `first`, answers and leaves.
pub data Turn (delivery : Delivery) (calendar : Calendar) (now : ℕ) (s : ScheduleRow) (first : ℕ)
    (db : Db) : Result Bool → Db → Type 0 where
  failed :
      (e : Failure)
      → Failing delivery calendar now s first db e
      → Turn delivery calendar now s first db (err e) db
  blocked :
      (e : Failure)
      → Undeliverable delivery s.conversation_space_id db e
      → Turn delivery calendar now s first db (ok true) (
          audit now "schedule.blocked"
            (record s { status = ScheduleStatus.blocked })
            (with_schedule s.id (stops e) db))
  skipped :
      (space : SpaceRow) (next : Option ℕ)
      → IsDeliverable delivery s.conversation_space_id db space
      → IsNext calendar now s next
      → has_open_run s.id db ≡ true
      → Turn delivery calendar now s first db (ok true) (with_schedule s.id (moves_on 1 next) db)
  started :
      (space : SpaceRow) (next : Option ℕ) (at : ℕ) (r : ScheduleRunRow) (t : TaskRow)
      → IsDeliverable delivery s.conversation_space_id db space
      → IsNext calendar now s next
      → has_open_run s.id db ≡ false
      → first ≤ at
      → at ≤ now
      → Starts s at r t
      → Turn delivery calendar now s first db
          (ok true)
          (with_run r t (with_schedule s.id (moves_on 0 next) db))

advanced-moves_on :
    (skip : Bool) (next : Option ℕ) → advanced skip next ≡ moves_on (if skip then 1 else 0) next
advanced-moves_on skip none = refl
advanced-moves_on skip (some n) = refl

pub kind_cases : (k : ScheduleKind) → (k ≡ ScheduleKind.once) ⊎ (k ≡ ScheduleKind.cron)
kind_cases ScheduleKind.once = inl refl
kind_cases ScheduleKind.cron = inr refl

next_time-IsNext :
    (calendar : Calendar) (now : ℕ) (s : ScheduleRow) (next : Option ℕ)
    → next_time calendar now s ≡ some next
    → IsNext calendar now s next
next_time-IsNext calendar now s next e = elim (kind_cases s.schedule_kind) [
  | inl k ↦
      let same : Path (Option (Option ℕ)) (some none) (some next) = rw k at e in
      inl (k, sym (cc same))
  | inr k ↦ inr (k, rw k at e)
]

next_time_none :
    (calendar : Calendar) (now : ℕ) (s : ScheduleRow)
    → next_time calendar now s ≡ none
    → (s.schedule_kind ≡ ScheduleKind.cron)
      × (calendar.next_run s.schedule_expression s.timezone now ≡ none)
next_time_none calendar now s e = elim (kind_cases s.schedule_kind) [
  | inl k ↦ let same : Path (Option (Option ℕ)) (some none) none = rw k at e in absurd (cc same)
  | inr k ↦ (k, rw k at e)
]

module _ (calendar : Calendar) (now : ℕ) (draws : RunDraws) (s : ScheduleRow) (space : SpaceRow)
    (at : ℕ) (db : Db) where
  abbrev moved : Option ℕ → Bool → Db
  moved next skip = with_schedule s.id (advanced skip next) db

  start_stuck :
      next_time calendar now s ≡ none
      → transaction (start_due calendar now draws s space at) db ≡ (err plain, db)
  unfolding transaction start_due advance
  start_stuck e = rw (e, transaction, start_due, advance)

  start_skips :
      (next : Option ℕ)
      → next_time calendar now s ≡ some next
      → has_open_run s.id db ≡ true
      → transaction (start_due calendar now draws s space at) db ≡ (ok tt, moved next true)
  unfolding transaction start_due advance
  start_skips next e o = rw (e, o, transaction, start_due, advance)

  pub start_fails :
      (next : Option ℕ) (f : Failure)
      → next_time calendar now s ≡ some next
      → has_open_run s.id db ≡ false
      → (enqueue now draws s space at false (moved next false)).0 ≡ err f
      → transaction (start_due calendar now draws s space at) db ≡ (err f, db)
  unfolding transaction start_due advance
  start_fails next f e o h = rw (e, o, h, transaction, start_due, advance)

  start_runs :
      (next : Option ℕ) (id : String) (after : Db)
      → next_time calendar now s ≡ some next
      → has_open_run s.id db ≡ false
      → enqueue now draws s space at false (moved next false) ≡ (ok id, after)
      → transaction (start_due calendar now draws s space at) db ≡ (ok tt, after)
  unfolding transaction start_due advance
  start_runs next id after e o h = rw (e, o, h, transaction, start_due, advance)

  -- The turn of a schedule that can be delivered to the space.
  deliver_due-Turn :
      (delivery : Delivery) (first : ℕ)
      → IsDeliverable delivery s.conversation_space_id db space
      → first ≤ at
      → at ≤ now
      → Turn delivery calendar now s first db
          (deliver_due calendar now draws s at (ok space) db).0
          (deliver_due calendar now draws s at (ok space) db).1
  deliver_due-Turn delivery first d lo hi = elim (Option-cases (next_time calendar now s)) [
    | inl e ↦
        let (k, n) = next_time_none calendar now s e in
        rw (start_stuck e) (failed plain (no_next k n))
    | inr (next, e) ↦ elim (Bool-cases (has_open_run s.id db)) [
      | inl o ↦
          rw (start_skips next e o, advanced-moves_on true next)
            (skipped space next d (next_time-IsNext calendar now s next e) o)
      | inr o ↦ elim (enqueue-Enqueued now draws s space at false (moved next false)) [
        | inl (f, h, why) ↦
            rw (start_fails next f e o h)
              (failed f (no_run space at f d o lo hi (refuses next f why)))
        | inr (r, t, starts, h) ↦
            rw
              (
                start_runs next t.id (with_run r t (moved next false)) e o h,
                advanced-moves_on false next,
              )
              (started space next at r t d (next_time-IsNext calendar now s next e) o lo hi starts)
      ]
    ]
  ]
    where
      refuses :
          (next : Option ℕ) (f : Failure)
          → Refuses s space at (moved next false) f
          → Refuses s space at db f
      refuses next _ (stranger e h) = stranger e h
      refuses next _ (run_known r m own time) = run_known r m own time
      refuses next _ (task_known t m own) = task_known t m own

occurrence-bounds :
    (first now : ℕ) (previous : Option ℕ)
    → first ≤ now
    → (first ≤ occurrence first now previous) × (occurrence first now previous ≤ now)
occurrence-bounds first now none h = (omega arith, omega arith)
occurrence-bounds first now (some p) h = (ground arith, ground arith)

cron_occurrence-bounds :
    (first now at : ℕ) (r : Option (Option ℕ))
    → first ≤ now
    → cron_occurrence first now r ≡ ok at
    → (first ≤ at) × (at ≤ now)
cron_occurrence-bounds first now at none h e = cc
cron_occurrence-bounds first now at (some p) h e =
    let own : occurrence first now p ≡ at = cc e in rw (← own) (occurrence-bounds first now p h)

scheduled_occurrence-bounds :
    (calendar : Calendar) (now : ℕ) (s : ScheduleRow) (first at : ℕ)
    → first ≤ now
    → scheduled_occurrence calendar now s first ≡ ok at
    → (first ≤ at) × (at ≤ now)
unfolding scheduled_occurrence
scheduled_occurrence-bounds calendar now s first at h e = elim (kind_cases s.schedule_kind) [
  | inl k ↦
      let same : ok first ≡ ok at = rw (k, scheduled_occurrence) at e in
      let own : first ≡ at = cc same in (omega arith, omega arith)
  | inr k ↦
      cron_occurrence-bounds first now at
        (calendar.previous_run s.schedule_expression s.timezone (now + 1000)) h
        (rw (k, scheduled_occurrence) at e)
]

occurrence-Failing :
    (delivery : Delivery) (calendar : Calendar) (now : ℕ) (s : ScheduleRow) (first : ℕ) (db : Db)
    (e : Failure)
    → scheduled_occurrence calendar now s first ≡ err e
    → Failing delivery calendar now s first db e
unfolding scheduled_occurrence
occurrence-Failing delivery calendar now s first db e h = elim (kind_cases s.schedule_kind) [
  | inl k ↦
      let same : Path (Result ℕ) (ok first) (err e) = rw (k, scheduled_occurrence) at h in
      absurd (cc same)
  | inr k ↦
      elim (Option-cases (calendar.previous_run s.schedule_expression s.timezone (now + 1000))) [
        | inl n ↦
            let same : Path (Result ℕ) (err plain) (err e) = rw (k, n, scheduled_occurrence) at h in
            let own : plain ≡ e = cc same in
            subst (λ x. Failing delivery calendar now s first db x) own (no_previous k n)
        | inr (p, n) ↦
            let same : Path (Result ℕ) (ok (occurrence first now p)) (err e) =
              rw (k, n, scheduled_occurrence) at h in
            absurd (cc same)
      ]
]

pub process_schedule-Turn :
    (delivery : Delivery) (calendar : Calendar) (now : ℕ) (draws : RunDraws) (s : ScheduleRow)
    (first : ℕ) (db : Db)
    → first ≤ now
    → Turn delivery calendar now s first db
        (process_schedule delivery calendar now draws s first db).0
        (process_schedule delivery calendar now draws s first db).1
unfolding process_schedule block
process_schedule-Turn delivery calendar now draws s first db h =
    elim (Result-cases (scheduled_occurrence calendar now s first)) [
      | inl (e, q) ↦
          rw (q, process_schedule)
            (failed e (occurrence-Failing delivery calendar now s first db e q))
      | inr (at, q) ↦
          let (lo, hi) = scheduled_occurrence-bounds calendar now s first at h q in
          elim (executable_space-cases delivery s.conversation_space_id db) [
            | inl (e, p, why) ↦ rw (q, p, process_schedule) (blocked e why)
            | inr (space, p, d) ↦
                rw (q, p, process_schedule)
                  (deliver_due-Turn calendar now draws s space at db delivery first d lo hi)
          ]
    ]
