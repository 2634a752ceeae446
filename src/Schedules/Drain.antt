-- ===== src/Schedules/Drain.antt =====
-- The planner's pump (src/schedule/service.ts) comes to an end.
use imgent.Prelude.{
  ℕ, zero, suc, ◌≡◌, ◌≤◌, ◌<◌, inl, inr, refl, String, Option, none, some, Bool, true, false, arith,
  Option-cases, count_where, count_where_less, update_where, eq_refl,
}
use imgent.Store.Directory.{ScheduleRow}
use imgent.Store.Db.{Result-cases, Db, Result, ok}
use imgent.Schedules.Rules.{Calendar}
use imgent.Schedules.Access.{Delivery}
use imgent.Schedules.Runs.{RunDraws, audit}
use imgent.Schedules.Service.{has_schedule_id, stored_schedule}
use imgent.Schedules.Due.{is_due, process_due, pump}
use imgent.Schedules.Turns.{Turn, failed, blocked, skipped, started, IsNext, moves_on, stops}
use imgent.Schedules.First.{IsFirst, Processed, idle, turned, process_due-Processed}

-- The schedules that are due by a time.
unfoldable pub due_count : ℕ → Db → ℕ
due_count horizon db = count_where (is_due horizon) db.schedules

due_later :
    (now horizon : ℕ) (s : ScheduleRow)
    → now ≤ horizon
    → is_due now s ≡ true
    → is_due horizon s ≡ true
due_later now horizon s h d = elim (Option-cases s.next_run_at) [
  | inl e ↦ ground arith
  | inr (t, e) ↦ ground arith
]

-- A schedule that has moved on is not due by the horizon.
moves_on_rests :
    (horizon extra : ℕ) (next : Option ℕ) (s : ScheduleRow)
    → ((n : ℕ) → next ≡ some n → horizon < n)
    → is_due horizon (moves_on extra next s) ≡ false
moves_on_rests horizon extra none s h = ground arith
moves_on_rests horizon extra (some n) s h = ground (arith, h n refl)

module _ (delivery : Delivery) (calendar : Calendar) (now horizon : ℕ) (row : ScheduleRow)
    (first : ℕ) (db : Db) (is_first : IsFirst now db row) (early : now ≤ horizon)
    (later : (n : ℕ) → IsNext calendar now (stored_schedule row) (some n) → horizon < n) where
  fewer :
      (f : ScheduleRow → ScheduleRow)
      → ((s : ScheduleRow) → is_due horizon (f s) ≡ false)
      → count_where (is_due horizon) (update_where (has_schedule_id row.id) f db.schedules)
        < count_where (is_due horizon) db.schedules
  fewer f h =
      count_where_less (has_schedule_id row.id) (is_due horizon) f db.schedules row (λ s e. h s)
        is_first.stored (eq_refl row.id) (due_later now horizon row early is_first.due)

  fewer_moved :
      (extra : ℕ) (next : Option ℕ)
      → IsNext calendar now (stored_schedule row) next
      → count_where
          (is_due horizon)
          (update_where (has_schedule_id row.id) (moves_on extra next) db.schedules)
        < count_where (is_due horizon) db.schedules
  fewer_moved extra next e =
      fewer (moves_on extra next)
        (λ s. moves_on_rests horizon extra next s (λ n p. later n (rw p at e)))

  Turn_fewer :
      (r : Result Bool) (after : Db)
      → Turn delivery calendar now (stored_schedule row) first db r after
      → r ≡ ok true
      → due_count horizon after < due_count horizon db
  unfolding due_count audit
  Turn_fewer r after (failed e why) q = cc
  Turn_fewer r after (blocked e why) q = fewer (stops e) (λ s. ground arith)
  Turn_fewer r after (skipped space next d e o) q = fewer_moved 1 next e
  Turn_fewer r after (started space next at run t d e o lo hi starts) q = fewer_moved 0 next e

-- Croner's answers lie beyond the horizon.
abbrev pub IsBeyond : Calendar → ℕ → ℕ → Type 0
IsBeyond calendar now horizon =
    (expression : String) (zone : Option String) (n : ℕ)
    → calendar.next_run expression zone now ≡ some (some n)
    → horizon < n

next_beyond :
    (calendar : Calendar) (now horizon : ℕ) (s : ScheduleRow)
    → IsBeyond calendar now horizon
    → (n : ℕ) → IsNext calendar now s (some n)
    → horizon < n
next_beyond calendar now horizon s h n (inl (k, e)) = absurd (cc e)
next_beyond calendar now horizon s h n (inr (k, e)) = h s.schedule_expression s.timezone n e

process_due_fewer :
    (delivery : Delivery) (calendar : Calendar) (now horizon : ℕ) (draws : RunDraws) (db : Db)
    → now ≤ horizon
    → IsBeyond calendar now horizon
    → (process_due delivery calendar now draws db).0 ≡ ok true
    → due_count horizon (process_due delivery calendar now draws db).1 < due_count horizon db
process_due_fewer delivery calendar now horizon draws db early beyond =
    fewer_after _ _ (process_due-Processed delivery calendar now draws db)
  where
    fewer_after :
        (r : Result Bool) (after : Db)
        → Processed delivery calendar now db r after
        → r ≡ ok true
        → due_count horizon after < due_count horizon db
    fewer_after r after (idle h) q = cc
    fewer_after r after (turned row first r' after' is_first t turn) q =
        Turn_fewer delivery calendar now horizon row first db is_first early
          (λ n e. next_beyond calendar now horizon (stored_schedule row) beyond n e) r after turn q

-- The planner's pump comes to an end: where all its readings of the clock lie by a horizon beyond
-- which croner puts every next run, it needs at most one turn more than schedules are due by the
-- horizon, whatever is delivered or fails on the way.
pub pump_ends :
    (delivery : Delivery) (calendar : Calendar) (clock : ℕ → ℕ) (draws : ℕ → RunDraws) (horizon : ℕ)
    (fuel turn : ℕ) (db : Db)
    → ((k : ℕ) → clock k ≤ horizon)
    → ((k : ℕ) → IsBeyond calendar (clock k) horizon)
    → due_count horizon db < fuel
    → (pump delivery calendar clock draws fuel turn db).0 ≡ true
unfolding pump
pump_ends delivery calendar clock draws horizon zero turn db early beyond h = absurd (omega arith)
pump_ends delivery calendar clock draws horizon (suc fuel) turn db early beyond h =
    elim (Result-cases (process_due delivery calendar (clock turn) (draws turn) db).0) [
      | inl (e, q) ↦ rw (q, pump)
      | inr (false, q) ↦ rw (q, pump)
      | inr (true, q) ↦
          let less =
            process_due_fewer delivery calendar (clock turn) horizon (draws turn) db (early turn)
              (beyond turn) q in
          rw (q, pump)
            (pump_ends delivery calendar clock draws horizon fuel (suc turn)
              (process_due delivery calendar (clock turn) (draws turn) db).1 early beyond
              (omega (arith, less, h)))
    ]
