-- ===== src/Schedules/Stuck.antt =====
-- A schedule whose person is not known any more (src/schedule/service.ts: principalActor, pump).
use imgent.Prelude.{ℕ, ◌≡◌, sym, subst, ap, Option, some, false}
use imgent.Store.Directory.{SpaceRow, ScheduleRow}
use imgent.Store.Db.{Db, Failure, ok, err, transaction}
use imgent.Schedules.Rules.{Calendar}
use imgent.Schedules.Access.{Delivery, actor_of}
use imgent.Schedules.Runs.{RunDraws, has_open_run}
use imgent.Schedules.Service.{stored_schedule}
use imgent.Schedules.Due.{
  next_due, next_time, scheduled_occurrence, executable_space, start_due, process_schedule,
  process_at, process_due, advanced,
}
use imgent.Schedules.Started.{enqueue-stranger}
use imgent.Schedules.Turns.{with_schedule, start_fails}

module _ (delivery : Delivery) (calendar : Calendar) (now : ℕ) (draws : RunDraws) (db : Db)
    (row : ScheduleRow) (space : SpaceRow) (first at : ℕ) (next : Option ℕ) (e : Failure)
    (due : next_due now db ≡ some row) (time : row.next_run_at ≡ some first)
    (occurs : scheduled_occurrence calendar now (stored_schedule row) first ≡ ok at)
    (housed : (executable_space delivery row.conversation_space_id db).0 ≡ ok space)
    (advances : next_time calendar now (stored_schedule row) ≡ some next)
    (idle : has_open_run row.id db ≡ false)
    (stranger : actor_of space row.principal_id db ≡ err e) where
  start_due-stranger :
      transaction (start_due calendar now draws (stored_schedule row) space at) db ≡ (err e, db)
  start_due-stranger =
      start_fails calendar now draws (stored_schedule row) space at db next e advances idle (
        ap (λ p. p.0)
          (enqueue-stranger now draws (stored_schedule row) space at false
            (with_schedule row.id (advanced false next) db) e stranger))

  process_schedule-stranger :
      process_schedule delivery calendar now draws (stored_schedule row) first db ≡ (err e, db)
  unfolding process_schedule
  process_schedule-stranger = rw (occurs, housed, start_due-stranger, process_schedule)

  -- Where the person of the schedule that is due first is not known any more, in a conversation
  -- that can be delivered to and with no open task of the schedule, a call of processDue fails and
  -- changes nothing: the schedule is neither blocked nor moved on, and stays the first.
  pub process_due-stranger : process_due delivery calendar now draws db ≡ (err e, db)
  unfolding process_due
  process_due-stranger =
      rw (due, process_due)
        (subst (λ o. process_at delivery calendar now draws row o db ≡ (err e, db)) (sym time)
          process_schedule-stranger)
