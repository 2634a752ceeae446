-- ===== src/Schedules/Alone.antt =====
-- One open task of a schedule at a time (src/schedule/service.ts: processDue and trigger).
use imgent.Prelude.{
  ℕ, ◌≡◌, ◌≤◌, inl, inr, sym, ◌∙◌, String, Bool, false, [], ◌∷◌, arith, ◌==◌, eq_iff, Bool-cases,
  any_where, count_where, count_where-append, count_where_none,
}
use imgent.Store.Rows.{TaskRow}
use imgent.Store.Directory.{ScheduleRow, ScheduleRunRow}
use imgent.Store.Db.{Db, Result}
use imgent.Schedules.Rules.{Calendar}
use imgent.Schedules.Access.{Delivery}
use imgent.Schedules.Runs.{RunDraws, schedule_key, is_open_under, has_open_run, audit}
use imgent.Schedules.Due.{process_due}
use imgent.Schedules.Started.{with_run, Starts}
use imgent.Schedules.Turns.{Turn, failed, blocked, skipped, started}
use imgent.Schedules.First.{Processed, idle, turned, process_due-Processed}

-- At most one task of each schedule is open.
abbrev pub IsAlone : Db → Type 0
IsAlone db = (id : String) → count_where (is_open_under (schedule_key id)) db.tasks ≤ 1

pub IsAlone-with_run :
    (s : ScheduleRow) (at : ℕ) (r : ScheduleRunRow) (t : TaskRow) (db : Db)
    → Starts s at r t
    → has_open_run s.id db ≡ false
    → IsAlone db
    → IsAlone (with_run r t db)
unfolding has_open_run count_where
IsAlone-with_run s at r t db starts o alone id =
    let key = schedule_key id in
    let sum = count_where-append (is_open_under key) db.tasks (t ∷ []) in
    elim (Bool-cases (t.execution_key == key)) [
      | inl e ↦
          let same : schedule_key s.id ≡ key =
            sym starts.execution_key ∙ (eq_iff t.execution_key key).0 e in
          let none_open : any_where (is_open_under key) db.tasks ≡ false = rw (← same) o in
          let zero : count_where (is_open_under key) db.tasks ≡ 0 =
            count_where_none (is_open_under key) db.tasks none_open in
          ground (arith, sum, zero)
      | inr e ↦ ground (arith, sum, alone id)
    ]

IsAlone-Turn :
    (delivery : Delivery) (calendar : Calendar) (now : ℕ) (s : ScheduleRow) (first : ℕ) (db : Db)
    (r : Result Bool) (after : Db)
    → Turn delivery calendar now s first db r after
    → IsAlone db
    → IsAlone after
unfolding audit
IsAlone-Turn delivery calendar now s first db r after (failed e why) alone = alone
IsAlone-Turn delivery calendar now s first db r after (blocked e why) alone = alone
IsAlone-Turn delivery calendar now s first db r after (skipped space next d e o) alone = alone
IsAlone-Turn delivery calendar now s first db r after
      (started space next at run t d e o lo hi starts) alone =
    IsAlone-with_run s at run t _ starts o alone

IsAlone-Processed :
    (delivery : Delivery) (calendar : Calendar) (now : ℕ) (db : Db) (r : Result Bool) (after : Db)
    → Processed delivery calendar now db r after
    → IsAlone db
    → IsAlone after
IsAlone-Processed delivery calendar now db r after (idle h) alone = alone
IsAlone-Processed delivery calendar now db r after (turned row first r' after' is_first t turn)
      alone =
    IsAlone-Turn delivery calendar now _ first db r after turn alone

-- A turn of the planner keeps every schedule to one open task at most.
pub process_due-IsAlone :
    (delivery : Delivery) (calendar : Calendar) (now : ℕ) (draws : RunDraws) (db : Db)
    → IsAlone db
    → IsAlone (process_due delivery calendar now draws db).1
process_due-IsAlone delivery calendar now draws db =
    IsAlone-Processed delivery calendar now db _ _
      (process_due-Processed delivery calendar now draws db)
