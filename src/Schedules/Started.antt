-- ===== src/Schedules/Started.antt =====
-- What enqueue (src/schedule/service.ts) comes to: an error, or one more run and one more task.
use imgent.Prelude.{
  ℕ, ◌≡◌, ◌⊎◌, inl, inr, refl, ap, Bool, [], ◌∷◌, ◌++◌, ◌==◌, Bool-cases, any_where, any_where-true,
  eq_iff, In, arith,
}
use imgent.Messaging.{Actor}
use imgent.Store.Rows.{TaskStatus, TaskRow}
use imgent.Store.Directory.{SpaceRow, ScheduleRow, ScheduleRunRow}
use imgent.Store.Db.{Result-cases, Db, Failure, constraint, ok, err}
use imgent.Store.Inserts.{insert_task}
use imgent.Schedules.Access.{actor_of, principal_actor}
use imgent.Schedules.Runs.{
  RunDraws, schedule_key, occurrence_key, is_run_of, scheduled_message, scheduled_task, insert_run,
  enqueue,
}

-- The database with one more run and one more task.
abbrev pub with_run : ScheduleRunRow → TaskRow → Db → Db
with_run r t db = record db {
  schedule_runs = db.schedule_runs ++ r ∷ [];
  tasks = db.tasks ++ t ∷ [];
}

-- A run of the schedule for a time, and a queued task of that run under the schedule's own key.
pub record Starts (s : ScheduleRow) (scheduled_for : ℕ) (r : ScheduleRunRow) (t : TaskRow)
    : Type 0 where
  pub schedule_id : r.schedule_id ≡ s.id
  pub time : r.scheduled_for ≡ scheduled_for
  pub execution_key : t.execution_key ≡ schedule_key s.id
  pub status : t.status ≡ TaskStatus.queued
  pub principal_id : t.principal_id ≡ s.principal_id

-- Why a run of the schedule for a time cannot be added, and the error that says so: its principal is
-- not the one the space talks to, or is no member; or the time has its run or its task already.
pub data Refuses (s : ScheduleRow) (space : SpaceRow) (scheduled_for : ℕ) (db : Db)
    : Failure → Type 0 where
  stranger :
      (e : Failure) → actor_of space s.principal_id db ≡ err e → Refuses s space scheduled_for db e
  run_known :
      (r : ScheduleRunRow)
      → In r db.schedule_runs
      → r.schedule_id ≡ s.id
      → r.scheduled_for ≡ scheduled_for
      → Refuses s space scheduled_for db constraint
  task_known :
      (t : TaskRow)
      → In t db.tasks
      → t.idempotency_key ≡ occurrence_key "schedule" s.id scheduled_for
      → Refuses s space scheduled_for db constraint

module _ (now : ℕ) (draws : RunDraws) (s : ScheduleRow) (space : SpaceRow) (scheduled_for : ℕ)
    (manual : Bool) (db : Db) where
  abbrev new_run : ScheduleRunRow
  new_run = record {
    id = draws.run_id;
    schedule_id = s.id;
    scheduled_for = scheduled_for;
    enqueued_at = now;
  }

  abbrev new_task : Actor → TaskRow
  new_task actor =
      scheduled_task now draws s space scheduled_for
        (scheduled_message now s space scheduled_for manual actor) db.tasks

  abbrev pub Enqueued : Type 0
  Enqueued =
      ((e : Failure) × ((enqueue now draws s space scheduled_for manual db).0 ≡ err e)
        × Refuses s space scheduled_for db e)
      ⊎ ((r : ScheduleRunRow) × (t : TaskRow) × Starts s scheduled_for r t
          × (enqueue now draws s space scheduled_for manual db ≡ (ok t.id, with_run r t db)))

  pub enqueue-stranger :
      (e : Failure)
      → actor_of space s.principal_id db ≡ err e
      → enqueue now draws s space scheduled_for manual db ≡ (err e, db)
  unfolding enqueue principal_actor
  enqueue-stranger e h = rw (h, enqueue, principal_actor)

  enqueue_known : (actor : Actor) → actor_of space s.principal_id db ≡ ok actor → Enqueued
  unfolding enqueue principal_actor insert_run insert_task
  enqueue_known actor h =
      elim (Bool-cases (any_where (is_run_of s.id scheduled_for) db.schedule_runs)) [
        | inl e ↦
            let (r, m, q) = any_where-true (is_run_of s.id scheduled_for) db.schedule_runs e in
            inl (
              constraint,
              rw (h, e, enqueue, principal_actor, insert_run),
              run_known r m ((eq_iff r.schedule_id s.id).0 (ground arith)) (ground arith),
            )
        | inr e ↦
            elim (Bool-cases
              (any_where (λ t. t.idempotency_key == (new_task actor).idempotency_key) db.tasks)) [
                | inl f ↦
                    let (t, m, q) = any_where-true _ db.tasks f in
                    inl (
                      constraint,
                      rw (h, e, f, enqueue, principal_actor, insert_run, insert_task),
                      task_known t m ((eq_iff t.idempotency_key _).0 q),
                    )
                | inr f ↦ inr (
                  new_run,
                  new_task actor,
                  record {
                    schedule_id = refl;
                    time = refl;
                    execution_key = refl;
                    status = refl;
                    principal_id = refl;
                  },
                  rw (h, e, f, enqueue, principal_actor, insert_run, insert_task),
                )
              ]
      ]

  pub enqueue-Enqueued : Enqueued
  enqueue-Enqueued = elim (Result-cases (actor_of space s.principal_id db)) [
    | inl (e, h) ↦ inl (e, ap (λ p. p.0) (enqueue-stranger e h), stranger e h)
    | inr (actor, h) ↦ enqueue_known actor h
  ]
