-- ===== src/Store/Taken.antt =====
-- What settleSteeredInputs (src/storage/store.ts) does to the follow-ups that a turn took.
use imgent.Prelude.{
  ◌≡◌, ◌≢◌, ◌⊎◌, refl, ◌∙◌, eq_iff, ◌&&◌, ◌==◌, any_where_of_In, any_where-true, String, some, true,
  false, arith, Bool-cases, inl, inr, In,
}
use imgent.Store.Rows.{TaskStatus, TaskRow, SteerState, SteerRow, is_open}
use imgent.Store.Db.{Db}
use imgent.Store.Tasks.{StoredTask, stored_task, find_task}
use imgent.Store.Steers.{
  is_accepted, accepted_for, was_steered_into, settles, settle_with, settle_steered_inputs,
}
use imgent.Store.Lookup.{task-find_task, find_task-update}

lookup-settle_with :
    (id : String) (target : StoredTask) (db : Db) (s : TaskRow)
    → find_task id db ≡ some s
    → s.status ≡ TaskStatus.succeeded
    → find_task id (settle_with id target db) ≡ some s
unfolding settle_with
lookup-settle_with id target db s e h = elim (Bool-cases (is_open target.status)) [
  | inl o ↦ rw (o, settle_with) e
  | inr o ↦
      rw (o, settle_with)
        (find_task-update id (settles id db.task_steers)
            (λ t. record t { status = target.status; error = target.error }) db _ s refl (λ u. refl)
            e
          ∙ ground arith)
]

-- The end of a task is not touched when its inputs are settled.
pub lookup-settle :
    (id : String) (db : Db) (s : TaskRow)
    → find_task id db ≡ some s
    → s.status ≡ TaskStatus.succeeded
    → find_task id (settle_steered_inputs id db) ≡ some s
unfolding settle_steered_inputs
lookup-settle id db s e h =
    rw (task-find_task id db s e, settle_steered_inputs)
      (lookup-settle_with id (stored_task s) db s e h)

-- The turn, under the id `target`, was given the task `u` as a follow-up, and took it.
abbrev pub WasTaken : String → Db → TaskRow → SteerRow → Type 0
WasTaken target db u s =
    In s db.task_steers
    × (s.target_task_id ≡ target)
    × (s.input_task_id ≡ u.id)
    × (s.state ≡ SteerState.accepted)

taken_state : (s : SteerState) → is_accepted s ≡ true → s ≡ SteerState.accepted
taken_state s h = ground arith

pub settles_taken :
    (id : String) (db : Db) (u : TaskRow) (s : SteerRow)
    → u.status ≡ TaskStatus.active
    → WasTaken id db u s
    → settles id db.task_steers u ≡ true
settles_taken id db u s b (m, own, of, taken) =
    let found : was_steered_into id db.task_steers u ≡ true =
      any_where_of_In (λ x. accepted_for id x && x.input_task_id == u.id) db.task_steers s m
        (ground (arith, (eq_iff s.target_task_id id).1 own, (eq_iff s.input_task_id u.id).1 of)) in
    ground (arith, found)

pub settles_free :
    (id : String) (db : Db) (u : TaskRow)
    → (u.status ≢ TaskStatus.active) ⊎ ((s : SteerRow) → ¬ WasTaken id db u s)
    → settles id db.task_steers u ≡ false
settles_free id db u (inl h) = ground arith
settles_free id db u (inr h) = elim (Bool-cases (was_steered_into id db.task_steers u)) [
  | inr e ↦ ground (arith, e)
  | inl e ↦
      let (s, m, q) =
        any_where-true (λ x. accepted_for id x && x.input_task_id == u.id) db.task_steers e in
      absurd (
        h s (
          m,
          (eq_iff s.target_task_id id).0 (ground arith),
          (eq_iff s.input_task_id u.id).0 (ground arith),
          taken_state s.state (ground arith),
        ))
]
