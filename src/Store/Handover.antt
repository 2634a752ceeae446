-- ===== src/Store/Handover.antt =====
-- resolveSteer (src/storage/store.ts) starts no task, and a rejected input does not run.
use imgent.Prelude.{
  ◌≡◌, ◌≢◌, refl, String, Bool, false, [], ◌∷◌, arith, eq_iff, Bool-cases, inl, inr, In, set_if,
  In-update_where,
}
use imgent.Store.Rows.{TaskStatus, TaskRow, SteerState, is_running}
use imgent.Store.Db.{Db}
use imgent.Store.Tasks.{has_id, may_transition, transitioned, transition_task, no_fields}
use imgent.Store.Steers.{
  steers_input, Resolution, set_steer_state, withdraw, withdraw_steer, resolve_steer,
}
use imgent.Store.Calm.{Calmer, Calmer-trans, Calmer-update}
use imgent.Store.Starts.{Calmer-transition_task, Calmer-steers, handed_update}

-- The task does not wait for an approval.
abbrev pub IsUnasked : String → Db → Type 0
IsUnasked id db = (t : TaskRow) → In t db.tasks → t.id ≡ id → t.status ≢ TaskStatus.waiting_approval

abbrev requeue : String → Db → Db × Bool
requeue input = transition_task input (TaskStatus.active ∷ []) TaskStatus.queued no_fields

Calmer-withdraw_steer : (input : String) (db : Db) → Calmer db (withdraw_steer input db)
unfolding withdraw_steer
Calmer-withdraw_steer input db = elim (Bool-cases (requeue input db).1) [
  | inr c ↦ rw (c, withdraw_steer) (Calmer-transition_task input _ _ no_fields db refl)
  | inl c ↦
      rw (c, withdraw_steer)
        (Calmer-trans db (requeue input db).0 _ (Calmer-transition_task input _ _ no_fields db refl)
          (Calmer-update (has_id input) withdraw (requeue input db).0 _ refl refl
            λ t h. record { id = refl; execution_key = refl; ran = λ r. r }))
]

steers-withdraw_steer :
    (input : String) (db : Db) → (withdraw_steer input db).task_steers ≡ db.task_steers
unfolding withdraw_steer transition_task
steers-withdraw_steer input db = ground arith

requeued_idle :
    (input : String) (t : TaskRow)
    → t.id ≡ input
    → t.status ≢ TaskStatus.waiting_approval
    → is_running
        (set_if
          (may_transition input (TaskStatus.active ∷ []))
          (transitioned TaskStatus.queued no_fields)
          t).status
      ≡ false
requeued_idle input t own w = ground (arith, eq_iff t.id input)

requeue_idle :
    (input : String) (db : Db)
    → IsUnasked input db
    → (u : TaskRow) → In u (requeue input db).0.tasks
    → u.id ≡ input
    → is_running u.status ≡ false
unfolding transition_task
requeue_idle input db w u m own =
    let (t, n, e) =
      In-update_where (may_transition input (TaskStatus.active ∷ []))
        (transitioned TaskStatus.queued no_fields) db.tasks u m in
    let same : t.id ≡ input = ground arith in rw e (requeued_idle input t same (w t n same))

withdraw_idle :
    (input : String) (db : Db)
    → IsUnasked input db
    → (u : TaskRow) → In u (withdraw_steer input db).tasks
    → u.id ≡ input
    → is_running u.status ≡ false
unfolding withdraw_steer
withdraw_idle input db w u m own = elim (Bool-cases (requeue input db).1) [
  | inr c ↦ requeue_idle input db w u (rw (c, withdraw_steer) at m) own
  | inl c ↦
      let (t, n, e) =
        In-update_where (has_id input) withdraw (requeue input db).0.tasks u
          (rw (c, withdraw_steer) at m) in
      let same : t.id ≡ input = ground arith in
      let idle : is_running t.status ≡ false = requeue_idle input db w t n same in ground arith
]

Calmer-reject :
    (uuid input : String) (db : Db)
    → IsUnasked input db
    → Calmer db (resolve_steer uuid input Resolution.rejected db)
unfolding resolve_steer set_steer_state
Calmer-reject uuid input db w = record {
  source = (Calmer-withdraw_steer input (set_steer_state input SteerState.rejected db)).source;
  rows = (Calmer-withdraw_steer input (set_steer_state input SteerState.rejected db)).rows;
  handed = λ u m r h.
      let idle : u.id ≢ input =
        λ own. cc (withdraw_idle input (set_steer_state input SteerState.rejected db) w u m own) in
      rw (steers-withdraw_steer input (set_steer_state input SteerState.rejected db)) (
        handed_update u.id (steers_input input) (λ s. record s { state = SteerState.rejected })
          db.task_steers
          (λ s p q. ground (arith, eq_iff s.input_task_id input, eq_iff s.input_task_id u.id)) h);
}

-- Rejecting needs that the input does not wait for an approval.
pub Calmer-resolve_steer :
    (uuid input : String) (r : Resolution) (db : Db)
    → (r ≡ Resolution.rejected → IsUnasked input db)
    → Calmer db (resolve_steer uuid input r db)
unfolding resolve_steer set_steer_state
Calmer-resolve_steer uuid input Resolution.accepted db w =
    Calmer-steers (steers_input input) (λ s. record s { state = SteerState.accepted }) db _ refl
      refl λ id s q h. ground arith
Calmer-resolve_steer uuid input Resolution.rejected db w = Calmer-reject uuid input db (w refl)
Calmer-resolve_steer uuid input Resolution.uncertain db w =
    Calmer-trans db (set_steer_state input SteerState.uncertain db) _
      (Calmer-steers (steers_input input) (λ s. record s { state = SteerState.uncertain }) db _ refl
        refl λ id s q h. ground arith)
      (Calmer-transition_task input _ _ _ _ refl)
