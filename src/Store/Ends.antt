-- ===== src/Store/Ends.antt =====
-- The operations of src/storage/store.ts leave the end of a task as it is.
use imgent.Prelude.{
  ℕ, refl, sym, subst, String, Bool, [], ◌∷◌, arith, Bool-cases, Option-cases, inl, inr,
}
use imgent.Store.Rows.{TaskStatus, SteerState, is_open}
use imgent.Store.Db.{Db}
use imgent.Store.Tasks.{
  StoredTask, task, has_id, next_claim, claimed, claim_next_task, transition_task, cancelled,
  cancel_conversation, waits_in, no_fields,
}
use imgent.Store.Steers.{
  mark_dangerous_side_effect, submit_steer, begin_steer, withdraw_steer, set_steer_state,
  Resolution, resolve_steer, settle_with, settle_steered_inputs, settles, withdraw, may_steer_found,
}
use imgent.Store.Recovery.{recover_after_restart, may_replay, must_not_replay}
use imgent.Store.Laws.{Laws}
use imgent.Store.Kept.{Kept, Kept-refl, Kept-trans, Kept-update_where, Kept-transition_task}
use imgent.Store.Frame.{SameWork}

pub Kept-SameWork : (db after : Db) → SameWork db after → Kept db.tasks after.tasks
Kept-SameWork db after s = subst (Kept db.tasks) (sym s.tasks) (Kept-refl db.tasks)

pub Kept-claim_next_task : (now : ℕ) (db : Db) → Kept db.tasks (claim_next_task now db).0.tasks
unfolding claim_next_task
Kept-claim_next_task now db = elim (Option-cases (next_claim now db.tasks)) [
  | inl e ↦ rw (e, claim_next_task) (Kept-refl db.tasks)
  | inr (r, e) ↦
      rw (e, claim_next_task)
        (Kept-update_where _ claimed db.tasks (λ j t. refl) λ t h o. absurd (ground arith))
]

pub Kept-cancel_conversation :
    (key principal : String) (db : Db)
    → Kept db.tasks (cancel_conversation key principal db).0.tasks
unfolding cancel_conversation
Kept-cancel_conversation key principal db =
    Kept-update_where (waits_in key principal) cancelled db.tasks (λ j t. refl)
      λ t h o. absurd (ground arith)

pub Kept-recover_after_restart :
    (now : ℕ) (uuid uuid' : String) (db : Db)
    → Kept db.tasks (recover_after_restart now uuid uuid' db).0.tasks
unfolding recover_after_restart
Kept-recover_after_restart now uuid uuid' db =
    Kept-trans db.tasks _ _
      (Kept-update_where may_replay _ db.tasks (λ j t. refl) λ t h o. absurd (ground arith))
      (Kept-update_where must_not_replay _ _ (λ j t. refl) λ t h o. absurd (ground arith))

pub Kept-mark_dangerous :
    (id : String) (db : Db) → Kept db.tasks (mark_dangerous_side_effect id db).tasks
unfolding mark_dangerous_side_effect
Kept-mark_dangerous id db =
    Kept-update_where (has_id id) _ db.tasks (λ j t. refl)
      λ t h o. record { status = refl; final_text = refl; error = refl }

Kept-submit_steer :
    (now : ℕ) (input target : String) (db : Db)
    → Kept db.tasks (submit_steer now input target db).tasks
unfolding submit_steer
Kept-submit_steer now input target db =
    Kept-trans db.tasks _ _
      (Kept-update_where (has_id input) _ db.tasks (λ j t. refl)
        λ t h o. record { status = refl; final_text = refl; error = refl })
      (Kept-trans _ _ _ (Kept-mark_dangerous input _) (Kept-mark_dangerous target _))

abbrev start_input : String → Db → Db × Bool
start_input input = transition_task input (TaskStatus.queued ∷ []) TaskStatus.active no_fields

Kept-start_input : (input : String) (db : Db) → Kept db.tasks (start_input input db).0.tasks
Kept-start_input input db = Kept-transition_task input _ _ _ db refl

pub Kept-begin_steer :
    (now : ℕ) (input target : String) (db : Db)
    → Kept db.tasks (begin_steer now input target db).0.tasks
unfolding begin_steer
Kept-begin_steer now input target db =
    elim (Bool-cases (may_steer_found (task input db) (task target db))) [
      | inr e ↦ rw (e, begin_steer) (Kept-refl db.tasks)
      | inl e ↦ elim (Bool-cases (start_input input db).1) [
        | inr c ↦ rw (e, c, begin_steer) (Kept-start_input input db)
        | inl c ↦
            rw (e, c, begin_steer)
              (Kept-trans db.tasks _ _ (Kept-start_input input db)
                (Kept-submit_steer now input target (start_input input db).0))
      ]
    ]

abbrev requeue_input : String → Db → Db × Bool
requeue_input input = transition_task input (TaskStatus.active ∷ []) TaskStatus.queued no_fields

Kept-withdraw_steer : (input : String) (db : Db) → Kept db.tasks (withdraw_steer input db).tasks
unfolding withdraw_steer
Kept-withdraw_steer input db = elim (Bool-cases (requeue_input input db).1) [
  | inr c ↦ rw (c, withdraw_steer) requeued
  | inl c ↦
      rw (c, withdraw_steer)
        (Kept-trans db.tasks _ _ requeued (
          Kept-update_where (has_id input) withdraw _ (λ j t. refl)
            λ t h o. record { status = refl; final_text = refl; error = refl }))
]
  where
    requeued : Kept db.tasks (requeue_input input db).0.tasks
    requeued = Kept-transition_task input _ _ _ db refl

pub Kept-resolve_steer :
    (uuid input : String) (r : Resolution) (db : Db)
    → Kept db.tasks (resolve_steer uuid input r db).tasks
unfolding resolve_steer set_steer_state
Kept-resolve_steer uuid input Resolution.accepted db = Kept-refl db.tasks
Kept-resolve_steer uuid input Resolution.rejected db =
    Kept-withdraw_steer input (set_steer_state input SteerState.rejected db)
Kept-resolve_steer uuid input Resolution.uncertain db =
    Kept-transition_task input _ _ _ (set_steer_state input SteerState.uncertain db) refl

Kept-settle_with :
    (id : String) (target : StoredTask) (db : Db) → Kept db.tasks (settle_with id target db).tasks
unfolding settle_with
Kept-settle_with id target db = elim (Bool-cases (is_open target.status)) [
  | inl e ↦ rw (e, settle_with) (Kept-refl db.tasks)
  | inr e ↦
      rw (e, settle_with)
        (Kept-update_where (settles id db.task_steers) _ db.tasks (λ j t. refl)
          λ t h o. absurd (ground arith))
]

pub Kept-settle_steered_inputs :
    (id : String) (db : Db) → Kept db.tasks (settle_steered_inputs id db).tasks
unfolding settle_steered_inputs
Kept-settle_steered_inputs id db = elim (Option-cases (task id db)) [
  | inl e ↦ rw (e, settle_steered_inputs) (Kept-refl db.tasks)
  | inr (t, e) ↦ rw (e, settle_steered_inputs) (Kept-settle_with id t db)
]

-- To keep the end of a task is a relation that obeys the laws of the store.
abbrev pub KeepsEnds : Db → Db → Type 0
KeepsEnds db after = Kept db.tasks after.tasks

pub Kept-Laws : Laws KeepsEnds
Kept-Laws = record {
  refl = λ db. Kept-refl db.tasks;
  trans = λ a b c. Kept-trans a.tasks b.tasks c.tasks;
  same = Kept-SameWork;
  transition = λ id from to fields db h. Kept-transition_task id from to fields db (ground arith);
  settles = Kept-settle_steered_inputs;
}
