-- ===== src/Store/Starts.antt =====
-- Which operations of src/storage/store.ts start no task.
use imgent.Prelude.{
  ℕ, ◌≡◌, refl, ap, String, Bool, true, List, [], ◌∷◌, arith, Bool-cases, Option-cases, inl, inr,
  any_where, update_where, count_where,
}
use imgent.Store.Rows.{TaskStatus, SteerState, SteerRow, is_running, is_open}
use imgent.Store.Db.{Db}
use imgent.Store.Tasks.{
  StoredTask, task, is_one_of, may_transition, transitioned, TransitionFields, transition_task,
  waits_in, cancelled, cancel_conversation, has_id,
}
use imgent.Store.Steers.{settles, settle_with, settle_steered_inputs, mark_dangerous_side_effect}
use imgent.Store.Recovery.{
  is_submitting, may_replay, must_not_replay, requeue, bury, recovery_error, unsafe_error,
  requeued_tasks, recover_after_restart,
}
use imgent.Store.Laws.{Laws, is_permitted, all_running}
use imgent.Store.Calm.{
  hands_over, is_handed, Calmer, Calmer-refl, Calmer-trans, Calmer-SameWork, Calmer-update,
}

running_of_one :
    (from : List TaskStatus) (s : TaskStatus)
    → all_running from ≡ true
    → is_one_of from s ≡ true
    → is_running s ≡ true
running_of_one [] s a h = cc
running_of_one (f ∷ from) s a h = ground (arith, running_of_one from s (ground arith))

pub Calmer-transition_task :
    (id : String) (from : List TaskStatus) (to : TaskStatus) (fields : TransitionFields) (db : Db)
    → is_permitted from to ≡ true
    → Calmer db (transition_task id from to fields db).0
unfolding transition_task
Calmer-transition_task id from to fields db a =
    Calmer-update (may_transition id from) (transitioned to fields) db _ refl refl λ t h. record {
      id = refl;
      execution_key = refl;
      ran = λ r. ground (arith, running_of_one from t.status);
    }

Calmer-settle_with :
    (id : String) (target : StoredTask) (db : Db) → Calmer db (settle_with id target db)
unfolding settle_with
Calmer-settle_with id target db = elim (Bool-cases (is_open target.status)) [
  | inl e ↦ rw (e, settle_with) (Calmer-refl db)
  | inr e ↦
      rw (e, settle_with)
        (Calmer-update (settles id db.task_steers)
          (λ t. record t { status = target.status; error = target.error }) db _ refl refl
          λ t h. record { id = refl; execution_key = refl; ran = λ r. ground arith })
]

Calmer-settle : (id : String) (db : Db) → Calmer db (settle_steered_inputs id db)
unfolding settle_steered_inputs
Calmer-settle id db = elim (Option-cases (task id db)) [
  | inl e ↦ rw (e, settle_steered_inputs) (Calmer-refl db)
  | inr (t, e) ↦ rw (e, settle_steered_inputs) (Calmer-settle_with id t db)
]

pub Calmer-Laws : Laws Calmer
Calmer-Laws = record {
  refl = Calmer-refl;
  trans = Calmer-trans;
  same = Calmer-SameWork;
  transition = Calmer-transition_task;
  settles = Calmer-settle;
}

pub Calmer-cancel_conversation :
    (key principal : String) (db : Db) → Calmer db (cancel_conversation key principal db).0
unfolding cancel_conversation
Calmer-cancel_conversation key principal db =
    Calmer-update (waits_in key principal) cancelled db _ refl refl
      λ t h. record { id = refl; execution_key = refl; ran = λ r. cc }

pub Calmer-mark_dangerous : (id : String) (db : Db) → Calmer db (mark_dangerous_side_effect id db)
unfolding mark_dangerous_side_effect
Calmer-mark_dangerous id db =
    Calmer-update (has_id id) (λ t. record t { dangerous_side_effect_started = true }) db _ refl
      refl λ t h. record { id = refl; execution_key = refl; ran = λ r. r }

-- An UPDATE of steers that hands nothing back.
pub handed_update :
    (id : String) (p : SteerRow → Bool) (g : SteerRow → SteerRow) (steers : List SteerRow)
    → ((s : SteerRow) → p s ≡ true → hands_over id s ≡ true → hands_over id (g s) ≡ true)
    → is_handed id steers ≡ true
    → is_handed id (update_where p g steers) ≡ true
unfolding any_where update_where
handed_update id p g [] h k = cc
handed_update id p g (s ∷ steers) h k = elim (Bool-cases (hands_over id s)) [
  | inl e ↦ elim (Bool-cases (p s)) [ inl q ↦ ground (arith, h s q e) | inr q ↦ ground arith ]
  | inr e ↦ ground (arith, handed_update id p g steers h (ground arith))
]

pub Calmer-steers :
    (p : SteerRow → Bool) (g : SteerRow → SteerRow) (db after : Db)
    → after.tasks ≡ db.tasks
    → after.task_steers ≡ update_where p g db.task_steers
    → ((id : String) (s : SteerRow)
        → p s ≡ true
        → hands_over id s ≡ true
        → hands_over id (g s) ≡ true)
    → Calmer db after
Calmer-steers p g db after same steers h = record {
  source = λ u m. (u, rw (← same) m, record { id = refl; execution_key = refl; ran = λ r. r });
  rows = λ id. ap (count_where (has_id id)) same;
  handed = λ u m r k. rw steers (handed_update u.id p g db.task_steers (h u.id) k);
}

abbrev requeued_db : ℕ → String → Db → Db
requeued_db now uuid db = record db { tasks = requeued_tasks now uuid db }

abbrev buried_db : ℕ → String → String → Db → Db
buried_db now uuid uuid' db = record db {
  tasks = update_where must_not_replay (bury (unsafe_error uuid')) (requeued_tasks now uuid db);
}

pub Calmer-recover :
    (now : ℕ) (uuid uuid' : String) (db : Db)
    → Calmer db (recover_after_restart now uuid uuid' db).0
unfolding recover_after_restart
Calmer-recover now uuid uuid' db =
    Calmer-trans db (requeued_db now uuid db) _
      (Calmer-update may_replay (requeue now (recovery_error uuid)) db (requeued_db now uuid db)
        refl refl λ t h. record { id = refl; execution_key = refl; ran = λ r. cc })
      (Calmer-trans (requeued_db now uuid db) (buried_db now uuid uuid' db) _
        (Calmer-update must_not_replay (bury (unsafe_error uuid')) (requeued_db now uuid db)
          (buried_db now uuid uuid' db) refl refl
          λ t h. record { id = refl; execution_key = refl; ran = λ r. cc })
        (Calmer-steers is_submitting (λ s. record s { state = SteerState.uncertain })
          (buried_db now uuid uuid' db) _ refl refl λ id s q h. ground arith))
