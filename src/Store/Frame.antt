-- ===== src/Store/Frame.antt =====
-- The tables that the operations of src/storage/store.ts leave alone.
use imgent.Prelude.{ℕ, ◌≡◌, refl, String, Option, List, arith}
use imgent.Errors.Normalize.{Thrown}
use imgent.Messaging.{OutboundMessage}
use imgent.Store.Rows.{TaskStatus}
use imgent.Store.Db.{Db}
use imgent.Store.Tasks.{TransitionFields, transition_task}
use imgent.Store.Outbox.{enqueue_outbound, add_dead_letter, enqueue_memory_outbox}
use imgent.Store.Steers.{mark_dangerous_side_effect, settle_with, settle_steered_inputs}

-- Tasks and steers are as they were.
pub record SameWork (db after : Db) : Type 0 where
  pub tasks : after.tasks ≡ db.tasks
  pub task_steers : after.task_steers ≡ db.task_steers

pub SameWork-enqueue_outbound :
    (now : ℕ) (id : String) (m : OutboundMessage) (task_id : Option String) (db : Db)
    → SameWork db (enqueue_outbound now id m task_id db).0
unfolding enqueue_outbound
SameWork-enqueue_outbound now id m task_id db = ground arith

pub SameWork-add_dead_letter :
    (now : ℕ) (id uuid category : String) (e : Thrown) (bot reference : Option String) (db : Db)
    → SameWork db (add_dead_letter now id uuid category e bot reference db)
unfolding add_dead_letter
SameWork-add_dead_letter now id uuid category e bot reference db = ground arith

pub SameWork-enqueue_memory_outbox :
    (now : ℕ) (id task_id : String) (db : Db)
    → SameWork db (enqueue_memory_outbox now id task_id db)
unfolding enqueue_memory_outbox
SameWork-enqueue_memory_outbox now id task_id db = ground arith

pub task_steers-transition_task :
    (id : String) (from : List TaskStatus) (to : TaskStatus) (fields : TransitionFields) (db : Db)
    → (transition_task id from to fields db).0.task_steers ≡ db.task_steers
unfolding transition_task
task_steers-transition_task id from to fields db = refl

pub task_steers-settle :
    (id : String) (db : Db) → (settle_steered_inputs id db).task_steers ≡ db.task_steers
unfolding settle_steered_inputs settle_with
task_steers-settle id db = ground arith

pub task_steers-mark :
    (id : String) (db : Db) → (mark_dangerous_side_effect id db).task_steers ≡ db.task_steers
unfolding mark_dangerous_side_effect
task_steers-mark id db = refl
