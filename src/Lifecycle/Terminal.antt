-- ===== src/Lifecycle/Terminal.antt =====
-- Over every execution, a task that has come to an end keeps its end.
use imgent.Prelude.{refl, List, [], ◌∷◌}
use imgent.Store.Db.{Db}
use imgent.Store.Kept.{Kept, Kept-refl, Kept-trans}
use imgent.Store.Ends.{
  Kept-claim_next_task, Kept-cancel_conversation, Kept-recover_after_restart, Kept-mark_dangerous,
  Kept-begin_steer, Kept-resolve_steer, KeepsEnds, Kept-Laws,
}
use imgent.Lifecycle.Routine.{routine_step}
use imgent.Lifecycle.{
  Call, claims, cancels_conversation, begins_steer, resolves_steer, marks_dangerous, recovers, step,
  run,
}

Kept-step : (db : Db) (c : Call) → KeepsEnds db (step db c)
unfolding step
Kept-step db (claims now) = Kept-claim_next_task now db
Kept-step db (cancels_conversation key principal) = Kept-cancel_conversation key principal db
Kept-step db (begins_steer now input target) = Kept-begin_steer now input target db
Kept-step db (resolves_steer uuid input r) = Kept-resolve_steer uuid input r db
Kept-step db (marks_dangerous id) = Kept-mark_dangerous id db
Kept-step db (recovers now uuid uuid') = Kept-recover_after_restart now uuid uuid' db
Kept-step db c = routine_step KeepsEnds Kept-Laws db c refl

-- Once a task has succeeded, failed, been cancelled or been buried, no sequence of calls of the
-- service changes its status, its reply or its error, and the task stays in the store.
pub run-Kept : (db : Db) (calls : List Call) → Kept db.tasks (run db calls).tasks
unfolding run
run-Kept db [] = Kept-refl db.tasks
run-Kept db (c ∷ cs) = Kept-trans db.tasks _ _ (Kept-step db c) (run-Kept (step db c) cs)
