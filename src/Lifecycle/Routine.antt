-- ===== src/Lifecycle/Routine.antt =====
-- The calls of an execution that start no task obey every relation that obeys the laws of the store.
use imgent.Prelude.{◌≡◌, refl, Bool, true, false}
use imgent.Store.Db.{Db}
use imgent.Store.Frame.{SameWork-enqueue_outbound, SameWork-add_dead_letter}
use imgent.Store.Laws.{Laws, complete_task_lem, complete_task_with_outbound_lem}
use imgent.Outbound.{open_dispatcher}
use imgent.Lifecycle.Frame.{
  create_lem, decide_lem, expire_pending_lem, finish_with_error_lem, handle_driver_error_lem,
  SameWork-begin_dispatch, SameWork-finish_dispatch,
}
use imgent.Lifecycle.{
  Call, claims, cancels_turn, cancels_conversation, completes, completes_with, begins_steer,
  resolves_steer, settles, marks_dangerous, recovers, asks, answers, expires, fails, aborts,
  enqueues, buries, opens_dispatcher, begins_dispatch, ends_dispatch, ending_status, ending_idle,
  cancel_turn, step,
}

-- The calls that are transitions, or leave tasks and steers alone.
abbrev pub is_routine : Call → Bool
is_routine (claims now) = false
is_routine (cancels_conversation key principal) = false
is_routine (begins_steer now input target) = false
is_routine (resolves_steer uuid input r) = false
is_routine (marks_dangerous id) = false
is_routine (recovers now uuid uuid') = false
is_routine _ = true

pub routine_step :
    (R : Db → Db → Type 0) (laws : Laws R) (db : Db) (c : Call)
    → is_routine c ≡ true
    → R db (step db c)
unfolding step cancel_turn open_dispatcher
routine_step R laws db (cancels_turn id) h = laws.transition id _ _ _ db refl
routine_step R laws db (completes now cid id text curate) h =
    complete_task_lem R laws now cid id text curate db
routine_step R laws db (completes_with now cid oid id text curate m) h =
    complete_task_with_outbound_lem R laws now cid oid id text curate m db
routine_step R laws db (settles id) h = laws.settles id db
routine_step R laws db (asks now oid task_id key principal r m) h =
    create_lem R laws now oid task_id key principal r m db
routine_step R laws db (answers now uuid request principal reply key) h =
    decide_lem R laws now uuid request principal reply key db
routine_step R laws db (expires now uuid) h = expire_pending_lem R laws now uuid db
routine_step R laws db (fails texts now draws t d) h =
    handle_driver_error_lem R laws texts now draws t d db
routine_step R laws db (aborts texts now oid t d end) h =
    finish_with_error_lem R laws texts now oid t d (ending_status end) db (ending_idle end)
routine_step R laws db (enqueues now id m task_id) h =
    laws.same db _ (SameWork-enqueue_outbound now id m task_id db)
routine_step R laws db (buries now id uuid category e bot reference) h =
    laws.same db _ (SameWork-add_dead_letter now id uuid category e bot reference db)
routine_step R laws db (opens_dispatcher now) h =
    laws.same db _ (record { tasks = refl; task_steers = refl })
routine_step R laws db (begins_dispatch id) h = laws.same db _ (SameWork-begin_dispatch id db)
routine_step R laws db (ends_dispatch now draws row o) h =
    laws.same db _ (SameWork-finish_dispatch now draws row o db)
routine_step R laws db (claims now) h = cc
routine_step R laws db (cancels_conversation key principal) h = cc
routine_step R laws db (begins_steer now input target) h = cc
routine_step R laws db (resolves_steer uuid input r) h = cc
routine_step R laws db (marks_dangerous id) h = cc
routine_step R laws db (recovers now uuid uuid') h = cc
