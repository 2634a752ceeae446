-- ===== src/Lifecycle.antt =====
-- The calls that the service makes on its database while it runs, as one type, with their effect:
-- src/storage/store.ts, src/approvals/service.ts, src/runtime/outbound.ts and the database side of
-- src/queue/scheduler.ts. An execution is a list of calls, in the order in which SQLite takes them.
pub mod Frame
pub mod Routine
pub mod Terminal
pub mod Turns
use imgent.Prelude.{ℕ, ◌≡◌, refl, false, String, Option, Bool, List, [], ◌∷◌}
use imgent.Errors.Descriptor.{ErrorDescriptor}
use imgent.Errors.Normalize.{Thrown}
use imgent.Messaging.{OutboundMessage}
use imgent.Store.Rows.{TaskStatus, OutboundRow, AgentRequestAnswer, is_running}
use imgent.Store.Db.{Db}
use imgent.Store.Tasks.{
  StoredTask, claim_next_task, transition_task, cancel_conversation, no_fields,
}
use imgent.Store.Outbox.{enqueue_outbound, add_dead_letter, enqueue_memory_outbox}
use imgent.Store.Steers.{
  mark_dangerous_side_effect, begin_steer, Resolution, resolve_steer, settle_steered_inputs,
  complete_task, complete_task_with_outbound,
}
use imgent.Store.Recovery.{recover_after_restart}
use imgent.Approvals.{ApprovalRequest, create, decide}
use imgent.Approvals.Expiry.{expire_pending}
use imgent.Outbound.{Draws, Outcome, open_dispatcher, begin_dispatch, finish_dispatch}
use imgent.Scheduler.{Texts, FailureDraws, finish_with_error, handle_driver_error}

-- Extract<TaskStatus, "failed" | "dead_letter">
pub data Ending : Type 0 where
  failed dead_letter : Ending

abbrev pub ending_status : Ending → TaskStatus
ending_status Ending.failed = TaskStatus.failed
ending_status Ending.dead_letter = TaskStatus.dead_letter

pub ending_idle : (e : Ending) → is_running (ending_status e) ≡ false
ending_idle Ending.failed = refl
ending_idle Ending.dead_letter = refl

pub data Call : Type 0 where
  claims : ℕ → Call
  cancels_turn : String → Call
  cancels_conversation : String → String → Call
  completes : ℕ → String → String → String → Bool → Call
  completes_with : ℕ → String → String → String → String → Bool → OutboundMessage → Call
  begins_steer : ℕ → String → String → Call
  resolves_steer : String → String → Resolution → Call
  settles : String → Call
  marks_dangerous : String → Call
  recovers : ℕ → String → String → Call
  asks : ℕ → String → String → String → String → ApprovalRequest → Option OutboundMessage → Call
  answers : ℕ → String → String → String → AgentRequestAnswer → Option String → Call
  expires : ℕ → (String → String) → Call
  fails : Texts → ℕ → FailureDraws → StoredTask → ErrorDescriptor → Call
  aborts : Texts → ℕ → String → StoredTask → ErrorDescriptor → Ending → Call
  enqueues : ℕ → String → OutboundMessage → Option String → Call
  buries : ℕ → String → String → String → Thrown → Option String → Option String → Call
  opens_dispatcher : ℕ → Call
  begins_dispatch : String → Call
  ends_dispatch : ℕ → Draws → OutboundRow → Outcome → Call

-- transitionTask(task.id, ["active", "waiting_approval"], "cancelled"), when the driver reports
-- that the turn was cancelled
unfoldable pub cancel_turn : String → Db → Db
cancel_turn id db =
    (transition_task id (TaskStatus.active ∷ TaskStatus.waiting_approval ∷ []) TaskStatus.cancelled
      no_fields db).0

unfoldable pub step : Db → Call → Db
step db (claims now) = (claim_next_task now db).0
step db (cancels_turn id) = cancel_turn id db
step db (cancels_conversation key principal) = (cancel_conversation key principal db).0
step db (completes now cid id text curate) = (complete_task now cid id text curate db).0
step db (completes_with now cid oid id text curate m) =
    (complete_task_with_outbound now cid oid id text curate m db).0
step db (begins_steer now input target) = (begin_steer now input target db).0
step db (resolves_steer uuid input r) = resolve_steer uuid input r db
step db (settles id) = settle_steered_inputs id db
step db (marks_dangerous id) = mark_dangerous_side_effect id db
step db (recovers now uuid uuid') = (recover_after_restart now uuid uuid' db).0
step db (asks now oid task_id key principal r m) = (create now oid task_id key principal r m db).1
step db (answers now uuid request principal reply key) =
    (decide now uuid request principal reply key db).1
step db (expires now uuid) = (expire_pending now uuid db).0
step db (fails texts now draws t d) = handle_driver_error texts now draws t d db
step db (aborts texts now oid t d end) = finish_with_error texts now oid t d (ending_status end) db
step db (enqueues now id m task_id) = (enqueue_outbound now id m task_id db).0
step db (buries now id uuid category e bot reference) =
    add_dead_letter now id uuid category e bot reference db
step db (opens_dispatcher now) = open_dispatcher now db
step db (begins_dispatch id) = (begin_dispatch id db).0
step db (ends_dispatch now draws row outcome) = finish_dispatch now draws row outcome db

unfoldable pub run : Db → List Call → Db
run db [] = db
run db (c ∷ cs) = run (step db c) cs
