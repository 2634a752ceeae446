-- ===== src/Approvals/Creation.antt =====
-- What create (src/approvals/service.ts) comes to.
use imgent.Prelude.{
  ℕ, ◌≡◌, ◌≢◌, String, Option, none, some, Bool, [], ◌∷◌, In, find_where, count_where,
}
use imgent.Errors.Codes.{task_execution_failed}
use imgent.Messaging.{OutboundMessage}
use imgent.Store.Rows.{TaskStatus, TaskRow, ApprovalRow, OutboundRow}
use imgent.Store.Directory.{PrincipalRow}
use imgent.Store.Db.{Db, Result, coded, constraint, ok, err}
use imgent.Store.Tasks.{may_transition}
use imgent.Approvals.{ApprovalRequest, has_request, approval_row}
use imgent.Outbound.Keys.{find_key}
use imgent.Approvals.Outcomes.{waiting}

-- The tasks that may ask: active, with the id.
abbrev pub may_ask : String → TaskRow → Bool
may_ask task_id = may_transition task_id (TaskStatus.active ∷ [])

-- The message that puts the question, where there is one, is queued under its key.
abbrev pub IsAsked : Option OutboundMessage → Db → Type 0
IsAsked none after = Unit
IsAsked (some m) after = (o : OutboundRow) × (find_key m.idempotency_key after ≡ some o)

-- What create answers and leaves.
pub data Created (now : ℕ) (task_id key principal : String) (r : ApprovalRequest)
    (outbound : Option OutboundMessage) (db : Db) : Result {0} Unit → Db → Type 0 where
  known :
      (a : ApprovalRow)
      → In a db.approvals
      → a.request_id ≡ r.request_id
      → Created now task_id key principal r outbound db (err constraint) db
  no_task :
      ((t : TaskRow) → In t db.tasks → t.id ≢ task_id)
      → Created now task_id key principal r outbound db (err constraint) db
  no_principal :
      ((p : PrincipalRow) → In p db.principals → p.id ≢ principal)
      → Created now task_id key principal r outbound db (err constraint) db
  unasked :
      ((a : ApprovalRow) → In a db.approvals → a.request_id ≢ r.request_id)
      → count_where (may_ask task_id) db.tasks ≢ 1
      → Created now task_id key principal r outbound db (err (coded task_execution_failed)) db
  asked :
      (after : Db) (t u : TaskRow) (p : PrincipalRow)
      → In p db.principals
      → p.id ≡ principal
      → find_where (has_request r.request_id) after.approvals
        ≡ some (approval_row now task_id key principal r)
      → In t db.tasks
      → t.id ≡ task_id
      → t.status ≡ TaskStatus.active
      → In u after.tasks
      → u.id ≡ task_id
      → u.status ≡ TaskStatus.waiting_approval
      → IsAsked outbound after
      → Created now task_id key principal r outbound db (ok tt) after

module _ (now : ℕ) (out_id task_id key principal : String) (r : ApprovalRequest)
    (outbound : Option OutboundMessage) (db : Db) where
  after : Db
  after = (waiting now out_id task_id key principal r outbound db).0
