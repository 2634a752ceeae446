-- ===== src/Approvals.antt =====
-- src/approvals/service.ts: questions to the user that a turn waits for.
pub mod Expiry
pub mod Outcomes
pub mod Creation
pub mod Once
pub mod Decisions
pub mod Answers
use imgent.Prelude.{
  ℕ, ◌+◌, String, Option, none, some, Bool, true, false, not, ◌&&◌, ◌||◌, ◌==◌, List, [], ◌∷◌, ◌++◌,
  leb, if◌then◌else◌, or_value, length, find_where, any_where, filter_where, update_where,
}
use imgent.Errors.Codes.{
  ErrorCode, task_execution_failed, approval_not_found, approval_forbidden, approval_expired,
}
use imgent.Errors.Descriptor.{ErrorDescriptor, no_options, new_error}
use imgent.Messaging.{OutboundMessage}
use imgent.Store.Rows.{
  TaskStatus, TaskRow, Risk, ApprovalStatus, AgentRequestAnswer, allow, deny, answer, ApprovalRow,
  status_beq,
}
use imgent.Store.Directory.{PrincipalRow}
use imgent.Store.Db.{
  Db, Failure, coded, constraint, Result, ok, err, Exec, pure, throw, run, gets, state, guard,
  ◌>>=◌, ◌>>◌, transaction,
}
use imgent.Store.Tasks.{no_fields, with_error, transition_task}
use imgent.Store.Outbox.{enqueue_outbound}

-- ApprovalRequest; the sanitised input is its JSON text.
pub record ApprovalRequest : Type 0 where
  pub request_id : String
  pub tool_name : String
  pub sanitized_input : String
  pub risk : Risk
  pub expires_at : ℕ

pub record ApprovalDecision : Type 0 where
  pub request_id : String
  pub status : ApprovalStatus
  pub task_id : String
  pub reply : AgentRequestAnswer
  pub changed : Bool

pub record ApprovalInspection : Type 0 where
  pub request_id : String
  pub status : ApprovalStatus
  pub task_id : String
  pub reply : AgentRequestAnswer
  pub is_expired : Bool

abbrev pub has_request : String → ApprovalRow → Bool
has_request id a = a.request_id == id

abbrev pub is_pending : ApprovalStatus → Bool
is_pending ApprovalStatus.pending = true
is_pending _ = false

abbrev pub approval_row : ℕ → String → String → String → ApprovalRequest → ApprovalRow
approval_row now task_id conversation_key principal_id r = record {
  request_id = r.request_id;
  task_id = task_id;
  conversation_key = conversation_key;
  principal_id = principal_id;
  tool_name = r.tool_name;
  sanitized_input = r.sanitized_input;
  risk = r.risk;
  status = ApprovalStatus.pending;
  created_at = now;
  expires_at = r.expires_at;
  decided_at = none;
  decision = none;
}

abbrev pub add_approval : ApprovalRow → Db → Db
add_approval a db = record db { approvals = db.approvals ++ a ∷ [] }

abbrev pub enqueue_if_given : ℕ → String → String → Option OutboundMessage → Db → Db
enqueue_if_given now id task_id none db = db
enqueue_if_given now id task_id (some m) db = (enqueue_outbound now id m (some task_id) db).0

abbrev pub has_task_id : String → TaskRow → Bool
has_task_id id t = t.id == id

abbrev pub has_principal_id : String → PrincipalRow → Bool
has_principal_id id p = p.id == id

-- What the table's keys ask of a new row: its request id is new, its task and its principal exist.
abbrev pub fits : String → String → String → Db → Bool
fits request_id task_id principal_id db =
    not (any_where (has_request request_id) db.approvals)
    && (any_where (has_task_id task_id) db.tasks
        && any_where (has_principal_id principal_id) db.principals)

-- The statements of ApprovalService.create. The INSERT fails where the row does not fit.
unfoldable pub create_statements :
    ℕ → String → String → String → String → ApprovalRequest → Option OutboundMessage → Exec Unit
create_statements now out_id task_id conversation_key principal_id r outbound = do
  fitting ← gets (fits r.request_id task_id principal_id)
  guard fitting constraint
  run (add_approval (approval_row now task_id conversation_key principal_id r))
  waiting ←
      state (transition_task task_id (TaskStatus.active ∷ []) TaskStatus.waiting_approval no_fields)
  guard waiting (coded task_execution_failed)
  run (enqueue_if_given now out_id task_id outbound)

-- ApprovalService.create
unfoldable pub create :
    ℕ → String → String → String → String → ApprovalRequest → Option OutboundMessage → Exec Unit
create now out_id task_id conversation_key principal_id r outbound =
    transaction (create_statements now out_id task_id conversation_key principal_id r outbound)

-- conversationKey && approval.conversation_key !== conversationKey
abbrev pub is_elsewhere : Option String → ApprovalRow → Bool
is_elsewhere none a = false
is_elsewhere (some key) a = not (key == "") && not (a.conversation_key == key)

abbrev pub is_forbidden : String → Option String → ApprovalRow → Bool
is_forbidden principal key a = not (a.principal_id == principal) || is_elsewhere key a

abbrev pub has_expired : ℕ → ApprovalRow → Bool
has_expired now a = leb a.expires_at now

abbrev pub answered_status : AgentRequestAnswer → ApprovalStatus
answered_status (deny remember) = ApprovalStatus.denied
answered_status _ = ApprovalStatus.allowed

abbrev pub decided_status : ℕ → AgentRequestAnswer → ApprovalRow → ApprovalStatus
decided_status now reply a =
    if has_expired now a then ApprovalStatus.expired else answered_status reply

abbrev pub expiry_error : String → ErrorDescriptor
expiry_error uuid = (new_error approval_expired no_options uuid).descriptor

abbrev pub decides : String → ApprovalRow → Bool
decides request_id a = has_request request_id a && is_pending a.status

abbrev pub set_decision : ℕ → String → ApprovalStatus → AgentRequestAnswer → Db → Db
set_decision now request_id status reply db = record db {
  approvals =
      update_where (decides request_id)
        (λ a. record a { status = status; decided_at = some now; decision = some reply })
        db.approvals;
}

-- The task goes on after an answer, and fails after the deadline.
abbrev pub resume : String → String → Bool → Db → Db
resume uuid task_id expired db =
    (if expired
      then transition_task task_id (TaskStatus.waiting_approval ∷ []) TaskStatus.failed
          (with_error (expiry_error uuid)) db
      else transition_task task_id (TaskStatus.waiting_approval ∷ []) TaskStatus.active no_fields
          db).0

-- What `decide` writes for an approval that is pending.
unfoldable pub settle_approval :
    ℕ → String → String → AgentRequestAnswer → ApprovalRow → Db → Db × ApprovalDecision
settle_approval now uuid request_id reply a db =
    let status = decided_status now reply a in
    (
      resume uuid a.task_id (has_expired now a) (set_decision now request_id status reply db),
      record {
        request_id = request_id;
        status = status;
        task_id = a.task_id;
        reply = reply;
        changed = true;
      },
    )

abbrev pub earlier_decision : String → AgentRequestAnswer → ApprovalRow → ApprovalDecision
earlier_decision request_id reply a = record {
  request_id = request_id;
  status = a.status;
  task_id = a.task_id;
  reply = or_value a.decision reply;
  changed = false;
}

abbrev pub found : Option ApprovalRow → Exec ApprovalRow
found none db = (err (coded approval_not_found), db)
found (some a) db = (ok a, db)

abbrev pub decide_row :
    ℕ → String → String → AgentRequestAnswer → ApprovalRow → Exec ApprovalDecision
decide_row now uuid request_id reply a =
    if is_pending a.status
    then state (settle_approval now uuid request_id reply a)
    else pure (earlier_decision request_id reply a)

-- The statements of ApprovalService.decide
unfoldable pub decide_statements :
    ℕ → String → String → String → AgentRequestAnswer → Option String → Exec ApprovalDecision
decide_statements now uuid request_id principal reply key = do
  row ← gets (λ db. find_where (has_request request_id) db.approvals)
  a ← found row
  guard (a.principal_id == principal) (coded approval_forbidden)
  guard (not (is_elsewhere key a)) (coded approval_forbidden)
  decide_row now uuid request_id reply a

-- ApprovalService.decide
unfoldable pub decide :
    ℕ → String → String → String → AgentRequestAnswer → Option String → Exec ApprovalDecision
decide now uuid request_id principal reply key =
    transaction (decide_statements now uuid request_id principal reply key)

-- ApprovalService.inspect, which only reads.
unfoldable pub inspect :
    ℕ → String → String → AgentRequestAnswer → Option String → Exec ApprovalInspection
inspect now request_id principal reply key = do
  row ← gets (λ db. find_where (has_request request_id) db.approvals)
  a ← found row
  guard (not (is_forbidden principal key a)) (coded approval_forbidden)
  pure (record {
    request_id = request_id;
    status = a.status;
    task_id = a.task_id;
    reply = or_value a.decision reply;
    is_expired = is_pending a.status && has_expired now a;
  })
