-- ===== src/Approvals/Outcomes.antt =====
-- What create and decide (src/approvals/service.ts) come to, branch by branch.
use imgent.Prelude.{
  ℕ, ◌≡◌, String, Option, none, some, Bool, true, false, ◌==◌, [], ◌∷◌, arith, find_where,
}
use imgent.Errors.Codes.{task_execution_failed, approval_not_found, approval_forbidden}
use imgent.Messaging.{OutboundMessage}
use imgent.Store.Rows.{TaskStatus, ApprovalRow, AgentRequestAnswer}
use imgent.Store.Db.{Db, coded, constraint, ok, err, transaction}
use imgent.Store.Tasks.{no_fields, transition_task}
use imgent.Approvals.{
  ApprovalRequest, has_request, fits, is_pending, is_elsewhere, approval_row, add_approval,
  enqueue_if_given, create_statements, create, settle_approval, earlier_decision, decide_statements,
  decide,
}

module _ (now : ℕ) (out_id task_id key principal : String) (r : ApprovalRequest)
    (outbound : Option OutboundMessage) (db : Db) where
  -- The database with the new row, and what the transition makes of it.
  abbrev pub added : Db
  added = add_approval (approval_row now task_id key principal r) db

  abbrev pub waiting : Db × Bool
  waiting =
      transition_task task_id (TaskStatus.active ∷ []) TaskStatus.waiting_approval no_fields added

  pub create_unfit :
      fits r.request_id task_id principal db ≡ false
      → create now out_id task_id key principal r outbound db ≡ (err constraint, db)
  unfolding create create_statements transaction
  create_unfit e = rw (e, create, create_statements)

  pub create_idle :
      fits r.request_id task_id principal db ≡ true
      → waiting.1 ≡ false
      → create now out_id task_id key principal r outbound db
        ≡ (err (coded task_execution_failed), db)
  unfolding create create_statements transaction
  create_idle e c = rw (e, c, create, create_statements)

  pub create_waits :
      fits r.request_id task_id principal db ≡ true
      → waiting.1 ≡ true
      → create now out_id task_id key principal r outbound db
        ≡ (ok tt, enqueue_if_given now out_id task_id outbound waiting.0)
  unfolding create create_statements transaction
  create_waits e c = rw (e, c, create, create_statements)

module _ (now : ℕ) (uuid request_id principal : String) (reply : AgentRequestAnswer)
    (key : Option String) (db : Db) where
  pub decide_missing :
      find_where (has_request request_id) db.approvals ≡ none
      → decide now uuid request_id principal reply key db ≡ (err (coded approval_not_found), db)
  unfolding decide decide_statements transaction
  decide_missing e = rw (e, decide, decide_statements)

  module _ (a : ApprovalRow) (e : find_where (has_request request_id) db.approvals ≡ some a) where
    pub decide_stranger :
        (a.principal_id == principal) ≡ false
        → decide now uuid request_id principal reply key db ≡ (err (coded approval_forbidden), db)
    unfolding decide decide_statements transaction
    decide_stranger p = rw (e, p, decide, decide_statements)

    pub decide_elsewhere :
        is_elsewhere key a ≡ true
        → decide now uuid request_id principal reply key db ≡ (err (coded approval_forbidden), db)
    unfolding decide decide_statements transaction
    decide_elsewhere q = ground (arith, e)

    module _ (p : (a.principal_id == principal) ≡ true) (q : is_elsewhere key a ≡ false) where
      pub decide_again :
          is_pending a.status ≡ false
          → decide now uuid request_id principal reply key db
            ≡ (ok (earlier_decision request_id reply a), db)
      unfolding decide decide_statements transaction
      decide_again s = rw (e, p, q, s, decide, decide_statements)

      pub decide_first :
          is_pending a.status ≡ true
          → decide now uuid request_id principal reply key db ≡ (
            ok (settle_approval now uuid request_id reply a db).1,
            (settle_approval now uuid request_id reply a db).0,
          )
      unfolding decide decide_statements transaction
      decide_first s = rw (e, p, q, s, decide, decide_statements)
