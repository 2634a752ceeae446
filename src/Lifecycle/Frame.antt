-- ===== src/Lifecycle/Frame.antt =====
-- The operations of the approvals, the dispatcher and the scheduler obey every relation that obeys
-- the laws of the store (src/approvals/service.ts, src/runtime/outbound.ts, src/queue/scheduler.ts).
use imgent.Prelude.{
  ℕ, ◌≡◌, refl, String, Option, none, some, Bool, true, false, List, [], ◌∷◌, arith, Bool-cases,
  Option-cases, inl, inr, find_where, ◌==◌, or_value,
}
use imgent.Errors.Descriptor.{ErrorDescriptor}
use imgent.Messaging.{OutboundMessage}
use imgent.Store.Rows.{
  TaskStatus, TaskRow, ApprovalRow, OutboundRow, AgentRequestAnswer, is_running,
}
use imgent.Store.Db.{Db}
use imgent.Store.Tasks.{StoredTask, task, with_error}
use imgent.Store.Outbox.{add_dead_letter}
use imgent.Store.Laws.{Laws}
use imgent.Store.Frame.{SameWork, SameWork-enqueue_outbound, SameWork-add_dead_letter}
use imgent.Approvals.{
  ApprovalRequest, has_request, fits, is_pending, is_elsewhere, enqueue_if_given, create, decide,
  settle_approval, resume, set_decision, decided_status, has_expired,
}
use imgent.Approvals.Outcomes.{
  added, waiting, create_unfit, create_idle, create_waits, decide_missing, decide_stranger,
  decide_elsewhere, decide_again, decide_first,
}
use imgent.Approvals.Expiry.{expire_approval, expire_all, fail_orphan, fail_orphans, expire_pending}
use imgent.Outbound.{
  Draws, Outcome, delivered, refused, begin_dispatch, claim_row, finish_sent, finish_failed,
  finish_dispatch,
}
use imgent.Scheduler.{
  Texts, FailureDraws, finish_with_error, settle_failure, handle_driver_error, can_retry, canonical,
  is_unsafe, bury_failure,
}

module _ (R : Db → Db → Type 0) (laws : Laws R) where
  enqueue_if_given_lem :
      (now : ℕ) (id task_id : String) (m : Option OutboundMessage) (db : Db)
      → R db (enqueue_if_given now id task_id m db)
  enqueue_if_given_lem now id task_id none db = laws.refl db
  enqueue_if_given_lem now id task_id (some m) db =
      laws.same db _ (SameWork-enqueue_outbound now id m (some task_id) db)

  pub create_lem :
      (now : ℕ) (oid task_id key principal : String) (r : ApprovalRequest)
      (m : Option OutboundMessage) (db : Db)
      → R db (create now oid task_id key principal r m db).1
  create_lem now oid task_id key principal r m db =
      elim (Bool-cases (fits r.request_id task_id principal db)) [
        | inr e ↦ rw (create_unfit now oid task_id key principal r m db e) (laws.refl db)
        | inl e ↦ elim (Bool-cases (waiting now oid task_id key principal r m db).1) [
          | inr c ↦ rw (create_idle now oid task_id key principal r m db e c) (laws.refl db)
          | inl c ↦ rw (create_waits now oid task_id key principal r m db e c) (
              laws.trans db _ _
                (laws.trans db (added now oid task_id key principal r m db) _
                  (laws.same db _ (record { tasks = refl; task_steers = refl }))
                  (laws.transition task_id _ _ _ (added now oid task_id key principal r m db) refl))
                (enqueue_if_given_lem now oid task_id m _))
        ]
      ]

  resume_lem : (uuid task_id : String) (b : Bool) (db : Db) → R db (resume uuid task_id b db)
  resume_lem uuid task_id true db = laws.transition task_id _ _ _ db refl
  resume_lem uuid task_id false db = laws.transition task_id _ _ _ db refl

  settle_approval_lem :
      (now : ℕ) (uuid request_id : String) (reply : AgentRequestAnswer) (a : ApprovalRow) (db : Db)
      → R db (settle_approval now uuid request_id reply a db).0
  unfolding settle_approval
  settle_approval_lem now uuid request_id reply a db =
      let decided : Db = set_decision now request_id (decided_status now reply a) reply db in
      laws.trans db decided _ (laws.same db decided (record { tasks = refl; task_steers = refl }))
        (resume_lem uuid a.task_id (has_expired now a) decided)

  pub decide_lem :
      (now : ℕ) (uuid request_id principal : String) (reply : AgentRequestAnswer)
      (key : Option String) (db : Db)
      → R db (decide now uuid request_id principal reply key db).1
  decide_lem now uuid request_id principal reply key db =
      elim (Option-cases (find_where (has_request request_id) db.approvals)) [
        | inl e ↦ rw (decide_missing now uuid request_id principal reply key db e) unchanged
        | inr (a, e) ↦ elim (Bool-cases (a.principal_id == principal)) [
          | inr p ↦ rw (decide_stranger now uuid request_id principal reply key db a e p) unchanged
          | inl p ↦ elim (Bool-cases (is_elsewhere key a)) [
            | inl q ↦
                rw (decide_elsewhere now uuid request_id principal reply key db a e q) unchanged
            | inr q ↦ elim (Bool-cases (is_pending a.status)) [
              | inr s ↦
                  rw (decide_again now uuid request_id principal reply key db a e p q s) unchanged
              | inl s ↦
                  rw (decide_first now uuid request_id principal reply key db a e p q s)
                    (settle_approval_lem now uuid request_id reply a db)
            ]
          ]
        ]
      ]
    where
      unchanged : R db db
      unchanged = laws.refl db

  expire_approval_lem :
      (now : ℕ) (uuid : String) (a : ApprovalRow) (db : Db) → R db (expire_approval now uuid a db)
  unfolding expire_approval
  expire_approval_lem now uuid a db =
      laws.trans db (record db { approvals = _ }) _
        (laws.same db _ (record { tasks = refl; task_steers = refl }))
        (laws.transition a.task_id _ _ _ _ refl)

  expire_all_lem :
      (now : ℕ) (uuid : String → String) (as' : List ApprovalRow) (db : Db)
      → R db (expire_all now uuid as' db)
  unfolding expire_all
  expire_all_lem now uuid [] db = laws.refl db
  expire_all_lem now uuid (a ∷ as') db =
      laws.trans db _ _ (expire_approval_lem now (uuid a.request_id) a db)
        (expire_all_lem now uuid as' (expire_approval now (uuid a.request_id) a db))

  fail_orphans_lem :
      (uuid : String → String) (ts : List TaskRow) (db : Db) → R db (fail_orphans uuid ts db)
  unfolding fail_orphans fail_orphan
  fail_orphans_lem uuid [] db = laws.refl db
  fail_orphans_lem uuid (t ∷ ts) db =
      laws.trans db _ _ (laws.transition t.id _ _ _ db refl)
        (fail_orphans_lem uuid ts (fail_orphan (uuid t.id) t db))

  pub expire_pending_lem :
      (now : ℕ) (uuid : String → String) (db : Db) → R db (expire_pending now uuid db).0
  unfolding expire_pending
  expire_pending_lem now uuid db =
      laws.trans db _ _ (expire_all_lem now uuid _ db)
        (fail_orphans_lem uuid _ (expire_all now uuid _ db))

  pub finish_with_error_lem :
      (texts : Texts) (now : ℕ) (oid : String) (t : StoredTask) (d : ErrorDescriptor)
      (status : TaskStatus) (db : Db)
      → is_running status ≡ false
      → R db (finish_with_error texts now oid t d status db)
  unfolding finish_with_error
  finish_with_error_lem texts now oid t d status db h =
      laws.trans db _ _ (laws.transition t.id _ status (with_error d) db (ground arith))
        (laws.same _ _ (SameWork-enqueue_outbound now oid _ (some t.id) _))

  bury_failure_lem :
      (texts : Texts) (now : ℕ) (draws : FailureDraws) (t : StoredTask) (db : Db)
      → R db (bury_failure texts now draws t db)
  unfolding bury_failure
  bury_failure_lem texts now draws t db =
      laws.trans db _ _
        (laws.same db _ (
          SameWork-add_dead_letter now draws.dead_id draws.final_uuid "task.unsafe-replay" _
            (some t.message.bot_instance_id) (some t.id) db))
        (finish_with_error_lem texts now draws.outbound_id t _ TaskStatus.dead_letter _ refl)

  settle_failure_lem :
      (texts : Texts) (now : ℕ) (draws : FailureDraws) (t current : StoredTask)
      (d : ErrorDescriptor) (db : Db)
      → R db (settle_failure texts now draws t current d db)
  unfolding settle_failure
  settle_failure_lem texts now draws t current d db = elim (Bool-cases (can_retry current d)) [
    | inl e ↦ rw (e, settle_failure) (laws.transition t.id _ _ _ db refl)
    | inr e ↦ elim (Bool-cases (is_unsafe current d)) [
      | inl c ↦ rw (e, c, settle_failure) (bury_failure_lem texts now draws t db)
      | inr c ↦
          rw (e, c, settle_failure)
            (finish_with_error_lem texts now draws.outbound_id t _ TaskStatus.failed db refl)
    ]
  ]

  pub handle_driver_error_lem :
      (texts : Texts) (now : ℕ) (draws : FailureDraws) (t : StoredTask) (d : ErrorDescriptor)
      (db : Db)
      → R db (handle_driver_error texts now draws t d db)
  unfolding handle_driver_error
  handle_driver_error_lem texts now draws t d db =
      settle_failure_lem texts now draws t (or_value (task t.id db) t)
        (canonical draws.canonical_uuid d) db

pub SameWork-finish_dispatch :
    (now : ℕ) (draws : Draws) (row : OutboundRow) (o : Outcome) (db : Db)
    → SameWork db (finish_dispatch now draws row o db)
unfolding finish_dispatch finish_sent finish_failed add_dead_letter
SameWork-finish_dispatch now draws row (delivered r) db = record {
  tasks = refl;
  task_steers = refl;
}
SameWork-finish_dispatch now draws row (refused e) db = ground arith

pub SameWork-begin_dispatch : (id : String) (db : Db) → SameWork db (begin_dispatch id db).0
unfolding begin_dispatch claim_row
SameWork-begin_dispatch id db = ground arith
