-- ===== src/Approvals/Decisions.antt =====
-- What decide (src/approvals/service.ts) answers and leaves.
use imgent.Prelude.{
  ℕ, ◌≤◌, ◌<◌, ◌≡◌, ◌≢◌, ◌⊎◌, inl, inr, refl, String, Option, none, some, Bool, true, false, [],
  ◌∷◌, arith, Bool-cases, find_where, or_value,
}
use imgent.Errors.Codes.{approval_not_found, approval_forbidden}
use imgent.Store.Rows.{
  TaskStatus, ApprovalStatus, ApprovalRow, AgentRequestAnswer, allow, deny, answer,
}
use imgent.Store.Db.{Db, coded, Result, ok, err}
use imgent.Store.Tasks.{no_fields, with_error, transition_task}
use imgent.Approvals.{
  ApprovalDecision, has_request, is_elsewhere, has_expired, decided_status, expiry_error, resume,
  set_decision, settle_approval, decide,
}
use imgent.Approvals.Once.{
  Branch, absent, stranger, known, fresh, find-settle_approval, is_pending_iff, decide-Branch,
}

-- The status that an answer gives: expired from the deadline on, and before it denied by "deny" and
-- allowed by any other answer.
pub data Verdict (now : ℕ) (a : ApprovalRow) : AgentRequestAnswer → ApprovalStatus → Type 0 where
  too_late :
      (reply : AgentRequestAnswer) → a.expires_at ≤ now → Verdict now a reply ApprovalStatus.expired
  denies : (b : Option Bool) → now < a.expires_at → Verdict now a (deny b) ApprovalStatus.denied
  allows : (b : Option Bool) → now < a.expires_at → Verdict now a (allow b) ApprovalStatus.allowed
  answers : (v : String) → now < a.expires_at → Verdict now a (answer v) ApprovalStatus.allowed

-- What a new decision writes: the decided approval, and the task that waited for it, which fails from
-- the deadline on and goes on before it. No other table changes.
pub record Written (now : ℕ) (uuid request_id : String) (reply : AgentRequestAnswer)
    (status : ApprovalStatus) (a : ApprovalRow) (db after : Db) : Type 0 where
  pub approval :
      find_where (has_request request_id) after.approvals
      ≡ some (record a { status = status; decided_at = some now; decision = some reply })
  pub overdue :
      a.expires_at ≤ now
      → after.tasks
        ≡ (transition_task a.task_id
            (TaskStatus.waiting_approval ∷ [])
            TaskStatus.failed
            (with_error (expiry_error uuid))
            db).0.tasks
  pub in_time :
      now < a.expires_at
      → after.tasks
        ≡ (transition_task a.task_id
            (TaskStatus.waiting_approval ∷ [])
            TaskStatus.active
            no_fields
            db).0.tasks
  pub others : after ≡ record db { approvals = after.approvals; tasks = after.tasks }

-- The ways in which `decide` can come out.
pub data Outcome (now : ℕ) (uuid request_id principal : String) (reply : AgentRequestAnswer)
    (key : Option String) (db : Db) : Result ApprovalDecision × Db → Type 0 where
  missing :
      find_where (has_request request_id) db.approvals ≡ none
      → Outcome now uuid request_id principal reply key db (err (coded approval_not_found), db)
  refused :
      (a : ApprovalRow)
      → find_where (has_request request_id) db.approvals ≡ some a
      → (a.principal_id ≢ principal) ⊎ (is_elsewhere key a ≡ true)
      → Outcome now uuid request_id principal reply key db (err (coded approval_forbidden), db)
  repeated :
      (a : ApprovalRow) (earlier : AgentRequestAnswer)
      → find_where (has_request request_id) db.approvals ≡ some a
      → a.principal_id ≡ principal
      → is_elsewhere key a ≡ false
      → a.status ≢ ApprovalStatus.pending
      → (a.decision ≡ some earlier) ⊎ ((a.decision ≡ none) × (earlier ≡ reply))
      → Outcome now uuid request_id principal reply key db (
        ok (record {
          request_id = request_id;
          status = a.status;
          task_id = a.task_id;
          reply = earlier;
          changed = false;
        }),
        db,
      )
  settled :
      (a : ApprovalRow) (status : ApprovalStatus) (after : Db)
      → find_where (has_request request_id) db.approvals ≡ some a
      → a.principal_id ≡ principal
      → is_elsewhere key a ≡ false
      → a.status ≡ ApprovalStatus.pending
      → Verdict now a reply status
      → Written now uuid request_id reply status a db after
      → Outcome now uuid request_id principal reply key db (
        ok (record {
          request_id = request_id;
          status = status;
          task_id = a.task_id;
          reply = reply;
          changed = true;
        }),
        after,
      )

decided-Verdict :
    (now : ℕ) (reply : AgentRequestAnswer) (a : ApprovalRow)
    → Verdict now a reply (decided_status now reply a)
decided-Verdict now reply a = elim (Bool-cases (has_expired now a)) [
  | inl e ↦ rw e (too_late reply (ground arith))
  | inr e ↦ rw e (before reply (ground arith))
]
  where
    before :
        (r : AgentRequestAnswer)
        → now < a.expires_at
        → Verdict now a r (imgent.Approvals.answered_status r)
    before (allow b) h = allows b h
    before (deny b) h = denies b h
    before (answer v) h = answers v h

earlier_of :
    (decision : Option AgentRequestAnswer) (reply : AgentRequestAnswer)
    → (decision ≡ some (or_value decision reply))
      ⊎ ((decision ≡ none) × (or_value decision reply ≡ reply))
earlier_of none reply = inr (refl, refl)
earlier_of (some d) reply = inl refl

settle-Written :
    (now : ℕ) (uuid request_id : String) (reply : AgentRequestAnswer) (a : ApprovalRow) (db : Db)
    → find_where (has_request request_id) db.approvals ≡ some a
    → a.status ≡ ApprovalStatus.pending
    → Written now uuid request_id reply
        (decided_status now reply a)
        a
        db
        (settle_approval now uuid request_id reply a db).0
unfolding settle_approval transition_task
settle-Written now uuid request_id reply a db e s =
    let decided : Db = set_decision now request_id (decided_status now reply a) reply db in
    record {
      approval =
          find-settle_approval now uuid request_id reply a db e ((is_pending_iff a.status).1 s);
      overdue = λ h. let late : has_expired now a ≡ true = ground arith in rw late refl;
      in_time = λ h. let early : has_expired now a ≡ false = ground arith in rw early refl;
      others = resumed_others (has_expired now a) decided;
    }
  where
    resumed_others :
        (b : Bool) (mid : Db)
        → resume uuid a.task_id b mid ≡ record mid {
          approvals = (resume uuid a.task_id b mid).approvals;
          tasks = (resume uuid a.task_id b mid).tasks;
        }
    resumed_others true mid = refl
    resumed_others false mid = refl

Branch-Outcome :
    (now : ℕ) (uuid request_id principal : String) (reply : AgentRequestAnswer)
    (key : Option String) (db : Db) (r : Result ApprovalDecision × Db)
    → Branch now uuid request_id principal reply key db r
    → Outcome now uuid request_id principal reply key db r
unfolding settle_approval
Branch-Outcome now uuid request_id principal reply key db _ (absent e) = missing e
Branch-Outcome now uuid request_id principal reply key db _ (stranger a e why) = refused a e why
Branch-Outcome now uuid request_id principal reply key db _ (known a e p q s) =
    repeated a (or_value a.decision reply) e p q s (earlier_of a.decision reply)
Branch-Outcome now uuid request_id principal reply key db _ (fresh a e p q s) =
    settled a (decided_status now reply a) _ e p q s (decided-Verdict now reply a)
      (settle-Written now uuid request_id reply a db e s)

-- A decision has one of four outcomes. The request is not there; or it was put to another principal
-- or in another conversation; or it has been decided before, and its status and the answer that was
-- given then are reported (the new answer where none was kept); these change nothing. Or it is
-- decided now: the approval is written with the answer, as expired from its deadline on, and before
-- it as denied or allowed by the answer; the task that waits for it fails from the deadline on and
-- goes on before it; no other table changes.
pub decide-Outcome :
    (now : ℕ) (uuid request_id principal : String) (reply : AgentRequestAnswer)
    (key : Option String) (db : Db)
    → Outcome now uuid request_id principal reply key db
        (decide now uuid request_id principal reply key db)
decide-Outcome now uuid request_id principal reply key db =
    Branch-Outcome now uuid request_id principal reply key db _
      (decide-Branch now uuid request_id principal reply key db)
