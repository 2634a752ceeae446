-- ===== src/Approvals/Answers.antt =====
-- What an answer does to the approval and to the task that waits for it (src/approvals/service.ts).
use imgent.Prelude.{
  ℕ, ◌≤◌, ◌<◌, ◌≡◌, refl, ◌∙◌, String, Option, some, Bool, true, false, ◌≢◌, arith, eq_refl,
  find_where,
}
use imgent.Store.Rows.{
  TaskStatus, TaskRow, ApprovalStatus, ApprovalRow, AgentRequestAnswer, allow, deny, answer,
}
use imgent.Store.Db.{Db, ok}
use imgent.Store.Tasks.{find_task, transitioned, no_fields, with_error}
use imgent.Store.Lookup.{find_task-transition_task, find_task_of_same}
use imgent.Approvals.{
  ApprovalDecision, has_request, is_elsewhere, has_expired, answered_status, decided_status,
  set_decision, resume, settle_approval, decide, expiry_error,
}
use imgent.Approvals.Outcomes.{decide_first}
use imgent.Approvals.Once.{decided_row, find-settle_approval, is_pending_iff}

-- What the answer to a pending approval does: after the deadline it is recorded as expired,
-- whatever the answer, and the waiting task fails; before it the approval is denied by "deny" and
-- allowed by any other answer, and the waiting task goes on.
pub record Answered (now : ℕ) (reply : AgentRequestAnswer) (a : ApprovalRow) (t : TaskRow)
    (d : ApprovalDecision) (row : ApprovalRow) (u : TaskRow) : Type 0 where
  pub decided : d.status ≡ row.status
  pub answer_kept : row.decision ≡ some reply
  pub overdue :
      a.expires_at ≤ now → (row.status ≡ ApprovalStatus.expired) × (u.status ≡ TaskStatus.failed)
  pub denied :
      now < a.expires_at
      → (b : Option Bool) → reply ≡ deny b
      → (row.status ≡ ApprovalStatus.denied) × (u.status ≡ TaskStatus.active)
  pub allowed :
      now < a.expires_at
      → ((b : Option Bool) → reply ≢ deny b)
      → (row.status ≡ ApprovalStatus.allowed) × (u.status ≡ TaskStatus.active)
  pub attempts_kept : u.attempt ≡ t.attempt

-- The task after the answer.
abbrev resumed : String → Bool → TaskRow → TaskRow
resumed uuid true t = transitioned TaskStatus.failed (with_error (expiry_error uuid)) t
resumed uuid false t = transitioned TaskStatus.active no_fields t

find_task-resume :
    (uuid id : String) (b : Bool) (db : Db) (t : TaskRow)
    → find_task id db ≡ some t
    → t.status ≡ TaskStatus.waiting_approval
    → find_task id (resume uuid id b db) ≡ some (resumed uuid b t)
find_task-resume uuid id true db t e w =
    find_task-transition_task id _ TaskStatus.failed (with_error (expiry_error uuid)) db t e
      (ground arith)
find_task-resume uuid id false db t e w =
    find_task-transition_task id _ TaskStatus.active no_fields db t e (ground arith)

expired_of : (now : ℕ) (a : ApprovalRow) → a.expires_at ≤ now → has_expired now a ≡ true
expired_of now a h = ground arith

unexpired_of : (now : ℕ) (a : ApprovalRow) → now < a.expires_at → has_expired now a ≡ false
unexpired_of now a h = ground arith

allowed_of :
    (r : AgentRequestAnswer)
    → ((b : Option Bool) → r ≢ deny b)
    → answered_status r ≡ ApprovalStatus.allowed
allowed_of (allow b) h = refl
allowed_of (deny b) h = absurd (h b refl)
allowed_of (answer v) h = refl

-- When the principal to whom a pending request was put answers it in its conversation while its task
-- waits, the answer is recorded: as expired at or after the deadline, and the task fails; before
-- it as denied for "deny" and as allowed for any other answer, and the task goes on. The
-- decision that is returned has the recorded status, and the task's attempts stay as they were.
pub decide-Answered :
    (now : ℕ) (uuid request_id : String) (reply : AgentRequestAnswer) (key : Option String)
    (db : Db) (a : ApprovalRow) (t : TaskRow)
    → find_where (has_request request_id) db.approvals ≡ some a
    → a.status ≡ ApprovalStatus.pending
    → is_elsewhere key a ≡ false
    → find_task a.task_id db ≡ some t
    → t.status ≡ TaskStatus.waiting_approval
    → (d : ApprovalDecision) × (after : Db) × (row : ApprovalRow) × (u : TaskRow) × (decide now uuid
          request_id a.principal_id reply key db
        ≡ (ok d, after))
      × (find_where (has_request request_id) after.approvals ≡ some row)
      × (find_task a.task_id after ≡ some u)
      × Answered now reply a t d row u
unfolding settle_approval
decide-Answered now uuid request_id reply key db a t e s q f w = (
  (settle_approval now uuid request_id reply a db).1,
  (settle_approval now uuid request_id reply a db).0,
  decided_row now reply a,
  resumed uuid (has_expired now a) t,
  decide_first now uuid request_id a.principal_id reply key db a e (eq_refl a.principal_id) q
      ((is_pending_iff a.status).1 s),
  find-settle_approval now uuid request_id reply a db e ((is_pending_iff a.status).1 s),
  find_task-resume uuid a.task_id (has_expired now a)
      (set_decision now request_id (decided_status now reply a) reply db) t
      (find_task_of_same a.task_id db
          (set_decision now request_id (decided_status now reply a) reply db) refl
        ∙ f)
      w,
  record {
    decided = refl;
    answer_kept = refl;
    overdue = λ h. rw (expired_of now a h) (refl, refl);
    denied = λ h b k. rw (unexpired_of now a h, k) (refl, refl);
    allowed = λ h k. rw (unexpired_of now a h) (allowed_of reply k, refl);
    attempts_kept = attempts (has_expired now a);
  },
)
  where
    attempts : (b : Bool) → (resumed uuid b t).attempt ≡ t.attempt
    attempts true = refl
    attempts false = refl
