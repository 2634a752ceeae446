-- ===== src/Tests/Approvals.antt =====
-- src/approvals/service.ts at concrete inputs.
use imgent.Prelude.{◌≡◌, refl, none, some, true, false, find_where}
use imgent.Store.Rows.{Risk, TaskRow, ApprovalRow, allow, deny}
use imgent.Store.Db.{Db, ok, transaction}
use imgent.Store.Tasks.{find_task}
use imgent.Approvals.{
  ApprovalRequest, ApprovalDecision, has_request, settle_approval, decide, decide_statements,
}
use imgent.Approvals.Once.{decide-decide}
use imgent.Approvals.Decisions.{Outcome, decide-Outcome}
use imgent.Approvals.Answers.{Answered, decide-Answered}
use imgent.Tests.Samples.{asking, question, waiting}

decide-Outcome_example :
    Outcome 10 "u" "r1" "p1"
      (allow none)
      none
      asking
      (decide 10 "u" "r1" "p1" (allow none) none asking)
decide-Outcome_example = decide-Outcome 10 "u" "r1" "p1" (allow none) none asking

decided_now : decide 10 "u" "r1" "p1" (deny none) none asking ≡ (
  ok (settle_approval 10 "u" "r1" (deny none) question asking).1,
  (settle_approval 10 "u" "r1" (deny none) question asking).0,
)
unfolding decide decide_statements transaction find_where
decided_now = refl

changed_now : (settle_approval 10 "u" "r1" (deny none) question asking).1.changed ≡ true
unfolding settle_approval
changed_now = refl

decide-decide_example :
    decide 20 "v" "r1" "p1"
      (allow none)
      none
      (settle_approval 10 "u" "r1" (deny none) question asking).0
    ≡ (
      ok (record (settle_approval 10 "u" "r1" (deny none) question asking).1 { changed = false }),
      (settle_approval 10 "u" "r1" (deny none) question asking).0,
    )
decide-decide_example =
    decide-decide 10 20 "u" "v" "r1" "p1" (deny none) (allow none) none asking
      (settle_approval 10 "u" "r1" (deny none) question asking).0
      (settle_approval 10 "u" "r1" (deny none) question asking).1 decided_now changed_now

question_found : find_where (has_request "r1") asking.approvals ≡ some question
unfolding find_where
question_found = refl

waiting_found : find_task "t1" asking ≡ some waiting
unfolding find_task find_where
waiting_found = refl

decide-Answered_example :
    (d : ApprovalDecision) × (after : Db) × (row : ApprovalRow) × (u : TaskRow) × (decide 10 "u"
        "r1" "p1"
        (deny none)
        none
        asking
      ≡ (ok d, after))
    × (find_where (has_request "r1") after.approvals ≡ some row)
    × (find_task "t1" after ≡ some u)
    × Answered 10 (deny none) question waiting d row u
decide-Answered_example =
    decide-Answered 10 "u" "r1" (deny none) none asking question waiting question_found refl refl
      waiting_found refl

abbrev request : ApprovalRequest
request = record {
  request_id = "r2";
  tool_name = "shell";
  sanitized_input = "{}";
  risk = Risk.high;
  expires_at = 90;
}
