-- ===== src/Approvals/Once.antt =====
-- decide (src/approvals/service.ts): a request is decided once, and only by whom it was put to.
use mathlib.Core.Option
use imgent.Prelude.{
  ℕ, ◌≡◌, refl, ap, ◌∙◌, String, Option, none, some, Bool, true, false, ◌==◌, ◌⊎◌, ◌↔◌, inl, inr,
  ◌≢◌, arith, Bool-cases, Option-cases, eq_iff, eq_refl, find_where, find_where-some,
  find_where-update_where,
}
use imgent.Errors.Codes.{approval_not_found, approval_forbidden}
use imgent.Store.Rows.{ApprovalStatus, ApprovalRow, AgentRequestAnswer}
use imgent.Store.Db.{Db, coded, Result, ok, err}
use imgent.Store.Tasks.{transition_task}
use imgent.Approvals.{
  ApprovalDecision, has_request, is_pending, is_elsewhere, has_expired, decided_status, decides,
  set_decision, resume, settle_approval, earlier_decision, decide,
}
use imgent.Approvals.Outcomes.{
  decide_missing, decide_stranger, decide_elsewhere, decide_again, decide_first,
}

approvals-resume :
    (uuid task_id : String) (b : Bool) (db : Db)
    → (resume uuid task_id b db).approvals ≡ db.approvals
unfolding transition_task
approvals-resume uuid task_id true db = refl
approvals-resume uuid task_id false db = refl

-- The row of an approval that was pending when it was decided.
abbrev pub decided_row : ℕ → AgentRequestAnswer → ApprovalRow → ApprovalRow
decided_row now reply a = record a {
  status = decided_status now reply a;
  decided_at = some now;
  decision = some reply;
}

pub find-settle_approval :
    (now : ℕ) (uuid request_id : String) (reply : AgentRequestAnswer) (a : ApprovalRow) (db : Db)
    → find_where (has_request request_id) db.approvals ≡ some a
    → is_pending a.status ≡ true
    → find_where
        (has_request request_id)
        (settle_approval now uuid request_id reply a db).0.approvals
      ≡ some (decided_row now reply a)
unfolding settle_approval
find-settle_approval now uuid request_id reply a db e s =
    ap (find_where (has_request request_id)) (
      approvals-resume uuid a.task_id (has_expired now a)
        (set_decision now request_id (decided_status now reply a) reply db))
    ∙ find_where-update_where (has_request request_id) (decides request_id) _ db.approvals
        (λ b. refl)
    ∙ ap (Option.map _) e
    ∙ ground (arith, find_where-some (has_request request_id) db.approvals a e)

-- The branches of `decide`.
pub data Branch (now : ℕ) (uuid request_id principal : String) (reply : AgentRequestAnswer)
    (key : Option String) (db : Db) : Result ApprovalDecision × Db → Type 0 where
  absent :
      find_where (has_request request_id) db.approvals ≡ none
      → Branch now uuid request_id principal reply key db (err (coded approval_not_found), db)
  stranger :
      (a : ApprovalRow)
      → find_where (has_request request_id) db.approvals ≡ some a
      → (a.principal_id ≢ principal) ⊎ (is_elsewhere key a ≡ true)
      → Branch now uuid request_id principal reply key db (err (coded approval_forbidden), db)
  known :
      (a : ApprovalRow)
      → find_where (has_request request_id) db.approvals ≡ some a
      → a.principal_id ≡ principal
      → is_elsewhere key a ≡ false
      → a.status ≢ ApprovalStatus.pending
      → Branch now uuid request_id principal reply key db
          (ok (earlier_decision request_id reply a), db)
  fresh :
      (a : ApprovalRow)
      → find_where (has_request request_id) db.approvals ≡ some a
      → a.principal_id ≡ principal
      → is_elsewhere key a ≡ false
      → a.status ≡ ApprovalStatus.pending
      → Branch now uuid request_id principal reply key db (
        ok (settle_approval now uuid request_id reply a db).1,
        (settle_approval now uuid request_id reply a db).0,
      )

pub is_pending_iff : (s : ApprovalStatus) → (is_pending s ≡ true) ↔ (s ≡ ApprovalStatus.pending)
is_pending_iff s = (λ h. ground arith, λ h. ground arith)

pub decide-Branch :
    (now : ℕ) (uuid request_id principal : String) (reply : AgentRequestAnswer)
    (key : Option String) (db : Db)
    → Branch now uuid request_id principal reply key db
        (decide now uuid request_id principal reply key db)
decide-Branch now uuid request_id principal reply key db =
    elim (Option-cases (find_where (has_request request_id) db.approvals)) [
      | inl e ↦ rw (decide_missing now uuid request_id principal reply key db e) (absent e)
      | inr (a, e) ↦ elim (Bool-cases (a.principal_id == principal)) [
        | inr p ↦
            rw (decide_stranger now uuid request_id principal reply key db a e p)
              (stranger a e (inl λ q. ground (arith, eq_iff a.principal_id principal)))
        | inl p ↦ elim (Bool-cases (is_elsewhere key a)) [
          | inl q ↦
              rw (decide_elsewhere now uuid request_id principal reply key db a e q)
                (stranger a e (inr q))
          | inr q ↦ elim (Bool-cases (is_pending a.status)) [
            | inr s ↦
                rw (decide_again now uuid request_id principal reply key db a e p q s)
                  (known a e ((eq_iff _ _).0 p) q (λ k. cc ((is_pending_iff a.status).1 k)))
            | inl s ↦
                rw (decide_first now uuid request_id principal reply key db a e p q s)
                  (fresh a e ((eq_iff _ _).0 p) q ((is_pending_iff a.status).0 s))
          ]
        ]
      ]
    ]

decided_ne_pending :
    (now : ℕ) (reply : AgentRequestAnswer) (a : ApprovalRow)
    → is_pending (decided_status now reply a) ≡ false
decided_ne_pending now reply a = ground arith

elsewhere_decided :
    (now : ℕ) (reply : AgentRequestAnswer) (key : Option String) (a : ApprovalRow)
    → is_elsewhere key a ≡ false
    → is_elsewhere key (decided_row now reply a) ≡ false
elsewhere_decided now reply none a q = q
elsewhere_decided now reply (some k) a q = q

-- Deciding again what was decided just now.
settle-decide :
    (now later : ℕ) (uuid uuid' request_id : String) (reply reply' : AgentRequestAnswer)
    (key : Option String) (db : Db) (a : ApprovalRow)
    → find_where (has_request request_id) db.approvals ≡ some a
    → is_elsewhere key a ≡ false
    → a.status ≡ ApprovalStatus.pending
    → let (after, d) = settle_approval now uuid request_id reply a db in
      decide later uuid' request_id a.principal_id reply' key after
      ≡ (ok (record d { changed = false }), after)
unfolding settle_approval
settle-decide now later uuid uuid' request_id reply reply' key db a e q s =
    decide_again later uuid' request_id a.principal_id reply' key
      (settle_approval now uuid request_id reply a db).0 (decided_row now reply a)
      (find-settle_approval now uuid request_id reply a db e ((is_pending_iff a.status).1 s))
      (eq_refl a.principal_id) (elsewhere_decided now reply key a q)
      (decided_ne_pending now reply a)

abbrev decision_or : ApprovalDecision → Result ApprovalDecision → ApprovalDecision
decision_or d (ok c) = c
decision_or d (err e) = d

settled-decide :
    (now later : ℕ) (uuid uuid' request_id principal : String) (reply reply' : AgentRequestAnswer)
    (key : Option String) (db : Db) (r : Result ApprovalDecision × Db)
    → Branch now uuid request_id principal reply key db r
    → (after : Db) (d : ApprovalDecision) → r ≡ (ok d, after)
    → d.changed ≡ true
    → decide later uuid' request_id principal reply' key after
      ≡ (ok (record d { changed = false }), after)
settled-decide now later uuid uuid' request_id principal reply reply' key db _ (absent e) after d q
      c =
    cc
settled-decide now later uuid uuid' request_id principal reply reply' key db _ (stranger a e f)
      after d q c =
    cc
settled-decide now later uuid uuid' request_id principal reply reply' key db _ (known a e p f s)
      after d q c =
    ground arith
settled-decide now later uuid uuid' request_id principal reply reply' key db _ (fresh a e p f s)
      after d q c =
    let e0 : (settle_approval now uuid request_id reply a db).0 ≡ after = ap (λ r. r.1) q in
    let e1 : (settle_approval now uuid request_id reply a db).1 ≡ d =
      ap (λ r. decision_or d r.0) q in
    rw (← e0, ← e1, ← p) (settle-decide now later uuid uuid' request_id reply reply' key db a e f s)

-- A second decision of the same request, by the same principal at any time and with any answer,
-- reports the first answer and status as unchanged and leaves the database as it is.
pub decide-decide :
    (now later : ℕ) (uuid uuid' request_id principal : String) (reply reply' : AgentRequestAnswer)
    (key : Option String) (db after : Db) (d : ApprovalDecision)
    → decide now uuid request_id principal reply key db ≡ (ok d, after)
    → d.changed ≡ true
    → decide later uuid' request_id principal reply' key after
      ≡ (ok (record d { changed = false }), after)
decide-decide now later uuid uuid' request_id principal reply reply' key db after d e c =
    settled-decide now later uuid uuid' request_id principal reply reply' key db _
      (decide-Branch now uuid request_id principal reply key db) after d e c
