-- ===== src/Approvals/Expiry.antt =====
-- src/approvals/service.ts: expirePending. The UUID that an error draws is a function of the
-- request or task that it is about.
use imgent.Prelude.{
  ℕ, ◌+◌, String, some, Bool, not, ◌&&◌, ◌==◌, List, [], ◌∷◌, length, any_where, filter_where,
  update_where,
}
use imgent.Errors.Codes.{approval_not_found}
use imgent.Errors.Descriptor.{no_options, new_error}
use imgent.Store.Rows.{TaskStatus, TaskRow, ApprovalStatus, ApprovalRow, status_beq}
use imgent.Store.Db.{Db}
use imgent.Store.Tasks.{with_error, transition_task}
use imgent.Approvals.{has_request, is_pending, has_expired, expiry_error}

abbrev pub is_overdue : ℕ → ApprovalRow → Bool
is_overdue now a = is_pending a.status && has_expired now a

unfoldable pub expire_approval : ℕ → String → ApprovalRow → Db → Db
expire_approval now uuid a db =
    (transition_task a.task_id (TaskStatus.waiting_approval ∷ []) TaskStatus.failed
      (with_error (expiry_error uuid))
      (record db {
        approvals =
            update_where (has_request a.request_id)
              (λ b. record b { status = ApprovalStatus.expired; decided_at = some now })
              db.approvals;
      })).0

unfoldable pub expire_all : ℕ → (String → String) → List ApprovalRow → Db → Db
expire_all now uuid [] db = db
expire_all now uuid (a ∷ as') db =
    expire_all now uuid as' (expire_approval now (uuid a.request_id) a db)

-- A task that waits and has no pending approval.
abbrev pub is_orphan : List ApprovalRow → TaskRow → Bool
is_orphan approvals t =
    status_beq t.status TaskStatus.waiting_approval
    && not (any_where (λ a. a.task_id == t.id && is_pending a.status) approvals)

unfoldable pub fail_orphan : String → TaskRow → Db → Db
fail_orphan uuid t db =
    (transition_task t.id (TaskStatus.waiting_approval ∷ []) TaskStatus.failed
      (with_error (new_error approval_not_found no_options uuid).descriptor) db).0

unfoldable pub fail_orphans : (String → String) → List TaskRow → Db → Db
fail_orphans uuid [] db = db
fail_orphans uuid (t ∷ ts) db = fail_orphans uuid ts (fail_orphan (uuid t.id) t db)

-- ApprovalService.expirePending
unfoldable pub expire_pending : ℕ → (String → String) → Db → Db × ℕ
expire_pending now uuid db =
    let pending = filter_where (is_overdue now) db.approvals in
    let expired = expire_all now uuid pending db in
    let orphans = filter_where (is_orphan expired.approvals) expired.tasks in
    (fail_orphans uuid orphans expired, length pending + length orphans)
