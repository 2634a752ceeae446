-- ===== src/Scheduler/Retry.antt =====
-- handleDriverError (src/queue/scheduler.ts): when a failed turn is tried again, and what becomes of
-- the task when it is not.
use imgent.Prelude.{
  ℕ, ◌+◌, ◌≤◌, ◌<◌, ◌≡◌, refl, ◌∙◌, String, none, some, true, false, arith, Bool-cases, inl, inr,
  ◌⊎◌, ◌≢◌,
}
use imgent.Errors.Types.{RetryStrategy, ReplaySafety, is_backoff, is_safe}
use imgent.Errors.Codes.{ErrorCode, definition}
use imgent.Errors.Descriptor.{ErrorDescriptor}
use imgent.Errors.Normalize.{normalize_error}
use imgent.Store.Rows.{TaskStatus, TaskRow, is_running}
use imgent.Store.Db.{Db}
use imgent.Store.Tasks.{StoredTask, stored_task, find_task, with_error, transitioned}
use imgent.Store.Frame.{SameWork-enqueue_outbound, SameWork-add_dead_letter}
use imgent.Store.Lookup.{find_task_of_SameWork, find_task-transition_task, task-find_task}
use imgent.Scheduler.{
  Texts, FailureDraws, finish_with_error, settle_failure, handle_driver_error, can_retry, canonical,
  retry_fields, retry_delay, final_descriptor, unsafe_descriptor, is_unsafe, bury_failure,
}

-- A failure that may be tried again: the code's policy is to back off, its replay is safe, nothing
-- dangerous has started and fewer than three attempts were made.
pub record MayRetry (t : TaskRow) (code : ErrorCode) : Type 0 where
  pub backs_off : (definition code).retry.strategy ≡ RetryStrategy.backoff
  pub replays : (definition code).retry.replay ≡ ReplaySafety.safe
  pub harmless : t.dangerous_side_effect_started ≡ false
  pub left : t.attempt < 3

-- What the task is afterwards.
pub data Settled (now : ℕ) (t : TaskRow) (code : ErrorCode) (u : TaskRow) : Type 0 where
  retried :
      (at : ℕ)
      → MayRetry t code
      → u.status ≡ TaskStatus.retry_wait
      → u.next_attempt_at ≡ some at
      → now ≤ at
      → at ≤ now + 300000
      → Settled now t code u
  buried :
      (t.dangerous_side_effect_started ≡ true)
        ⊎ ((definition code).retry.replay ≢ ReplaySafety.safe)
      → u.status ≡ TaskStatus.dead_letter
      → u.next_attempt_at ≡ none
      → Settled now t code u
  failed :
      ¬ MayRetry t code
      → t.dangerous_side_effect_started ≡ false
      → (definition code).retry.replay ≡ ReplaySafety.safe
      → u.status ≡ TaskStatus.failed
      → u.next_attempt_at ≡ none
      → Settled now t code u

canonical_policy :
    (uuid : String) (d : ErrorDescriptor)
    → ((canonical uuid d).retry.strategy ≡ (definition d.code).retry.strategy)
      × ((canonical uuid d).retry.replay ≡ (definition d.code).retry.replay)
unfolding normalize_error
canonical_policy uuid d = (refl, refl)

backoff_of : (s : RetryStrategy) → is_backoff s ≡ true → s ≡ RetryStrategy.backoff
backoff_of s h = ground arith

safe_of : (s : ReplaySafety) → is_safe s ≡ true → s ≡ ReplaySafety.safe
safe_of s h = ground arith

MayRetry-can_retry :
    (uuid : String) (t : TaskRow) (d : ErrorDescriptor)
    → can_retry (stored_task t) (canonical uuid d) ≡ true
    → MayRetry t d.code
MayRetry-can_retry uuid t d h = ground (
  arith,
  canonical_policy uuid d,
  backoff_of (definition d.code).retry.strategy,
  safe_of (definition d.code).retry.replay,
)

not_MayRetry :
    (uuid : String) (t : TaskRow) (d : ErrorDescriptor)
    → can_retry (stored_task t) (canonical uuid d) ≡ false
    → ¬ MayRetry t d.code
not_MayRetry uuid t d h m = ground (arith, canonical_policy uuid d)

retry_at :
    (now : ℕ) (t : StoredTask) (d : ErrorDescriptor)
    → (now ≤ now + retry_delay t d) × (now + retry_delay t d ≤ now + 300000)
retry_at now t d = (omega arith, omega arith)

-- finishWithError on a task that is running.
find_task-finish_with_error :
    (texts : Texts) (now : ℕ) (oid : String) (t : StoredTask) (d : ErrorDescriptor)
    (status : TaskStatus) (db : Db) (r : TaskRow)
    → find_task t.id db ≡ some r
    → is_running r.status ≡ true
    → find_task t.id (finish_with_error texts now oid t d status db)
      ≡ some (transitioned status (with_error d) r)
unfolding finish_with_error
find_task-finish_with_error texts now oid t d status db r e h =
    find_task_of_SameWork t.id _ _ (SameWork-enqueue_outbound now oid _ (some t.id) _)
    ∙ find_task-transition_task t.id _ status (with_error d) db r e (ground arith)

find_task-bury_failure :
    (texts : Texts) (now : ℕ) (draws : FailureDraws) (t : StoredTask) (db : Db) (r : TaskRow)
    → find_task t.id db ≡ some r
    → is_running r.status ≡ true
    → find_task t.id (bury_failure texts now draws t db)
      ≡ some
          (transitioned TaskStatus.dead_letter (with_error (unsafe_descriptor draws.final_uuid)) r)
unfolding bury_failure
find_task-bury_failure texts now draws t db r e h =
    find_task-finish_with_error texts now draws.outbound_id t _ TaskStatus.dead_letter _ r
      (find_task_of_SameWork t.id db _ (
          SameWork-add_dead_letter now draws.dead_id draws.final_uuid "task.unsafe-replay" _
            (some t.message.bot_instance_id) (some t.id) db)
        ∙ e)
      h

unsafe_reasons :
    (uuid : String) (t : TaskRow) (d : ErrorDescriptor)
    → is_unsafe (stored_task t) (canonical uuid d) ≡ true
    → (t.dangerous_side_effect_started ≡ true)
      ⊎ ((definition d.code).retry.replay ≢ ReplaySafety.safe)
unsafe_reasons uuid t d h = elim (Bool-cases t.dangerous_side_effect_started) [
  | inl e ↦ inl e
  | inr e ↦ inr λ q. ground (arith, canonical_policy uuid d)
]

safe_reasons :
    (uuid : String) (t : TaskRow) (d : ErrorDescriptor)
    → is_unsafe (stored_task t) (canonical uuid d) ≡ false
    → (t.dangerous_side_effect_started ≡ false)
      × ((definition d.code).retry.replay ≡ ReplaySafety.safe)
safe_reasons uuid t d h = (
  ground arith,
  safe_of (definition d.code).retry.replay (ground (arith, canonical_policy uuid d)),
)

settle_failure-Settled :
    (texts : Texts) (now : ℕ) (draws : FailureDraws) (t : StoredTask) (d : ErrorDescriptor)
    (db : Db) (r : TaskRow)
    → find_task t.id db ≡ some r
    → is_running r.status ≡ true
    → (u : TaskRow) × (find_task t.id
          (settle_failure texts now draws t (stored_task r) (canonical draws.canonical_uuid d) db)
        ≡ some u)
      × Settled now r d.code u
unfolding settle_failure
settle_failure-Settled texts now draws t d db r e h = elim (Bool-cases (can_retry current c)) [
  | inl y ↦ (
    transitioned TaskStatus.retry_wait (retry_fields now current c) r,
    rw (y, settle_failure)
        (find_task-transition_task t.id _ TaskStatus.retry_wait (retry_fields now current c) db r e
          (ground arith)),
    retried (now + retry_delay current c) (MayRetry-can_retry draws.canonical_uuid r d y) refl refl
        (retry_at now current c).0 (retry_at now current c).1,
  )
  | inr n ↦ elim (Bool-cases (is_unsafe current c)) [
    | inl y ↦ (
      transitioned TaskStatus.dead_letter (with_error (unsafe_descriptor draws.final_uuid)) r,
      rw (n, y, settle_failure) (find_task-bury_failure texts now draws t db r e h),
      buried (unsafe_reasons draws.canonical_uuid r d y) refl refl,
    )
    | inr k ↦ (
      transitioned TaskStatus.failed (with_error (final_descriptor draws.final_uuid current c)) r,
      rw (n, k, settle_failure)
          (find_task-finish_with_error texts now draws.outbound_id t _ TaskStatus.failed db r e h),
      failed (not_MayRetry draws.canonical_uuid r d n) (safe_reasons draws.canonical_uuid r d k).0
          (safe_reasons draws.canonical_uuid r d k).1 refl refl,
    )
  ]
]
  where
    current : StoredTask
    current = stored_task r

    c : ErrorDescriptor
    c = canonical draws.canonical_uuid d

-- When the turn of a running task fails, the task waits for another attempt, at most five minutes
-- later, only if the error's code backs off and is safe to replay, nothing dangerous has started
-- and fewer than three attempts were made; it is buried only if something dangerous has started or
-- the code is not safe to replay; otherwise it fails. The driver's own retry policy is ignored.
pub handle_driver_error-Settled :
    (texts : Texts) (now : ℕ) (draws : FailureDraws) (t : StoredTask) (d : ErrorDescriptor)
    (db : Db) (r : TaskRow)
    → find_task t.id db ≡ some r
    → is_running r.status ≡ true
    → (u : TaskRow) × (find_task t.id (handle_driver_error texts now draws t d db) ≡ some u)
      × Settled now r d.code u
unfolding handle_driver_error
handle_driver_error-Settled texts now draws t d db r e h =
    rw (task-find_task t.id db r e) (settle_failure-Settled texts now draws t d db r e h)
