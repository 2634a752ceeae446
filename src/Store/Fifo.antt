-- ===== src/Store/Fifo.antt =====
-- claimNextTask (src/storage/store.ts) against a description of which task is next.
use imgent.Prelude.{
  ℕ, ◌≤◌, ◌<◌, ◌≡◌, ◌⊎◌, inl, inr, ◌↔◌, true, false, ◌&&◌, none, some, List, [], ◌∷◌, arith, leb,
  ltb, leb→le, eq_iff, Bool-cases, Option-cases, In, any_where, any_where-false, any_where-true,
  In-filter_where, In-filter_where_intro, update_where,
}
use imgent.Store.Rows.{TaskStatus, TaskRow, is_pending, is_running, is_open}
use imgent.Store.Db.{Db}
use imgent.Store.Tasks.{
  is_due, is_earlier, runs_for, waits_before, is_claimable, first_created, next_claim, claimed,
  claimed_task, claim_next_task, has_id,
}

-- `a` was queued before `t`.
abbrev pub Before : TaskRow → TaskRow → Type 0
Before a t = (a.created_at < t.created_at) ⊎ ((a.created_at ≡ t.created_at) × (a.rowid < t.rowid))

-- `t` may start at `now`: it waits, its retry time has come, nothing runs under its execution key,
-- and no open task of that key was queued before it.
pub record IsReady (now : ℕ) (rows : List TaskRow) (t : TaskRow) : Type 0 where
  pub waits : is_pending t.status ≡ true
  pub due : (t.status ≡ TaskStatus.queued) ⊎ ((n : ℕ) × (t.next_attempt_at ≡ some n) × (n ≤ now))
  pub alone :
      (a : TaskRow) → In a rows → a.execution_key ≡ t.execution_key → is_running a.status ≡ false
  pub oldest :
      (e : TaskRow)
      → In e rows
      → e.execution_key ≡ t.execution_key
      → is_open e.status ≡ true
      → ¬ Before e t

due_reads :
    (now : ℕ) (t : TaskRow)
    → is_due now t ≡ true
    → (t.status ≡ TaskStatus.queued) ⊎ ((n : ℕ) × (t.next_attempt_at ≡ some n) × (n ≤ now))
due_reads now t h = elim (Option-cases t.next_attempt_at) [
  | inl e ↦ inl (ground arith)
  | inr (n, e) ↦ elim (Bool-cases (leb n now)) [
    | inl le ↦ inr (n, e, leb→le n now le)
    | inr gt ↦ inl (ground arith)
  ]
]

is_due_of :
    (now : ℕ) (t : TaskRow)
    → (t.status ≡ TaskStatus.queued) ⊎ ((n : ℕ) × (t.next_attempt_at ≡ some n) × (n ≤ now))
    → is_due now t ≡ true
is_due_of now t (inl e) = ground arith
is_due_of now t (inr (n, e, le)) = ground arith

earlier_iff : (a t : TaskRow) → (is_earlier a t ≡ true) ↔ Before a t
earlier_iff a t = (λ h. ground arith, λ h. ground arith)

not_earlier : (a t : TaskRow) → is_earlier a t ≡ false → ¬ Before a t
not_earlier a t h b = cc ((earlier_iff a t).1 b)

-- The WHERE clause of the query takes exactly the tasks that are ready.
is_claimable-IsReady :
    (now : ℕ) (rows : List TaskRow) (t : TaskRow)
    → is_claimable now rows t ≡ true
    → IsReady now rows t
unfolding is_claimable
is_claimable-IsReady now rows t h = record {
  waits = ground arith;
  due = due_reads now t (ground arith);
  alone = λ a m e. ground (
    arith,
    any_where-false (runs_for t) rows (ground arith) a m,
    eq_iff a.execution_key t.execution_key,
  );
  oldest = λ e m k o. not_earlier e t (
      ground (
        arith,
        any_where-false (waits_before t) rows (ground arith) e m,
        eq_iff e.execution_key t.execution_key,
      ));
}

is_claimable_of_IsReady :
    (now : ℕ) (rows : List TaskRow) (t : TaskRow)
    → IsReady now rows t
    → is_claimable now rows t ≡ true
unfolding is_claimable
is_claimable_of_IsReady now rows t r = elim (Bool-cases (any_where (runs_for t) rows)) [
  | inl e ↦
      let (a, m, q) = any_where-true (runs_for t) rows e in
      absurd (ground (arith, r.alone a m, eq_iff a.execution_key t.execution_key))
  | inr e ↦ elim (Bool-cases (any_where (waits_before t) rows)) [
    | inl b ↦
        let (a, m, q) = any_where-true (waits_before t) rows b in
        absurd (
          r.oldest a m ((eq_iff a.execution_key t.execution_key).0 (ground arith)) (ground arith)
            ((earlier_iff a t).0 (ground arith)))
    | inr b ↦ ground (arith, is_due_of now t r.due, r.waits)
  ]
]

first_created-In : (rows : List TaskRow) (t : TaskRow) → first_created rows ≡ some t → In t rows
unfolding first_created
first_created-In [] t h = cc
first_created-In (r ∷ rows) t h = elim (Option-cases (first_created rows)) [
  | inl e ↦ inl (ground arith)
  | inr (u, e) ↦ elim (Bool-cases (ltb u.created_at r.created_at)) [
    | inl b ↦ inr (first_created-In rows t (ground arith))
    | inr b ↦ inl (ground arith)
  ]
]

first_created-none : (rows : List TaskRow) → first_created rows ≡ none → (u : TaskRow) → ¬ In u rows
unfolding first_created
first_created-none [] h u m = m
first_created-none (r ∷ rows) h u m = absurd (ground arith)

first_created-le :
    (rows : List TaskRow) (t : TaskRow)
    → first_created rows ≡ some t
    → (u : TaskRow) → In u rows
    → t.created_at ≤ u.created_at
unfolding first_created
first_created-le [] t h u m = absurd m
first_created-le (r ∷ rows) t h u m = elim (Option-cases (first_created rows)) [
  | inl e ↦ elim m [ inl q ↦ ground arith | inr k ↦ absurd (first_created-none rows e u k) ]
  | inr (w, e) ↦ elim m [
    | inl q ↦ ground arith
    | inr k ↦ ground (arith, first_created-le rows w e u k)
  ]
]

next_claim-some :
    (now : ℕ) (rows : List TaskRow) (t : TaskRow)
    → next_claim now rows ≡ some t
    → In t rows × IsReady now rows t
unfolding next_claim
next_claim-some now rows t h =
    let (m, c) = In-filter_where (is_claimable now rows) rows t (first_created-In _ t h) in
    (m, is_claimable-IsReady now rows t c)

next_claim-le :
    (now : ℕ) (rows : List TaskRow) (t : TaskRow)
    → next_claim now rows ≡ some t
    → (u : TaskRow) → In u rows
    → IsReady now rows u
    → t.created_at ≤ u.created_at
unfolding next_claim
next_claim-le now rows t h u m r =
    first_created-le _ t h u (
      In-filter_where_intro (is_claimable now rows) rows u m (is_claimable_of_IsReady now rows u r))

next_claim-none :
    (now : ℕ) (rows : List TaskRow)
    → next_claim now rows ≡ none
    → (u : TaskRow) → In u rows
    → ¬ IsReady now rows u
unfolding next_claim
next_claim-none now rows h u m r =
    first_created-none _ h u (
      In-filter_where_intro (is_claimable now rows) rows u m (is_claimable_of_IsReady now rows u r))

-- What a claim does: it takes a ready task, the first created of all that are ready, and hands it
-- out as active with one more attempt.
pub record Claims (now : ℕ) (db : Db) (t : TaskRow) : Type 0 where
  pub stored : In t db.tasks
  pub ready : IsReady now db.tasks t
  pub first : (u : TaskRow) → In u db.tasks → IsReady now db.tasks u → t.created_at ≤ u.created_at
  pub returned : (claim_next_task now db).1 ≡ some (claimed_task t)
  pub marked : (claim_next_task now db).0 ≡ record db {
    tasks = update_where (λ u. has_id t.id u && is_pending u.status) claimed db.tasks;
  }

-- A claim that returns a task returns one that is ready: it waits, its retry time has come, nothing
-- runs under its execution key and no open task of that key was queued before it. No ready task
-- was created earlier; the task comes back as active with one more attempt, and the pending rows
-- of its id are marked so. A claim that returns nothing leaves the database as it is, and no task
-- is ready.
pub claim_next_task-Claims :
    (now : ℕ) (db : Db)
    → ((t : TaskRow) × Claims now db t)
      ⊎ ((claim_next_task now db ≡ (db, none))
          × ((u : TaskRow) → In u db.tasks → ¬ IsReady now db.tasks u))
unfolding claim_next_task
claim_next_task-Claims now db = elim (Option-cases (next_claim now db.tasks)) [
  | inl e ↦ inr (rw (e, claim_next_task), next_claim-none now db.tasks e)
  | inr (t, e) ↦
      let (m, r) = next_claim-some now db.tasks t e in
      inl (
        t,
        record {
          stored = m;
          ready = r;
          first = next_claim-le now db.tasks t e;
          returned = rw (e, claim_next_task);
          marked = rw (e, claim_next_task);
        },
      )
]
