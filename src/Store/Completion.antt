-- ===== src/Store/Completion.antt =====
-- completeTaskWithOutbound (src/storage/store.ts): the end of a task and its reply, or nothing.
use imgent.Prelude.{
  ℕ, ◌≤◌, ◌≡◌, ◌≢◌, ◌⊎◌, refl, ap, ◌∙◌, eq_iff, set_if, find_where, Option-cases, String, none,
  some, Bool, true, false, [], ◌∷◌, arith, eq_refl, Bool-cases, inl, inr, In, any_where,
  any_where-append, find_where-some, count_where, count_where-zero, count_where_mono,
  count_where_pos, update_where_none, unique_row, if◌then◌else◌,
}
use imgent.Messaging.{OutboundMessage}
use imgent.Store.Rows.{TaskStatus, TaskRow, SteerRow, OutboundStatus, OutboundRow, status_beq}
use imgent.Store.Db.{Db}
use imgent.Store.Tasks.{has_id, find_task, may_transition, transitioned, transition_task, no_fields}
use imgent.Store.Outbox.{
  has_idempotency_key, outbound_row, enqueue_outbound, enqueue_memory_outbox, curates,
}
use imgent.Store.Steers.{settles, settle_with, settle_steered_inputs, complete_task_with_outbound}
use imgent.Store.Frame.{SameWork, SameWork-enqueue_outbound}
use imgent.Store.Lookup.{
  task-find_task, find_task_of_SameWork, find_task-update, find_task-transition_task,
}
use imgent.Store.Taken.{WasTaken, lookup-settle, settles_taken, settles_free}
use imgent.Outbound.Keys.{find_key, find_key-enqueue_known, find_key-enqueue_new}

abbrev succeed : String → String → Db → Db × Bool
succeed id text =
    transition_task id (TaskStatus.active ∷ []) TaskStatus.succeeded
      (record no_fields { final_text = some text })

abbrev ends : String → TaskRow → Bool
ends id = may_transition id (TaskStatus.active ∷ [])

module _ (id : String) (db : Db) (t : TaskRow) (found : find_task id db ≡ some t)
    (primary : count_where (has_id id) db.tasks ≤ 1) where
  row : In t db.tasks × (has_id id t ≡ true)
  unfolding find_task
  row = find_where-some (has_id id) db.tasks t found

  only : (u : TaskRow) → In u db.tasks → has_id id u ≡ true → u ≡ t
  only u m h = unique_row (has_id id) db.tasks u t primary m row.0 h row.1

  one_ends : t.status ≡ TaskStatus.active → count_where (ends id) db.tasks ≡ 1
  one_ends a =
      let most : count_where (ends id) db.tasks ≤ count_where (has_id id) db.tasks =
        count_where_mono (ends id) (has_id id) db.tasks (λ u h. ground arith) in
      let this : 1 ≤ count_where (ends id) db.tasks =
        count_where_pos (ends id) db.tasks t row.0 (ground (arith, row.1)) in
      omega (arith, primary, most, this)

  none_ends : t.status ≢ TaskStatus.active → count_where (ends id) db.tasks ≡ 0
  none_ends a = count_where-zero (ends id) db.tasks (λ u m. elim (Bool-cases (has_id id u)) [
    | inl h ↦ rw (only u m h) (ground arith)
    | inr h ↦ ground arith
  ])

-- The message as it is queued for a task: to be sent, without what only the adapter may see.
pub record IsReply (id : String) (m : OutboundMessage) (o : OutboundRow) : Type 0 where
  pub task_id : o.task_id ≡ some id
  pub idempotency_key : o.idempotency_key ≡ m.idempotency_key
  pub status : o.status ≡ OutboundStatus.pending
  pub attempt : o.attempt ≡ 0
  pub payload : o.payload ≡ record m { reply_context = none }
  pub reply_context : o.reply_context ≡ m.reply_context

-- The end of the work and of the follow-ups that it took, with the other tasks as they were, its
-- reply, unless a message of the reply's key was there, and its curation if it was asked for.
pub record Finished (id final_text : String) (curate : Bool) (m : OutboundMessage) (t : TaskRow)
    (db after : Db) : Type 0 where
  pub task :
      find_task id after
      ≡ some
          (transitioned TaskStatus.succeeded (record no_fields { final_text = some final_text }) t)
  pub follow_ups :
      (u : TaskRow) (s : SteerRow)
      → find_task u.id db ≡ some u
      → u.id ≢ id
      → u.status ≡ TaskStatus.active
      → WasTaken id db u s
      → find_task u.id after ≡ some (record u { status = TaskStatus.succeeded; error = none })
  pub others :
      (u : TaskRow)
      → find_task u.id db ≡ some u
      → u.id ≢ id
      → (u.status ≢ TaskStatus.active) ⊎ ((s : SteerRow) → ¬ WasTaken id db u s)
      → find_task u.id after ≡ some u
  pub reply :
      (o : OutboundRow) × (find_key m.idempotency_key after ≡ some o)
      × ((find_key m.idempotency_key db ≡ some o)
          ⊎ ((find_key m.idempotency_key db ≡ none) × IsReply id m o))
  pub curation : curate ≡ true → any_where (curates id) after.memory_outbox ≡ true

abbrev curated : ℕ → String → String → Bool → Db → Db
curated now curation_id id curate db =
    if curate then enqueue_memory_outbox now curation_id id db else db

curated-tables :
    (now : ℕ) (curation_id id : String) (curate : Bool) (db : Db)
    → SameWork db (curated now curation_id id curate db)
      × ((curated now curation_id id curate db).outbound_messages ≡ db.outbound_messages)
unfolding enqueue_memory_outbox
curated-tables now curation_id id curate db = (ground arith, ground arith)

curated_once :
    (now : ℕ) (curation_id id : String) (db : Db)
    → any_where (curates id) (enqueue_memory_outbox now curation_id id db).memory_outbox ≡ true
unfolding enqueue_memory_outbox any_where
curated_once now curation_id id db = elim (Bool-cases (any_where (curates id) db.memory_outbox)) [
  | inl e ↦ rw (e, enqueue_memory_outbox) e
  | inr e ↦
      rw (e, enqueue_memory_outbox)
        (any_where-append (curates id) db.memory_outbox _ ∙ ground (arith, eq_refl id))
]

module _ (now : ℕ) (curation_id outbound_id id final_text : String) (curate : Bool)
    (m : OutboundMessage) (db : Db) where
  abbrev settled : Db
  settled = settle_steered_inputs id (succeed id final_text db).0

  abbrev sent : Db
  sent = (enqueue_outbound now outbound_id m (some id) settled).0

  complete_done :
      (succeed id final_text db).1 ≡ true
      → complete_task_with_outbound now curation_id outbound_id id final_text curate m db
        ≡ (curated now curation_id id curate sent, true)
  unfolding complete_task_with_outbound
  complete_done e = rw (e, complete_task_with_outbound)

  complete_missed :
      (succeed id final_text db).1 ≡ false
      → (succeed id final_text db).0 ≡ db
      → complete_task_with_outbound now curation_id outbound_id id final_text curate m db
        ≡ (db, false)
  unfolding complete_task_with_outbound
  complete_missed e same = rw (e, same, complete_task_with_outbound)

  module _ (t : TaskRow) (found : find_task id db ≡ some t)
      (primary : count_where (has_id id) db.tasks ≤ 1) where
    succeeded :
        t.status ≡ TaskStatus.active
        → find_task id (succeed id final_text db).0
          ≡ some (
              transitioned TaskStatus.succeeded
                (record no_fields { final_text = some final_text })
                t)
    succeeded a = find_task-transition_task id _ _ _ db t found (ground arith)

    -- What is settled together with the task.
    settled_row :
        t.status ≡ TaskStatus.active
        → (u : TaskRow) → find_task u.id db ≡ some u
        → u.id ≢ id
        → find_task u.id settled
          ≡ some (
              set_if
                (settles id db.task_steers)
                (λ v. record v { status = TaskStatus.succeeded; error = none })
                u)
    unfolding settle_steered_inputs settle_with transition_task
    settled_row a u e other =
        rw (task-find_task id (succeed id final_text db).0 _ (succeeded a), settle_steered_inputs)
          (find_task-update u.id (settles id db.task_steers)
            (λ v. record v { status = TaskStatus.succeeded; error = none })
            (succeed id final_text db).0 _ u refl (λ v. refl)
            (find_task-update u.id (ends id) _ db (succeed id final_text db).0 u refl (λ v. refl) e
              ∙ ground (arith, eq_iff u.id id)))

    settled_messages :
        t.status ≡ TaskStatus.active → settled.outbound_messages ≡ db.outbound_messages
    unfolding settle_steered_inputs settle_with transition_task
    settled_messages a =
        rw (task-find_task id (succeed id final_text db).0 _ (succeeded a), settle_steered_inputs)
          refl

    after_settled :
        (u : String) → find_task u (curated now curation_id id curate sent) ≡ find_task u settled
    after_settled u =
        find_task_of_SameWork u sent _ (curated-tables now curation_id id curate sent).0
        ∙ find_task_of_SameWork u settled sent
            (SameWork-enqueue_outbound now outbound_id m (some id) settled)

    sent_reply :
        t.status ≡ TaskStatus.active
        → (o : OutboundRow) × (find_key m.idempotency_key (curated now curation_id id curate sent)
            ≡ some o)
          × ((find_key m.idempotency_key db ≡ some o)
              ⊎ ((find_key m.idempotency_key db ≡ none) × IsReply id m o))
    sent_reply a =
        let kept = (curated-tables now curation_id id curate sent).1 in
        let same : find_key m.idempotency_key settled ≡ find_key m.idempotency_key db =
          ap (find_where (has_idempotency_key m.idempotency_key)) (settled_messages a) in
        elim (Option-cases (find_key m.idempotency_key db)) [
          | inr (o, e) ↦ (
            o,
            rw kept (find_key-enqueue_known now outbound_id m (some id) settled o (same ∙ e)),
            inl e,
          )
          | inl e ↦ (
            outbound_row now outbound_id m (some id),
            rw kept (find_key-enqueue_new now outbound_id m (some id) settled (same ∙ e)),
            inr (
              e,
              record {
                task_id = refl;
                idempotency_key = refl;
                status = refl;
                attempt = refl;
                payload = refl;
                reply_context = refl;
              },
            ),
          )
        ]

    curated-Finished :
        t.status ≡ TaskStatus.active
        → Finished id final_text curate m t db (curated now curation_id id curate sent)
    curated-Finished a = record {
      task = after_settled id ∙ lookup-settle id (succeed id final_text db).0 _ (succeeded a) refl;
      follow_ups = λ u s e other b w.
          after_settled u.id
          ∙ settled_row a u e other
          ∙ ground (arith, settles_taken id db u s b w);
      others = λ u e other free.
          after_settled u.id ∙ settled_row a u e other ∙ ground (arith, settles_free id db u free);
      reply = sent_reply a;
      curation = λ c. rw c (curated_once now curation_id id sent);
    }

    succeed_one : t.status ≡ TaskStatus.active → (succeed id final_text db).1 ≡ true
    unfolding transition_task
    succeed_one a = rw (one_ends id db t found primary a)

    succeed_none :
        t.status ≢ TaskStatus.active
        → ((succeed id final_text db).1 ≡ false) × ((succeed id final_text db).0 ≡ db)
    unfolding transition_task
    succeed_none a =
        let none : count_where (ends id) db.tasks ≡ 0 = none_ends id db t found primary a in
        (rw none, ap (λ ts. record db { tasks = ts }) (update_where_none (ends id) _ db.tasks none))

    -- Where the id is that of one task, its completion with a reply does all of its work or none. An
    -- active task has succeeded with the text; each other active task of which it has accepted the
    -- steer as a follow-up has succeeded too, without error, and all further tasks are as they were.
    -- A message of the reply's key is queued: the one that was there, or else a pending one of the
    -- task with the reply as its payload. The task's memory is to be curated if that was asked for.
    -- For any other task the answer is false and the database is as it was.
    pub complete_task_with_outbound-Finished :
        ((t.status ≡ TaskStatus.active)
          × ((complete_task_with_outbound now curation_id outbound_id id final_text curate m db).1
              ≡ true)
          × Finished id final_text curate m t db
              (complete_task_with_outbound now curation_id outbound_id id final_text curate m db).0)
        ⊎ ((t.status ≢ TaskStatus.active)
            × (complete_task_with_outbound now curation_id outbound_id id final_text curate m db
                ≡ (db, false)))
    complete_task_with_outbound-Finished =
        elim (Bool-cases (status_beq TaskStatus.active t.status)) [
          | inl h ↦
              let a : t.status ≡ TaskStatus.active = ground arith in
              let e = complete_done (succeed_one a) in
              inl (a, ap (λ p. p.1) e, rw e (curated-Finished a))
          | inr h ↦
              let a : t.status ≢ TaskStatus.active = ground arith in
              let (c, same) = succeed_none a in inr (a, complete_missed c same)
        ]
