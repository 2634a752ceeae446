-- ===== src/Store/Laws.antt =====
-- What a relation between the database before and after an operation of src/storage/store.ts must
-- obey for the operations built from transitions to obey it.
use imgent.Prelude.{
  ℕ, ◌≡◌, refl, String, some, Bool, true, false, not, ◌&&◌, ◌||◌, List, [], ◌∷◌, if◌then◌else◌,
  Bool-cases, inl, inr,
}
use imgent.Messaging.{OutboundMessage}
use imgent.Store.Rows.{TaskStatus, is_open, is_running}
use imgent.Store.Db.{Db}
use imgent.Store.Tasks.{TransitionFields, transition_task, no_fields}
use imgent.Store.Outbox.{enqueue_outbound, enqueue_memory_outbox}
use imgent.Store.Steers.{settle_steered_inputs, complete_task, complete_task_with_outbound}
use imgent.Store.Frame.{SameWork, SameWork-enqueue_outbound, SameWork-enqueue_memory_outbox}

abbrev pub all_open : List TaskStatus → Bool
all_open [] = true
all_open (s ∷ from) = is_open s && all_open from

abbrev pub all_running : List TaskStatus → Bool
all_running [] = true
all_running (s ∷ from) = is_running s && all_running from

-- A transition from open statuses, which starts nothing.
abbrev pub is_permitted : List TaskStatus → TaskStatus → Bool
is_permitted from to = all_open from && (not (is_running to) || all_running from)

pub record Laws (R : Db → Db → Type 0) : Type 0 where
  pub refl : (db : Db) → R db db
  pub trans : (a b c : Db) → R a b → R b c → R a c
  pub same : (db after : Db) → SameWork db after → R db after
  pub transition :
      (id : String) (from : List TaskStatus) (to : TaskStatus) (fields : TransitionFields) (db : Db)
      → is_permitted from to ≡ true
      → R db (transition_task id from to fields db).0
  pub settles : (id : String) (db : Db) → R db (settle_steered_inputs id db)

abbrev succeed : String → String → Db → Db × Bool
succeed id text =
    transition_task id (TaskStatus.active ∷ []) TaskStatus.succeeded
      (record no_fields { final_text = some text })

module _ (R : Db → Db → Type 0) (laws : Laws R) where
  succeeds : (id text : String) (db : Db) → R db (succeed id text db).0
  succeeds id text db = laws.transition id (TaskStatus.active ∷ []) TaskStatus.succeeded _ db refl

  enqueues_if :
      (now : ℕ) (curation_id id : String) (curate : Bool) (db : Db)
      → R db (if curate then enqueue_memory_outbox now curation_id id db else db)
  enqueues_if now curation_id id true db =
      laws.same db _ (SameWork-enqueue_memory_outbox now curation_id id db)
  enqueues_if now curation_id id false db = laws.refl db

  pub complete_task_lem :
      (now : ℕ) (curation_id id text : String) (curate : Bool) (db : Db)
      → R db (complete_task now curation_id id text curate db).0
  unfolding complete_task
  complete_task_lem now curation_id id text curate db = elim (Bool-cases (succeed id text db).1) [
    | inr c ↦ rw (c, complete_task) (succeeds id text db)
    | inl c ↦
        rw (c, complete_task)
          (laws.trans db _ _ (succeeds id text db) (
            laws.trans _ _ _ (laws.settles id (succeed id text db).0) (
              enqueues_if now curation_id id curate
                (settle_steered_inputs id (succeed id text db).0))))
  ]

  pub complete_task_with_outbound_lem :
      (now : ℕ) (curation_id outbound_id id text : String) (curate : Bool) (m : OutboundMessage)
      (db : Db)
      → R db (complete_task_with_outbound now curation_id outbound_id id text curate m db).0
  unfolding complete_task_with_outbound
  complete_task_with_outbound_lem now curation_id outbound_id id text curate m db =
      elim (Bool-cases (succeed id text db).1) [
        | inr c ↦ rw (c, complete_task_with_outbound) (succeeds id text db)
        | inl c ↦
            rw (c, complete_task_with_outbound)
              (let settled : Db = settle_steered_inputs id (succeed id text db).0 in
                let sent : Db = (enqueue_outbound now outbound_id m (some id) settled).0 in
                laws.trans db _ _ (succeeds id text db) (
                  laws.trans _ _ _ (laws.settles id (succeed id text db).0) (
                    laws.trans _ _ _
                      (laws.same settled sent
                        (SameWork-enqueue_outbound now outbound_id m (some id) settled))
                      (enqueues_if now curation_id id curate sent))))
      ]
