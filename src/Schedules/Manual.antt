-- ===== src/Schedules/Manual.antt =====
-- What trigger (src/schedule/service.ts) comes to.
use imgent.Prelude.{
  ℕ, ◌≡◌, inl, inr, refl, sym, ap, ◌∙◌, String, Option, none, some, Bool, true, false, ◌&&◌, arith,
  eq_iff, Bool-cases, Option-cases, find_where, find_where-some,
}
use imgent.Errors.Codes.{profile_or_driver_missing, outbound_platform_rejected}
use imgent.Store.Rows.{TaskRow}
use imgent.Store.Directory.{SpaceRow, ScheduleRow, ScheduleRunRow}
use imgent.Store.Db.{Db, Failure, coded, Result, ok, err, transaction}
use imgent.Schedules.Rules.{invalid}
use imgent.Schedules.Access.{
  Delivery, has_space_id, require_space, require_executable, knows_profile, routes_profile,
  can_send,
}
use imgent.Schedules.Runs.{RunDraws, has_open_run, enqueue, audit}
use imgent.Schedules.Service.{is_kept, stored_schedule, stored, get, require, is_blocked, trigger}
use imgent.Schedules.Started.{with_run, Starts, enqueue-Enqueued}
use imgent.Schedules.Alone.{IsAlone, IsAlone-with_run}

module _ (id : String) (db : Db) where
  stored_id :
      (row : Option ScheduleRow) (s : ScheduleRow)
      → find_where (is_kept id) db.schedules ≡ row
      → stored row ≡ some s
      → s.id ≡ id
  stored_id none s h e = absurd (cc)
  stored_id (some row) s h e =
      let (_, kept) = find_where-some (is_kept id) db.schedules row h in
      let same : row.id ≡ id = (eq_iff row.id id).0 (ground arith) in
      let given : some (stored_schedule row) ≡ some s = e in
      let whole : stored_schedule row ≡ s = cc given in
      let field : row.id ≡ s.id = ap (λ u. u.id) whole in sym field ∙ same

  get_id : (s : ScheduleRow) → get id db ≡ some s → s.id ≡ id
  unfolding get
  get_id s e = stored_id (find_where (is_kept id) db.schedules) s refl e

-- An error that changes nothing, or one more task of a schedule that had no open one.
pub data Triggered (now : ℕ) (id : String) (db : Db) : Result String → Db → Type 0 where
  refused : (e : Failure) → Triggered now id db (err e) db
  made :
      (s : ScheduleRow) (r : ScheduleRunRow) (t : TaskRow)
      → get id db ≡ some s
      → is_blocked s.status ≡ false
      → has_open_run id db ≡ false
      → Starts s now r t
      → Triggered now id db (ok t.id) (audit now "schedule.manual-run" s (with_run r t db))

module _ (delivery : Delivery) (now : ℕ) (draws : RunDraws) (id : String) (db : Db) where
  abbrev Answered : Type 0
  Answered =
      Triggered now id db (trigger delivery now draws id db).0 (trigger delivery now draws id db).1

  trigger_missing : get id db ≡ none → trigger delivery now draws id db ≡ (err invalid, db)
  unfolding trigger require
  trigger_missing e = rw (e, trigger, require)

  module _ (s : ScheduleRow) (e : get id db ≡ some s) where
    trigger_blocked :
        is_blocked s.status ≡ true → trigger delivery now draws id db ≡ (err invalid, db)
    unfolding trigger require
    trigger_blocked b = rw (e, b, trigger, require)

    module _ (b : is_blocked s.status ≡ false) where
      trigger_homeless :
          find_where (has_space_id s.conversation_space_id) db.conversation_spaces ≡ none
          → trigger delivery now draws id db ≡ (err invalid, db)
      unfolding trigger require require_space
      trigger_homeless h = rw (e, b, h, trigger, require, require_space)

      module _ (space : SpaceRow)
          (h : find_where (has_space_id s.conversation_space_id) db.conversation_spaces
            ≡ some space) where
        abbrev known : Bool
        known =
            knows_profile delivery.profile_ids space.agent_profile_id
            && routes_profile delivery.routes space.bot_instance_id space.agent_profile_id

        abbrev sendable : Bool
        sendable = can_send space.kind (delivery.adapters space.bot_instance_id)

        trigger_unknown :
            known ≡ false
            → trigger delivery now draws id db ≡ (err (coded profile_or_driver_missing), db)
        unfolding trigger require require_space require_executable
        trigger_unknown k = rw (e, b, h, k, trigger, require, require_space, require_executable)

        module _ (k : known ≡ true) where
          trigger_unsendable :
              sendable ≡ false
              → trigger delivery now draws id db ≡ (err (coded outbound_platform_rejected), db)
          unfolding trigger require require_space require_executable
          trigger_unsendable c =
              rw (e, b, h, k, c, trigger, require, require_space, require_executable)

          module _ (c : sendable ≡ true) where
            trigger_busy :
                has_open_run id db ≡ true → trigger delivery now draws id db ≡ (err invalid, db)
            unfolding trigger require require_space require_executable
            trigger_busy o =
                rw (e, b, h, k, c, o, trigger, require, require_space, require_executable)

            module _ (o : has_open_run id db ≡ false) where
              trigger_fails :
                  (f : Failure)
                  → (enqueue now draws s space now true db).0 ≡ err f
                  → trigger delivery now draws id db ≡ (err f, db)
              unfolding trigger require require_space require_executable transaction
              trigger_fails f q = rw (
                e, b, h, k, c, o, q, trigger, require, require_space, require_executable,
                transaction,
              )

              trigger_made :
                  (task_id : String) (after : Db)
                  → enqueue now draws s space now true db ≡ (ok task_id, after)
                  → trigger delivery now draws id db
                    ≡ (ok task_id, audit now "schedule.manual-run" s after)
              unfolding trigger require require_space require_executable transaction
              trigger_made task_id after q = rw (
                e, b, h, k, c, o, q, trigger, require, require_space, require_executable,
                transaction,
              )

              trigger_open : get id db ≡ some s → s.id ≡ id → Answered
              trigger_open g i = elim (enqueue-Enqueued now draws s space now true db) [
                | inl (f, q, why) ↦ rw (trigger_fails f q) (refused f)
                | inr (r, t, starts, q) ↦
                    rw (trigger_made t.id (with_run r t db) q) (made s r t g b o starts)
              ]

            trigger_sendable : s.id ≡ id → Answered
            trigger_sendable i = elim (Bool-cases (has_open_run id db)) [
              | inl o ↦ rw (trigger_busy o) (refused invalid)
              | inr o ↦ trigger_open o e i
            ]

          trigger_known : s.id ≡ id → Answered
          trigger_known i = elim (Bool-cases sendable) [
            | inl c ↦ trigger_sendable c i
            | inr c ↦ rw (trigger_unsendable c) (refused (coded outbound_platform_rejected))
          ]

        trigger_housed : s.id ≡ id → Answered
        trigger_housed i = elim (Bool-cases known) [
          | inl k ↦ trigger_known k i
          | inr k ↦ rw (trigger_unknown k) (refused (coded profile_or_driver_missing))
        ]

      trigger_unblocked : s.id ≡ id → Answered
      trigger_unblocked i =
          elim (Option-cases
            (find_where (has_space_id s.conversation_space_id) db.conversation_spaces)) [
              | inl h ↦ rw (trigger_homeless h) (refused invalid)
              | inr (space, h) ↦ trigger_housed space h i
            ]

    trigger_stored : s.id ≡ id → Answered
    trigger_stored i = elim (Bool-cases (is_blocked s.status)) [
      | inl b ↦ rw (trigger_blocked b) (refused invalid)
      | inr b ↦ trigger_unblocked b i
    ]

  -- trigger fails and changes nothing; or it adds one run for now and one queued task, and an audit
  -- row, for a schedule that is kept, is not blocked and has no open task.
  pub trigger-Triggered : Answered
  trigger-Triggered = elim (Option-cases (get id db)) [
    | inl e ↦ rw (trigger_missing e) (refused invalid)
    | inr (s, e) ↦ trigger_stored s e (get_id id db s e)
  ]

IsAlone-Triggered :
    (now : ℕ) (id : String) (db : Db) (r : Result String) (after : Db)
    → Triggered now id db r after
    → IsAlone db
    → IsAlone after
unfolding audit
IsAlone-Triggered now id db r after (refused e) alone = alone
IsAlone-Triggered now id db r after (made s run t g b o starts) alone =
    let own : has_open_run s.id db ≡ false = rw (get_id id db s g) o in
    IsAlone-with_run s now run t db starts own alone

-- trigger keeps every schedule to one open task at most.
pub trigger-IsAlone :
    (delivery : Delivery) (now : ℕ) (draws : RunDraws) (id : String) (db : Db)
    → IsAlone db
    → IsAlone (trigger delivery now draws id db).1
trigger-IsAlone delivery now draws id db =
    IsAlone-Triggered now id db _ _ (trigger-Triggered delivery now draws id db)
