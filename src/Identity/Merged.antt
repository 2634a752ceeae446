-- ===== src/Identity/Merged.antt =====
-- What mergePrincipal (src/identity/service.ts) comes to.
use imgent.Prelude.{
  ℕ, ◌≡◌, ◌⊎◌, inl, inr, refl, ap, sym, ◌∙◌, ◌||◌, Bool, filter_where, String, none, some, true,
  false, ◌==◌, List, [], ◌∷◌, arith, Bool-cases, any_where, find_where, delete_where, update_where,
}
use imgent.Store.Rows.{TaskRow, ApprovalRow}
use imgent.Store.Directory.{
  IdentityRow, ScheduleRow, CodeRow, PrincipalRow, MembershipRow, AuthorizationRow, PolicyRow,
  EventRow,
}
use imgent.Store.Memories.{MemoryRow}
use imgent.Store.Indexes.{is_text, has_clash, is_referred}
use imgent.Store.Db.{Db, constraint, ok, err}
use imgent.Identity.Principals.{is_principal, find_principal, clear_sessions_for_principal}
use imgent.Identity.Merge.{
  is_newer, conflicts, supersede, settle_conflicts, settle_memories, merge_memories, merge_locale,
  rename_principal, moved_memories, move_memories, put_memberships, merge_memberships,
  delete_principal, merge_principal,
}

-- The tables that the settlement of memories leaves alone.
abbrev kept :
    Db
    → List IdentityRow
      × List ScheduleRow
      × List CodeRow
      × List TaskRow
      × List EventRow
      × List ApprovalRow
      × List PolicyRow
      × List AuthorizationRow
kept db = (
  db.platform_identities, db.schedules, db.binding_codes, db.tasks, db.inbound_events, db.approvals,
  db.group_policies, db.group_authorizations,
)

settle_conflicts-kept :
    (now : ℕ) (m : MemoryRow) (cs : List MemoryRow) (db : Db)
    → kept (settle_conflicts now m cs db) ≡ kept db
unfolding settle_conflicts supersede
settle_conflicts-kept now m [] db = refl
settle_conflicts-kept now m (c ∷ cs) db = elim (Bool-cases (is_newer m c)) [
  | inl e ↦ rw (e, settle_conflicts) (settle_conflicts-kept now m cs (supersede now c.id db))
  | inr e ↦ rw (e, settle_conflicts)
]

settle_memories-kept :
    (now : ℕ) (to : String) (ms : List MemoryRow) (db : Db)
    → kept (settle_memories now to ms db) ≡ kept db
unfolding settle_memories
settle_memories-kept now to [] db = refl
settle_memories-kept now to (m ∷ ms) db =
    settle_memories-kept now to ms (settle_conflicts now m (conflicts to m db) db)
    ∙ settle_conflicts-kept now m (conflicts to m db) db

find_where-delete_where :
    (id : String) (ps : List PrincipalRow)
    → find_where (is_principal id) (delete_where (is_principal id) ps) ≡ none
unfolding find_where delete_where
find_where-delete_where id [] = refl
find_where-delete_where id (p ∷ ps) = elim (Bool-cases (is_principal id p)) [
  | inl e ↦ rw (e, delete_where) (find_where-delete_where id ps)
  | inr e ↦ ground (arith, find_where-delete_where id ps)
]

module _ {A : Type 0} (p : A → Bool) where
  none_renamed :
      (f : A → A)
      → ((x : A) → p (f x) ≡ false)
      → (xs : List A) → any_where p (update_where p f xs) ≡ false
  unfolding any_where update_where
  none_renamed f h [] = refl
  none_renamed f h (x ∷ xs) = elim (Bool-cases (p x)) [
    | inl e ↦ ground (arith, h x, none_renamed f h xs)
    | inr e ↦ ground (arith, e, none_renamed f h xs)
  ]

  none_deleted : (xs : List A) → any_where p (delete_where p xs) ≡ false
  unfolding any_where delete_where
  none_deleted [] = refl
  none_deleted (x ∷ xs) = elim (Bool-cases (p x)) [
    | inl e ↦ rw (e, delete_where) (none_deleted xs)
    | inr e ↦ ground (arith, none_deleted xs)
  ]

only_schedules :
    (b : Bool) → (false || false || false || false || false || b || false || false || false) ≡ b
only_schedules b = ground arith

-- One principal is gone, no row refers to it, and what was its own, but memberships and memories, is
-- now the other's, row for row.
pub record Merged (old new : String) (db after : Db) : Type 0 where
  pub free : is_referred old after ≡ false
  pub gone : find_principal old after ≡ none
  pub identities :
      after.platform_identities
      ≡ update_where
          (λ i. i.principal_id == old)
          (λ i. record i { principal_id = new })
          db.platform_identities
  pub tasks :
      after.tasks
      ≡ update_where (λ t. t.principal_id == old) (λ t. record t { principal_id = new }) db.tasks
  pub events :
      after.inbound_events
      ≡ update_where
          (λ e. e.principal_id == old)
          (λ e. record e { principal_id = new })
          db.inbound_events
  pub approvals :
      after.approvals
      ≡ update_where
          (λ a. a.principal_id == old)
          (λ a. record a { principal_id = new })
          db.approvals
  pub policies :
      after.group_policies
      ≡ update_where
          (λ p. is_text old p.changed_by_principal_id)
          (λ p. record p { changed_by_principal_id = some new })
          db.group_policies
  pub authorizations :
      after.group_authorizations
      ≡ update_where
          (λ a. a.authorized_by_principal_id == old)
          (λ a. record a { authorized_by_principal_id = new })
          db.group_authorizations
  pub schedules : after.schedules ≡ db.schedules
  pub codes : after.binding_codes ≡ db.binding_codes

-- Some schedule, removed or not, is of the principal.
abbrev pub owns_schedule : String → Db → Bool
owns_schedule id db = any_where (λ (s : ScheduleRow). s.principal_id == id) db.schedules

module _ (now : ℕ) (old new : String) (db : Db) where
  abbrev pub settled : Db
  settled =
      merge_memories now old new (clear_sessions_for_principal old (merge_locale old new db)).0

  abbrev renamed : Db
  renamed = rename_principal old new settled

  abbrev moved : Db
  moved =
      merge_memberships old new
        (record renamed { memory_records = moved_memories now old new renamed.memory_records })

  abbrev done : Db
  done = record moved { principals = delete_where (is_principal old) moved.principals }

  settled-kept : kept settled ≡ kept db
  unfolding merge_locale clear_sessions_for_principal
  settled-kept = settle_memories-kept now new _ _

  merge_clashes :
      has_clash (moved_memories now old new renamed.memory_records) ≡ true
      → (merge_principal now old new db).0 ≡ err constraint
  unfolding merge_principal move_memories
  merge_clashes h = rw (h, merge_principal, move_memories)

  merge_referred :
      has_clash (moved_memories now old new renamed.memory_records) ≡ false
      → is_referred old moved ≡ true
      → (merge_principal now old new db).0 ≡ err constraint
  unfolding merge_principal move_memories delete_principal
  merge_referred h r = rw (h, r, merge_principal, move_memories, delete_principal)

  merge_done :
      has_clash (moved_memories now old new renamed.memory_records) ≡ false
      → is_referred old moved ≡ false
      → merge_principal now old new db ≡ (ok tt, done)
  unfolding merge_principal move_memories delete_principal
  merge_done h r = rw (h, r, merge_principal, move_memories, delete_principal)

  done-Merged : is_referred old moved ≡ false → Merged old new db done
  unfolding is_referred rename_principal merge_memberships
  done-Merged r = record {
    free = r;
    gone = find_where-delete_where old moved.principals;
    identities =
        ap
          (λ k.
            update_where (λ i. i.principal_id == old) (λ i. record i { principal_id = new }) k.0)
          settled-kept;
    tasks =
        ap
          (λ k.
            update_where (λ t. t.principal_id == old) (λ t. record t { principal_id = new }) k.3)
          settled-kept;
    events =
        ap
          (λ k.
            update_where (λ e. e.principal_id == old) (λ e. record e { principal_id = new }) k.4)
          settled-kept;
    approvals =
        ap
          (λ k.
            update_where (λ a. a.principal_id == old) (λ a. record a { principal_id = new }) k.5)
          settled-kept;
    policies =
        ap
          (λ k.
            update_where (λ p. is_text old p.changed_by_principal_id)
              (λ p. record p { changed_by_principal_id = some new }) k.6)
          settled-kept;
    authorizations =
        ap
          (λ k.
            update_where (λ a. a.authorized_by_principal_id == old)
              (λ a. record a { authorized_by_principal_id = new }) k.7)
          settled-kept;
    schedules = ap (λ k. k.1) settled-kept;
    codes = ap (λ k. k.2) settled-kept;
  }

  -- After the renames only a schedule can refer to the principal.
  moved_referred : (new == old) ≡ false → is_referred old moved ≡ owns_schedule old db
  unfolding is_referred rename_principal merge_memberships
  moved_referred other =
      rw
        (
          none_renamed (λ (i : IdentityRow). i.principal_id == old)
              (λ i. record i { principal_id = new }) (λ i. other) settled.platform_identities,
          none_deleted (λ (m : MembershipRow). m.principal_id == old)
              (put_memberships new
                (filter_where (λ m. m.principal_id == old) settled.group_memberships)
                settled.group_memberships),
          none_renamed (λ (p : PolicyRow). is_text old p.changed_by_principal_id)
              (λ p. record p { changed_by_principal_id = some new }) (λ p. other)
              settled.group_policies,
          none_renamed (λ (a : AuthorizationRow). a.authorized_by_principal_id == old)
              (λ a. record a { authorized_by_principal_id = new }) (λ a. other)
              settled.group_authorizations,
          none_renamed (λ (e : EventRow). e.principal_id == old)
              (λ e. record e { principal_id = new }) (λ e. other) settled.inbound_events,
          none_renamed (λ (t : TaskRow). t.principal_id == old)
              (λ t. record t { principal_id = new }) (λ t. other) settled.tasks,
          none_renamed (λ (a : ApprovalRow). a.principal_id == old)
              (λ a. record a { principal_id = new }) (λ a. other) settled.approvals,
          none_renamed (λ (m : MemoryRow). is_text old m.principal_id)
              (λ m. record m { principal_id = some new; updated_at = now }) (λ m. other)
              settled.memory_records,
          ap (λ k. k.1) settled-kept,
        )
        (only_schedules (owns_schedule old db))

  pub merge_principal-Merged :
      (new == old) ≡ false
      → (((merge_principal now old new db).0 ≡ err constraint)
          × (has_clash (moved_memories now old new settled.memory_records) ≡ true))
        ⊎ (((merge_principal now old new db).0 ≡ err constraint) × (owns_schedule old db ≡ true))
        ⊎ ((after : Db) × (merge_principal now old new db ≡ (ok tt, after))
            × Merged old new db after)
  unfolding rename_principal
  merge_principal-Merged other =
      elim (Bool-cases (has_clash (moved_memories now old new renamed.memory_records))) [
        | inl h ↦ inl (merge_clashes h, h)
        | inr h ↦ elim (Bool-cases (is_referred old moved)) [
          | inl r ↦ inr (inl (merge_referred h r, sym (moved_referred other) ∙ r))
          | inr r ↦ inr (inr (done, merge_done h r, done-Merged r))
        ]
      ]

  -- A schedule of the principal that is to go stands in the way.
  pub merge_principal-owner :
      owns_schedule old db ≡ true → (merge_principal now old new db).0 ≡ err constraint
  unfolding is_referred rename_principal merge_memberships
  merge_principal-owner s =
      elim (Bool-cases (has_clash (moved_memories now old new renamed.memory_records))) [
        | inl h ↦ merge_clashes h
        | inr h ↦
            let owns : owns_schedule old moved ≡ true =
              ap (λ k. any_where (λ (u : ScheduleRow). u.principal_id == old) k.1) settled-kept
              ∙ s in
            merge_referred h (ground (arith, owns))
      ]
