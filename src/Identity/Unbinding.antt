-- ===== src/Identity/Unbinding.antt =====
-- What unbindPlatformIdentity (src/identity/service.ts) comes to, and what it means for schedules.
use imgent.Prelude.{
  ℕ, ◌≡◌, ◌⊎◌, inl, inr, sym, ap, ◌∙◌, String, none, some, Bool, true, false, ◌==◌, ◌&&◌, [], ◌∷◌,
  ◌++◌, In, arith, leb, Bool-cases, Option-cases, find_where, find_where-some, update_where,
  In-update_where, count_where, subst,
}
use imgent.Messaging.{direct}
use imgent.Store.Directory.{SpaceRow, IdentityRow, ScheduleRow, identity_unbound}
use imgent.Store.Db.{Db, plain, Result, ok, err, transaction}
use imgent.Schedules.Access.{is_partner, actor_of}
use imgent.Schedules.Runs.{RunDraws, enqueue}
use imgent.Schedules.Started.{enqueue-stranger}
use imgent.Identity.Principals.{rejected, is_identity, find_identity, belongs_to, audit}
use imgent.Identity.Binding.{
  Unbound, use_binding, fresh_principal, split_identity, unbind_platform_identity,
}

module _ (now : ℕ) (fresh identity : String) (db : Db) where
  abbrev pub result : Result Unbound × Db
  result = unbind_platform_identity now fresh identity db

  abbrev alone : IdentityRow → Bool
  alone i = leb 2 (count_where (belongs_to i.principal_id) db.platform_identities)

  -- The new principal, which the identity belongs to from now on.
  abbrev pub split : IdentityRow → Db
  split i = audit now i.agent_profile_id fresh none (identity_unbound i.principal_id i) (
      use_binding now i.id (record db {
        principals = db.principals ++ fresh_principal now fresh i db ∷ [];
        platform_identities =
            update_where (is_identity i.id) (λ j. record j { principal_id = fresh })
              db.platform_identities;
      }))

  unknown : find_identity identity db ≡ none → result ≡ (err plain, db)
  unfolding unbind_platform_identity transaction
  unknown e = rw (e, unbind_platform_identity, transaction)

  module _ (i : IdentityRow) (e : find_identity identity db ≡ some i) where
    unpaired : i.paired ≡ false → result ≡ (err plain, db)
    unfolding unbind_platform_identity transaction
    unpaired h = rw (e, h, unbind_platform_identity, transaction)

    single : i.paired ≡ true → alone i ≡ false → result ≡ (err plain, db)
    unfolding unbind_platform_identity transaction
    single h s = rw (e, h, s, unbind_platform_identity, transaction)

    splits :
        i.paired ≡ true
        → alone i ≡ true
        → result
          ≡ (ok (record { previous_principal_id = i.principal_id; principal_id = fresh }), split i)
    unfolding unbind_platform_identity transaction split_identity
    splits h s = rw (e, h, s, unbind_platform_identity, transaction, split_identity)

  abbrev pub Outcome : Type 0
  Outcome =
      (result ≡ (err plain, db))
      ⊎ ((i : IdentityRow) × (find_identity identity db ≡ some i)
          × (i.paired ≡ true)
          × (leb 2 (count_where (belongs_to i.principal_id) db.platform_identities) ≡ true)
          × (result ≡ (
            ok (record { previous_principal_id = i.principal_id; principal_id = fresh }),
            split i,
          )))

  pub unbind_platform_identity-Outcome : Outcome
  unbind_platform_identity-Outcome = elim (Option-cases (find_identity identity db)) [
    | inl e ↦ inl (unknown e)
    | inr (i, e) ↦ elim (Bool-cases i.paired) [
      | inr h ↦ inl (unpaired i e h)
      | inl h ↦ elim (Bool-cases (alone i)) [
        | inr s ↦ inl (single i e h s)
        | inl s ↦ inr (i, e, h, s, splits i e h s)
      ]
    ]
  ]

  module _ (space : SpaceRow) (i : IdentityRow) (is_direct : space.kind ≡ direct)
      (other : (fresh == i.principal_id) ≡ false)
      (unique : (j : IdentityRow)
        → In j db.platform_identities
        → is_partner space j ≡ true
        → (j.id == i.id) ≡ true) where
    abbrev of_principal : IdentityRow → Bool
    of_principal j = j.principal_id == i.principal_id && is_partner space j

    abbrev moved : IdentityRow → IdentityRow
    moved j = record j { principal_id = fresh }

    no_row :
        (y : IdentityRow)
        → In y (update_where (is_identity i.id) moved db.platform_identities)
        → of_principal y ≡ true
        → ⊥
    no_row y m q =
        let (x, n, same) = In-update_where (is_identity i.id) moved db.platform_identities y m in
        elim (Bool-cases (is_identity i.id x)) [
          | inl k ↦
              let own : y ≡ moved x = rw k at same in
              let hit : of_principal (moved x) ≡ true = subst (λ z. of_principal z ≡ true) own q in
              ground (arith, hit, other)
          | inr k ↦
              let own : y ≡ x = rw k at same in
              let hit : of_principal x ≡ true = subst (λ z. of_principal z ≡ true) own q in
              let partner : is_partner space x ≡ true = ground (arith, hit) in
              let same_id = unique x n partner in cc
        ]

    no_partner :
        find_where of_principal (update_where (is_identity i.id) moved db.platform_identities)
        ≡ none
    no_partner =
        elim (Option-cases (
          find_where of_principal (update_where (is_identity i.id) moved db.platform_identities))) [
            | inl e ↦ e
            | inr (y, e) ↦ let (m, q) = find_where-some of_principal _ y e in absurd (no_row y m q)
          ]

    split-actor_of : actor_of space i.principal_id (split i) ≡ err rejected
    unfolding audit use_binding
    split-actor_of = rw (is_direct, no_partner)

    -- After an identity was unbound, no run of a schedule of its former principal can be made in the
    -- direct conversation with it, by the planner or by hand: enqueue rejects the principal. The new
    -- principal's id differs, and no other identity is the partner of that conversation.
    pub unbind_platform_identity-enqueue :
        (b : Unbound) (at : ℕ) (draws : RunDraws) (s : ScheduleRow) (scheduled_for : ℕ)
        (manual : Bool)
        → find_identity identity db ≡ some i
        → result.0 ≡ ok b
        → s.principal_id ≡ i.principal_id
        → enqueue at draws s space scheduled_for manual result.1 ≡ (err rejected, result.1)
    unbind_platform_identity-enqueue b at draws s scheduled_for manual e succeeds same =
        elim unbind_platform_identity-Outcome [
          | inl f ↦ let first : err plain ≡ ok b = sym (ap (λ r. r.0) f) ∙ succeeds in absurd (cc)
          | inr (j, found, p, shared, f) ↦
              let row : j ≡ i = cc (sym found ∙ e) in
              rw (f, row)
                (enqueue-stranger at draws s space scheduled_for manual (split i) rejected
                  (rw (same) split-actor_of))
        ]
