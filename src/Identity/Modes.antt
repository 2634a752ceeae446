-- ===== src/Identity/Modes.antt =====
-- What changeGroupMode (src/identity/service.ts) comes to.
use imgent.Prelude.{
  ℕ, ◌≡◌, ◌⊎◌, inl, inr, String, Option, none, some, Bool, true, false, Bool-cases, Option-cases,
  any_where, find_where,
}
use imgent.Messaging.{ActorRole}
use imgent.Store.Directory.{SpaceRow, PolicyRow, GroupMode, ingestion_changed}
use imgent.Store.Db.{Db, plain, Result, ok, err, transaction}
use imgent.Schedules.Access.{is_member}
use imgent.Identity.Principals.{is_paired_of, audit}
use imgent.Identity.Groups.{
  is_policy_of, set_policy, fresh_role, manages, allows_mode, with_space, change_group_mode,
}

module _ (now : ℕ) (space principal : String) (role : ActorRole) (mode : GroupMode) (db : Db) where
  abbrev found : Option (PolicyRow × SpaceRow)
  found = with_space (find_where (is_policy_of space) db.group_policies) db

  abbrev known_role : ActorRole
  known_role = fresh_role role (find_where (is_member space principal) db.group_memberships)

  abbrev is_paired : Bool
  is_paired = any_where (is_paired_of principal) db.platform_identities

  -- The policy and space of the group, and what the principal is there.
  pub record Permitted (p : PolicyRow) (s : SpaceRow) : Type 0 where
    pub policy : found ≡ some (p, s)
    pub paired : is_paired ≡ true
    pub role_manages : manages known_role ≡ true
    pub capable : allows_mode mode p ≡ true

  abbrev changed : SpaceRow → Db
  changed s = audit now s.agent_profile_id principal (some space) (ingestion_changed mode) (
      set_policy space
        (λ p. record p { mode = mode; changed_by_principal_id = some principal; changed_at = now })
        db)

  abbrev result : Result {0} Unit × Db
  result = change_group_mode now space principal role mode db

  no_policy : found ≡ none → result ≡ (err plain, db)
  unfolding change_group_mode transaction
  no_policy e = rw (e, change_group_mode, transaction)

  module _ (p : PolicyRow) (s : SpaceRow) (e : found ≡ some (p, s)) where
    unpaired : is_paired ≡ false → result ≡ (err plain, db)
    unfolding change_group_mode transaction
    unpaired h = rw (e, h, change_group_mode, transaction)

    no_manager : is_paired ≡ true → manages known_role ≡ false → result ≡ (err plain, db)
    unfolding change_group_mode transaction
    no_manager h m = rw (e, h, m, change_group_mode, transaction)

    incapable :
        is_paired ≡ true
        → manages known_role ≡ true
        → allows_mode mode p ≡ false
        → result ≡ (err plain, db)
    unfolding change_group_mode transaction
    incapable h m c = rw (e, h, m, c, change_group_mode, transaction)

    permitted :
        is_paired ≡ true
        → manages known_role ≡ true
        → allows_mode mode p ≡ true
        → result ≡ (ok tt, changed s)
    unfolding change_group_mode transaction
    permitted h m c = rw (e, h, m, c, change_group_mode, transaction)

  abbrev pub Outcome : Type 0
  Outcome =
      (result ≡ (err plain, db))
      ⊎ ((p : PolicyRow) × (s : SpaceRow) × Permitted p s × (result ≡ (ok tt, changed s)))

  -- changeGroupMode fails and changes nothing, or it sets the mode of the group's policy and writes
  -- one audit row. It does the latter only for a principal with a paired identity that is owner or
  -- admin of the group by the stored membership (by the role given, where none is stored), and for
  -- the full mode only where the platform delivers every message.
  pub change_group_mode-Outcome : Outcome
  change_group_mode-Outcome = elim (Option-cases found) [
    | inl e ↦ inl (no_policy e)
    | inr ((p, s), e) ↦ elim (Bool-cases is_paired) [
      | inr h ↦ inl (unpaired p s e h)
      | inl h ↦ elim (Bool-cases (manages known_role)) [
        | inr m ↦ inl (no_manager p s e h m)
        | inl m ↦ elim (Bool-cases (allows_mode mode p)) [
          | inr c ↦ inl (incapable p s e h m c)
          | inl c ↦ inr (
            p,
            s,
            record { policy = e; paired = h; role_manages = m; capable = c },
            permitted p s e h m c,
          )
        ]
      ]
    ]
  ]
