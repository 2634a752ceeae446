-- ===== src/Identity/Hosts.antt =====
-- What authorizeGroup (src/identity/service.ts) comes to.
use imgent.Prelude.{
  ℕ, ◌≡◌, ◌⊎◌, inl, inr, String, none, some, Bool, true, false, ◌&&◌, List, [], ◌∷◌, arith, eq_refl,
  Bool-cases, Option-cases, In, find_where, any_where, delete_where,
}
use imgent.Store.Directory.{SpaceRow, AuthorizationRow, group_authorized}
use imgent.Store.Db.{Db, ok, err, transaction}
use imgent.Store.Inserts.{find_where-upsert}
use imgent.Schedules.Access.{has_space_id, authorizes}
use imgent.Identity.Principals.{rejected, audit}
use imgent.Identity.Groups.{
  is_group_kind, is_by_other, clear_group, put_authorization, authorization, is_paired_under,
  authorize_group,
}

module _ {A : Type 0} where
  pub In-delete_where :
      (p : A → Bool) (xs : List A) (x : A) → In x (delete_where p xs) → p x ≡ false
  unfolding delete_where
  In-delete_where p [] x m = absurd m
  In-delete_where p (y ∷ ys) x m = elim (Bool-cases (p y)) [
    | inl e ↦ In-delete_where p ys x (rw e at m)
    | inr e ↦ elim (rw e at m) [ inl q ↦ rw (q) e | inr k ↦ In-delete_where p ys x k ]
  ]

  -- A search by two tests, the second of which the first row of the first test meets.
  pub find_where-both :
      (q r : A → Bool) (xs : List A) (x : A)
      → find_where q xs ≡ some x
      → r x ≡ true
      → find_where (λ y. q y && r y) xs ≡ some x
  unfolding find_where
  find_where-both q r [] x h k = cc
  find_where-both q r (y ∷ ys) x h k = elim (Bool-cases (q y)) [
    | inl e ↦
        let same : y ≡ x = cc (rw e at h) in
        let own : r y ≡ true = rw (same) k in ground (arith, own)
    | inr e ↦ let rest = find_where-both q r ys x (rw e at h) k in ground (arith, rest)
  ]

pub find_where-put :
    (a : AuthorizationRow) (rows : List AuthorizationRow)
    → find_where (authorizes a.conversation_space_id) (put_authorization a rows) ≡ some a
find_where-put a rows =
    find_where-upsert (authorizes a.conversation_space_id) a rows (eq_refl a.conversation_space_id)

module _ (now : ℕ) (space principal : String) (db : Db) where
  abbrev pub by_other : Bool
  by_other = is_by_other principal (find_where (authorizes space) db.group_authorizations)

  abbrev pub cleared : Db
  cleared = clear_group by_other space db

  abbrev pub hosted : SpaceRow → Db
  hosted s = audit now s.agent_profile_id principal (some space) group_authorized (record cleared {
    group_authorizations =
        put_authorization (authorization now space principal) cleared.group_authorizations;
  })

  -- A group, and a paired identity of the principal under the group's profile.
  pub record Host (s : SpaceRow) : Type 0 where
    pub found : find_where (has_space_id space) db.conversation_spaces ≡ some s
    pub is_group : is_group_kind s.kind ≡ true
    pub is_paired :
        any_where (is_paired_under principal s.agent_profile_id) db.platform_identities ≡ true

  authorize_missing :
      find_where (has_space_id space) db.conversation_spaces ≡ none
      → authorize_group now space principal db ≡ (err rejected, db)
  unfolding authorize_group transaction
  authorize_missing e = rw (e, authorize_group, transaction)

  module _ (s : SpaceRow)
      (e : find_where (has_space_id space) db.conversation_spaces ≡ some s) where
    authorize_direct :
        is_group_kind s.kind ≡ false → authorize_group now space principal db ≡ (err rejected, db)
    unfolding authorize_group transaction
    authorize_direct k = rw (e, k, authorize_group, transaction)

    authorize_stranger :
        is_group_kind s.kind ≡ true
        → any_where (is_paired_under principal s.agent_profile_id) db.platform_identities ≡ false
        → authorize_group now space principal db ≡ (err rejected, db)
    unfolding authorize_group transaction
    authorize_stranger k h = rw (e, k, h, authorize_group, transaction)

  authorize-Host :
      (s : SpaceRow) → Host s → authorize_group now space principal db ≡ (ok tt, hosted s)
  unfolding authorize_group transaction
  authorize-Host s h = rw (h.found, h.is_group, h.is_paired, authorize_group, transaction)

  abbrev pub Outcome : Type 0
  Outcome =
      (authorize_group now space principal db ≡ (err rejected, db))
      ⊎ ((s : SpaceRow) × Host s × (authorize_group now space principal db ≡ (ok tt, hosted s)))

  pub authorize_group-Outcome : Outcome
  authorize_group-Outcome =
      elim (Option-cases (find_where (has_space_id space) db.conversation_spaces)) [
        | inl e ↦ inl (authorize_missing e)
        | inr (s, e) ↦ elim (Bool-cases (is_group_kind s.kind)) [
          | inr k ↦ inl (authorize_direct s e k)
          | inl k ↦
              elim (Bool-cases
                (any_where (is_paired_under principal s.agent_profile_id) db.platform_identities)) [
                  | inr h ↦ inl (authorize_stranger s e k h)
                  | inl h ↦
                      let host : Host s = record { found = e; is_group = k; is_paired = h } in
                      inr (s, host, authorize-Host s host)
                ]
        ]
      ]
