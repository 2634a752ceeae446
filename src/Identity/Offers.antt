-- ===== src/Identity/Offers.antt =====
-- What consumeBindingCode (src/identity/service.ts) comes to.
use imgent.Prelude.{
  ℕ, ◌≡◌, ◌≢◌, ◌≤◌, arith, eq_iff, inl, inr, String, none, some, true, false, ◌==◌, leb, Bool-cases,
  Option-cases, is_some, any_where, find_where, update_where,
}
use imgent.Store.Directory.{IdentityRow, ScheduleRow, CodeRow, identity_bound}
use imgent.Store.Db.{Db, Failure, constraint, plain, Result, ok, err, transaction}
use imgent.Store.Indexes.{has_clash}
use imgent.Identity.Principals.{find_identity, is_identity, audit}
use imgent.Identity.Pairing.{Coding, typed_hash, is_code}
use imgent.Identity.Merge.{moved_memories, merge_principal}
use imgent.Identity.Merged.{
  Merged, owns_schedule, settled, merge_principal-Merged, merge_principal-owner,
}
use imgent.Identity.Binding.{
  Bound, use_binding, bind_same, bind_other, bind_by_code, consume_binding_code,
}

-- A code that is neither used nor expired, for two identities of one profile.
pub record Offer (coding : Coding) (now : ℕ) (code target_id : String) (db : Db) (c : CodeRow)
    (source target : IdentityRow) : Type 0 where
  pub found : find_where (is_code (typed_hash coding code)) db.binding_codes ≡ some c
  pub unused : is_some c.used_at ≡ false
  pub in_time : leb c.expires_at now ≡ false
  pub apart : (c.platform_identity_id == target_id) ≡ false
  pub source_row : find_identity c.platform_identity_id db ≡ some source
  pub target_row : find_identity target_id db ≡ some target
  pub profile : (source.agent_profile_id == target.agent_profile_id) ≡ true

-- Why a code cannot be used for the target.
pub data IsUnusable (coding : Coding) (now : ℕ) (code target_id : String) (db : Db) : Type 0 where
  unknown_code :
      find_where (is_code (typed_hash coding code)) db.binding_codes ≡ none
      → IsUnusable coding now code target_id db
  spent_code :
      (c : CodeRow) (at : ℕ)
      → find_where (is_code (typed_hash coding code)) db.binding_codes ≡ some c
      → c.used_at ≡ some at
      → IsUnusable coding now code target_id db
  expired_code :
      (c : CodeRow)
      → find_where (is_code (typed_hash coding code)) db.binding_codes ≡ some c
      → c.expires_at ≤ now
      → IsUnusable coding now code target_id db
  own_code :
      (c : CodeRow)
      → find_where (is_code (typed_hash coding code)) db.binding_codes ≡ some c
      → c.platform_identity_id ≡ target_id
      → IsUnusable coding now code target_id db
  source_gone :
      (c : CodeRow)
      → find_where (is_code (typed_hash coding code)) db.binding_codes ≡ some c
      → find_identity c.platform_identity_id db ≡ none
      → IsUnusable coding now code target_id db
  target_gone : find_identity target_id db ≡ none → IsUnusable coding now code target_id db
  other_profile :
      (c : CodeRow) (source target : IdentityRow)
      → find_where (is_code (typed_hash coding code)) db.binding_codes ≡ some c
      → find_identity c.platform_identity_id db ≡ some source
      → find_identity target_id db ≡ some target
      → source.agent_profile_id ≢ target.agent_profile_id
      → IsUnusable coding now code target_id db

-- The database with an identity paired.
abbrev pub with_paired : String → Db → Db
with_paired id db = record db {
  platform_identities =
      update_where (is_identity id) (λ i. record i { paired = true }) db.platform_identities;
}

module _ (coding : Coding) (now : ℕ) (code target_id : String) (db : Db) where
  pub data Consumed : Result Bound → Db → Type 0 where
    refused : IsUnusable coding now code target_id db → Consumed (err plain) db
    clashing :
        (c : CodeRow) (source target : IdentityRow)
        → Offer coding now code target_id db c source target
        → (source.principal_id == target.principal_id) ≡ false
        → has_clash (
            moved_memories now target.principal_id source.principal_id
              (settled now target.principal_id source.principal_id
                (use_binding now c.platform_identity_id db)).memory_records)
          ≡ true
        → Consumed (err constraint) db
    scheduled :
        (c : CodeRow) (source target : IdentityRow)
        → Offer coding now code target_id db c source target
        → (source.principal_id == target.principal_id) ≡ false
        → owns_schedule target.principal_id db ≡ true
        → Consumed (err constraint) db
    shared :
        (c : CodeRow) (source target : IdentityRow)
        → Offer coding now code target_id db c source target
        → (source.principal_id == target.principal_id) ≡ true
        → Consumed
            (ok (record { principal_id = source.principal_id; merged_principal_id = none }))
            (with_paired target.id (use_binding now c.platform_identity_id db))
    merged :
        (c : CodeRow) (source target : IdentityRow) (mid : Db)
        → Offer coding now code target_id db c source target
        → (source.principal_id == target.principal_id) ≡ false
        → Merged target.principal_id source.principal_id
            (use_binding now c.platform_identity_id db)
            mid
        → Consumed
            (ok (record {
              principal_id = source.principal_id;
              merged_principal_id = some target.principal_id;
            }))
            (audit now source.agent_profile_id source.principal_id none
              (identity_bound source target)
              (with_paired target.id mid))

  abbrev Answered : Type 0
  Answered =
      Consumed (consume_binding_code coding now code target_id db).0
        (consume_binding_code coding now code target_id db).1

  no_code :
      find_where (is_code (typed_hash coding code)) db.binding_codes ≡ none
      → consume_binding_code coding now code target_id db ≡ (err plain, db)
  unfolding consume_binding_code transaction bind_by_code
  no_code e = rw (e, consume_binding_code, transaction, bind_by_code)

  module _ (c : CodeRow)
      (e : find_where (is_code (typed_hash coding code)) db.binding_codes ≡ some c) where
    pub used :
        is_some c.used_at ≡ true
        → consume_binding_code coding now code target_id db ≡ (err plain, db)
    unfolding consume_binding_code transaction bind_by_code
    used u = rw (e, u, consume_binding_code, transaction, bind_by_code)

    module _ (u : is_some c.used_at ≡ false) where
      late :
          leb c.expires_at now ≡ true
          → consume_binding_code coding now code target_id db ≡ (err plain, db)
      unfolding consume_binding_code transaction bind_by_code
      late l = rw (e, u, l, consume_binding_code, transaction, bind_by_code)

      module _ (l : leb c.expires_at now ≡ false) where
        itself :
            (c.platform_identity_id == target_id) ≡ true
            → consume_binding_code coding now code target_id db ≡ (err plain, db)
        unfolding consume_binding_code transaction bind_by_code
        itself a = rw (e, u, l, a, consume_binding_code, transaction, bind_by_code)

        module _ (a : (c.platform_identity_id == target_id) ≡ false) where
          no_source :
              find_identity c.platform_identity_id db ≡ none
              → consume_binding_code coding now code target_id db ≡ (err plain, db)
          unfolding consume_binding_code transaction bind_by_code
          no_source s = rw (e, u, l, a, s, consume_binding_code, transaction, bind_by_code)

          module _ (source : IdentityRow)
              (s : find_identity c.platform_identity_id db ≡ some source) where
            no_target :
                find_identity target_id db ≡ none
                → consume_binding_code coding now code target_id db ≡ (err plain, db)
            unfolding consume_binding_code transaction bind_by_code
            no_target t = rw (e, u, l, a, s, t, consume_binding_code, transaction, bind_by_code)

            foreign :
                (target : IdentityRow)
                → find_identity target_id db ≡ some target
                → (source.agent_profile_id == target.agent_profile_id) ≡ false
                → consume_binding_code coding now code target_id db ≡ (err plain, db)
            unfolding consume_binding_code transaction bind_by_code
            foreign target t p =
                rw (e, u, l, a, s, t, p, consume_binding_code, transaction, bind_by_code)

  module _ (c : CodeRow) (source target : IdentityRow)
      (offer : Offer coding now code target_id db c source target) where
    one_person :
        (source.principal_id == target.principal_id) ≡ true
        → consume_binding_code coding now code target_id db ≡ (
          ok (record { principal_id = source.principal_id; merged_principal_id = none }),
          with_paired target.id (use_binding now c.platform_identity_id db),
        )
    unfolding consume_binding_code transaction bind_by_code bind_same
    one_person q = rw (
      offer.found, offer.unused, offer.in_time, offer.apart, offer.source_row, offer.target_row,
      offer.profile, q, consume_binding_code, transaction, bind_by_code, bind_same,
    )

    module _ (q : (source.principal_id == target.principal_id) ≡ false) where
      merge_fails :
          (f : Failure)
          → (merge_principal now target.principal_id source.principal_id
              (use_binding now c.platform_identity_id db)).0
            ≡ err f
          → consume_binding_code coding now code target_id db ≡ (err f, db)
      unfolding consume_binding_code transaction bind_by_code bind_other
      merge_fails f m = rw (
        offer.found, offer.unused, offer.in_time, offer.apart, offer.source_row, offer.target_row,
        offer.profile, q, m, consume_binding_code, transaction, bind_by_code, bind_other,
      )

      merge_works :
          (mid : Db)
          → merge_principal now target.principal_id source.principal_id
              (use_binding now c.platform_identity_id db)
            ≡ (ok tt, mid)
          → consume_binding_code coding now code target_id db ≡ (
            ok (record {
              principal_id = source.principal_id;
              merged_principal_id = some target.principal_id;
            }),
            audit now source.agent_profile_id source.principal_id none
                (identity_bound source target)
                (with_paired target.id mid),
          )
      unfolding consume_binding_code transaction bind_by_code bind_other
      merge_works mid m = rw (
        offer.found, offer.unused, offer.in_time, offer.apart, offer.source_row, offer.target_row,
        offer.profile, q, m, consume_binding_code, transaction, bind_by_code, bind_other,
      )

      -- A binding code cannot be used for an identity whose principal owns a schedule, removed or
      -- not, where the two identities are of different principals: the call fails with a constraint
      -- of the schema and changes nothing.
      pub consume_binding_code-owner :
          any_where (λ (s : ScheduleRow). s.principal_id == target.principal_id) db.schedules ≡ true
          → consume_binding_code coding now code target_id db ≡ (err constraint, db)
      unfolding use_binding
      consume_binding_code-owner s = merge_fails constraint (merge_principal-owner now _ _ _ s)

      two_people : Answered
      unfolding use_binding
      two_people =
          elim (merge_principal-Merged now target.principal_id source.principal_id
            (use_binding now c.platform_identity_id db) q) [
              | inl (m, h) ↦ rw (merge_fails constraint m) (clashing c source target offer q h)
              | inr (inl (m, h)) ↦
                  rw (merge_fails constraint m) (scheduled c source target offer q h)
              | inr (inr (mid, m, done)) ↦
                  rw (merge_works mid m) (merged c source target mid offer q done)
            ]

    offered : Answered
    offered = elim (Bool-cases (source.principal_id == target.principal_id)) [
      | inl q ↦ rw (one_person q) (shared c source target offer q)
      | inr q ↦ two_people q
    ]

  module _ (c : CodeRow)
      (e : find_where (is_code (typed_hash coding code)) db.binding_codes ≡ some c)
      (u : is_some c.used_at ≡ false) (l : leb c.expires_at now ≡ false)
      (a : (c.platform_identity_id == target_id) ≡ false) (source : IdentityRow)
      (s : find_identity c.platform_identity_id db ≡ some source) where
    with_source : Answered
    with_source = elim (Option-cases (find_identity target_id db)) [
      | inl t ↦ rw (no_target c e u l a source s t) (refused (target_gone t))
      | inr (target, t) ↦ elim (Bool-cases (source.agent_profile_id == target.agent_profile_id)) [
        | inr p ↦ rw (foreign c e u l a source s target t p) (
            refused (
              other_profile c source target e s t (λ q.
                ground (arith, (eq_iff source.agent_profile_id target.agent_profile_id).1 q))))
        | inl p ↦ offered c source target (record {
          found = e;
          unused = u;
          in_time = l;
          apart = a;
          source_row = s;
          target_row = t;
          profile = p;
        })
      ]
    ]

  with_code :
      (c : CodeRow)
      → find_where (is_code (typed_hash coding code)) db.binding_codes ≡ some c
      → Answered
  with_code c e = elim (Bool-cases (is_some c.used_at)) [
    | inl u ↦ rw (used c e u) (elim (Option-cases c.used_at) [
      | inl n ↦ absurd (ground (arith, n))
      | inr (at, n) ↦ refused (spent_code c at e n)
    ])
    | inr u ↦ elim (Bool-cases (leb c.expires_at now)) [
      | inl l ↦ rw (late c e u l) (refused (expired_code c e (ground arith)))
      | inr l ↦ elim (Bool-cases (c.platform_identity_id == target_id)) [
        | inl a ↦ rw (itself c e u l a) (refused (own_code c e ((eq_iff _ _).0 a)))
        | inr a ↦ elim (Option-cases (find_identity c.platform_identity_id db)) [
          | inl s ↦ rw (no_source c e u l a s) (refused (source_gone c e s))
          | inr (source, s) ↦ with_source c e u l a source s
        ]
      ]
    ]
  ]

  -- consumeBindingCode has five outcomes. It fails and changes nothing, since the code is not there,
  -- used, expired or the target's own, since one of the identities is not there, or since they are of
  -- two profiles. It breaks a constraint and changes nothing, since memories of the two principals
  -- still agree in a unique index after those that stand against each other were settled, or, third,
  -- since the second identity's principal owns a schedule. Fourth, the two identities were of one
  -- principal already, and it pairs the second. Last, the second one's principal is merged into the
  -- first one's: it is gone, nothing that the schema lets refer to a principal refers to it, and its
  -- identities, tasks, events, approvals, policies and authorizations name the other instead, row for
  -- row. In the last two cases every code of the first identity is used, which was found by its hash,
  -- unused and in time, and both identities are of one profile.
  pub consume_binding_code-Consumed : Answered
  consume_binding_code-Consumed =
      elim (Option-cases (find_where (is_code (typed_hash coding code)) db.binding_codes)) [
        | inl e ↦ rw (no_code e) (refused (unknown_code e))
        | inr (c, e) ↦ with_code c e
      ]
