-- ===== src/Identity/Confirmed.antt =====
-- confirmPairing (src/identity/service.ts) may be repeated.
use imgent.Prelude.{
  ℕ, ◌≡◌, inl, inr, String, Option, none, some, Bool, true, false, ◌&&◌, leb, Bool-cases,
  Option-cases, is_some, present, find_where, update_where,
}
use imgent.Store.Directory.{IdentityRow, PrincipalRow, CodeRow, identity_paired}
use imgent.Store.Db.{Db, Failure, Result, ok, err, transaction}
use imgent.Identity.Principals.{
  rejected, is_identity, is_principal, find_identity, find_principal, audit,
}
use imgent.Identity.Pairing.{
  Coding, typed_hash, is_code, is_unused_of, use_code, differs, move_to, Pairing, repeat_pairing,
  first_pairing, confirm_pairing,
}

-- The rows that a code leads to.
pub record Known (hash : String) (db : Db) (c : CodeRow) (i : IdentityRow) (p : PrincipalRow)
    : Type 0 where
  pub found : find_where (is_code hash) db.pairing_codes ≡ some c
  pub identity : find_identity c.platform_identity_id db ≡ some i
  pub principal : find_principal i.principal_id db ≡ some p

abbrev pub answer : CodeRow → IdentityRow → Option String → Pairing
answer c i path = record {
  platform_identity_id = c.platform_identity_id;
  principal_id = i.principal_id;
  workspace = path;
}

-- The database after a code was used for the first time.
abbrev pub paired_db : ℕ → CodeRow → IdentityRow → Option String → Db → Db
paired_db now c i path db =
    audit now i.agent_profile_id i.principal_id none
      (identity_paired c.platform_identity_id (present path))
      (record db {
        pairing_codes =
            update_where (is_unused_of c.platform_identity_id) (use_code now) db.pairing_codes;
        platform_identities =
            update_where (is_identity c.platform_identity_id) (λ j. record j { paired = true })
              db.platform_identities;
        principals =
            update_where (is_principal i.principal_id) (move_to (present path)) db.principals;
      })

-- An error that changes nothing, the answer for a used code, or the use of an unused code.
pub data Confirmed (hash : String) (now : ℕ) (path : Option String) (strict : Bool) (db : Db)
    : Result Pairing → Db → Type 0 where
  refused : (e : Failure) → Confirmed hash now path strict db (err e) db
  repeated :
      (c : CodeRow) (i : IdentityRow) (p : PrincipalRow)
      → Known hash db c i p
      → is_some c.used_at ≡ true
      → i.paired ≡ true
      → (strict && differs (present path) (present p.workspace)) ≡ false
      → Confirmed hash now path strict db (ok (answer c i (present p.workspace))) db
  paired :
      (c : CodeRow) (i : IdentityRow) (p : PrincipalRow)
      → Known hash db c i p
      → is_some c.used_at ≡ false
      → leb c.expires_at now ≡ false
      → Confirmed hash now path strict db
          (ok (answer c i (present path)))
          (paired_db now c i path db)

module _ (coding : Coding) (now : ℕ) (code : String) (path : Option String) (strict : Bool)
    (db : Db) where
  abbrev hash : String
  hash = typed_hash coding code

  abbrev Answered : Type 0
  Answered =
      Confirmed hash now path strict db (confirm_pairing coding now code path strict db).0
        (confirm_pairing coding now code path strict db).1

  no_code :
      find_where (is_code hash) db.pairing_codes ≡ none
      → confirm_pairing coding now code path strict db ≡ (err rejected, db)
  unfolding confirm_pairing transaction
  no_code e = rw (e, confirm_pairing, transaction)

  no_identity :
      (c : CodeRow)
      → find_where (is_code hash) db.pairing_codes ≡ some c
      → find_identity c.platform_identity_id db ≡ none
      → confirm_pairing coding now code path strict db ≡ (err rejected, db)
  unfolding confirm_pairing transaction
  no_identity c e i = rw (e, i, confirm_pairing, transaction)

  no_principal :
      (c : CodeRow) (i : IdentityRow)
      → find_where (is_code hash) db.pairing_codes ≡ some c
      → find_identity c.platform_identity_id db ≡ some i
      → find_principal i.principal_id db ≡ none
      → confirm_pairing coding now code path strict db ≡ (err rejected, db)
  unfolding confirm_pairing transaction
  no_principal c i e h p = rw (e, h, p, confirm_pairing, transaction)

  module _ (c : CodeRow) (i : IdentityRow) (p : PrincipalRow) (known : Known hash db c i p) where
    unpaired :
        is_some c.used_at ≡ true
        → i.paired ≡ false
        → confirm_pairing coding now code path strict db ≡ (err rejected, db)
    unfolding confirm_pairing transaction repeat_pairing
    unpaired u h = rw (
      known.found, known.identity, known.principal, u, h, confirm_pairing, transaction,
      repeat_pairing,
    )

    elsewhere :
        is_some c.used_at ≡ true
        → i.paired ≡ true
        → (strict && differs (present path) (present p.workspace)) ≡ true
        → confirm_pairing coding now code path strict db ≡ (err rejected, db)
    unfolding confirm_pairing transaction repeat_pairing
    elsewhere u h d = rw (
      known.found, known.identity, known.principal, u, h, d, confirm_pairing, transaction,
      repeat_pairing,
    )

    pub again :
        is_some c.used_at ≡ true
        → i.paired ≡ true
        → (strict && differs (present path) (present p.workspace)) ≡ false
        → confirm_pairing coding now code path strict db
          ≡ (ok (answer c i (present p.workspace)), db)
    unfolding confirm_pairing transaction repeat_pairing
    again u h d = rw (
      known.found, known.identity, known.principal, u, h, d, confirm_pairing, transaction,
      repeat_pairing,
    )

    late :
        is_some c.used_at ≡ false
        → leb c.expires_at now ≡ true
        → confirm_pairing coding now code path strict db ≡ (err rejected, db)
    unfolding confirm_pairing transaction first_pairing
    late u l = rw (
      known.found, known.identity, known.principal, u, l, confirm_pairing, transaction,
      first_pairing,
    )

    first :
        is_some c.used_at ≡ false
        → leb c.expires_at now ≡ false
        → confirm_pairing coding now code path strict db
          ≡ (ok (answer c i (present path)), paired_db now c i path db)
    unfolding confirm_pairing transaction first_pairing
    first u l = rw (
      known.found, known.identity, known.principal, u, l, confirm_pairing, transaction,
      first_pairing,
    )

    known_used : is_some c.used_at ≡ true → Answered
    known_used u = elim (Bool-cases i.paired) [
      | inr h ↦ rw (unpaired u h) (refused rejected)
      | inl h ↦ elim (Bool-cases (strict && differs (present path) (present p.workspace))) [
        | inl d ↦ rw (elsewhere u h d) (refused rejected)
        | inr d ↦ rw (again u h d) (repeated c i p known u h d)
      ]
    ]

    known_unused : is_some c.used_at ≡ false → Answered
    known_unused u = elim (Bool-cases (leb c.expires_at now)) [
      | inl l ↦ rw (late u l) (refused rejected)
      | inr l ↦ rw (first u l) (paired c i p known u l)
    ]

  with_identity :
      (c : CodeRow) (i : IdentityRow)
      → find_where (is_code hash) db.pairing_codes ≡ some c
      → find_identity c.platform_identity_id db ≡ some i
      → Answered
  with_identity c i e h = elim (Option-cases (find_principal i.principal_id db)) [
    | inl p ↦ rw (no_principal c i e h p) (refused rejected)
    | inr (p, g) ↦
        let known : Known hash db c i p = record { found = e; identity = h; principal = g } in
        elim (Bool-cases (is_some c.used_at)) [
          | inl u ↦ known_used c i p known u
          | inr u ↦ known_unused c i p known u
        ]
  ]

  pub confirm_pairing-Confirmed : Answered
  confirm_pairing-Confirmed = elim (Option-cases (find_where (is_code hash) db.pairing_codes)) [
    | inl e ↦ rw (no_code e) (refused rejected)
    | inr (c, e) ↦ elim (Option-cases (find_identity c.platform_identity_id db)) [
      | inl h ↦ rw (no_identity c e h) (refused rejected)
      | inr (i, h) ↦ with_identity c i e h
    ]
  ]
