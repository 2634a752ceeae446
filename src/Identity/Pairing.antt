-- ===== src/Identity/Pairing.antt =====
-- src/identity/service.ts: pairing codes.
use imgent.Prelude.{
  ℕ, ◌+◌, String, Option, none, some, Bool, true, false, not, ◌&&◌, ◌==◌, List, [], ◌∷◌, ◌++◌, leb,
  if◌then◌else◌, is_some, present, find_where, any_where, update_where,
}
use imgent.Store.Directory.{IdentityRow, PrincipalRow, CodeRow, identity_paired}
use imgent.Store.Db.{
  Db, plain, constraint, Result, ok, err, Exec, pure, run, gets, guard, ◌>>=◌, ◌>>◌, transaction,
}
use imgent.Schedules.Access.{found_or}
use imgent.Identity.Principals.{
  rejected, is_principal, find_principal, find_identity, set_identity, audit,
}

-- SHA-256 in hexadecimal digits, and String.prototype.toUpperCase.
pub record Coding : Type 0 where
  pub hash : String → String
  pub upper : String → String

-- hashCode(code.toUpperCase())
abbrev pub typed_hash : Coding → String → String
typed_hash coding code = coding.hash (coding.upper code)

abbrev pub is_code : String → CodeRow → Bool
is_code hash c = c.code_hash == hash

-- platform_identity_id = ? AND used_at IS NULL
abbrev pub is_unused_of : String → CodeRow → Bool
is_unused_of identity c = c.platform_identity_id == identity && not (is_some c.used_at)

abbrev pub use_code : ℕ → CodeRow → CodeRow
use_code now c = record c { used_at = some now }

abbrev pub new_code : String → String → ℕ → CodeRow
new_code hash identity expires_at = record {
  code_hash = hash;
  platform_identity_id = identity;
  expires_at = expires_at;
  used_at = none;
}

-- A code of an identity, whose hash is the primary key.
unfoldable pub add_code : CodeRow → List CodeRow → Result (List CodeRow)
add_code c codes =
    if any_where (is_code c.code_hash) codes then err constraint else ok (codes ++ c ∷ [])

abbrev pub put_pairing : Result (List CodeRow) → Exec Unit
put_pairing (ok codes) db = (ok tt, record db { pairing_codes = codes })
put_pairing (err e) db = (err e, db)

-- createPairingCode; the code is drawn by shortCode.
unfoldable pub create_pairing_code : Coding → ℕ → String → String → ℕ → Exec String
create_pairing_code coding now code identity ttl = do
  row ← gets (find_identity identity)
  _ ← found_or plain row
  codes ← gets (λ db. add_code (new_code (coding.hash code) identity (now + ttl)) db.pairing_codes)
  put_pairing codes
  pure code

abbrev pub joined : IdentityRow → Option PrincipalRow → Option (IdentityRow × PrincipalRow)
joined i none = none
joined i (some p) = some (i, p)

-- What a pairing code was made for, with its principal.
abbrev pub with_principal : Option IdentityRow → Db → Option (IdentityRow × PrincipalRow)
with_principal none db = none
with_principal (some i) db = joined i (find_principal i.principal_id db)

-- pairingAgentProfileId
unfoldable pub pairing_agent_profile_id : Coding → String → Exec String
pairing_agent_profile_id coding code = do
  row ← gets (λ db. find_where (is_code (typed_hash coding code)) db.pairing_codes)
  c ← found_or rejected row
  identity ← gets (find_identity c.platform_identity_id)
  i ← found_or rejected identity
  pure i.agent_profile_id

pub record Pairing : Type 0 where
  pub platform_identity_id : String
  pub principal_id : String
  pub workspace : Option String

abbrev pub differs : Option String → Option String → Bool
differs (some a) (some b) = not (a == b)
differs _ _ = false

-- The answer for a code that was used already.
unfoldable pub repeat_pairing :
    CodeRow → IdentityRow → PrincipalRow → Option String → Bool → Exec Pairing
repeat_pairing c i p path strict = do
  guard i.paired rejected
  guard (not (strict && differs (present path) (present p.workspace))) rejected
  pure (record {
    platform_identity_id = c.platform_identity_id;
    principal_id = i.principal_id;
    workspace = present p.workspace;
  })

abbrev pub move_to : Option String → PrincipalRow → PrincipalRow
move_to none p = p
move_to (some path) p = record p { workspace = some path }

-- A code that is used now.
unfoldable pub first_pairing : ℕ → CodeRow → IdentityRow → Option String → Exec Pairing
first_pairing now c i path = do
  guard (not (leb c.expires_at now)) rejected
  run (λ db. record db {
    pairing_codes =
        update_where (is_unused_of c.platform_identity_id) (use_code now) db.pairing_codes;
  })
  set_identity c.platform_identity_id (λ j. record j { paired = true })
  run (λ db. record db {
    principals = update_where (is_principal i.principal_id) (move_to (present path)) db.principals;
  })
  run (
      audit now i.agent_profile_id i.principal_id none
        (identity_paired c.platform_identity_id (present path)))
  pure (record {
    platform_identity_id = c.platform_identity_id;
    principal_id = i.principal_id;
    workspace = present path;
  })

abbrev pub pair_once :
    ℕ → CodeRow → IdentityRow × PrincipalRow → Option String → Bool → Exec Pairing
pair_once now c (i, p) path strict =
    if is_some c.used_at then repeat_pairing c i p path strict else first_pairing now c i path

-- IdentityService.confirmPairing
unfoldable pub confirm_pairing : Coding → ℕ → String → Option String → Bool → Exec Pairing
confirm_pairing coding now code path strict = transaction (do
  row ← gets (λ db. find_where (is_code (typed_hash coding code)) db.pairing_codes)
  c ← found_or rejected row
  found ← gets (λ db. with_principal (find_identity c.platform_identity_id db) db)
  owner ← found_or rejected found
  pair_once now c owner path strict)
