-- ===== src/Identity/Binding.antt =====
-- src/identity/service.ts: binding codes, which make one person of two identities, and unbinding.
use imgent.Prelude.{
  ℕ, ◌+◌, String, Option, none, some, true, not, ◌==◌, List, [], ◌∷◌, ◌++◌, leb, if◌then◌else◌,
  is_some, find_where, count_where, update_where,
}
use imgent.Store.Directory.{IdentityRow, PrincipalRow, CodeRow, identity_bound, identity_unbound}
use imgent.Store.Db.{
  Db, plain, Result, ok, err, Exec, pure, run, gets, guard, ◌>>=◌, ◌>>◌, transaction,
}
use imgent.Schedules.Access.{found_or}
use imgent.Identity.Principals.{
  find_identity, belongs_to, is_paired_identity, set_identity, workspace, locale, audit,
}
use imgent.Identity.Pairing.{
  Coding, typed_hash, is_code, is_unused_of, use_code, new_code, add_code,
}
use imgent.Identity.Merge.{merge_principal}

abbrev pub put_binding : Result (List CodeRow) → Exec Unit
put_binding (ok codes) db = (ok tt, record db { binding_codes = codes })
put_binding (err e) db = (err e, db)

-- createBindingCode; the code is drawn by shortCode.
unfoldable pub create_binding_code : Coding → ℕ → String → String → ℕ → Exec String
create_binding_code coding now code identity ttl = do
  row ← gets (find_identity identity)
  guard (is_paired_identity row) plain
  codes ← gets (λ db. add_code (new_code (coding.hash code) identity (now + ttl)) db.binding_codes)
  put_binding codes
  pure code

pub record Bound : Type 0 where
  pub principal_id : String
  pub merged_principal_id : Option String

abbrev pub pair_identity : String → Exec Unit
pair_identity id = set_identity id (λ i. record i { paired = true })

unfoldable pub use_binding : ℕ → String → Db → Db
use_binding now identity db = record db {
  binding_codes = update_where (is_unused_of identity) (use_code now) db.binding_codes;
}

-- The two identities already belong to one principal.
unfoldable pub bind_same : IdentityRow → IdentityRow → Exec Bound
bind_same source target = do
  pair_identity target.id
  pure (record { principal_id = source.principal_id; merged_principal_id = none })

unfoldable pub bind_other : ℕ → IdentityRow → IdentityRow → Exec Bound
bind_other now source target = do
  merge_principal now target.principal_id source.principal_id
  pair_identity target.id
  run (audit now source.agent_profile_id source.principal_id none (identity_bound source target))
  pure (record {
    principal_id = source.principal_id;
    merged_principal_id = some target.principal_id;
  })

abbrev pub bind : ℕ → IdentityRow → IdentityRow → Exec Bound
bind now source target =
    if source.principal_id == target.principal_id
    then bind_same source target
    else bind_other now source target

-- The body of the transaction of consumeBindingCode.
unfoldable pub bind_by_code : Coding → ℕ → String → String → Exec Bound
bind_by_code coding now code target_id = do
  row ← gets (λ db. find_where (is_code (typed_hash coding code)) db.binding_codes)
  c ← found_or plain row
  guard (not (is_some c.used_at)) plain
  guard (not (leb c.expires_at now)) plain
  guard (not (c.platform_identity_id == target_id)) plain
  from ← gets (find_identity c.platform_identity_id)
  source ← found_or plain from
  to ← gets (find_identity target_id)
  target ← found_or plain to
  guard (source.agent_profile_id == target.agent_profile_id) plain
  run (use_binding now c.platform_identity_id)
  bind now source target

-- IdentityService.consumeBindingCode
unfoldable pub consume_binding_code : Coding → ℕ → String → String → Exec Bound
consume_binding_code coding now code target_id =
    transaction (bind_by_code coding now code target_id)

pub record Unbound : Type 0 where
  pub previous_principal_id : String
  pub principal_id : String

abbrev pub fresh_principal : ℕ → String → IdentityRow → Db → PrincipalRow
fresh_principal now id i db = record {
  id = id;
  agent_profile_id = i.agent_profile_id;
  locale = locale i.principal_id db;
  workspace = workspace i.principal_id none db;
  created_at = now;
}

-- unbindPlatformIdentity, on an identity that is paired and shares its principal.
unfoldable pub split_identity : ℕ → String → IdentityRow → Exec Unbound
split_identity now fresh i = do
  run (λ db. record db { principals = db.principals ++ fresh_principal now fresh i db ∷ [] })
  set_identity i.id (λ j. record j { principal_id = fresh })
  run (use_binding now i.id)
  run (audit now i.agent_profile_id fresh none (identity_unbound i.principal_id i))
  pure (record { previous_principal_id = i.principal_id; principal_id = fresh })

-- IdentityService.unbindPlatformIdentity; the id of the new principal is an argument.
unfoldable pub unbind_platform_identity : ℕ → String → String → Exec Unbound
unbind_platform_identity now fresh identity = transaction (do
  row ← gets (find_identity identity)
  i ← found_or plain row
  guard i.paired plain
  shared ← gets (λ db. count_where (belongs_to i.principal_id) db.platform_identities)
  guard (leb 2 shared) plain
  split_identity now fresh i)
