-- ===== src/Identity/Groups.antt =====
-- src/identity/service.ts: who lets a group in, and what is collected there.
use imgent.Prelude.{
  ℕ, String, Option, none, some, Bool, true, false, not, ◌&&◌, ◌==◌, List, if◌then◌else◌,
  find_where, any_where, update_where, delete_where,
}
use imgent.Messaging.{ConversationKind, direct, group, ActorRole}
use imgent.Store.Rows.{TaskRow}
use imgent.Store.Directory.{
  SpaceRow, IdentityRow, MembershipRow, AuthorizationRow, PolicyRow, GroupMode, group_authorized,
  ingestion_changed,
}
use imgent.Store.Db.{Db, plain, Exec, run, gets, guard, ◌>>=◌, ◌>>◌, transaction}
use imgent.Store.Inserts.{upsert}
use imgent.Schedules.Access.{has_space_id, authorizes, is_member, found_or}
use imgent.Identity.Principals.{rejected, is_paired_of, is_session_among, audit}

abbrev pub is_policy_of : String → PolicyRow → Bool
is_policy_of space p = p.conversation_space_id == space

abbrev pub set_policy : String → (PolicyRow → PolicyRow) → Db → Db
set_policy space f db = record db {
  group_policies = update_where (is_policy_of space) f db.group_policies;
}

-- IdentityService.setPlatformFullCapability
unfoldable pub set_platform_full_capability : String → Bool → Db → Db
set_platform_full_capability space available =
    set_policy space (λ p. record p { platform_full_capability = available })

abbrev pub is_group_kind : ConversationKind → Bool
is_group_kind direct = false
is_group_kind group = true

-- existing && existing.authorized_by_principal_id !== authorizedByPrincipalId
abbrev pub is_by_other : String → Option AuthorizationRow → Bool
is_by_other principal none = false
is_by_other principal (some a) = not (a.authorized_by_principal_id == principal)

abbrev pub is_in_space : String → TaskRow → Bool
is_in_space space t = t.conversation_space_id == space

abbrev pub clear_group : Bool → String → Db → Db
clear_group other space db = record db {
  agent_sessions =
      if other
      then delete_where (is_session_among (is_in_space space) db.tasks) db.agent_sessions
      else db.agent_sessions;
}

-- INSERT ... ON CONFLICT(conversation_space_id) DO UPDATE
abbrev pub put_authorization : AuthorizationRow → List AuthorizationRow → List AuthorizationRow
put_authorization a = upsert (authorizes a.conversation_space_id) a

abbrev pub authorization : ℕ → String → String → AuthorizationRow
authorization now space principal = record {
  conversation_space_id = space;
  authorized_by_principal_id = principal;
  created_at = now;
}

abbrev pub is_paired_under : String → String → IdentityRow → Bool
is_paired_under principal profile i = is_paired_of principal i && i.agent_profile_id == profile

-- IdentityService.authorizeGroup
unfoldable pub authorize_group : ℕ → String → String → Exec Unit
authorize_group now space principal = transaction (do
  row ← gets (λ db. find_where (has_space_id space) db.conversation_spaces)
  s ← found_or rejected row
  guard (is_group_kind s.kind) rejected
  paired ←
      gets (λ db. any_where (is_paired_under principal s.agent_profile_id) db.platform_identities)
  guard paired rejected
  existing ← gets (λ db. find_where (authorizes space) db.group_authorizations)
  run (clear_group (is_by_other principal existing) space)
  run (λ db. record db {
    group_authorizations =
        put_authorization (authorization now space principal) db.group_authorizations;
  })
  run (audit now s.agent_profile_id principal (some space) group_authorized))

-- IdentityService.isGroupAuthorized
unfoldable pub is_group_authorized : String → Db → Bool
is_group_authorized space db = any_where (authorizes space) db.group_authorizations

abbrev pub fresh_role : ActorRole → Option MembershipRow → ActorRole
fresh_role role none = role
fresh_role role (some m) = m.role

abbrev pub manages : ActorRole → Bool
manages ActorRole.owner = true
manages ActorRole.admin = true
manages _ = false

abbrev pub allows_mode : GroupMode → PolicyRow → Bool
allows_mode GroupMode.full p = p.platform_full_capability
allows_mode GroupMode.triggered p = true

abbrev pub placed : PolicyRow → Option SpaceRow → Option (PolicyRow × SpaceRow)
placed p none = none
placed p (some s) = some (p, s)

abbrev pub with_space : Option PolicyRow → Db → Option (PolicyRow × SpaceRow)
with_space none db = none
with_space (some p) db =
    placed p (find_where (has_space_id p.conversation_space_id) db.conversation_spaces)

-- IdentityService.changeGroupMode
unfoldable pub change_group_mode : ℕ → String → String → ActorRole → GroupMode → Exec Unit
change_group_mode now space principal role mode = transaction (do
  membership ← gets (λ db. find_where (is_member space principal) db.group_memberships)
  paired ← gets (λ db. any_where (is_paired_of principal) db.platform_identities)
  found ← gets (λ db. with_space (find_where (is_policy_of space) db.group_policies) db)
  policy ← found_or plain found
  guard paired plain
  guard (manages (fresh_role role membership)) plain
  guard (allows_mode mode policy.0) plain
  run (
      set_policy space
        (λ p. record p { mode = mode; changed_by_principal_id = some principal; changed_at = now }))
  run (audit now policy.1.agent_profile_id principal (some space) (ingestion_changed mode)))
