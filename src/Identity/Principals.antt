-- ===== src/Identity/Principals.antt =====
-- src/identity/service.ts: what is known of a principal, and its workspace.
use imgent.Prelude.{
  ℕ, String, Option, none, some, Bool, true, false, not, ◌&&◌, ◌==◌, List, [], ◌∷◌, ◌++◌, nat_beq,
  if◌then◌else◌, present, find_where, any_where, count_where, update_where, delete_where,
}
use imgent.Errors.Codes.{identity_operation_rejected}
use imgent.Messaging.{direct, group}
use imgent.Store.Rows.{TaskStatus, TaskRow}
use imgent.Store.Directory.{
  SpaceRow, IdentityRow, AuthorizationRow, SessionRow, PrincipalRow, Locale, AuditEvent,
  workspace_changed,
}
use imgent.Store.Db.{
  Db, Failure, coded, plain, Exec, pure, run, gets, guard, ◌>>=◌, ◌>>◌, transaction,
}
use imgent.Schedules.Access.{has_space_id, authorizes, found_or}

abbrev pub rejected : Failure
rejected = coded identity_operation_rejected

abbrev pub is_principal : String → PrincipalRow → Bool
is_principal id p = p.id == id

abbrev pub find_principal : String → Db → Option PrincipalRow
find_principal id db = find_where (is_principal id) db.principals

abbrev pub is_identity : String → IdentityRow → Bool
is_identity id i = i.id == id

abbrev pub find_identity : String → Db → Option IdentityRow
find_identity id db = find_where (is_identity id) db.platform_identities

abbrev pub belongs_to : String → IdentityRow → Bool
belongs_to principal i = i.principal_id == principal

-- ... AND paired = 1
abbrev pub is_paired_of : String → IdentityRow → Bool
is_paired_of principal i = belongs_to principal i && i.paired

abbrev pub set_identity : String → (IdentityRow → IdentityRow) → Exec Unit
set_identity id f = run (λ db. record db {
  platform_identities = update_where (is_identity id) f db.platform_identities;
})

abbrev pub set_principal : String → (PrincipalRow → PrincipalRow) → Exec Unit
set_principal id f =
    run (λ db. record db { principals = update_where (is_principal id) f db.principals })

-- IdentityService.audit
unfoldable pub audit : ℕ → String → String → Option String → AuditEvent → Db → Db
audit now profile principal space event db = record db {
  audit_events =
      db.audit_events
      ++ record {
        agent_profile_id = some profile;
        principal_id = some principal;
        conversation_space_id = space;
        event = event;
        created_at = now;
      }
        ∷ [];
}

abbrev pub workspace_of : Option PrincipalRow → Option String
workspace_of none = none
workspace_of (some p) = p.workspace

abbrev pub locale_of : Option PrincipalRow → Option Locale
locale_of none = none
locale_of (some p) = p.locale

abbrev pub is_group_space : String → SpaceRow → Bool
is_group_space id s = has_space_id id s && (elim s.kind [ direct ↦ false | group ↦ true ])

abbrev pub authorizer : Option AuthorizationRow → Db → Option PrincipalRow
authorizer none db = none
authorizer (some a) db = find_principal a.authorized_by_principal_id db

-- The principal that let a group in.
abbrev pub group_host : Option SpaceRow → Db → Option PrincipalRow
group_host none db = none
group_host (some s) db = authorizer (find_where (authorizes s.id) db.group_authorizations) db

abbrev pub own_or_group : Option PrincipalRow → String → Db → Option String
own_or_group (some host) principal db = host.workspace
own_or_group none principal db = workspace_of (find_principal principal db)

abbrev pub workspace_in : Option String → String → Db → Option String
workspace_in none principal db = workspace_of (find_principal principal db)
workspace_in (some id) principal db =
    own_or_group (group_host (find_where (is_group_space id) db.conversation_spaces) db) principal
      db

-- IdentityService.workspace
unfoldable pub workspace : String → Option String → Db → Option String
workspace principal space db = workspace_in (present space) principal db

-- IdentityService.locale
unfoldable pub locale : String → Db → Option Locale
locale principal db = locale_of (find_principal principal db)

-- IdentityService.setLocale
unfoldable pub set_locale : String → Locale → Exec Unit
set_locale principal language = do
  changed ← gets (λ db. count_where (is_principal principal) db.principals)
  set_principal principal (λ p. record p { locale = some language })
  guard (nat_beq changed 1) plain

abbrev pub is_paired_identity : Option IdentityRow → Bool
is_paired_identity none = false
is_paired_identity (some i) = i.paired

-- IdentityService.isPaired
unfoldable pub is_paired : String → Db → Bool
is_paired identity db = is_paired_identity (find_identity identity db)

-- IdentityService.agentProfileId
unfoldable pub agent_profile_id : String → Exec String
agent_profile_id principal = do
  row ← gets (find_principal principal)
  p ← found_or rejected row
  pure p.agent_profile_id

abbrev pub is_authorized_by : String → Option AuthorizationRow → Bool
is_authorized_by principal none = false
is_authorized_by principal (some a) = a.authorized_by_principal_id == principal

-- Whether a task in a space works in the workspace of a principal.
abbrev pub works_in : String → Option SpaceRow → List AuthorizationRow → TaskRow → Bool
works_in principal none authorizations t = false
works_in principal (some s) authorizations t = elim s.kind [
  | direct ↦ t.principal_id == principal
  | group ↦ is_authorized_by principal (find_where (authorizes s.id) authorizations)
]

unfoldable pub works_for : String → Db → TaskRow → Bool
works_for principal db t =
    works_in principal (find_where (has_space_id t.conversation_space_id) db.conversation_spaces)
      db.group_authorizations t

abbrev pub is_at_work : TaskStatus → Bool
is_at_work TaskStatus.active = true
is_at_work TaskStatus.waiting_approval = true
is_at_work _ = false

abbrev pub is_key : String → Option String → Bool
is_key key none = false
is_key key (some k) = k == key

-- The sessions of the tasks that a test selects.
abbrev pub is_session_among : (TaskRow → Bool) → List TaskRow → SessionRow → Bool
is_session_among select tasks s =
    any_where (λ t. is_key s.conversation_key t.session_key && select t) tasks

abbrev pub clears : String → Db → SessionRow → Bool
clears principal db = is_session_among (works_for principal db) db.tasks

-- IdentityService.clearSessionsForPrincipal
unfoldable pub clear_sessions_for_principal : String → Db → Db × ℕ
clear_sessions_for_principal principal db = (
  record db { agent_sessions = delete_where (clears principal db) db.agent_sessions },
  count_where (clears principal db) db.agent_sessions,
)

pub record WorkspaceChange : Type 0 where
  pub previous_workspace : Option String
  pub workspace : String
  pub cleared_sessions : ℕ

abbrev pub is_same_workspace : Option String → String → Bool
is_same_workspace none path = false
is_same_workspace (some w) path = w == path

-- setWorkspace, where the workspace is another one.
unfoldable pub move_workspace : ℕ → PrincipalRow → String → Exec WorkspaceChange
move_workspace now p path = do
  working ← gets (λ db. any_where (λ t. is_at_work t.status && works_for p.id db t) db.tasks)
  guard (not working) rejected
  set_principal p.id (λ q. record q { workspace = some path })
  cleared ← gets (λ db. (clear_sessions_for_principal p.id db).1)
  run (λ db. (clear_sessions_for_principal p.id db).0)
  run (audit now p.agent_profile_id p.id none (workspace_changed p.workspace path cleared))
  pure (record {
    previous_workspace = present p.workspace;
    workspace = path;
    cleared_sessions = cleared;
  })

-- setWorkspace, where the principal is paired.
abbrev pub change_workspace : ℕ → PrincipalRow → String → Exec WorkspaceChange
change_workspace now p path =
    if is_same_workspace p.workspace path
    then pure (record {
      previous_workspace = present p.workspace;
      workspace = path;
      cleared_sessions = 0;
    })
    else move_workspace now p path

-- IdentityService.setWorkspace
unfoldable pub set_workspace : ℕ → String → String → Exec WorkspaceChange
set_workspace now principal path = transaction (do
  row ← gets (find_principal principal)
  p ← found_or rejected row
  paired ← gets (λ db. any_where (is_paired_of p.id) db.platform_identities)
  guard paired rejected
  change_workspace now p path)
