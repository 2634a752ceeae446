-- ===== src/Schedules/Access.antt =====
-- src/schedule/service.ts: where a schedule may deliver, and in whose name it runs.
use imgent.Prelude.{
  String, Option, none, some, Bool, true, false, not, ◌&&◌, ◌==◌, List, [], ◌∷◌, or_value, present,
  if◌then◌else◌, find_where, any_where, filter_where,
}
use imgent.Errors.Codes.{
  profile_or_driver_missing, outbound_platform_rejected, identity_operation_rejected,
}
use imgent.Messaging.{ConversationKind, direct, group, Actor, platform_beq, kind_beq}
use imgent.Store.Directory.{SpaceRow, IdentityRow, MembershipRow, AuthorizationRow}
use imgent.Store.Db.{Db, Failure, coded, Result, ok, err, Exec, gets, guard, ◌>>=◌, ◌>>◌}
use imgent.Schedules.Rules.{invalid}

-- capabilities of an adapter
pub record Capabilities : Type 0 where
  pub supports_proactive_send : Bool
  pub conversation_kinds : List ConversationKind

-- The constructor's arguments: adapters by bot instance, and, where they are given, the known
-- profiles and the profile that each bot instance is routed to.
pub record Delivery : Type 0 where
  pub adapters : String → Option Capabilities
  pub profile_ids : Option (String → Bool)
  pub routes : Option (String → Option String)

abbrev pub has_space_id : String → SpaceRow → Bool
has_space_id id s = s.id == id

-- A value, or the error where there is none.
abbrev pub found_or : {A : Type 0} → Failure → Option A → Exec A
found_or e none db = (err e, db)
found_or e (some a) db = (ok a, db)

-- ScheduleService.requireSpace
unfoldable pub require_space : String → Exec SpaceRow
require_space id = do
  row ← gets (λ db. find_where (has_space_id id) db.conversation_spaces)
  found_or invalid row

abbrev pub knows_profile : Option (String → Bool) → String → Bool
knows_profile none profile = true
knows_profile (some known) profile = known profile

abbrev pub is_routed_to : Option String → String → Bool
is_routed_to none profile = false
is_routed_to (some p) profile = p == profile

abbrev pub routes_profile : Option (String → Option String) → String → String → Bool
routes_profile none bot profile = true
routes_profile (some routes) bot profile = is_routed_to (routes bot) profile

abbrev pub can_send : ConversationKind → Option Capabilities → Bool
can_send kind none = false
can_send kind (some c) = c.supports_proactive_send && any_where (kind_beq kind) c.conversation_kinds

-- ScheduleService.requireExecutable
unfoldable pub require_executable : Delivery → SpaceRow → Exec Unit
require_executable delivery space = do
  guard
      (knows_profile delivery.profile_ids space.agent_profile_id
        && routes_profile delivery.routes space.bot_instance_id space.agent_profile_id)
      (coded profile_or_driver_missing)
  guard (can_send space.kind (delivery.adapters space.bot_instance_id))
      (coded outbound_platform_rejected)

-- The identity of the person a direct conversation is with.
abbrev pub is_partner : SpaceRow → IdentityRow → Bool
is_partner space i =
    i.agent_profile_id == space.agent_profile_id
    && platform_beq i.platform space.platform
    && i.bot_instance_id == space.bot_instance_id
    && i.platform_user_id == space.platform_conversation_id

abbrev pub is_member : String → String → MembershipRow → Bool
is_member space principal m = m.conversation_space_id == space && m.principal_id == principal

abbrev pub authorizes : String → AuthorizationRow → Bool
authorizes space a = a.conversation_space_id == space

-- requested && requested !== principal
abbrev pub asks_for_other : Option String → String → Bool
asks_for_other none principal = false
asks_for_other (some requested) principal = not (requested == "") && not (requested == principal)

-- Exactly one paired identity, which is the requested one if there is one.
abbrev pub direct_principal : Option String → List IdentityRow → Result String
direct_principal requested (i ∷ []) =
    if asks_for_other requested i.principal_id
    then err (coded identity_operation_rejected)
    else ok i.principal_id
direct_principal requested _ = err (coded identity_operation_rejected)

abbrev pub group_principal : SpaceRow → Option String → Db → Result String
group_principal space none db = err invalid
group_principal space (some requested) db =
    if any_where (is_member space.id requested) db.group_memberships
      && any_where (authorizes space.id) db.group_authorizations
    then ok requested
    else err (coded identity_operation_rejected)

abbrev pub space_principal : SpaceRow → Option String → Db → Result String
space_principal space requested db = elim space.kind [
  | direct ↦
      direct_principal requested
        (filter_where (λ i. is_partner space i && i.paired) db.platform_identities)
  | group ↦ group_principal space (present requested) db
]

abbrev pub lift : {A : Type 0} → Result A → Exec A
lift r db = (r, db)

-- ScheduleService.resolvePrincipal
unfoldable pub resolve_principal : SpaceRow → Option String → Exec String
resolve_principal space requested = do r ← gets (space_principal space requested); lift r

abbrev pub direct_actor : Option IdentityRow → Result Actor
direct_actor none = err (coded identity_operation_rejected)
direct_actor (some i) = ok (record {
  platform_user_id = i.platform_user_id;
  platform_member_id = none;
  role = none;
  display_name = present i.display_name;
})

abbrev pub group_actor : String → Option MembershipRow → Result Actor
group_actor principal none = err (coded identity_operation_rejected)
group_actor principal (some m) = ok (record {
  platform_user_id = or_value m.platform_member_id principal;
  platform_member_id = present m.platform_member_id;
  role = some m.role;
  display_name = present m.display_name;
})

abbrev pub actor_of : SpaceRow → String → Db → Result Actor
actor_of space principal db = elim space.kind [
  | direct ↦
      direct_actor
        (find_where (λ i. i.principal_id == principal && is_partner space i) db.platform_identities)
  | group ↦ group_actor principal (find_where (is_member space.id principal) db.group_memberships)
]

-- ScheduleService.principalActor
unfoldable pub principal_actor : SpaceRow → String → Exec Actor
principal_actor space principal = do r ← gets (actor_of space principal); lift r
