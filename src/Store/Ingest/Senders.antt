-- ===== src/Store/Ingest/Senders.antt =====
-- src/storage/store.ts: who sent a message and where, ensureIdentity, ensureConversationSpace and
-- upsertGroupMembership.
use imgent.Prelude.{
  ℕ, String, Option, none, some, Bool, true, false, ◌&&◌, ◌==◌, List, [], ◌∷◌, ◌++◌, if◌then◌else◌,
  or_value, find_where, update_where,
}
use imgent.Messaging.{Platform, is_group, ActorRole, InboundMessage, platform_beq, kind_beq}
use imgent.Store.Directory.{SpaceRow, IdentityRow, PrincipalRow, PolicyRow, GroupMode}
use imgent.Store.Db.{Db, plain, ok, err, Exec}
use imgent.Store.Inserts.{put_membership}
use imgent.Store.Ingest.{IngestDraws}

-- UNIQUE(agent_profile_id, platform, bot_instance_id, platform_user_id)
abbrev pub is_sender : String → InboundMessage → IdentityRow → Bool
is_sender profile m i =
    i.agent_profile_id == profile
    && platform_beq i.platform m.platform
    && i.bot_instance_id == m.bot_instance_id
    && i.platform_user_id == m.actor.platform_user_id

abbrev pub new_principal : ℕ → String → String → PrincipalRow
new_principal now id profile = record {
  id = id;
  agent_profile_id = profile;
  locale = none;
  workspace = none;
  created_at = now;
}

abbrev pub new_identity : ℕ → IngestDraws → String → InboundMessage → IdentityRow
new_identity now draws profile m = record {
  id = draws.identity_id;
  agent_profile_id = profile;
  platform = m.platform;
  bot_instance_id = m.bot_instance_id;
  platform_user_id = m.actor.platform_user_id;
  principal_id = draws.principal_id;
  display_name = m.actor.display_name;
  paired = false;
  created_at = now;
}

-- The id of the identity and of its principal.
abbrev pub put_identity :
    ℕ → IngestDraws → String → InboundMessage → Option IdentityRow → Db → Db × (String × String)
put_identity now draws profile m (some i) db = (
  record db {
    platform_identities =
        update_where (λ j. j.id == i.id) (λ j. record j { display_name = m.actor.display_name })
          db.platform_identities;
  },
  (i.id, i.principal_id),
)
put_identity now draws profile m none db = (
  record db {
    principals = db.principals ++ new_principal now draws.principal_id profile ∷ [];
    platform_identities = db.platform_identities ++ new_identity now draws profile m ∷ [];
  },
  (draws.identity_id, draws.principal_id),
)

-- ensureIdentity
unfoldable pub ensure_identity :
    ℕ → IngestDraws → String → InboundMessage → Db → Db × (String × String)
ensure_identity now draws profile m db =
    put_identity now draws profile m (find_where (is_sender profile m) db.platform_identities) db

-- UNIQUE(agent_profile_id, platform, bot_instance_id, kind, platform_conversation_id)
abbrev pub is_space_of : String → InboundMessage → SpaceRow → Bool
is_space_of profile m s =
    s.agent_profile_id == profile
    && platform_beq s.platform m.platform
    && s.bot_instance_id == m.bot_instance_id
    && kind_beq s.kind m.conversation.kind
    && s.platform_conversation_id == m.conversation.platform_conversation_id

abbrev pub new_space : ℕ → String → String → InboundMessage → SpaceRow
new_space now id profile m = record {
  id = id;
  agent_profile_id = profile;
  platform = m.platform;
  bot_instance_id = m.bot_instance_id;
  kind = m.conversation.kind;
  platform_conversation_id = m.conversation.platform_conversation_id;
  created_at = now;
}

abbrev pub new_policies : Bool → ℕ → String → List PolicyRow
new_policies false now space = []
new_policies true now space =
    record {
      conversation_space_id = space;
      mode = GroupMode.triggered;
      platform_full_capability = false;
      changed_by_principal_id = none;
      changed_at = now;
    }
    ∷ []

abbrev pub put_space : ℕ → String → String → InboundMessage → Option SpaceRow → Exec String
put_space now id profile m (some s) db = (ok s.id, db)
put_space now id profile m none db =
    if platform_beq m.platform Platform.wechat_ilink && is_group m.conversation.kind
    then (err plain, db)
    else (
      ok id,
      record db {
        conversation_spaces = db.conversation_spaces ++ new_space now id profile m ∷ [];
        group_policies = db.group_policies ++ new_policies (is_group m.conversation.kind) now id;
      },
    )

-- ensureConversationSpace
unfoldable pub ensure_conversation_space : ℕ → String → String → InboundMessage → Exec String
ensure_conversation_space now id profile m db =
    put_space now id profile m (find_where (is_space_of profile m) db.conversation_spaces) db

-- upsertGroupMembership, for a message in a group
unfoldable pub upsert_group_membership : ℕ → InboundMessage → String → String → Db → Db
upsert_group_membership now m space principal db =
    if is_group m.conversation.kind
    then record db {
      group_memberships =
          put_membership
            (record {
              conversation_space_id = space;
              principal_id = principal;
              platform_member_id = m.actor.platform_member_id;
              display_name = m.actor.display_name;
              role = or_value m.actor.role ActorRole.unknown;
              confirmed_at = now;
            })
            db.group_memberships;
    }
    else db
