-- ===== src/Store/Indexes.antt =====
-- src/storage/migrations.ts: the unique indexes of memory_records, and what refers to a principal.
use imgent.Prelude.{
  String, Option, none, some, Bool, true, false, ◌&&◌, ◌||◌, ◌==◌, List, [], ◌∷◌, or_value,
  any_where,
}
use imgent.Store.Rows.{TaskRow, ApprovalRow}
use imgent.Store.Directory.{
  IdentityRow, MembershipRow, AuthorizationRow, ScheduleRow, PolicyRow, EventRow,
}
use imgent.Store.Memories.{ScopeType, MemoryStatus, MemoryRow}
use imgent.Store.Db.{Db}

abbrev pub scope_beq : ScopeType → ScopeType → Bool
scope_beq ScopeType.personal_private ScopeType.personal_private = true
scope_beq ScopeType.private_episode ScopeType.private_episode = true
scope_beq ScopeType.group_shared ScopeType.group_shared = true
scope_beq ScopeType.group_member ScopeType.group_member = true
scope_beq ScopeType.group_episode ScopeType.group_episode = true
scope_beq _ _ = false

abbrev pub is_active_memory : MemoryRow → Bool
is_active_memory m = elim m.status [
  | MemoryStatus.active ↦ true
  | MemoryStatus.superseded ↦ false
  | MemoryStatus.forgotten ↦ false
]

-- CASE WHEN scope_type = 'private_episode' THEN source_conversation_key ELSE '' END
abbrev pub episode_key : MemoryRow → String
episode_key m = elim m.scope_type [
  | ScopeType.private_episode ↦ m.source_conversation_key
  | ScopeType.personal_private ↦ ""
  | ScopeType.group_shared ↦ ""
  | ScopeType.group_member ↦ ""
  | ScopeType.group_episode ↦ ""
]

-- The columns that the three indexes share.
abbrev pub is_same_owner : MemoryRow → MemoryRow → Bool
is_same_owner a b =
    scope_beq a.scope_type b.scope_type
    && or_value a.principal_id "" == or_value b.principal_id ""
    && or_value a.conversation_space_id "" == or_value b.conversation_space_id ""
    && episode_key a == episode_key b

-- Equal texts that are not NULL.
abbrev pub both_are : Option String → Option String → Bool
both_are (some a) (some b) = a == b
both_are _ _ = false

-- memory_active_fact_idx and memory_active_value_idx
abbrev pub clash_active : MemoryRow → MemoryRow → Bool
clash_active a b =
    is_active_memory a
    && is_active_memory b
    && a.agent_profile_id == b.agent_profile_id
    && is_same_owner a b
    && (both_are a.fact_key b.fact_key || a.value == b.value)

-- memory_source_task_fact_idx
abbrev pub clash_source : MemoryRow → MemoryRow → Bool
clash_source a b =
    both_are a.source_task_id b.source_task_id
    && is_same_owner a b
    && both_are a.fact_key b.fact_key

abbrev pub clash : MemoryRow → MemoryRow → Bool
clash a b = clash_active a b || clash_source a b

-- Whether two rows of the table agree in an index.
unfoldable pub has_clash : List MemoryRow → Bool
has_clash [] = false
has_clash (m ∷ ms) = any_where (clash m) ms || has_clash ms

abbrev pub is_text : String → Option String → Bool
is_text a none = false
is_text a (some b) = b == a

-- Whether a row REFERENCES the principal.
unfoldable pub is_referred : String → Db → Bool
is_referred id db =
    any_where (λ (i : IdentityRow). i.principal_id == id) db.platform_identities
    || any_where (λ (m : MembershipRow). m.principal_id == id) db.group_memberships
    || any_where (λ (p : PolicyRow). is_text id p.changed_by_principal_id) db.group_policies
    || any_where (λ (a : AuthorizationRow). a.authorized_by_principal_id == id)
        db.group_authorizations
    || any_where (λ (e : EventRow). e.principal_id == id) db.inbound_events
    || any_where (λ (s : ScheduleRow). s.principal_id == id) db.schedules
    || any_where (λ (t : TaskRow). t.principal_id == id) db.tasks
    || any_where (λ (a : ApprovalRow). a.principal_id == id) db.approvals
    || any_where (λ (m : MemoryRow). is_text id m.principal_id) db.memory_records
