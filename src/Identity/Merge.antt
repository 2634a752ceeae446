-- ===== src/Identity/Merge.antt =====
-- src/identity/service.ts: mergePrincipal. It is part of a transaction of its caller.
use Prim.Native.Char.{Char, code}
use text.Mathlib.TextBridge.{to_list}
use imgent.Prelude.{
  ℕ, String, Option, none, some, Bool, true, false, not, ◌&&◌, ◌||◌, ◌==◌, List, [], ◌∷◌, ltb,
  nat_beq, if◌then◌else◌, is_some, or_value, filter_where, update_where, delete_where,
}
use imgent.Store.Directory.{MembershipRow, PrincipalRow, Locale}
use imgent.Store.Memories.{ScopeType, MemoryStatus, MemoryRow}
use imgent.Store.Indexes.{scope_beq, is_active_memory, both_are, is_text, has_clash, is_referred}
use imgent.Store.Db.{Db, constraint, Exec, run, gets, guard, ◌>>=◌, ◌>>◌}
use imgent.Store.Inserts.{put_membership}
use imgent.Identity.Principals.{is_principal, find_principal, clear_sessions_for_principal}

-- The order of texts; ids are ASCII, on which that of SQLite and that of JavaScript agree.
unfoldable pub chars_lt : List Char → List Char → Bool
chars_lt [] [] = false
chars_lt [] (c ∷ cs) = true
chars_lt (b ∷ bs) [] = false
chars_lt (b ∷ bs) (c ∷ cs) = ltb (code b) (code c) || nat_beq (code b) (code c) && chars_lt bs cs

abbrev pub text_lt : String → String → Bool
text_lt a b = chars_lt (to_list a) (to_list b)

-- updated_at, then id
abbrev pub is_newer : MemoryRow → MemoryRow → Bool
is_newer a b =
    ltb b.updated_at a.updated_at || nat_beq a.updated_at b.updated_at && text_lt b.id a.id

-- ORDER BY updated_at DESC, id DESC
unfoldable pub insert_newest : MemoryRow → List MemoryRow → List MemoryRow
insert_newest m [] = m ∷ []
insert_newest m (n ∷ ns) =
    let rest = insert_newest m ns in if is_newer n m then n ∷ rest else m ∷ n ∷ ns

unfoldable pub newest_first : List MemoryRow → List MemoryRow
newest_first [] = []
newest_first (m ∷ ms) = insert_newest m (newest_first ms)

abbrev pub is_private_episode : ScopeType → Bool
is_private_episode ScopeType.private_episode = true
is_private_episode _ = false

-- The WHERE clause that finds what stands against a record.
abbrev pub is_conflict : String → MemoryRow → MemoryRow → Bool
is_conflict to row m =
    m.agent_profile_id == row.agent_profile_id
    && scope_beq m.scope_type row.scope_type
    && is_text to m.principal_id
    && or_value m.conversation_space_id "" == or_value row.conversation_space_id ""
    && (not (is_private_episode m.scope_type)
        || m.source_conversation_key == row.source_conversation_key)
    && is_active_memory m
    && (both_are m.fact_key row.fact_key || m.value == row.value)

abbrev pub conflicts : String → MemoryRow → Db → List MemoryRow
conflicts to row db = newest_first (filter_where (is_conflict to row) db.memory_records)

abbrev pub is_memory : String → MemoryRow → Bool
is_memory id m = m.id == id

-- A memory that is superseded, and its index row that is deleted.
unfoldable pub supersede : ℕ → String → Db → Db
supersede now id db = record db {
  memory_records =
      update_where (is_memory id)
        (λ m. record m { status = MemoryStatus.superseded; updated_at = now }) db.memory_records;
  memory_fts = delete_where (λ f. f.memory_id == id) db.memory_fts;
}

-- The inner loop: an older record ends it.
unfoldable pub settle_conflicts : ℕ → MemoryRow → List MemoryRow → Db → Db
settle_conflicts now m [] db = db
settle_conflicts now m (c ∷ cs) db =
    if is_newer m c
    then settle_conflicts now m cs (supersede now c.id db)
    else supersede now m.id db

-- The outer loop.
unfoldable pub settle_memories : ℕ → String → List MemoryRow → Db → Db
settle_memories now to [] db = db
settle_memories now to (m ∷ ms) db =
    settle_memories now to ms (settle_conflicts now m (conflicts to m db) db)

abbrev pub is_active_of : String → MemoryRow → Bool
is_active_of id m = is_text id m.principal_id && is_active_memory m

abbrev pub merge_memories : ℕ → String → String → Db → Db
merge_memories now old new db =
    settle_memories now new (filter_where (is_active_of old) db.memory_records) db

abbrev pub inherit : Option Locale → PrincipalRow → PrincipalRow
inherit none p = p
inherit (some l) p = record p { locale = some l }

abbrev pub inherited : Option PrincipalRow → Option PrincipalRow → Option Locale
inherited (some old) (some new) = if is_some new.locale then none else old.locale
inherited _ _ = none

-- The locale of the principal that goes, where the one that stays has none.
unfoldable pub merge_locale : String → String → Db → Db
merge_locale old new db = record db {
  principals =
      update_where (is_principal new)
        (inherit (inherited (find_principal old db) (find_principal new db))) db.principals;
}

-- The UPDATE statements from platform_identities to group_authorizations.
unfoldable pub rename_principal : String → String → Db → Db
rename_principal old new db = record db {
  platform_identities =
      update_where (λ i. i.principal_id == old) (λ i. record i { principal_id = new })
        db.platform_identities;
  inbound_events =
      update_where (λ e. e.principal_id == old) (λ e. record e { principal_id = new })
        db.inbound_events;
  tasks = update_where (λ t. t.principal_id == old) (λ t. record t { principal_id = new }) db.tasks;
  approvals =
      update_where (λ a. a.principal_id == old) (λ a. record a { principal_id = new }) db.approvals;
  group_policies =
      update_where (λ p. is_text old p.changed_by_principal_id)
        (λ p. record p { changed_by_principal_id = some new }) db.group_policies;
  group_authorizations =
      update_where (λ a. a.authorized_by_principal_id == old)
        (λ a. record a { authorized_by_principal_id = new }) db.group_authorizations;
}

abbrev pub moved_memories : ℕ → String → String → List MemoryRow → List MemoryRow
moved_memories now old new =
    update_where (λ m. is_text old m.principal_id)
      (λ m. record m { principal_id = some new; updated_at = now })

-- UPDATE memory_records SET principal_id = ?, which the unique indexes may refuse.
unfoldable pub move_memories : ℕ → String → String → Exec Unit
move_memories now old new = do
  clashes ← gets (λ db. has_clash (moved_memories now old new db.memory_records))
  guard (not clashes) constraint
  run (λ db. record db { memory_records = moved_memories now old new db.memory_records })

unfoldable pub put_memberships :
    String → List MembershipRow → List MembershipRow → List MembershipRow
put_memberships new [] ms = ms
put_memberships new (m ∷ rest) ms =
    put_memberships new rest (put_membership (record m { principal_id = new }) ms)

-- The memberships of the principal that goes become those of the one that stays.
unfoldable pub merge_memberships : String → String → Db → Db
merge_memberships old new db = record db {
  group_memberships =
      delete_where (λ m. m.principal_id == old)
        (put_memberships new (filter_where (λ m. m.principal_id == old) db.group_memberships)
          db.group_memberships);
}

-- DELETE FROM principals, which a row that still refers to it forbids.
unfoldable pub delete_principal : String → Exec Unit
delete_principal id = do
  referred ← gets (is_referred id)
  guard (not referred) constraint
  run (λ db. record db { principals = delete_where (is_principal id) db.principals })

-- mergePrincipal(old, new)
unfoldable pub merge_principal : ℕ → String → String → Exec Unit
merge_principal now old new = do
  run (merge_locale old new)
  run (λ db. (clear_sessions_for_principal old db).0)
  run (merge_memories now old new)
  run (rename_principal old new)
  move_memories now old new
  run (merge_memberships old new)
  delete_principal old
