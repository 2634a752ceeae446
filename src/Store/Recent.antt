-- ===== src/Store/Recent.antt =====
-- src/storage/store.ts: recentInboundTurns.
pub mod Order
pub mod Bounds
use imgent.Prelude.{
  ℕ, zero, suc, ◌+◌, ◌-◌, String, Option, none, some, Bool, true, false, not, ◌&&◌, ◌||◌, ◌==◌,
  List, [], ◌∷◌, ◌++◌, ltb, leb, nat_beq, if◌then◌else◌, is_some, present, find_where, filter_where,
  map,
}
use imgent.Messaging.{InboundMessage}
use imgent.Store.Rows.{TaskRow}
use imgent.Store.Db.{Db}

-- StoredConversationTurn
pub record StoredConversationTurn : Type 0 where
  pub task_id : String
  pub agent_profile_id : String
  pub principal_id : String
  pub conversation_space_id : String
  pub message : InboundMessage
  pub final_text : Option String
  pub created_at : ℕ

abbrev pub turn_of : TaskRow → StoredConversationTurn
turn_of t = record {
  task_id = t.id;
  agent_profile_id = t.agent_profile_id;
  principal_id = t.principal_id;
  conversation_space_id = t.conversation_space_id;
  message = t.message;
  final_text = present t.final_text;
  created_at = t.created_at;
}

-- created_at, then rowid
abbrev pub is_earlier : TaskRow → TaskRow → Bool
is_earlier a b =
    ltb a.created_at b.created_at || nat_beq a.created_at b.created_at && ltb a.rowid b.rowid

-- The WHERE clause; a time before the first one is that first one.
abbrev pub precedes : TaskRow → ℕ → TaskRow → Bool
precedes current within t =
    is_some t.inbound_event_id
    && t.agent_profile_id == current.agent_profile_id
    && t.conversation_space_id == current.conversation_space_id
    && t.conversation_key == current.conversation_key
    && leb (current.created_at - within) t.created_at
    && is_earlier t current

-- ORDER BY created_at DESC, rowid DESC
unfoldable pub insert_latest : TaskRow → List TaskRow → List TaskRow
insert_latest t [] = t ∷ []
insert_latest t (u ∷ us) =
    let rest = insert_latest t us in if is_earlier t u then u ∷ rest else t ∷ u ∷ us

unfoldable pub latest_first : List TaskRow → List TaskRow
latest_first [] = []
latest_first (t ∷ ts) = insert_latest t (latest_first ts)

-- LIMIT
unfoldable pub take : ℕ → List TaskRow → List TaskRow
take zero ts = []
take (suc n) [] = []
take (suc n) (t ∷ ts) = t ∷ take n ts

-- rows.reverse()
unfoldable pub reverse : List TaskRow → List TaskRow
reverse [] = []
reverse (t ∷ ts) = reverse ts ++ t ∷ []

-- Math.max(0, Math.min(limit, 20)) of a limit that is not negative
abbrev pub bounded_limit : ℕ → ℕ
bounded_limit limit = if ltb limit 20 then limit else 20

abbrev pub turns_before : Option TaskRow → ℕ → ℕ → Db → List TaskRow
turns_before none within limit db = []
turns_before (some current) within limit db =
    reverse
      (take (bounded_limit limit) (latest_first (filter_where (precedes current within) db.tasks)))

-- The rows of recentInboundTurns; each is returned as `turn_of` it.
unfoldable pub recent_rows : String → ℕ → ℕ → Db → List TaskRow
recent_rows id within limit db =
    turns_before (find_where (λ t. t.id == id) db.tasks) within limit db

-- IMGentStore.recentInboundTurns
unfoldable pub recent_inbound_turns : String → ℕ → ℕ → Db → List StoredConversationTurn
recent_inbound_turns id within limit db = map turn_of (recent_rows id within limit db)
