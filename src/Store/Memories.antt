-- ===== src/Store/Memories.antt =====
-- src/storage/migrations.ts: the rows of memories and of their full-text index. A confidence is a
-- number of thousandths.
use imgent.Prelude.{ℕ, String, Option, List}

pub data ScopeType : Type 0 where
  personal_private private_episode group_shared group_member group_episode : ScopeType

pub data MemoryOrigin : Type 0 where
  explicit curated : MemoryOrigin

pub data MemoryKind : Type 0 where
  fact preference decision plan episode : MemoryKind

pub data MemoryStatus : Type 0 where
  active superseded forgotten : MemoryStatus

-- memory_records
pub record MemoryRow : Type 0 where
  pub id : String
  pub agent_profile_id : String
  pub scope_type : ScopeType
  pub principal_id : Option String
  pub conversation_space_id : Option String
  pub source_conversation_key : String
  pub source_message_ids : List String
  pub source_task_id : Option String
  pub origin : MemoryOrigin
  pub kind : MemoryKind
  pub fact_key : Option String
  pub value : String
  pub confidence : ℕ
  pub status : MemoryStatus
  pub created_at : ℕ
  pub updated_at : ℕ
  pub expires_at : Option ℕ

-- memory_fts
pub record IndexRow : Type 0 where
  pub memory_id : String
  pub search_text : String
