-- ===== src/Messaging.antt =====
-- packages/contracts/src/messaging.ts: messages as the adapters hand them over. A time is a number
-- of milliseconds; an `opaque` object is its JSON text.
pub mod Conversation
use imgent.Prelude.{ℕ, String, Option, none, some, Bool, true, false, List}

pub data Platform : Type 0 where
  qq wechat_ilink : Platform

pub data ConversationKind : Type 0 where
  direct group : ConversationKind

pub data ActorRole : Type 0 where
  owner admin member unknown : ActorRole

pub record AttachmentRef : Type 0 where
  pub id : Option String
  pub url : Option String
  pub local_path : Option String
  pub name : Option String
  pub mime_type : Option String
  pub size : Option ℕ
  pub checksum : Option String
  pub opaque : Option String

pub data MessagePart : Type 0 where
  text : String → MessagePart
  image : AttachmentRef → MessagePart
  file : AttachmentRef → MessagePart
  audio : AttachmentRef → Option String → MessagePart
  video : AttachmentRef → MessagePart
  card : Option String → String → MessagePart
  unknown : String → MessagePart

pub record Mention : Type 0 where
  pub platform_user_id : String
  pub display_name : Option String
  pub offset : Option ℕ
  pub length : Option ℕ

pub record ReplyRef : Type 0 where
  pub message_id : String
  pub actor_platform_user_id : Option String

pub record ConversationRef : Type 0 where
  pub kind : ConversationKind
  pub platform_conversation_id : String
  pub thread_id : Option String

pub record ReplyContext : Type 0 where
  pub expires_at : Option ℕ
  pub opaque : String

pub record Actor : Type 0 where
  pub platform_user_id : String
  pub platform_member_id : Option String
  pub role : Option ActorRole
  pub display_name : Option String

pub record InboundMessage : Type 0 where
  pub event_id : Option String
  pub message_id : String
  pub dedupe_key : String
  pub sequence : Option String
  pub platform : Platform
  pub bot_instance_id : String
  pub conversation : ConversationRef
  pub actor : Actor
  pub parts : List MessagePart
  pub mentions : List Mention
  pub reply_to : Option ReplyRef
  pub reply_context : Option ReplyContext
  pub platform_sent_at : Option ℕ
  pub received_at : ℕ
  pub raw_ref : Option String
  pub triggered : Option Bool

pub record OutboundMessage : Type 0 where
  pub bot_instance_id : String
  pub conversation : ConversationRef
  pub parts : List MessagePart
  pub reply_to : Option ReplyRef
  pub reply_context : Option ReplyContext
  pub idempotency_key : String

pub data SendMode : Type 0 where
  reply proactive : SendMode

pub record SendResult : Type 0 where
  pub platform_message_id : Option String
  pub mode : SendMode

abbrev pub is_group : ConversationKind → Bool
is_group direct = false
is_group group = true

-- `a.role === b.role`, also where one is absent
abbrev pub role_beq : ActorRole → ActorRole → Bool
role_beq owner owner = true
role_beq admin admin = true
role_beq member member = true
role_beq ActorRole.unknown ActorRole.unknown = true
role_beq _ _ = false

abbrev pub same_role : Option ActorRole → Option ActorRole → Bool
same_role none none = true
same_role (some a) (some b) = role_beq a b
same_role _ _ = false

abbrev pub platform_beq : Platform → Platform → Bool
platform_beq Platform.qq Platform.qq = true
platform_beq Platform.wechat_ilink Platform.wechat_ilink = true
platform_beq _ _ = false

abbrev pub kind_beq : ConversationKind → ConversationKind → Bool
kind_beq direct direct = true
kind_beq group group = true
kind_beq _ _ = false
