-- ===== src/Messaging/Conversation.antt =====
-- packages/contracts/src/conversation.ts: the key of a conversation and the text of a message.
use imgent.Prelude.{
  String, Option, none, some, List, [], ◌∷◌, text_append, or_value, ◌==◌, if◌then◌else◌, trim,
  encode_uri_component,
}
use imgent.Messaging.{
  Platform, qq, wechat_ilink, ConversationKind, direct, group, AttachmentRef, MessagePart, text,
  image, file, audio, video, card, ConversationRef,
}

abbrev pub platform_text : Platform → String
platform_text qq = "qq"
platform_text wechat_ilink = "wechat-ilink"

abbrev pub kind_text : ConversationKind → String
kind_text direct = "direct"
kind_text group = "group"

-- segments.join(separator)
unfoldable pub join : String → List String → String
join separator [] = ""
join separator (s ∷ []) = s
join separator (s ∷ t ∷ ss) = text_append s (text_append separator (join separator (t ∷ ss)))

abbrev pub thread_segment : Option String → List String
thread_segment none = []
thread_segment (some t) = if t == "" then [] else t ∷ []

abbrev pub encode_all : List String → List String
encode_all [] = []
encode_all (s ∷ ss) = encode_uri_component s ∷ encode_all ss

abbrev pub segments : String → Platform → String → ConversationRef → List String
segments profile platform bot c =
    profile
    ∷ platform_text platform
    ∷ bot
    ∷ kind_text c.kind
    ∷ c.platform_conversation_id
    ∷ thread_segment c.thread_id

-- conversationKey
unfoldable pub conversation_key : String → Platform → String → ConversationRef → String
conversation_key profile platform bot c = join ":" (encode_all (segments profile platform bot c))

abbrev pub name_suffix : Option String → String
name_suffix none = ""
name_suffix (some name) = if name == "" then "" else text_append ": " name

-- `[label: name]`, or `[label]` for an attachment without a name
abbrev pub attachment_text : String → AttachmentRef → String
attachment_text label a = text_append "[" (text_append label (text_append (name_suffix a.name) "]"))

unfoldable pub part_text : MessagePart → String
part_text (text s) = s
part_text (image a) = attachment_text "图片" a
part_text (file a) = attachment_text "文件" a
part_text (audio a transcript) = or_value transcript "[语音]"
part_text (video a) = attachment_text "视频" a
part_text (card summary raw) = or_value summary (text_append "[卡片: " (text_append raw "]"))
part_text (MessagePart.unknown raw) = text_append "[不支持的消息类型: " (text_append raw "]")

abbrev pub part_texts : List MessagePart → List String
part_texts [] = []
part_texts (p ∷ ps) = part_text p ∷ part_texts ps

-- textOf
unfoldable pub text_of : List MessagePart → String
text_of parts = trim (join "\n" (part_texts parts))
