-- ===== src/Normalization/Conversation.antt =====
-- src/engineering_memory/normalization/conversation.py
use hermes_memory.Base.{
  Bool, true, not, Option, none, some, List, ◌∷◌, ◌++◌, Str, codes, is_empty, if◌then◌else◌, ok,
  err, ◌>>=◌, ◌>>◌, require,
}
use hermes_memory.Normalization.Values.{
  Valid, empty_text, activity_before_start, opaque_identifier, text, Timestamp, before,
}

pub data Source : Type 0 where
  chatgpt claude_chat claude_code codex hermes : Source

pub data Role : Type 0 where
  user assistant system tool : Role

pub data NonTextKind : Type 0 where
  image file audio other : NonTextKind

unfoldable pub Source-discrete : Discrete Source
Source-discrete = hlevel

unfoldable pub Role-discrete : Discrete Role
Role-discrete = hlevel

abbrev pub source_value : Source → Str
source_value chatgpt = codes "chatgpt"
source_value claude_chat = codes "claude-chat"
source_value claude_code = codes "claude-code"
source_value codex = codes "codex"
source_value hermes = codes "hermes"

abbrev pub role_value : Role → Str
role_value user = codes "user"
role_value assistant = codes "assistant"
role_value system = codes "system"
role_value tool = codes "tool"

abbrev pub kind_value : NonTextKind → Str
kind_value image = codes "image"
kind_value file = codes "file"
kind_value audio = codes "audio"
kind_value other = codes "other"

pub record NonTextPart : Type 0 where
  pub kind : NonTextKind
  pub name : Option Str

pub record ToolActivity : Type 0 where
  pub name : Str
  pub request : Option Str
  pub result : Option Str

pub record Message : Type 0 where
  pub role : Role
  pub text : Str
  pub sent_at : Option Timestamp
  pub tool_activity : List ToolActivity
  pub non_text_parts : List NonTextPart

pub record Conversation : Type 0 where
  pub source : Source
  pub source_id : Str
  pub title : Option Str
  pub started_at : Timestamp
  pub last_activity_at : Option Timestamp
  pub messages : List Message

-- The validation of an optional `Text` field.
unfoldable pub optional_text : Option Str → Valid (Option Str)
unfolding text
optional_text none = ok none
optional_text (some value) = do value' ← text value; ok (some value')

-- `Text = Field(min_length=1)`
unfoldable pub filled_text : Str → Valid Str
unfolding text
filled_text value = if is_empty value then err empty_text else text value

-- The construction of each model, which validates. Fields that hold models are taken as they
-- are: those were validated when they were built.
unfoldable pub new_non_text_part : NonTextPart → Valid NonTextPart
unfolding optional_text
new_non_text_part part = do _ ← optional_text part.name; ok part

unfoldable pub new_tool_activity : ToolActivity → Valid ToolActivity
unfolding optional_text filled_text
new_tool_activity activity = do
  _ ← filled_text activity.name
  _ ← optional_text activity.request
  _ ← optional_text activity.result
  ok activity

unfoldable pub new_message : Message → Valid Message
unfolding text
new_message message = do _ ← text message.text; ok message

-- `_activity_does_not_precede_the_start`
unfoldable pub activity_follows_start : Conversation → Bool
unfolding before
activity_follows_start c = elim c.last_activity_at [
  | none ↦ true
  | some last ↦ not (before last c.started_at)
]

unfoldable pub new_conversation : Conversation → Valid Conversation
unfolding opaque_identifier optional_text activity_follows_start
new_conversation c = do
  _ ← opaque_identifier c.source_id
  _ ← optional_text c.title
  require (activity_follows_start c) activity_before_start
  ok c

-- `<source>:<native id>`
unfoldable pub document_id : Conversation → Str
document_id c = source_value c.source ++ b':' ∷ c.source_id
