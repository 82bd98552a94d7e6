-- ===== src/Normalization/Rendering.antt =====
-- `Tag.__str__` of tags.py.
use hermes_memory.Base.{◌≡◌, arith}
use hermes_memory.Normalization.Conversation.{Source, source_value}
use hermes_memory.Normalization.Tags.{
  ConversationType, type_value, Tag, source_tag, project_tag, type_tag, user_tag, render,
}

source_value-injective : (s t : Source) → source_value s ≡ source_value t → s ≡ t
source_value-injective s t h = ground arith

type_value-injective : (s t : ConversationType) → type_value s ≡ type_value t → s ≡ t
type_value-injective s t h = ground arith

-- Two tags that render to the same text are the same tag.
pub render-injective : (a b : Tag) → render a ≡ render b → a ≡ b
unfolding render
render-injective (source_tag s) (source_tag t) h = ground (arith, source_value-injective s t)
render-injective (project_tag p) (project_tag q) h = cc
render-injective (type_tag s) (type_tag t) h = ground (arith, type_value-injective s t)
render-injective (user_tag u) (user_tag v) h = cc
render-injective a b h = ground arith
