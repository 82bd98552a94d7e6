-- ===== src/Normalization/Tags.antt =====
-- src/engineering_memory/normalization/tags.py. The supertype that cannot be built is the data
-- type itself, and the four concrete tags are its constructors.
use hermes_memory.Base.{◌++◌, ◌∷◌, Str, codes, ok, ◌>>=◌, ℕ_discrete}
use hermes_memory.Normalization.Values.{Valid, slug}
use hermes_memory.Normalization.Conversation.{Source, source_value}

pub data TagNamespace : Type 0 where
  source project type user : TagNamespace

pub data ConversationType : Type 0 where
  conversation coding_session decision troubleshooting : ConversationType

pub data Tag : Type 0 where
  source_tag : Source → Tag
  project_tag : Str → Tag
  type_tag : ConversationType → Tag
  user_tag : Str → Tag

unfoldable pub Tag-discrete : Discrete Tag
Tag-discrete = hlevel ℕ_discrete

abbrev pub namespace_value : TagNamespace → Str
namespace_value source = codes "source"
namespace_value project = codes "project"
namespace_value type = codes "type"
namespace_value user = codes "user"

abbrev pub type_value : ConversationType → Str
type_value conversation = codes "conversation"
type_value coding_session = codes "coding-session"
type_value decision = codes "decision"
type_value troubleshooting = codes "troubleshooting"

abbrev pub namespace : Tag → TagNamespace
namespace (source_tag s) = source
namespace (project_tag p) = project
namespace (type_tag t) = type
namespace (user_tag u) = user

abbrev pub tag_value : Tag → Str
tag_value (source_tag s) = source_value s
tag_value (project_tag p) = p
tag_value (type_tag t) = type_value t
tag_value (user_tag u) = u

-- Construction validates the value against its namespace; the closed vocabularies need no check.
unfoldable pub new_tag : Tag → Valid Tag
unfolding slug
new_tag (project_tag p) = do p' ← slug p; ok (project_tag p')
new_tag (user_tag u) = do u' ← slug u; ok (user_tag u')
new_tag tag = ok tag

-- `Tag.__str__`
unfoldable pub render : Tag → Str
render tag = namespace_value (namespace tag) ++ b':' ∷ tag_value tag
