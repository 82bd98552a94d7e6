-- ===== src/Classification/AliasClassifier.antt =====
-- src/engineering_memory/classification/alias_classifier.py, with classifier.py. A tag
-- of the project namespace is its value; `none` where Python raises `KeyError`.
pub mod Resolution
use hermes_memory.Base.{
  ℕ, Bool, true, false, not, ◌&&◌, ◌||◌, Option, none, some, List, [], ◌∷◌, ◌++◌, Str, Str-discrete,
  str_eq, any, all, is_empty, length, ltb, if◌then◌else◌, Dict, lookup, insert,
}
use hermes_memory.Normalization.Conversation.{ToolActivity, NonTextPart, Message, Conversation}
use hermes_memory.Classification.Priorities.{ℤ, below, same}
use hermes_memory.Classification.Rules.{ProjectRule, unknown_project}
use hermes_memory.Classification.Matcher.{projects_named}

abbrev pub texts_of : Option Str → List Str
texts_of none = []
texts_of (some text) = text ∷ []

abbrev pub sweep_activities : List ToolActivity → List Str
sweep_activities [] = []
sweep_activities (a ∷ as') =
    a.name ∷ (texts_of a.request ++ texts_of a.result ++ sweep_activities as')

abbrev pub sweep_parts : List NonTextPart → List Str
sweep_parts [] = []
sweep_parts (p ∷ ps) = texts_of p.name ++ sweep_parts ps

abbrev pub sweep_messages : List Message → List Str
sweep_messages [] = []
sweep_messages (m ∷ ms) =
    m.text ∷ (sweep_activities m.tool_activity ++ sweep_parts m.non_text_parts ++ sweep_messages ms)

-- `_JOIN.join(parts)`
unfoldable pub join : List Str → Str
join [] = []
join (part ∷ []) = part
join (part ∷ part' ∷ parts) = part ++ 0 ∷ join (part' ∷ parts)

unfoldable pub sweep : Conversation → Str
unfolding join
sweep c = join (texts_of c.title ++ sweep_messages c.messages)

-- `{rule.project: rule.priority for rule in rules.rules}`
unfoldable pub priorities_from : List ProjectRule → Dict Str ℤ → Dict Str ℤ
priorities_from [] priorities = priorities
priorities_from (rule ∷ rules) priorities =
    priorities_from rules (insert Str-discrete rule.project rule.priority priorities)

unfoldable pub priority_of : List ProjectRule → Dict Str ℤ
unfolding priorities_from
priority_of rules = priorities_from rules []

-- The projects with their priorities.
unfoldable pub with_priorities : Dict Str ℤ → List Str → Option (List (Str × ℤ))
with_priorities priorities [] = some []
with_priorities priorities (project ∷ projects) = elim (lookup Str-discrete project priorities) [
  | none ↦ none
  | some priority ↦ elim (with_priorities priorities projects) [
    | none ↦ none
    | some rest ↦ some ((project, priority) ∷ rest)
  ]
]

-- `max(...)` of a list with a first element.
unfoldable pub highest : ℤ → List (Str × ℤ) → ℤ
highest most [] = most
highest most ((project, priority) ∷ rest) =
    highest (if below most priority then priority else most) rest

unfoldable pub tied : ℤ → List (Str × ℤ) → List Str
tied most [] = []
tied most ((project, priority) ∷ rest) =
    if same priority most then project ∷ tied most rest else tied most rest

abbrev pub only : List Str → Str
only (project ∷ []) = project
only projects = unknown_project

-- `_resolve`, after the priorities are looked up.
unfoldable pub resolve_named : List (Str × ℤ) → Str
unfolding highest tied
resolve_named [] = unknown_project
resolve_named ((project, priority) ∷ rest) =
    only (tied (highest priority rest) ((project, priority) ∷ rest))

abbrev pub resolved_by : Option (List (Str × ℤ)) → Option Str
resolved_by none = none
resolved_by (some named) = some (resolve_named named)

-- `classify`, after the matcher.
unfoldable pub decide : Dict Str ℤ → List Str → Option Str
unfolding with_priorities
decide priorities [] = some unknown_project
decide priorities (project ∷ []) = some project
decide priorities (project ∷ project' ∷ named) =
    resolved_by (with_priorities priorities (project ∷ project' ∷ named))

abbrev pub decided_by : Dict Str ℤ → Option (List Str) → Option Str
decided_by priorities none = none
decided_by priorities (some named) = decide priorities named

unfoldable pub classify : (ℕ → Bool) → (ℕ → Str) → List ProjectRule → Conversation → Option Str
unfolding sweep projects_named priority_of decide
classify is_alnum fold rules c =
    decided_by (priority_of rules) (projects_named is_alnum fold rules (sweep c))
