-- ===== src/Sanitization/PatternSanitizer.antt =====
-- src/engineering_memory/sanitization/pattern_sanitizer.py: which fields of a conversation are
-- redacted. The dictionary of counts that its methods share is passed on from field to field.
pub mod Identity
use hermes_memory.Base.{
  ℕ, Bool, true, false, Option, none, some, List, [], ◌∷◌, ◌++◌, Str, is_empty, if◌then◌else◌,
  Result, ok, err, ◌>>=◌,
}
use hermes_memory.Normalization.Values.{Valid, Invalid}
use hermes_memory.Normalization.Conversation.{
  NonTextPart, ToolActivity, Message, Conversation, new_non_text_part, new_tool_activity,
  new_message, new_conversation,
}
use hermes_memory.Sanitization.Report.{
  RedactionCategory, Counts, add_count, RedactionReport, new_report,
}
use hermes_memory.Sanitization.Placeholders.{Pattern}
use hermes_memory.Sanitization.Scanner.{redact}

-- `SanitizationError`, or the `ValueError` of a report that is built outside of the handler.
pub data SanitizerError : Type 0 where
  sanitization_error : SanitizerError
  bad_report : SanitizerError

-- `for category, count in found.items()`
unfoldable pub add_all : Counts → Counts → Counts
unfolding add_count
add_all counts [] = counts
add_all counts ((category, n) ∷ found) = add_all (add_count category n counts) found

module _ (lower : Str → Str) (patterns : List Pattern) where
  -- `_text` on a text that is there.
  unfoldable pub redact_str : Str → Counts → Str × Counts
  redact_str text counts =
      if is_empty text
      then (text, counts)
      else (let (redacted, found) = redact lower text patterns in (redacted, add_all counts found))

  -- `_text`: `None` stays `None`.
  unfoldable pub redact_optional : Option Str → Counts → Option Str × Counts
  redact_optional none counts = (none, counts)
  redact_optional (some text) counts =
      let (t, counts') = redact_str text counts in (some t, counts')

  -- `_text(name) or name`
  unfoldable pub redact_name : Str → Counts → Str × Counts
  redact_name name counts =
      let (t, counts') = redact_str name counts in (if is_empty t then name else t, counts')

  unfoldable pub redact_activity : ToolActivity → Counts → Valid (ToolActivity × Counts)
  redact_activity a counts =
      let (name, c1) = redact_name a.name counts in
      let (request, c2) = redact_optional a.request c1 in
      let (result, c3) = redact_optional a.result c2 in
      do
        a' ← new_tool_activity (record { name = name; request = request; result = result })
        ok (a', c3)

  unfoldable pub tool_activities : List ToolActivity → Counts → Valid (List ToolActivity × Counts)
  tool_activities [] counts = ok ([], counts)
  tool_activities (a ∷ as') counts = do
    first ← redact_activity a counts
    rest ← tool_activities as' first.1
    ok (first.0 ∷ rest.0, rest.1)

  unfoldable pub non_text_part : NonTextPart → Counts → Valid (NonTextPart × Counts)
  non_text_part p counts =
      let (name, c1) = redact_optional p.name counts in
      do p' ← new_non_text_part (record p { name = name }); ok (p', c1)

  unfoldable pub non_text_parts : List NonTextPart → Counts → Valid (List NonTextPart × Counts)
  non_text_parts [] counts = ok ([], counts)
  non_text_parts (p ∷ ps) counts = do
    first ← non_text_part p counts
    rest ← non_text_parts ps first.1
    ok (first.0 ∷ rest.0, rest.1)

  -- `_message`
  unfoldable pub message : Message → Counts → Valid (Message × Counts)
  message m counts = do
    let (text, c1) = redact_str m.text counts
    activities ← tool_activities m.tool_activity c1
    parts ← non_text_parts m.non_text_parts activities.1
    m' ←
        new_message
          (record m { text = text; tool_activity = activities.0; non_text_parts = parts.0 })
    ok (m', parts.1)

  unfoldable pub messages : List Message → Counts → Valid (List Message × Counts)
  messages [] counts = ok ([], counts)
  messages (m ∷ ms) counts = do
    first ← message m counts
    rest ← messages ms first.1
    ok (first.0 ∷ rest.0, rest.1)

  unfoldable pub rewritten : Conversation → Valid (Conversation × Counts)
  rewritten c = do
    let (title, c1) = redact_optional c.title []
    ms ← messages c.messages c1
    c' ← new_conversation (record c { title = title; messages = ms.0 })
    ok (c', ms.1)

  unfoldable pub finish :
      Valid (Conversation × Counts) → Result SanitizerError (Conversation × RedactionReport)
  finish (err e) = err sanitization_error
  finish (ok (c, counts)) = elim (new_report counts) [ err e ↦ err bad_report | ok r ↦ ok (c, r) ]

  unfoldable pub sanitize : Conversation → Result SanitizerError (Conversation × RedactionReport)
  sanitize c = finish (rewritten c)
