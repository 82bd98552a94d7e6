-- ===== src/Sanitization/PatternSanitizer/Identity.antt =====
-- The fields that the sanitizer of pattern_sanitizer.py copies, and its report.
use hermes_memory.Base.{
  ◌≡◌, ◌≢◌, refl, Bool, Option, none, some, List, [], ◌∷◌, map, All, Str, is_some, ok, err,
  >>=-eq-ok, Result-cases, inl, inr, arith,
}
use hermes_memory.Normalization.Values.{Timestamp}
use hermes_memory.Normalization.Conversation.{
  Role, NonTextKind, NonTextPart, ToolActivity, Message, Conversation, new_non_text_part,
  new_tool_activity, new_message, new_conversation,
}
use hermes_memory.Sanitization.Report.{
  Counts, IsPositive, add_count, add_count-IsPositive, RedactionReport, new_report-ok,
}
use hermes_memory.Sanitization.Placeholders.{Pattern}
use hermes_memory.Sanitization.Scanner.Rewrite.{IsSearch, redact-Redacts}
use hermes_memory.Sanitization.PatternSanitizer.{
  bad_report, add_all, redact_str, redact_optional, redact_name, redact_activity, tool_activities,
  non_text_part, non_text_parts, message, messages, rewritten, finish, sanitize,
}

-- What of a message is not text.
pub record Frame : Type 0 where
  pub role : Role
  pub sent_at : Option Timestamp
  pub kinds : List NonTextKind
  pub tools : List (Bool × Bool)

abbrev pub optional_parts : ToolActivity → Bool × Bool
optional_parts a = (is_some a.request, is_some a.result)

abbrev pub frame : Message → Frame
frame m = record {
  role = m.role;
  sent_at = m.sent_at;
  kinds = map (λ (p : NonTextPart). p.kind) m.non_text_parts;
  tools = map optional_parts m.tool_activity;
}

-- All of a conversation but its texts.
abbrev pub SameIdentity : Conversation → Conversation → Type 0
SameIdentity c' c =
    (c'.source ≡ c.source)
    × (c'.source_id ≡ c.source_id)
    × (c'.started_at ≡ c.started_at)
    × (c'.last_activity_at ≡ c.last_activity_at)
    × (is_some c'.title ≡ is_some c.title)
    × (map frame c'.messages ≡ map frame c.messages)

new_message-same : (m : Message) {m' : Message} → new_message m ≡ ok m' → m' ≡ m
unfolding new_message
new_message-same m h = ground arith

new_conversation-same : (c : Conversation) {c' : Conversation} → new_conversation c ≡ ok c' → c' ≡ c
unfolding new_conversation
new_conversation-same c h = ground arith

add_all-IsPositive :
    (counts found : Counts)
    → IsPositive counts
    → IsPositive found
    → IsPositive (add_all counts found)
unfolding add_all
add_all-IsPositive counts [] p q = p
add_all-IsPositive counts ((category, n) ∷ found) p q =
    add_all-IsPositive (add_count category n counts) found
      (add_count-IsPositive category n counts q.0 p) q.1

module _ (lower : Str → Str) (patterns : List Pattern) (searches : All IsSearch patterns) where
  redact_str-IsPositive :
      (text : Str) (counts : Counts)
      → IsPositive counts
      → IsPositive (redact_str lower patterns text counts).1
  unfolding redact_str
  redact_str-IsPositive [] counts p = p
  redact_str-IsPositive (t ∷ ts) counts p =
      add_all-IsPositive counts _ p (redact-Redacts lower (t ∷ ts) patterns searches).1

  redact_optional-IsPositive :
      (text : Option Str) (counts : Counts)
      → IsPositive counts
      → IsPositive (redact_optional lower patterns text counts).1
        × (is_some (redact_optional lower patterns text counts).0 ≡ is_some text)
  unfolding redact_optional
  redact_optional-IsPositive none counts p = (p, refl)
  redact_optional-IsPositive (some t) counts p = (redact_str-IsPositive t counts p, refl)

  redact_activity-keeps :
      (a : ToolActivity) (counts : Counts) {a' : ToolActivity} {after : Counts}
      → IsPositive counts
      → redact_activity lower patterns a counts ≡ ok (a', after)
      → IsPositive after × (optional_parts a' ≡ optional_parts a)
  unfolding redact_activity redact_name new_tool_activity
  redact_activity-keeps a counts p h =
      let p1 = redact_str-IsPositive a.name counts p in
      let (p2, request) = redact_optional-IsPositive a.request _ p1 in
      let (p3, result) = redact_optional-IsPositive a.result _ p2 in ground arith

  tool_activities-keeps :
      (as' : List ToolActivity) (counts : Counts) {out : List ToolActivity} {after : Counts}
      → IsPositive counts
      → tool_activities lower patterns as' counts ≡ ok (out, after)
      → IsPositive after × (map optional_parts out ≡ map optional_parts as')
  unfolding tool_activities
  tool_activities-keeps [] counts p h = ground arith
  tool_activities-keeps (a ∷ as') counts p h =
      let (first, e1, h1) = >>=-eq-ok (redact_activity lower patterns a counts) _ h in
      let (rest, e2, h2) = >>=-eq-ok (tool_activities lower patterns as' first.1) _ h1 in
      let (p1, k1) = redact_activity-keeps a counts p e1 in
      let (p2, k2) = tool_activities-keeps as' first.1 p1 e2 in ground arith

  non_text_part-keeps :
      (a : NonTextPart) (counts : Counts) {a' : NonTextPart} {after : Counts}
      → IsPositive counts
      → non_text_part lower patterns a counts ≡ ok (a', after)
      → IsPositive after × (a'.kind ≡ a.kind)
  unfolding non_text_part new_non_text_part
  non_text_part-keeps a counts p h =
      let (p1, name) = redact_optional-IsPositive a.name counts p in ground arith

  non_text_parts-keeps :
      (ps : List NonTextPart) (counts : Counts) {out : List NonTextPart} {after : Counts}
      → IsPositive counts
      → non_text_parts lower patterns ps counts ≡ ok (out, after)
      → IsPositive after
        × (map (λ (p : NonTextPart). p.kind) out ≡ map (λ (p : NonTextPart). p.kind) ps)
  unfolding non_text_parts
  non_text_parts-keeps [] counts p h = ground arith
  non_text_parts-keeps (a ∷ ps) counts p h =
      let (first, e1, h1) = >>=-eq-ok (non_text_part lower patterns a counts) _ h in
      let (rest, e2, h2) = >>=-eq-ok (non_text_parts lower patterns ps first.1) _ h1 in
      let (p1, k1) = non_text_part-keeps a counts p e1 in
      let (p2, k2) = non_text_parts-keeps ps first.1 p1 e2 in ground arith

  message-keeps :
      (m : Message) (counts : Counts) {m' : Message} {after : Counts}
      → IsPositive counts
      → message lower patterns m counts ≡ ok (m', after)
      → IsPositive after × (frame m' ≡ frame m)
  unfolding message
  message-keeps m counts p h =
      let p1 = redact_str-IsPositive m.text counts p in
      let (tools, e1, h1) = >>=-eq-ok (tool_activities lower patterns m.tool_activity _) _ h in
      let (parts, e2, h2) =
        >>=-eq-ok (non_text_parts lower patterns m.non_text_parts tools.1) _ h1 in
      let (m2, e3, h3) = >>=-eq-ok (new_message _) _ h2 in
      let (p2, k2) = tool_activities-keeps m.tool_activity _ p1 e1 in
      let (p3, k3) = non_text_parts-keeps m.non_text_parts tools.1 p2 e2 in
      let same = new_message-same _ e3 in ground arith

  messages-keeps :
      (ms : List Message) (counts : Counts) {out : List Message} {after : Counts}
      → IsPositive counts
      → messages lower patterns ms counts ≡ ok (out, after)
      → IsPositive after × (map frame out ≡ map frame ms)
  unfolding messages
  messages-keeps [] counts p h = ground arith
  messages-keeps (m ∷ ms) counts p h =
      let (first, e1, h1) = >>=-eq-ok (message lower patterns m counts) _ h in
      let (rest, e2, h2) = >>=-eq-ok (messages lower patterns ms first.1) _ h1 in
      let (p1, k1) = message-keeps m counts p e1 in
      let (p2, k2) = messages-keeps ms first.1 p1 e2 in ground arith

  rewritten-keeps :
      (c : Conversation) {c' : Conversation} {counts : Counts}
      → rewritten lower patterns c ≡ ok (c', counts)
      → IsPositive counts × SameIdentity c' c
  unfolding rewritten
  rewritten-keeps c h =
      let (p1, title) = redact_optional-IsPositive c.title [] tt in
      let (ms, e1, h1) = >>=-eq-ok (messages lower patterns c.messages _) _ h in
      let (c2, e2, h2) = >>=-eq-ok (new_conversation _) _ h1 in
      let (p2, k2) = messages-keeps c.messages _ p1 e1 in
      let same = new_conversation-same _ e2 in ground arith

  -- What a sanitized conversation shares with the one that was read, given searches that stay within
  -- the text: source, native id, times, the presence of a title, and message by message, in order,
  -- the role, the time, the kinds of its non-text parts, and which texts of its tool activities
  -- there are.
  pub sanitize-SameIdentity :
      (c : Conversation) {c' : Conversation} {report : RedactionReport}
      → sanitize lower patterns c ≡ ok (c', report)
      → SameIdentity c' c
  unfolding sanitize finish
  sanitize-SameIdentity c h = elim (Result-cases (rewritten lower patterns c)) [
    | inl ((c2, counts), e) ↦
        let (p, k) = rewritten-keeps c e in ground (arith, new_report-ok counts p)
    | inr (x, e) ↦ ground arith
  ]

  -- Given searches that stay within the text, the report that the sanitizer builds outside of its
  -- handler is never refused: the only error is its own.
  pub sanitize-ne-bad_report : (c : Conversation) → sanitize lower patterns c ≢ err bad_report
  unfolding sanitize finish
  sanitize-ne-bad_report c h = elim (Result-cases (rewritten lower patterns c)) [
    | inl ((c2, counts), e) ↦
        let (p, k) = rewritten-keeps c e in ground (arith, new_report-ok counts p)
    | inr (x, e) ↦ ground arith
  ]
