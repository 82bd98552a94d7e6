-- ===== src/Sanitization/Tests.antt =====
-- A pattern, and the scanner and the sanitizer run with it.
use hermes_memory.Base.{
  strip, lstrip, rstrip, ℕ, min, ◌≡◌, ◌≢◌, refl, true, Option, none, some, List, [], ◌∷◌, All, Str,
  codes, length, ok, err, arith, ℕ_discrete, Str-discrete, lookup, insert,
}
use hermes_memory.Normalization.Values.{
  is_space, text, is_surrogate, opaque_identifier, is_unusable,
}
use hermes_memory.Normalization.Conversation.{
  Conversation, Message, optional_text, new_non_text_part, new_message, new_conversation,
  activity_follows_start,
}
use hermes_memory.Normalization.Tests.{asked, question, at_noon}
use hermes_memory.Sanitization.Report.{
  openai_key, Counts, sum_counts, IsPositive, Category-discrete, add_count, new_report,
}
use hermes_memory.Sanitization.Placeholders.{Pattern, is_placeholder, is_reference}
use hermes_memory.Sanitization.Scanner.{
  Span, is_a_code_expression, span_of, spans_of_matches, spans_of_regions, find_spans_from,
  find_spans, passed, remaining, merge_from, merge, insert_span, sort_spans, of_precedence,
  insert_precedence, precedences, merge_all, resolve, rewrite, count_spans, redact_spans, redact,
}
use hermes_memory.Sanitization.Scanner.Merge.{Between, Fits, resolve-Between}
use hermes_memory.Sanitization.Scanner.Kept.{Any, Overlaps}
use hermes_memory.Sanitization.Scanner.Coverage.{resolve-Overlaps}
use hermes_memory.Sanitization.Scanner.Rewrite.{Redacts, IsSearch, redact-Redacts}
use hermes_memory.Sanitization.PatternSanitizer.{
  bad_report, add_all, redact_str, redact_optional, redact_name, tool_activities, non_text_part,
  non_text_parts, message, messages, rewritten, finish, sanitize,
}
use hermes_memory.Sanitization.PatternSanitizer.Identity.{
  SameIdentity, sanitize-SameIdentity, sanitize-ne-bad_report,
}

-- A search that finds what follows the first ten characters.
abbrev tail_search : Str → ℕ → ℕ → List (Option (ℕ × ℕ))
tail_search text start stop = some (min 10 (length text), length text) ∷ []

abbrev key_pattern : Pattern
key_pattern = record {
  category = openai_key;
  finditer = tail_search;
  whole_match = true;
  minimum_length = 6;
  within = none;
}

abbrev keep_case : Str → Str
keep_case s = s

key_pattern-IsSearch : IsSearch key_pattern
key_pattern-IsSearch text start stop = ((omega arith, omega arith), tt)

abbrev counted : Counts
counted = (openai_key, 1) ∷ []

abbrev message_text : Str
message_text = codes "my key is sk-abc"

redact_openai :
    redact keep_case message_text (key_pattern ∷ []) ≡ (codes "my key is [REDACTED]", counted)
unfolding redact find_spans find_spans_from spans_of_regions spans_of_matches span_of is_placeholder
    is_reference strip lstrip rstrip is_space is_a_code_expression resolve precedences
    insert_precedence merge_all merge merge_from passed remaining sort_spans insert_span
    of_precedence redact_spans rewrite count_spans add_count lookup insert Category-discrete
    Str-discrete ℕ_discrete
redact_openai = refl

-- Three findings of two patterns, two of which overlap.
abbrev found : ℕ → ℕ → ℕ → Span
found start stop precedence = record {
  start = start;
  stop = stop;
  category = openai_key;
  precedence = precedence;
}

abbrev findings : List Span
findings = found 4 9 1 ∷ found 2 6 0 ∷ found 10 12 1 ∷ []

resolve-findings : resolve findings ≡ found 2 6 0 ∷ found 10 12 1 ∷ []
unfolding resolve precedences insert_precedence merge_all merge merge_from passed remaining
    sort_spans insert_span of_precedence
resolve-findings = refl

findings-Fits : Fits 12 findings
findings-Fits =
    ((omega arith, omega arith), ((omega arith, omega arith), ((omega arith, omega arith), tt)))

-- Applications

resolve-Between_example : Between 0 (resolve findings) 12
resolve-Between_example = resolve-Between 12 findings findings-Fits

resolve-Overlaps_example : All (λ s. Any (Overlaps s) (resolve findings)) findings
resolve-Overlaps_example = resolve-Overlaps 12 findings findings-Fits

redact-Redacts_example :
    Redacts message_text
      (redact keep_case message_text (key_pattern ∷ [])).0
      (sum_counts (redact keep_case message_text (key_pattern ∷ [])).1)
    × IsPositive (redact keep_case message_text (key_pattern ∷ [])).1
redact-Redacts_example =
    redact-Redacts keep_case message_text (key_pattern ∷ []) (key_pattern-IsSearch, tt)

abbrev cleaned_message : Message
cleaned_message = record (question at_noon) { text = codes "my key is [REDACTED]" }

abbrev cleaned : Conversation
cleaned = record asked { messages = cleaned_message ∷ [] }

sanitize-asked :
    sanitize keep_case (key_pattern ∷ []) asked ≡ ok (cleaned, record { counts = counted })
unfolding sanitize rewritten finish messages message redact_optional redact_str redact_name
    tool_activities non_text_parts non_text_part add_all new_message new_non_text_part
    new_conversation new_report opaque_identifier is_unusable optional_text text is_surrogate
    activity_follows_start redact find_spans find_spans_from spans_of_regions spans_of_matches
    span_of is_placeholder is_reference strip lstrip rstrip is_space is_a_code_expression resolve
    precedences insert_precedence merge_all merge merge_from passed remaining sort_spans insert_span
    of_precedence redact_spans rewrite count_spans add_count lookup insert Category-discrete
    Str-discrete ℕ_discrete
sanitize-asked = refl

sanitize-SameIdentity_example : SameIdentity cleaned asked
sanitize-SameIdentity_example =
    sanitize-SameIdentity keep_case (key_pattern ∷ []) (key_pattern-IsSearch, tt) asked
      sanitize-asked

sanitize-ne-bad_report_example : sanitize keep_case (key_pattern ∷ []) asked ≢ err bad_report
sanitize-ne-bad_report_example =
    sanitize-ne-bad_report keep_case (key_pattern ∷ []) (key_pattern-IsSearch, tt) asked
