-- ===== src/Sanitization/Scanner.antt =====
-- src/engineering_memory/sanitization/scanner.py
pub mod Merge
pub mod Kept
pub mod Coverage
pub mod Rewrite
use hermes_memory.Base.{
  ℕ, zero, suc, ◌+◌, ◌-◌, ◌≤◌, ◌<◌, Bool, true, false, not, ◌&&◌, ◌||◌, Option, none, some, List,
  [], ◌∷◌, ◌++◌, Str, codes, leb, ltb, ◌==◌, any, all, is_empty, length, take, drop, if◌then◌else◌,
  Dict, lookup, insert, ℕ_discrete,
}
use hermes_memory.Sanitization.Report.{RedactionCategory, Counts, add_count}
use hermes_memory.Sanitization.Placeholders.{Pattern, is_name_start, is_name_part, is_placeholder}

abbrev pub redacted : Str
redacted = codes "[REDACTED]"

pub record Span : Type 0 where
  pub start : ℕ
  pub stop : ℕ
  pub category : RedactionCategory
  pub precedence : ℕ

-- `text[start:stop]`
abbrev pub slice : Str → ℕ → ℕ → Str
slice text start stop = take (stop - start) (drop start text)

abbrev pub is_opening : ℕ → Bool
is_opening c = c == b'(' || c == b'['

-- The rest of `_CALL_OR_SUBSCRIPT`: a dotted name up to an opening bracket.
abbrev pub opens_call : Str → Bool
opens_call [] = false
opens_call (c ∷ cs) = is_opening c || ((is_name_part c || c == b'.') && opens_call cs)

abbrev pub ends_on_bracket : Str → Bool
ends_on_bracket [] = false
ends_on_bracket (c ∷ []) = is_opening c || c == b')' || c == b']'
ends_on_bracket (c ∷ c' ∷ cs) = ends_on_bracket (c' ∷ cs)

-- `_is_a_code_expression`
unfoldable pub is_a_code_expression : Str → Bool
is_a_code_expression [] = false
is_a_code_expression (c ∷ cs) = is_name_start c && opens_call cs && ends_on_bracket (c ∷ cs)

module _ (lower : Str → Str) where
  -- The span of one match, unless its value is missing, short, a placeholder or code.
  unfoldable pub span_of : Str → Pattern → ℕ → Option (ℕ × ℕ) → List Span
  unfolding is_placeholder is_a_code_expression
  span_of text pattern precedence none = []
  span_of text pattern precedence (some (start, stop)) =
      let value = slice text start stop in
      if ltb (length value) pattern.minimum_length || is_placeholder lower value
      then []
      else if not pattern.whole_match && is_a_code_expression value
      then []
      else (record {
        start = start;
        stop = stop;
        category = pattern.category;
        precedence = precedence;
      })
        ∷ []

  unfoldable pub spans_of_matches : Str → Pattern → ℕ → List (Option (ℕ × ℕ)) → List Span
  unfolding span_of
  spans_of_matches text pattern precedence [] = []
  spans_of_matches text pattern precedence (m ∷ ms) =
      span_of text pattern precedence m ++ spans_of_matches text pattern precedence ms

  unfoldable pub spans_of_regions : Str → Pattern → ℕ → List (ℕ × ℕ) → List Span
  unfolding spans_of_matches
  spans_of_regions text pattern precedence [] = []
  spans_of_regions text pattern precedence ((start, stop) ∷ regions) =
      spans_of_matches text pattern precedence (pattern.finditer text start stop)
      ++ spans_of_regions text pattern precedence regions

  abbrev pub regions_of : Pattern → Str → List (ℕ × ℕ)
  regions_of pattern text = elim pattern.within [
    | none ↦ (0, length text) ∷ []
    | some within ↦ within text
  ]

  -- `enumerate(patterns)` from a number on.
  unfoldable pub find_spans_from : ℕ → Str → List Pattern → List Span
  unfolding spans_of_regions
  find_spans_from n text [] = []
  find_spans_from n text (pattern ∷ patterns) =
      spans_of_regions text pattern n (regions_of pattern text)
      ++ find_spans_from (n + 1) text patterns

  unfoldable pub find_spans : Str → List Pattern → List Span
  unfolding find_spans_from
  find_spans text patterns = find_spans_from 0 text patterns

-- The `while` of `_merge`: the kept spans that end where the next one starts, or before.
unfoldable pub passed : ℕ → List Span → List Span
passed start [] = []
passed start (k ∷ kept) = if leb k.stop start then k ∷ passed start kept else []

unfoldable pub remaining : ℕ → List Span → List Span
remaining start [] = []
remaining start (k ∷ kept) = if leb k.stop start then remaining start kept else k ∷ kept

abbrev pub starts_before : ℕ → List Span → Bool
starts_before stop [] = false
starts_before stop (k ∷ kept) = ltb k.start stop

abbrev pub ends_after : ℕ → List Span → Bool
ends_after start [] = false
ends_after start (m ∷ []) = ltb start m.stop
ends_after start (m ∷ m' ∷ merged) = ends_after start (m' ∷ merged)

-- The `for` of `_merge`, with `merged` and what `kept[index:]` is.
unfoldable pub merge_from : List Span → List Span → List Span → List Span
unfolding passed remaining
merge_from merged kept [] = merged ++ kept
merge_from merged kept (span ∷ incoming) =
    let merged' = merged ++ passed span.start kept in
    let kept' = remaining span.start kept in
    let drops = starts_before span.stop kept' || ends_after span.start merged' in
    merge_from (if drops then merged' else merged' ++ span ∷ []) kept' incoming

unfoldable pub merge : List Span → List Span → List Span
unfolding merge_from
merge kept incoming = merge_from [] kept incoming

-- `sorted(..., key=lambda span: (span.start, -span.end))`, which is stable.
abbrev pub goes_before : Span → Span → Bool
goes_before a b = ltb a.start b.start || (a.start == b.start && ltb b.stop a.stop)

unfoldable pub insert_span : Span → List Span → List Span
insert_span s [] = s ∷ []
insert_span s (t ∷ ts) = if goes_before t s then t ∷ insert_span s ts else s ∷ t ∷ ts

unfoldable pub sort_spans : List Span → List Span
unfolding insert_span
sort_spans [] = []
sort_spans (s ∷ ss) = insert_span s (sort_spans ss)

-- `by_pattern[precedence]`
unfoldable pub of_precedence : ℕ → List Span → List Span
of_precedence p [] = []
of_precedence p (s ∷ ss) = if s.precedence == p then s ∷ of_precedence p ss else of_precedence p ss

-- `sorted(by_pattern)`: the precedences that occur, each once, in order.
unfoldable pub insert_precedence : ℕ → List ℕ → List ℕ
insert_precedence p [] = p ∷ []
insert_precedence p (q ∷ qs) =
    if p == q then q ∷ qs else if ltb p q then p ∷ q ∷ qs else q ∷ insert_precedence p qs

unfoldable pub precedences : List Span → List ℕ
unfolding insert_precedence
precedences [] = []
precedences (s ∷ ss) = insert_precedence s.precedence (precedences ss)

unfoldable pub merge_all : List Span → List Span → List ℕ → List Span
unfolding merge sort_spans of_precedence
merge_all spans kept [] = kept
merge_all spans kept (p ∷ ps) = merge_all spans (merge kept (sort_spans (of_precedence p spans))) ps

unfoldable pub resolve : List Span → List Span
unfolding merge_all precedences
resolve spans = merge_all spans [] (precedences spans)

-- The loop of `redact`: the pieces joined, and the counts.
unfoldable pub rewrite : Str → ℕ → List Span → Str
rewrite text cursor [] = drop cursor text
rewrite text cursor (span ∷ spans) =
    slice text cursor span.start ++ (redacted ++ rewrite text span.stop spans)

unfoldable pub count_spans : Counts → List Span → Counts
unfolding add_count
count_spans counts [] = counts
count_spans counts (span ∷ spans) = count_spans (add_count span.category 1 counts) spans

-- `redact` after the spans are resolved.
unfoldable pub redact_spans : Str → List Span → Str × Counts
unfolding rewrite count_spans
redact_spans text [] = (text, [])
redact_spans text (span ∷ spans) = (rewrite text 0 (span ∷ spans), count_spans [] (span ∷ spans))

unfoldable pub redact : (Str → Str) → Str → List Pattern → Str × Counts
unfolding find_spans resolve redact_spans
redact lower text patterns = redact_spans text (resolve (find_spans lower text patterns))
