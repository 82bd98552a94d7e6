-- ===== src/Sanitization/Scanner/Rewrite.antt =====
-- The text and the counts of `redact` of scanner.py.
use hermes_memory.Base.{
  ℕ, zero, suc, ◌+◌, ◌-◌, ◌≤◌, ◌<◌, ◌≡◌, ◌≢◌, refl, sym, ap, ◌∙◌, true, Option, none, some, List,
  [], ◌∷◌, ◌++◌, Str, All, All-append, length, length-drop, take, drop, take-append-drop, arith,
  dec_lt,
}
use hermes_memory.Sanitization.Report.{
  Counts, sum_counts, add_count, sum_counts-add_count, IsPositive, add_count-IsPositive,
}
use hermes_memory.Sanitization.Placeholders.{Pattern, is_placeholder}
use hermes_memory.Sanitization.Scanner.{
  redacted, Span, slice, span_of, spans_of_matches, spans_of_regions, regions_of, find_spans_from,
  find_spans, resolve, rewrite, count_spans, redact_spans, redact,
}
use hermes_memory.Sanitization.Scanner.Merge.{Between, Fits, resolve-Between}

-- `out` is `text` with `n` parts, none of them empty, each replaced by the marker.
pub data Redacts : Str → Str → ℕ → Type 0 where
  untouched : (text : Str) → Redacts text text 0
  replaced :
      {text out rest rest' : Str} {n : ℕ} (gap value : Str)
      → value ≢ []
      → text ≡ gap ++ (value ++ rest)
      → out ≡ gap ++ (redacted ++ rest')
      → Redacts rest rest' n
      → Redacts text out (suc n)

drop-nil : (n : ℕ) → ◌≡◌ {A = Str} (drop n []) []
drop-nil zero = refl
drop-nil (suc n) = refl

Between-le : (lo hi : ℕ) (ss : List Span) → Between lo ss hi → lo ≤ hi
Between-le lo hi [] b = b
Between-le lo hi (s ∷ ss) b = omega (arith, Between-le s.stop hi ss b.2)

drop-drop : (m n : ℕ) (xs : Str) → drop m (drop n xs) ≡ drop (n + m) xs
drop-drop m zero xs = let e : m ≡ 0 + m = omega arith in ap (λ k. drop k xs) e
drop-drop m (suc n) [] = drop-nil m ∙ sym (drop-nil (suc n + m))
drop-drop m (suc n) (x ∷ xs) =
    let e : suc (n + m) ≡ suc n + m = omega arith in drop-drop m n xs ∙ ap (λ k. drop k (x ∷ xs)) e

split_at : (text : Str) (a b : ℕ) → a ≤ b → drop a text ≡ slice text a b ++ drop b text
split_at text a b h =
    let e : a + (b - a) ≡ b = omega arith in
    sym (take-append-drop (b - a) (drop a text))
    ∙ ap (λ t. slice text a b ++ t) (drop-drop (b - a) a text ∙ ap (λ k. drop k text) e)

take-nonempty : (n : ℕ) (xs : Str) → 0 < n → 0 < length xs → take n xs ≢ []
take-nonempty zero xs p q e = omega arith
take-nonempty (suc n) [] p q e = omega arith
take-nonempty (suc n) (x ∷ xs) p q e = cc

rewrite-Redacts :
    (text : Str) (cursor : ℕ) (spans : List Span)
    → Between cursor spans (length text)
    → Redacts (drop cursor text) (rewrite text cursor spans) (length spans)
unfolding rewrite
rewrite-Redacts text cursor [] b = untouched (drop cursor text)
rewrite-Redacts text cursor (s ∷ ss) b =
    let le = Between-le s.stop (length text) ss b.2 in
    let room : 0 < length (drop s.start text) = omega (arith, length-drop s.start text) in
    replaced (slice text cursor s.start) (slice text s.start s.stop)
      (take-nonempty (s.stop - s.start) (drop s.start text) (omega arith) room)
      (split_at text cursor s.start b.0
        ∙ ap (λ t. slice text cursor s.start ++ t) (split_at text s.start s.stop (omega arith)))
      refl (rewrite-Redacts text s.stop ss b.2)

count_spans-sum :
    (counts : Counts) (spans : List Span)
    → sum_counts (count_spans counts spans) ≡ sum_counts counts + length spans
unfolding count_spans
count_spans-sum counts [] = omega arith
count_spans-sum counts (s ∷ ss) = omega (
  arith,
  count_spans-sum (add_count s.category 1 counts) ss,
  sum_counts-add_count s.category 1 counts,
)

pub count_spans-IsPositive :
    (counts : Counts) (spans : List Span)
    → IsPositive counts
    → IsPositive (count_spans counts spans)
unfolding count_spans
count_spans-IsPositive counts [] p = p
count_spans-IsPositive counts (s ∷ ss) p =
    count_spans-IsPositive (add_count s.category 1 counts) ss
      (add_count-IsPositive s.category 1 counts (omega arith) p)

redact_spans-Redacts :
    (text : Str) (spans : List Span)
    → Between 0 spans (length text)
    → Redacts text (redact_spans text spans).0 (sum_counts (redact_spans text spans).1)
      × IsPositive (redact_spans text spans).1
unfolding redact_spans
redact_spans-Redacts text [] b = (untouched text, tt)
redact_spans-Redacts text (s ∷ ss) b =
    let n : sum_counts (count_spans [] (s ∷ ss)) ≡ length (s ∷ ss) =
      omega (arith, count_spans-sum [] (s ∷ ss)) in
    (rw n (rewrite-Redacts text 0 (s ∷ ss) b), count_spans-IsPositive [] (s ∷ ss) tt)

-- What a search of Python's `re` gives: the spans of groups lie within the text.
abbrev pub InText : ℕ → Option (ℕ × ℕ) → Type 0
InText n none = Unit
InText n (some (start, stop)) = (start ≤ stop) × (stop ≤ n)

abbrev pub IsSearch : Pattern → Type 0
IsSearch pattern =
    (text : Str) (start stop : ℕ) → All (InText (length text)) (pattern.finditer text start stop)

empty-is_placeholder : (lower : Str → Str) → is_placeholder lower [] ≡ true
unfolding is_placeholder
empty-is_placeholder lower = refl

slice-empty : (text : Str) (start stop : ℕ) → stop ≤ start → slice text start stop ≡ []
slice-empty text start stop h =
    let none_left : stop - start ≡ 0 = omega arith in ap (λ n. take n (drop start text)) none_left

module _ (lower : Str → Str) where
  span_of-Fits :
      (text : Str) (pattern : Pattern) (p : ℕ) (m : Option (ℕ × ℕ))
      → InText (length text) m
      → Fits (length text) (span_of lower text pattern p m)
  unfolding span_of
  span_of-Fits text pattern p none i = tt
  span_of-Fits text pattern p (some (start, stop)) i = elim (dec_lt start stop) [
    | yes proper ↦ ground arith
    | no empty ↦
        rw (slice-empty text start stop (omega arith)) (ground (arith, empty-is_placeholder lower))
  ]

  spans_of_matches-Fits :
      (text : Str) (pattern : Pattern) (p : ℕ) (ms : List (Option (ℕ × ℕ)))
      → All (InText (length text)) ms
      → Fits (length text) (spans_of_matches lower text pattern p ms)
  unfolding spans_of_matches
  spans_of_matches-Fits text pattern p [] i = tt
  spans_of_matches-Fits text pattern p (m ∷ ms) i =
      All-append _ (span_of lower text pattern p m) _ (span_of-Fits text pattern p m i.0)
        (spans_of_matches-Fits text pattern p ms i.1)

  spans_of_regions-Fits :
      (text : Str) (pattern : Pattern) (p : ℕ) (regions : List (ℕ × ℕ))
      → IsSearch pattern
      → Fits (length text) (spans_of_regions lower text pattern p regions)
  unfolding spans_of_regions
  spans_of_regions-Fits text pattern p [] i = tt
  spans_of_regions-Fits text pattern p ((start, stop) ∷ regions) i =
      All-append _ (spans_of_matches lower text pattern p (pattern.finditer text start stop)) _
        (spans_of_matches-Fits text pattern p _ (i text start stop))
        (spans_of_regions-Fits text pattern p regions i)

  find_spans_from-Fits :
      (n : ℕ) (text : Str) (patterns : List Pattern)
      → All IsSearch patterns
      → Fits (length text) (find_spans_from lower n text patterns)
  unfolding find_spans_from
  find_spans_from-Fits n text [] i = tt
  find_spans_from-Fits n text (p ∷ ps) i =
      All-append _ (spans_of_regions lower text p n (regions_of lower p text)) _
        (spans_of_regions-Fits text p n _ i.0) (find_spans_from-Fits (n + 1) text ps i.1)

  pub find_spans-Fits :
      (text : Str) (patterns : List Pattern)
      → All IsSearch patterns
      → Fits (length text) (find_spans lower text patterns)
  unfolding find_spans
  find_spans-Fits text patterns i = find_spans_from-Fits 0 text patterns i

  -- With searches that stay within the text, the redacted text is the given one with as many of its
  -- parts, none of them empty and no two overlapping, replaced by the marker as the counts add up
  -- to; all the rest of the text is kept, in place. No count is zero.
  pub redact-Redacts :
      (text : Str) (patterns : List Pattern)
      → All IsSearch patterns
      → Redacts text (redact lower text patterns).0 (sum_counts (redact lower text patterns).1)
        × IsPositive (redact lower text patterns).1
  unfolding redact
  redact-Redacts text patterns i =
      redact_spans-Redacts text (resolve (find_spans lower text patterns))
        (resolve-Between (length text) _ (find_spans-Fits text patterns i))
