-- ===== src/Normalization/Values.antt =====
-- src/engineering_memory/normalization/base.py: the checked strings and the times.
use hermes_memory.Base.{
  ℕ, Bool, true, false, ◌&&◌, ◌||◌, List, [], ◌∷◌, Str, leb, ltb, ◌==◌, any, all, is_empty,
  if◌then◌else◌, Result, ok, err,
}

-- Which rule a model's validation refused.
pub data Invalid : Type 0 where
  empty_identifier unusable_identifier unencodable_text bad_slug empty_text : Invalid
  activity_before_start : Invalid
  provenance_source provenance_source_id tag_source tag_project duplicate_tag : Invalid
  skip_recorded failure_without_error error_without_failure : Invalid
  count_below_one : Invalid

abbrev pub Valid : Type 0 → Type 0
Valid = Result Invalid

-- `str.isspace` of one code point, which is `\s` of a Python pattern over text.
unfoldable pub is_space : ℕ → Bool
is_space c =
    leb 9 c && leb c 13
    || leb 28 c && leb c 32
    || c == 0x85
    || c == 0xa0
    || c == 0x1680
    || leb 0x2000 c && leb c 0x200a
    || c == 0x2028
    || c == 0x2029
    || c == 0x202f
    || c == 0x205f
    || c == 0x3000

-- `_UNUSABLE_IN_AN_IDENTIFIER`
unfoldable pub is_unusable : ℕ → Bool
unfolding is_space
is_unusable c = is_space c || ltb c 32 || c == 127

-- A lone surrogate is what UTF-8 cannot encode.
unfoldable pub is_surrogate : ℕ → Bool
is_surrogate c = leb 0xd800 c && leb c 0xdfff

-- `OpaqueIdentifier`: pydantic takes no text that is not Unicode where it checks a length.
unfoldable pub opaque_identifier : Str → Valid Str
unfolding is_unusable is_surrogate
opaque_identifier value =
    if is_empty value
    then err empty_identifier
    else if any is_surrogate value
    then err unencodable_text
    else if any is_unusable value
    then err unusable_identifier
    else ok value

-- `Text`
unfoldable pub text : Str → Valid Str
unfolding is_surrogate
text value = if any is_surrogate value then err unencodable_text else ok value

is_slug_start : ℕ → Bool
is_slug_start c = leb b'a' c && leb c b'z' || leb b'0' c && leb c b'9'

is_slug_part : ℕ → Bool
unfolding is_slug_start
is_slug_part c = is_slug_start c || c == b'.' || c == b'_' || c == b'-'

-- The pattern `^[a-z0-9][a-z0-9._-]*$`.
unfoldable pub is_slug : Str → Bool
unfolding is_slug_part
is_slug [] = false
is_slug (c ∷ cs) = is_slug_start c && all is_slug_part cs

-- `Slug`
unfoldable pub slug : Str → Valid Str
unfolding is_slug
slug value = if is_slug value then ok value else err bad_slug

-- The fields of an instant on the UTC clock.
pub record Civil : Type 0 where
  pub year : ℕ
  pub month : ℕ
  pub day : ℕ
  pub hour : ℕ
  pub minute : ℕ
  pub second : ℕ
  pub microsecond : ℕ

-- An aware datetime: its instant, and the offset (in minutes, shifted by a day) that it was
-- written with. Conversion to UTC keeps the first and forgets the second.
pub record Timestamp : Type 0 where
  pub utc : Civil
  pub offset : ℕ

abbrev pub clock_fields : Civil → List ℕ
clock_fields c = c.year ∷ c.month ∷ c.day ∷ c.hour ∷ c.minute ∷ c.second ∷ c.microsecond ∷ []

unfoldable pub lex_lt : List ℕ → List ℕ → Bool
lex_lt [] [] = false
lex_lt [] (y ∷ ys) = true
lex_lt (x ∷ xs) [] = false
lex_lt (x ∷ xs) (y ∷ ys) = ltb x y || (x == y && lex_lt xs ys)

-- Aware datetimes compare as instants.
unfoldable pub before : Timestamp → Timestamp → Bool
unfolding lex_lt
before a b = lex_lt (clock_fields a.utc) (clock_fields b.utc)
