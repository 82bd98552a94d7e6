-- ===== src/Sanitization/Placeholders.antt =====
-- src/engineering_memory/sanitization/patterns.py: an entry of the table, and the values that only
-- stand in for a secret. `str.lower` over Unicode is a parameter.
use hermes_memory.Base.{
  strip, rstrip, ℕ, Bool, false, not, ◌&&◌, ◌||◌, Option, none, some, List, [], ◌∷◌, Str, codes,
  str_eq, leb, ◌==◌, any, all, is_empty, length, if◌then◌else◌,
}
use hermes_memory.Normalization.Values.{is_space}
use hermes_memory.Sanitization.Report.{RedactionCategory}

-- The spans of the value group in the matches of `expression.finditer(text, start, end)`, in
-- order; `none` where the group took no part in a match. The regular expressions are parameters.
pub record Pattern : Type 0 where
  pub category : RedactionCategory
  pub finditer : Str → ℕ → ℕ → List (Option (ℕ × ℕ))
  pub whole_match : Bool
  pub minimum_length : ℕ
  pub within : Option (Str → List (ℕ × ℕ))

abbrev pub is_letter : ℕ → Bool
is_letter c = leb b'a' c && leb c b'z' || leb b'A' c && leb c b'Z'

abbrev pub is_digit : ℕ → Bool
is_digit c = leb b'0' c && leb c b'9'

abbrev pub is_name_start : ℕ → Bool
is_name_start c = is_letter c || c == b'_'

abbrev pub is_name_part : ℕ → Bool
is_name_part c = is_name_start c || is_digit c

abbrev pub is_member : Str → List Str → Bool
is_member s = any (str_eq s)

abbrev pub placeholders : List Str
placeholders =
    codes ""
    ∷ codes "\"\""
    ∷ codes "''"
    ∷ codes "..."
    ∷ codes "changeme"
    ∷ codes "change-me"
    ∷ codes "changeit"
    ∷ codes "example"
    ∷ codes "null"
    ∷ codes "none"
    ∷ codes "password"
    ∷ codes "redacted"
    ∷ codes "secret"
    ∷ codes "todo"
    ∷ codes "value"
    ∷ codes "your-key"
    ∷ codes "yourkey"
    ∷ codes "any"
    ∷ codes "bool"
    ∷ codes "boolean"
    ∷ codes "bytes"
    ∷ codes "char"
    ∷ codes "float"
    ∷ codes "int"
    ∷ codes "integer"
    ∷ codes "nullable"
    ∷ codes "number"
    ∷ codes "object"
    ∷ codes "optional"
    ∷ codes "required"
    ∷ codes "str"
    ∷ codes "string"
    ∷ codes "text"
    ∷ codes "true"
    ∷ codes "false"
    ∷ codes "uuid"
    ∷ codes "varchar"
    ∷ []

-- `[A-Za-z_][A-Za-z0-9_]{0,63}` as a whole text.
abbrev pub is_variable : Str → Bool
is_variable [] = false
is_variable (c ∷ cs) = is_name_start c && all is_name_part cs && leb (length cs) 63

-- The text before its last character, if that is the given one.
abbrev pub before_last : ℕ → Str → Option Str
before_last d [] = none
before_last d (c ∷ []) = if c == d then some [] else none
before_last d (c ∷ c' ∷ cs) = elim (before_last d (c' ∷ cs)) [
  | none ↦ none
  | some init ↦ some (c ∷ init)
]

abbrev pub holds_of : (Str → Bool) → Option Str → Bool
holds_of p none = false
holds_of p (some s) = p s

-- `$TOKEN` and `${TOKEN}`, after the dollar sign; the braces are optional one by one.
abbrev pub without_brace : Str → Str
without_brace [] = []
without_brace (c ∷ cs) = if c == b'{' then cs else c ∷ cs

abbrev pub is_shell_reference : Str → Bool
is_shell_reference s =
    let inner = without_brace s in
    is_variable inner || holds_of is_variable (before_last b'}' inner)

-- `{{ token }}`: what stands between the braces holds none, and its core fits.
abbrev pub is_template_body : Str → Bool
is_template_body s =
    not (is_empty s)
    && all (λ d. not (d == b'{') && not (d == b'}')) s
    && leb (length (strip is_space s)) 64

abbrev pub before_braces : Option Str → Option Str
before_braces none = none
before_braces (some s) = before_last b'}' s

-- The same, after its first brace.
abbrev pub is_template : Str → Bool
is_template [] = false
is_template (c ∷ cs) = c == b'{' && holds_of is_template_body (before_braces (before_last b'}' cs))

abbrev pub is_documentation : Str → Bool
is_documentation s =
    not (is_empty s) && all (λ d. not (d == b'<') && not (d == b'>')) s && leb (length s) 64

abbrev pub is_filler : ℕ → Bool
is_filler c = c == b'x' || c == b'X' || c == b'*' || c == b'.' || c == 0x2026 || c == b'-'

-- `_REFERENCE`, matched against the whole value.
unfoldable pub is_reference : Str → Bool
unfolding strip is_space
is_reference [] = false
is_reference (c ∷ cs) =
    (c == b'$' && is_shell_reference cs)
    || (c == b'%' && holds_of is_variable (before_last b'%' cs))
    || (c == b'{' && is_template cs)
    || (c == b'<' && holds_of is_documentation (before_last b'>' cs))
    || str_eq (c ∷ cs) (codes "[REDACTED]")
    || (all is_filler (c ∷ cs) && leb (length (c ∷ cs)) 64)

abbrev pub is_quote : ℕ → Bool
is_quote c = c == b'"' || c == 39

abbrev pub is_terminator : ℕ → Bool
is_terminator c = c == b';' || c == b','

unfoldable pub is_placeholder : (Str → Str) → Str → Bool
unfolding strip rstrip is_reference
is_placeholder lower value =
    let stripped = rstrip is_terminator (strip is_quote (strip is_space value)) in
    is_empty stripped || is_member (lower stripped) placeholders || is_reference stripped
