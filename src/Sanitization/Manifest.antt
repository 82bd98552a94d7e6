-- ===== src/Sanitization/Manifest.antt =====
-- `secret_manifest_blocks` of src/engineering_memory/sanitization/patterns.py: the data of the
-- Kubernetes Secrets in a text.
pub mod Nesting
mod Tests
use hermes_memory.Base.{
  ℕ, zero, suc, ◌+◌, ◌-◌, ◌*◌, ◌/◌, Bool, true, false, not, ◌&&◌, ◌||◌, ◌==◌, Option, none, some,
  List, [], ◌∷◌, ◌++◌, Str, codes, str_eq, leb, ltb, all, any, length, take, drop, is_empty,
  is_some, lstrip, rstrip, if◌then◌else◌,
}

abbrev pub is_blank_character : ℕ → Bool
is_blank_character c = c == 32 || c == 9

unfoldable pub is_line_end : ℕ → Bool
is_line_end c = c == 13 || c == 10

-- Where `str.splitlines` splits; a carriage return takes a line feed with it.
is_line_break : ℕ → Bool
is_line_break c =
    leb 10 c && leb c 13 || leb 28 c && leb c 30 || c == 0x85 || c == 0x2028 || c == 0x2029

unfoldable pub end_line : Str → List Str → List Str
end_line current rest = if is_empty current then rest else current ∷ rest

-- `text.splitlines(keepends=True)`; `current` is what was read so far of the line at hand.
unfoldable pub split_lines : Str → Str → List Str
unfolding is_line_break end_line
split_lines current [] = end_line current []
split_lines current (c ∷ []) = (current ++ c ∷ []) ∷ []
split_lines current (c ∷ d ∷ cs) =
    let longer = split_lines (current ++ c ∷ []) (d ∷ cs) in
    let next = split_lines [] (d ∷ cs) in
    if not (is_line_break c) || c == 13 && d == 10 then longer else (current ++ c ∷ []) ∷ next

-- `len(prefix.expandtabs(8))` of a prefix of blanks and tabs
columns : ℕ → Str → ℕ
columns n [] = n
columns n (c ∷ cs) =
    let after_tab = columns ((n / 8 + 1) * 8) cs in
    let after_blank = columns (n + 1) cs in if c == 9 then after_tab else after_blank

is_letter : ℕ → Bool
is_letter c = leb b'A' c && leb c b'Z' || leb b'a' c && leb c b'z'

is_key_start : ℕ → Bool
unfolding is_letter
is_key_start c = is_letter c || c == b'_'

is_key_part : ℕ → Bool
unfolding is_key_start
is_key_part c = is_key_start c || leb b'0' c && leb c b'9' || c == b'.' || c == b'-'

-- The longest front whose characters pass a test, and the rest.
span : (ℕ → Bool) → Str → Str × Str
span p [] = ([], [])
span p (c ∷ cs) = let (front, rest) = span p cs in if p c then (c ∷ front, rest) else ([], c ∷ cs)

after_colon : Str → Str → Option (Str × Str)
after_colon key [] = none
after_colon key (c ∷ cs) = if c == b':' then some (key, cs) else none

-- `_KEY`: the key and the rest. A key has no blank and no colon, so the expression matches in one way.
unfoldable pub match_key : Str → Option (Str × Str)
unfolding is_key_start is_key_part span after_colon
match_key [] = none
match_key (c ∷ cs) =
    let (part, rest) = span is_key_part cs in
    if is_key_start c && leb (length part) 64
    then after_colon (c ∷ part) (lstrip is_blank_character rest)
    else none

-- `_EMPTY_VALUE`
unfoldable pub is_empty_value : Str → Bool
unfolding lstrip
is_empty_value s =
    let rest = lstrip is_blank_character s in is_empty rest || str_eq (take 1 rest) (codes "#")

without_quote : Str → Str
without_quote [] = []
without_quote (c ∷ cs) = if c == b'"' || c == 39 then cs else c ∷ cs

-- `_SECRET_VALUE`
unfoldable pub is_secret_value : Str → Bool
unfolding lstrip without_quote is_empty_value
is_secret_value s =
    let opened = without_quote (lstrip is_blank_character s) in
    str_eq (take 6 opened) (codes "Secret") && is_empty_value (without_quote (drop 6 opened))

-- `_DOCUMENT_SEPARATOR`
unfoldable pub is_document_separator : Str → Bool
is_document_separator s =
    str_eq (take 3 s) (codes "---")
    && (is_empty (drop 3 s) || any is_blank_character (take 1 (drop 3 s)))

-- `_Line`, whose `start` is not read.
pub record Line : Type 0 where
  pub end : ℕ
  pub indent : ℕ
  pub key : Option Str
  pub value : Str
  pub is_item_start : Bool
  pub is_separator : Bool
  pub is_blank : Bool

unfoldable pub key_of : Option (Str × Str) → Option Str
key_of none = none
key_of (some (key, rest)) = some key

value_of : Option (Str × Str) → Str → Str
value_of none stripped = stripped
value_of (some (key, rest)) stripped = rest

-- One line of `_parse`, at its position.
unfoldable pub parse_line : ℕ → Str → Line
unfolding is_line_end columns match_key is_document_separator key_of value_of lstrip rstrip
parse_line position raw =
    let content = rstrip is_line_end raw in
    let stripped = lstrip is_blank_character content in
    let indent = columns 0 (take (length content - length stripped) content) in
    let item = str_eq (take 2 stripped) (codes "- ") || str_eq stripped (codes "-") in
    let inner = if item then lstrip is_blank_character (drop 2 stripped) else stripped in
    let matched = match_key inner in
    record {
      end = position + length content;
      indent = if item then indent + 2 else indent;
      key = key_of matched;
      value = value_of matched inner;
      is_item_start = item;
      is_separator = is_document_separator inner;
      is_blank = is_empty inner;
    }

unfoldable pub parse_lines : ℕ → List Str → List Line
unfolding parse_line
parse_lines position [] = []
parse_lines position (raw ∷ rest) =
    parse_line position raw ∷ parse_lines (position + length raw) rest

-- `_parse`
unfoldable pub parse : Str → List Line
unfolding split_lines parse_lines
parse text = parse_lines 0 (split_lines [] text)

is_key : Option Str → Str → Bool
is_key none s = false
is_key (some key) s = str_eq key s

-- `line.key == "kind" and _SECRET_VALUE.match(line.value)`
says_secret : Line → Bool
unfolding is_key is_secret_value
says_secret line = is_key line.key (codes "kind") && is_secret_value line.value

-- `_siblings` above, nearest first, asked whether one says `kind: Secret`.
unfoldable pub any_above : ℕ → List Line → Bool
unfolding says_secret
any_above indent [] = false
any_above indent (line ∷ above) =
    let further = any_above indent above in
    if line.is_blank
    then further
    else if line.is_separator || ltb line.indent indent
    then false
    else (line.indent == indent && says_secret line) || (not line.is_item_start && further)

-- `_siblings` below.
unfoldable pub any_below : ℕ → List Line → Bool
unfolding says_secret
any_below indent [] = false
any_below indent (line ∷ below) =
    let further = any_below indent below in
    if line.is_blank
    then further
    else if line.is_separator || ltb line.indent indent || line.is_item_start
    then false
    else (line.indent == indent && says_secret line) || further

-- `_block_end`, from the end that was reached so far.
unfoldable pub block_end : ℕ → ℕ → List Line → ℕ
block_end indent end [] = end
block_end indent end (line ∷ below) =
    let same = block_end indent end below in
    let further = block_end indent line.end below in
    if line.is_blank
    then same
    else if line.is_separator || leb line.indent indent
    then end
    else further

-- A `data` key whose value is empty, in a mapping that is a Secret.
unfoldable pub opens_block : List Line → Line → List Line → Bool
unfolding is_key is_empty_value any_above any_below
opens_block above line below =
    (is_key line.key (codes "data") || is_key line.key (codes "stringData"))
    && is_empty_value line.value
    && (any_above line.indent above || any_below line.indent below)

-- The loop, with the lines above the current one, nearest first.
unfoldable pub blocks_from : List Line → List Line → List (ℕ × ℕ)
unfolding opens_block block_end
blocks_from above [] = []
blocks_from above (line ∷ below) =
    let rest = blocks_from (line ∷ above) below in
    if opens_block above line below
    then (line.end, block_end line.indent line.end below) ∷ rest
    else rest

unfoldable pub secret_manifest_blocks : Str → List (ℕ × ℕ)
unfolding parse blocks_from
secret_manifest_blocks text = blocks_from [] (parse text)
