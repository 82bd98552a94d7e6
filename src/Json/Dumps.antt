-- ===== src/Json/Dumps.antt =====
-- `json.dumps(value, sort_keys=True, separators=(",", ":"), ensure_ascii=False)`.
use hermes_memory.Base.{
  ℕ, zero, suc, ◌+◌, ◌/◌, ◌%◌, Bool, true, false, List, [], ◌∷◌, ◌++◌, Str, codes, ltb, ◌==◌,
  if◌then◌else◌,
}
use hermes_memory.Json.{
  Number, int, negative, float, Json, null, bool, num, str, arr, obj, Items, nil, cons, Fields, end,
  field,
}

-- A decimal numeral, most significant digit first.
digits_fuel : ℕ → ℕ → Str
digits_fuel zero n = []
digits_fuel (suc f) n =
    let rest = digits_fuel f (n / 10) in
    if ltb n 10 then (b'0' + n) ∷ [] else rest ++ (b'0' + n % 10) ∷ []

unfoldable pub decimal : ℕ → Str
unfolding digits_fuel
decimal n = digits_fuel (suc n) n

hex_digit : ℕ → ℕ
hex_digit d = if ltb d 10 then b'0' + d else 87 + d

escape_char : ℕ → Str
unfolding hex_digit
escape_char c =
    if c == b'"'
    then codes "\\\""
    else if c == 92
    then codes "\\\\"
    else if c == 10
    then codes "\\n"
    else if c == 13
    then codes "\\r"
    else if c == 9
    then codes "\\t"
    else if c == 12
    then codes "\\f"
    else if c == 8
    then codes "\\b"
    else if ltb c 32
    then codes "\\u00" ++ hex_digit (c / 16) ∷ hex_digit (c % 16) ∷ []
    else c ∷ []

escape : Str → Str
unfolding escape_char
escape [] = []
escape (c ∷ cs) = escape_char c ++ escape cs

unfoldable pub quoted : Str → Str
unfolding escape
quoted s = b'"' ∷ escape s ++ b'"' ∷ []

key_lt : Str → Str → Bool
key_lt [] [] = false
key_lt [] (y ∷ ys) = true
key_lt (x ∷ xs) [] = false
key_lt (x ∷ xs) (y ∷ ys) = if x == y then key_lt xs ys else ltb x y

-- A float's text is `repr`, which the canonical form never asks for.
dump_number : Number → Str
unfolding decimal
dump_number (int n) = decimal n
dump_number (negative n) = b'-' ∷ decimal n
dump_number (float bits) = codes "float"

-- The members of an object are printed first and sorted by key afterwards.
abbrev insert_text : Str → Str → List (Str × Str) → List (Str × Str)
insert_text k v [] = (k, v) ∷ []
insert_text k v ((j, w) ∷ rest) =
    if key_lt k j then (k, v) ∷ (j, w) ∷ rest else (j, w) ∷ insert_text k v rest

joined : List (Str × Str) → Str
unfolding quoted
joined [] = []
joined ((k, v) ∷ []) = quoted k ++ b':' ∷ v
joined ((k, v) ∷ more ∷ rest) = (quoted k ++ b':' ∷ v) ++ b',' ∷ joined (more ∷ rest)

comma_joined : List Str → Str
comma_joined [] = []
comma_joined (v ∷ []) = v
comma_joined (v ∷ w ∷ rest) = v ++ b',' ∷ comma_joined (w ∷ rest)

unfoldable mutual
  unfolding quoted dump_number comma_joined joined key_lt

  pub dumps : Json → Str
  dumps null = codes "null"
  dumps (bool true) = codes "true"
  dumps (bool false) = codes "false"
  dumps (num n) = dump_number n
  dumps (str s) = quoted s
  dumps (arr vs) = b'[' ∷ comma_joined (dump_items vs) ++ b']' ∷ []
  dumps (obj fs) = b'{' ∷ joined (dump_fields fs) ++ b'}' ∷ []

  pub dump_items : Items → List Str
  dump_items nil = []
  dump_items (cons v vs) = dumps v ∷ dump_items vs

  pub dump_fields : Fields → List (Str × Str)
  dump_fields end = []
  dump_fields (field k v fs) = insert_text k (dumps v) (dump_fields fs)
