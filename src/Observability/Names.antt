-- ===== src/Observability/Names.antt =====
-- `_is_sensitive_name` of src/engineering_memory/observability/redaction.py.
use hermes_memory.Base.{
  ℕ, Bool, false, ◌&&◌, ◌||◌, List, [], ◌∷◌, ◌++◌, Str, codes, str_eq, leb, any, is_empty,
  if◌then◌else◌,
}

-- `SENSITIVE_SEGMENTS`
abbrev pub sensitive_segments : List Str
sensitive_segments =
    codes "token"
    ∷ codes "secret"
    ∷ codes "password"
    ∷ codes "passwd"
    ∷ codes "credential"
    ∷ codes "credentials"
    ∷ codes "authorization"
    ∷ codes "cookie"
    ∷ codes "cookies"
    ∷ codes "jwt"
    ∷ codes "bearer"
    ∷ codes "apikey"
    ∷ []

-- `SENSITIVE_PAIRS`
abbrev pub sensitive_pairs : List (Str × Str)
sensitive_pairs =
    (codes "api", codes "key")
    ∷ (codes "access", codes "key")
    ∷ (codes "private", codes "key")
    ∷ (codes "secret", codes "key")
    ∷ (codes "auth", codes "header")
    ∷ (codes "auth", codes "token")
    ∷ []

is_name_character : ℕ → Bool
is_name_character c = leb b'a' c && leb c b'z' || leb b'0' c && leb c b'9'

closed : Str → List Str → List Str
closed current rest = if is_empty current then rest else current ∷ rest

-- The segments between characters that are not alphanumeric, without empty ones; `current` is the
-- part read so far of the one at hand.
unfoldable pub segments_from : Str → Str → List Str
unfolding is_name_character closed
segments_from current [] = closed current []
segments_from current (c ∷ cs) =
    let longer = segments_from (current ++ c ∷ []) cs in
    let next = segments_from [] cs in if is_name_character c then longer else closed current next

unfoldable pub segments : Str → List Str
unfolding segments_from
segments key = segments_from [] key

is_pair : Str → Str → Str × Str → Bool
is_pair first second (a, b) = str_eq first a && str_eq second b

-- Two segments that follow each other form one of the pairs.
unfoldable pub has_pair : List Str → Bool
unfolding is_pair
has_pair [] = false
has_pair (first ∷ []) = false
has_pair (first ∷ second ∷ rest) =
    any (is_pair first second) sensitive_pairs || has_pair (second ∷ rest)

-- `lower` is `str.lower`.
unfoldable pub is_sensitive_name : (Str → Str) → Str → Bool
unfolding segments has_pair
is_sensitive_name lower key =
    let found = segments (lower key) in
    any (λ segment. any (str_eq segment) sensitive_segments) found || has_pair found
