-- ===== src/Ingestion/Chatgpt/Values.antt =====
-- The values of a record that content.py reads: times, roles and texts. Whether a number is finite (`none`
-- where `math.isfinite` raises) and `datetime.fromtimestamp` are parameters.
use hermes_memory.Base.{
  Bool, true, false, Option, none, some, List, [], ◌∷◌, ◌++◌, Str, str_eq, codes, is_empty,
  if◌then◌else◌, ok, err,
}
use hermes_memory.Json.{Json, Number, null, num, str, arr, obj, Fields, get}
use hermes_memory.Normalization.Values.{Timestamp}
use hermes_memory.Normalization.Conversation.{Role, user, assistant, system, tool, role_value}
use hermes_memory.Ingestion.Chatgpt.Unreadable.{
  Readable, time_not_a_number, time_not_finite, time_out_of_range, no_role, type_error,
}

-- Python's library on the numbers of an export.
pub record Times : Type 0 where
  pub is_finite : Number → Option Bool
  pub from_timestamp : Number → Option Timestamp

abbrev pub made_time : Option Timestamp → Readable (Option Timestamp)
made_time none = err time_out_of_range
made_time (some at) = ok (some at)

abbrev pub finite_time : Times → Number → Option Bool → Readable (Option Timestamp)
finite_time times n none = err time_out_of_range
finite_time times n (some false) = err time_not_finite
finite_time times n (some true) = made_time (times.from_timestamp n)

unfoldable pub export_time : Times → Option Json → Readable (Option Timestamp)
export_time times none = ok none
export_time times (some null) = ok none
export_time times (some (num n)) = finite_time times n (times.is_finite n)
export_time times (some v) = err time_not_a_number

-- A value where a test for membership in a set or a dict needs its hash: a text, another value, or
-- a list or dict, which raises.
pub data Hashed : Type 0 where
  text : Str → Hashed
  unlisted : Hashed
  unhashable : Hashed

abbrev pub hashed : Option Json → Hashed
hashed (some (str s)) = text s
hashed (some (arr vs)) = unhashable
hashed (some (obj fs)) = unhashable
hashed v = unlisted

abbrev pub field_of : Str → Option Json → Option Json
field_of key (some (obj fs)) = get key fs
field_of key v = none

abbrev pub role_named : Str → Readable Role
role_named s =
    if str_eq s (role_value user)
    then ok user
    else if str_eq s (role_value assistant)
    then ok assistant
    else if str_eq s (role_value system)
    then ok system
    else if str_eq s (role_value tool)
    then ok tool
    else err no_role

abbrev pub role_hashed : Hashed → Readable Role
role_hashed (text s) = role_named s
role_hashed unlisted = err no_role
role_hashed unhashable = err type_error

-- `_role`
unfoldable pub read_role : Fields → Readable Role
read_role body = role_hashed (hashed (field_of (codes "role") (get (codes "author") body)))

-- `_string`, with `""` for `None`.
abbrev pub text_of : Option Json → Str
text_of (some (str s)) = s
text_of v = []

unfoldable pub string : Fields → Str → Str
string content key = text_of (get key content)

-- `separator.join(value for value in values if value)`
unfoldable pub join_filled : Str → List Str → Str
join_filled separator [] = []
join_filled separator (value ∷ values) =
    let rest = join_filled separator values in
    if is_empty value then rest else if is_empty rest then value else value ++ (separator ++ rest)

abbrev pub newline : Str
newline = 10 ∷ []

-- `"\n".join(texts)`
unfoldable pub join_lines : List Str → Str
join_lines [] = []
join_lines (t ∷ []) = t
join_lines (t ∷ t' ∷ ts) = t ++ (newline ++ join_lines (t' ∷ ts))
