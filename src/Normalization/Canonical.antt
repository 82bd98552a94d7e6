-- ===== src/Normalization/Canonical.antt =====
-- src/engineering_memory/normalization/canonical.py
use hermes_memory.Base.{
  ℕ, zero, suc, ◌+◌, ◌/◌, ◌%◌, Option, none, some, List, [], ◌∷◌, ◌++◌, map, Str, codes, Result, ok,
  ◌>>=◌,
}
use hermes_memory.Json.{Json, null, num, int, str, arr, obj, end, field, of_list}
use hermes_memory.Json.Dumps.{dumps}
use hermes_memory.Json.Utf8.{EncodeError, encode}
use hermes_memory.Normalization.Values.{Civil, Timestamp}
use hermes_memory.Normalization.Conversation.{
  role_value, kind_value, NonTextPart, ToolActivity, Message, Conversation,
}

abbrev pub canonical_version : ℕ
canonical_version = 1

-- `f"{n:0wd}"`, for n below 10^w, which every field of a datetime is.
unfoldable pub padded : ℕ → ℕ → Str
padded zero n = []
padded (suc w) n = padded w (n / 10) ++ (b'0' + n % 10) ∷ []

-- `_format`
unfoldable pub format : Civil → Str
unfolding padded
format m =
    padded 4 m.year
    ++ (b'-' ∷ padded 2 m.month
        ++ (b'-' ∷ padded 2 m.day
            ++ (b'T' ∷ padded 2 m.hour
                ++ (b':' ∷ padded 2 m.minute
                    ++ (b':' ∷ padded 2 m.second
                        ++ (b'.' ∷ padded 6 m.microsecond ++ b'Z' ∷ []))))))

-- `_render`: the instant in UTC, at fixed precision.
unfoldable pub render_time : Option Timestamp → Json
unfolding format
render_time none = null
render_time (some moment) = str (format moment.utc)

abbrev pub optional_str : Option Str → Json
optional_str none = null
optional_str (some s) = str s

unfoldable pub activity_form : ToolActivity → Json
activity_form a = obj (
    field (codes "name") (str a.name) (
      field (codes "request") (optional_str a.request)
        (field (codes "result") (optional_str a.result) end)))

unfoldable pub part_form : NonTextPart → Json
part_form p = obj (
    field (codes "kind") (str (kind_value p.kind)) (field (codes "name") (optional_str p.name) end))

-- `_message_form`
unfoldable pub message_form : Message → Json
unfolding render_time activity_form part_form
message_form m = obj (
    field (codes "role") (str (role_value m.role)) (
      field (codes "text") (str m.text) (
        field (codes "sent_at") (render_time m.sent_at) (
          field (codes "tool_activity") (arr (of_list (map activity_form m.tool_activity))) (
            field (codes "non_text_parts") (arr (of_list (map part_form m.non_text_parts))) end)))))

unfoldable pub canonical_form : Conversation → Json
unfolding message_form
canonical_form c = obj (
    field (codes "version") (num (int canonical_version))
      (field (codes "messages") (arr (of_list (map message_form c.messages))) end))

unfoldable pub canonical_bytes : Conversation → Result EncodeError (List ℕ)
unfolding canonical_form dumps encode
canonical_bytes c = encode (dumps (canonical_form c))

-- `hashlib.sha256(data).hexdigest()` is a parameter.
unfoldable pub content_hash : (List ℕ → Str) → Conversation → Result EncodeError Str
unfolding canonical_bytes
content_hash sha256 c = do data' ← canonical_bytes c; ok (sha256 data')
