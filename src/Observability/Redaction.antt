-- ===== src/Observability/Redaction.antt =====
-- The walk of src/engineering_memory/observability/redaction.py over a record.
use hermes_memory.Base.{
  ℕ, ◌+◌, ltb, Bool, false, Option, none, some, List, [], ◌∷◌, ◌++◌, Str, length, take,
  if◌then◌else◌, str_eq,
}
use hermes_memory.Observability.{
  Value, secret, conversation_content, string, scalar, bytes, mapping, sequence, object, Entries,
  no_entries, with_entry, Values, no_values, with_value, Emitted, emit_string, emit_scalar,
  emit_mapping, emit_sequence, EmittedEntries, emit_no_entries, emit_entry, EmittedValues,
  emit_no_values, emit_value, redacted_marker, content_redacted, truncated_suffix,
}
use hermes_memory.Observability.Names.{is_sensitive_name}

-- `lower` is `str.lower`, `decode` is `bytes.decode("utf-8", errors="replace")`, and the patterns are
-- each what `pattern.sub(REDACTED, text)` makes of a text.
pub record Sweep : Type 0 where
  pub lower : Str → Str
  pub decode : List ℕ → Str
  pub patterns : List (Str → Str)

redact_with : List (Str → Str) → Str → Str
redact_with [] text = text
redact_with (pattern ∷ patterns) text = redact_with patterns (pattern text)

-- `_redact_shapes`
unfoldable pub redact_shapes : Sweep → Str → Str
unfolding redact_with
redact_shapes w text = redact_with w.patterns text

abbrev pub content_cap : ℕ
content_cap = 4000

abbrev pub max_depth : ℕ
max_depth = 6

unfoldable pub capped : Str → Str
capped text =
    if ltb content_cap (length text) then take content_cap text ++ truncated_suffix else text

-- `_render_content`
unfoldable pub render_content : Sweep → Bool → Str → Str
unfolding redact_shapes capped
render_content w include text = if include then redact_shapes w (capped text) else content_redacted

-- `key is not None and _is_sensitive_name(key)`
unfoldable pub is_withheld : Sweep → Option Str → Bool
is_withheld w none = false
is_withheld w (some key) = is_sensitive_name w.lower key

-- What is emitted of a value in `_redact_value`: `none`, where the inspection raises, is withheld.
abbrev pub or_withheld : Option Emitted → Emitted
or_withheld none = emit_string redacted_marker
or_withheld (some e) = e

abbrev pub mapping_of : Option EmittedEntries → Option Emitted
mapping_of none = none
mapping_of (some es) = some (emit_mapping es)

abbrev pub sequence_of : EmittedValues → Option Emitted
sequence_of vs = some (emit_sequence vs)

abbrev pub object_of : Sweep → Option Str → Option Emitted
object_of w none = none
object_of w (some shown) = some (emit_string (redact_shapes w shown))

-- The value of a key, and the entries without it.
abbrev pub value_at : Str → Emitted → EmittedEntries → Emitted
value_at key e emit_no_entries = e
value_at key e (emit_entry other f es) = if str_eq other key then f else value_at key e es

abbrev pub entries_without : Str → EmittedEntries → EmittedEntries
entries_without key emit_no_entries = emit_no_entries
entries_without key (emit_entry other f es) =
    let rest = entries_without key es in if str_eq other key then rest else emit_entry other f rest

-- In a dict a key keeps its first place and its last value.
abbrev pub entry_of : Str → Emitted → Option EmittedEntries → Option EmittedEntries
entry_of key e none = none
entry_of key e (some es) = some (emit_entry key (value_at key e es) (entries_without key es))

-- Depth and name come first, before the value is looked at.
unfoldable pub guarded : Sweep → ℕ → Option Str → Option Emitted → Emitted
unfolding is_withheld
guarded w depth key inspected =
    if ltb max_depth depth
    then emit_string redacted_marker
    else if is_withheld w key
    then emit_string redacted_marker
    else or_withheld inspected

module _ (w : Sweep) (include : Bool) where
  unfoldable mutual
    unfolding redact_shapes render_content guarded

    -- `_inspect` below its guards. A `repr` or a key may raise.
    pub inspect : ℕ → Value → Option Emitted
    inspect depth (secret s) = some (emit_string redacted_marker)
    inspect depth (conversation_content s) = some (emit_string (render_content w include s))
    inspect depth (string s) = some (emit_string (redact_shapes w s))
    inspect depth (scalar n) = some (emit_scalar n)
    inspect depth (bytes b) = some (emit_string (redact_shapes w (w.decode b)))
    inspect depth (mapping es) = mapping_of (redact_entries (depth + 1) es)
    inspect depth (sequence vs) = sequence_of (redact_values (depth + 1) vs)
    inspect depth (object shown) = object_of w shown

    pub redact_entries : ℕ → Entries → Option EmittedEntries
    redact_entries depth no_entries = some emit_no_entries
    redact_entries depth (with_entry none v es) = none
    redact_entries depth (with_entry (some key) v es) =
        entry_of (redact_shapes w key) (guarded w depth (some key) (inspect depth v))
          (redact_entries depth es)

    pub redact_values : ℕ → Values → EmittedValues
    redact_values depth no_values = emit_no_values
    redact_values depth (with_value v vs) =
        emit_value (guarded w depth none (inspect depth v)) (redact_values depth vs)

  -- `_redact_value`: the guards of `_inspect`, then the value. An exception is caught here, as it is
  -- around each value inside of another.
  unfoldable pub redact_value : ℕ → Option Str → Value → Emitted
  unfolding guarded inspect
  redact_value depth key v = guarded w depth key (inspect depth v)

  -- `redact`: the fields of a record, whose keys are strings.
  unfoldable pub redact_record : Entries → Option EmittedEntries
  unfolding redact_entries
  redact_record es = redact_entries 0 es
