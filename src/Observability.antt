-- ===== src/Observability.antt =====
-- src/engineering_memory/observability/redaction.py: what a log record may hold, and what is withheld.
pub mod Names
pub mod Redaction
pub mod Withheld
mod Tests
use hermes_memory.Base.{ℕ, Option, List, Str, codes}

-- A value of a record: what `isinstance` tells apart. A mapping and a sequence hold values. Of any
-- other object there is its `repr`, which may raise (`none`), as may the walk over a container.
mutual
  pub data Value : Type 0 where
    secret : Str → Value
    conversation_content : Str → Value
    string : Str → Value
    scalar : ℕ → Value
    bytes : List ℕ → Value
    mapping : Entries → Value
    sequence : Values → Value
    object : Option Str → Value

  -- A key is given by its `str`, which may raise.
  pub data Entries : Type 0 where
    no_entries : Entries
    with_entry : Option Str → Value → Entries → Entries

  pub data Values : Type 0 where
    no_values : Values
    with_value : Value → Values → Values

-- What is emitted in place of a value.
mutual
  pub data Emitted : Type 0 where
    emit_string : Str → Emitted
    emit_scalar : ℕ → Emitted
    emit_mapping : EmittedEntries → Emitted
    emit_sequence : EmittedValues → Emitted

  pub data EmittedEntries : Type 0 where
    emit_no_entries : EmittedEntries
    emit_entry : Str → Emitted → EmittedEntries → EmittedEntries

  pub data EmittedValues : Type 0 where
    emit_no_values : EmittedValues
    emit_value : Emitted → EmittedValues → EmittedValues

abbrev pub redacted_marker : Str
redacted_marker = codes "[redacted]"

abbrev pub content_redacted : Str
content_redacted = codes "[redacted:content]"

abbrev pub truncated_suffix : Str
truncated_suffix = codes "…[truncated]"
