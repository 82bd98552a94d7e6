-- ===== src/Ingestion/SqliteState.antt =====
-- src/engineering_memory/ingestion/sqlite_state.py: the import state in a SQLite database.
pub mod Checks
pub mod Replay
mod Tests
use hermes_memory.Base.{
  ℕ, zero, suc, ltb, ◌%◌, ◌≡◌, refl, Bool, true, false, not, ◌&&◌, ◌||◌, ◌==◌, Option, none, some,
  List, [], ◌∷◌, Str, codes, str_eq, Str-discrete, is_empty, if◌then◌else◌, any, Result, ok, err,
  ◌>>=◌, ◌>>◌, require, translate, Dict, lookup, insert, ℕ_discrete,
}
use hermes_memory.Normalization.Values.{Timestamp, is_surrogate}
use hermes_memory.Normalization.Conversation.{
  Source, chatgpt, claude_chat, claude_code, codex, hermes, source_value,
}
use hermes_memory.Ingestion.State.{
  ImportStatus, imported, skipped, failed, ImportRecord, new_import_record,
}

pub data StateError : Type 0 where
  storage_unavailable storage_corrupt not_initialized : StateError
  -- `UnicodeEncodeError` of a text with a lone surrogate, which nothing translates.
  not_encodable : StateError

abbrev pub Stored : Type 0 → Type 0
Stored = Result StateError

-- An exception of the storage: an OSError, or one of SQLite with its code.
pub data Fault : Type 0 where
  os_fault : Fault
  sqlite_fault : ℕ → Fault

-- `_UNAVAILABLE`: BUSY, LOCKED, CANTOPEN, IOERR, FULL, READONLY, NOMEM and PERM.
abbrev pub unavailable_codes : List ℕ
unavailable_codes = 5 ∷ 6 ∷ 14 ∷ 10 ∷ 13 ∷ 8 ∷ 7 ∷ 3 ∷ []

-- `_errors`
unfoldable pub state_error : Fault → StateError
state_error os_fault = storage_unavailable
state_error (sqlite_fault code) =
    if any (λ known. code % 256 == known) unavailable_codes
    then storage_unavailable
    else storage_corrupt

-- A call of the storage, which may raise.
unfoldable pub storage_call : Option Fault → Stored Unit
unfolding state_error
storage_call none = ok tt
storage_call (some fault) = err (state_error fault)

-- A row of `import_records`, without its key.
pub record Row : Type 0 where
  pub content_hash : Str
  pub document_id : Str
  pub recorded_at : Str
  pub status : Str
  pub error : Option Str

abbrev pub RowKey : Type 0
RowKey = Str × Str

unfoldable pub RowKey-discrete : Discrete RowKey
RowKey-discrete = hlevel ℕ_discrete

pub data Tables : Type 0 where
  no_tables : Tables
  -- Tables, columns, keys, checks or indexes that are not those of the schema.
  other_schema : Tables
  -- The schema with its version.
  import_state : ℕ → Dict RowKey Row → Tables

-- The database, and whether this object has validated it.
pub record Storage : Type 0 where
  pub is_file : Bool
  pub tables : Tables
  pub ready : Bool

-- `_validate_schema`
unfoldable pub validate_schema : Tables → Stored Unit
validate_schema no_tables = err storage_corrupt
validate_schema other_schema = err storage_corrupt
validate_schema (import_state version rows) = require (version == 1) storage_corrupt

abbrev pub created : Tables → Tables
created no_tables = import_state 1 []
created other_schema = other_schema
created (import_state version rows) = import_state version rows

abbrev pub is_ok : {A : Type 0} → Stored A → Bool
is_ok (ok a) = true
is_ok (err e) = false

-- `initialize`: a missing file is made, and tables in a database that has none; the transaction is
-- undone by an error in it. The two faults are those of the file and of the database.
unfoldable pub initialize : Option Fault → Option Fault → Storage → Stored Unit × Storage
unfolding storage_call validate_schema
initialize at_file at_database s =
    let tables = created (if s.is_file then s.tables else no_tables) in
    let opened = storage_call at_file in
    let validated = storage_call at_database >> validate_schema tables in
    elim opened [
      | err e ↦ (err e, record s { ready = false })
      | ok _ ↦ (
        validated,
        record {
          is_file = true;
          tables = if is_ok validated then tables else if s.is_file then s.tables else no_tables;
          ready = is_ok validated;
        },
      )
    ]

-- `_require_file`
unfoldable pub require_file : Storage → Stored Unit
require_file s = require s.is_file storage_unavailable

-- `validate`
unfoldable pub validate_storage : Option Fault → Storage → Stored Unit × Storage
unfolding storage_call validate_schema require_file
validate_storage at_database s =
    let validated = require_file s >> storage_call at_database >> validate_schema s.tables in
    (validated, record s { ready = is_ok validated })

-- `_require_ready`
unfoldable pub require_ready : Storage → Stored Unit
unfolding require_file
require_ready s = do require s.ready not_initialized; require_file s

-- `close`
unfoldable pub close : Storage → Storage
close s = record s { ready = false }

abbrev pub status_text : ImportStatus → Str
status_text imported = codes "imported"
status_text skipped = codes "skipped"
status_text failed = codes "failed"

-- What `Source(...)` and `ImportStatus(...)` make of a text.
unfoldable pub read_source : Str → Option Source
read_source s =
    if str_eq s (source_value chatgpt)
    then some chatgpt
    else if str_eq s (source_value claude_chat)
    then some claude_chat
    else if str_eq s (source_value claude_code)
    then some claude_code
    else if str_eq s (source_value codex)
    then some codex
    else if str_eq s (source_value hermes)
    then some hermes
    else none

unfoldable pub read_status : Str → Option ImportStatus
read_status s =
    if str_eq s (codes "imported")
    then some imported
    else if str_eq s (codes "skipped")
    then some skipped
    else if str_eq s (codes "failed")
    then some failed
    else none

-- The rows to a query; without the table it fails. (A storage that is ready has the schema.)
unfoldable pub rows_of : Tables → Stored (Dict RowKey Row)
rows_of (import_state version rows) = ok rows
rows_of no_tables = err storage_corrupt
rows_of other_schema = err storage_corrupt

-- `length` of SQLite: the characters before the first NUL.
unfoldable pub sqlite_length : Str → ℕ
sqlite_length [] = 0
sqlite_length (zero ∷ cs) = 0
sqlite_length (suc c ∷ cs) = suc (sqlite_length cs)

-- The two CHECK constraints of the table.
unfoldable pub satisfies_checks : Row → Bool
unfolding sqlite_length
satisfies_checks r =
    (str_eq r.status (codes "imported") && elim r.error [ none ↦ true | some e ↦ false ])
    || (str_eq r.status (codes "failed")
        && elim r.error [ none ↦ false | some e ↦ ltb 0 (sqlite_length e) ])

-- How a time is written, in UTC with microseconds, and read.
pub record Clockwork : Type 0 where
  pub isoformat : Timestamp → Str
  pub fromisoformat : Str → Option Timestamp

module _ (k : Clockwork) where
  unfoldable pub row_of : ImportRecord → Row
  row_of r = record {
    content_hash = r.content_hash;
    document_id = r.document_id;
    recorded_at = k.isoformat r.recorded_at;
    status = status_text r.status;
    error = r.error;
  }

  abbrev pub key_of : ImportRecord → RowKey
  key_of r = (source_value r.source, r.source_id)

  unfoldable pub record_parts :
      RowKey → Row → Option Source → Option ImportStatus → Option Timestamp → Stored ImportRecord
  record_parts (_, source_id) row (some source) (some status) (some at) =
      translate (λ _. storage_corrupt)
        (new_import_record (record {
          source = source;
          source_id = source_id;
          content_hash = row.content_hash;
          document_id = row.document_id;
          recorded_at = at;
          status = status;
          error = row.error;
        }))
  record_parts key row source status at = err storage_corrupt

  -- `ImportRecord.model_validate(dict(row))`
  unfoldable pub read_row : RowKey → Row → Stored ImportRecord
  unfolding read_source read_status record_parts
  read_row (source, source_id) row =
      record_parts (source, source_id) row (read_source source) (read_status row.status)
        (k.fromisoformat row.recorded_at)

  unfoldable pub found_row : RowKey → Option Row → Stored (Option ImportRecord)
  unfolding read_row
  found_row key none = ok none
  found_row key (some row) = do r ← read_row key row; ok (some r)

  -- `find`, of any text.
  unfoldable pub find_record : Option Fault → Source → Str → Storage → Stored (Option ImportRecord)
  unfolding require_ready storage_call rows_of found_row is_surrogate
  find_record fault source source_id s = do
    _ ← require_ready s
    _ ← storage_call fault
    rows ← rows_of s.tables
    require (not (any is_surrogate source_id)) not_encodable
    let key : RowKey = (source_value source, source_id)
    found_row key (lookup RowKey-discrete key rows)

  -- The transaction of `record`: an insert, or the update of the row with this key. The constraints
  -- are the database's.
  unfoldable pub upsert : Option Fault → ImportRecord → Storage → Stored (Dict RowKey Row)
  unfolding require_ready storage_call rows_of row_of satisfies_checks
  upsert fault r s = do
    _ ← require_ready s
    _ ← storage_call fault
    rows ← rows_of s.tables
    require (satisfies_checks (row_of r)) storage_corrupt
    ok (insert RowKey-discrete (key_of r) (row_of r) rows)

  -- `record`
  unfoldable pub record_outcome : Option Fault → ImportRecord → Storage → Stored Unit × Storage
  unfolding upsert
  record_outcome fault r s = elim (upsert fault r s) [
    | err e ↦ (err e, s)
    | ok rows ↦ (ok tt, record s { tables = import_state 1 rows })
  ]
