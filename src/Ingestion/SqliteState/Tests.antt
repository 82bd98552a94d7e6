-- ===== src/Ingestion/SqliteState/Tests.antt =====
-- A database that is made, told of an import and of a failure, and asked.
use hermes_memory.Base.{
  ◌≡◌, ◌↔◌, refl, false, Str-discrete, ℕ_discrete, true, false, Option, none, some, List, [], ◌∷◌,
  Str, codes, map, ok, err, lookup,
}
use hermes_memory.Normalization.Values.{
  Civil, clock_fields, Timestamp, opaque_identifier, is_unusable, is_space, text, is_surrogate,
}
use hermes_memory.Normalization.Conversation.{chatgpt, optional_text, filled_text}
use hermes_memory.Normalization.Tests.{at_noon}
use hermes_memory.Ingestion.State.{
  ImportRecord, imported, failed, new_import_record, status_is_recordable,
}
use hermes_memory.Ingestion.SqliteState.{
  Clockwork, Storage, no_tables, import_state, sqlite_fault, storage_unavailable, state_error,
  storage_call, initialize, validate_schema, validate_storage, close, require_ready, require_file,
  rows_of, found_row, find_record, row_of, satisfies_checks, not_initialized, storage_corrupt,
  record_outcome, upsert, sqlite_length,
}
use hermes_memory.Ingestion.SqliteState.Checks.{starts_with_nul, satisfies_checks_iff}
use hermes_memory.Ingestion.SqliteState.Replay.{
  answer_to, IsClockwork, IsOpen, Telling, tell_all, remembered, answers, find-remembers,
}

-- Times as lists of the fields of their instant.
abbrev written : Timestamp → Str
written t = clock_fields t.utc

abbrev civil_of : Str → Option Civil
civil_of (y ∷ m ∷ d ∷ h ∷ n ∷ s ∷ u ∷ []) =
    some
      (record { year = y; month = m; day = d; hour = h; minute = n; second = s; microsecond = u })
civil_of s = none

abbrev read_time : Str → Option Timestamp
read_time s = elim (civil_of s) [ none ↦ none | some c ↦ some (record { utc = c; offset = 1440 }) ]

abbrev clockwork : Clockwork
clockwork = record { isoformat = written; fromisoformat = read_time }

IsClockwork-clockwork : IsClockwork clockwork
IsClockwork-clockwork = record {
  utc_of = λ t. record { utc = t.utc; offset = 1440 };
  parses = λ t. refl;
  same_instant = λ t. refl;
}

abbrev told : ImportRecord
told = record {
  source = chatgpt;
  source_id = codes "c:1";
  content_hash = codes "h1";
  document_id = codes "chatgpt:c:1";
  recorded_at = at_noon;
  status = imported;
  error = none;
}

abbrev broken : ImportRecord
broken = record told { status = failed; error = some (codes "lost") }

-- There is no file yet.
abbrev nothing : Storage
nothing = record { is_file = false; tables = no_tables; ready = false }

abbrev opened : Storage
opened = record { is_file = true; tables = import_state 1 []; ready = true }

initialize-nothing : initialize none none nothing ≡ (ok tt, opened)
unfolding initialize storage_call validate_schema
initialize-nothing = refl

busy_is_unavailable : state_error (sqlite_fault 261) ≡ storage_unavailable
unfolding state_error
busy_is_unavailable = refl

asked_too_early : find_record clockwork none chatgpt (codes "c:1") nothing ≡ err not_initialized
unfolding find_record require_ready
asked_too_early = refl

closed_storage : (validate_storage none (close opened)).1 ≡ opened
unfolding validate_storage close storage_call require_file validate_schema
closed_storage = refl

IsOpen-opened : IsOpen opened
IsOpen-opened = record { is_ready = refl; has_file = refl; rows = []; has_rows = refl }

-- The model accepts this failure; the database does not.
abbrev nul_first : ImportRecord
nul_first = record told { status = failed; error = some (0 ∷ codes "abc") }

nul_first-accepted : new_import_record nul_first ≡ ok nul_first
unfolding new_import_record opaque_identifier is_unusable is_space filled_text optional_text text
    is_surrogate status_is_recordable
nul_first-accepted = refl

nul_first-refused : (record_outcome clockwork none nul_first opened).0 ≡ err storage_corrupt
unfolding record_outcome upsert require_ready require_file storage_call rows_of row_of
    satisfies_checks sqlite_length Str-discrete ℕ_discrete
nul_first-refused = refl

satisfies_checks_iff_example :
    (status_is_recordable broken ≡ ok tt) × (starts_with_nul broken.error ≡ false)
    ↔ (satisfies_checks (row_of clockwork broken) ≡ true)
satisfies_checks_iff_example = satisfies_checks_iff clockwork broken

-- The import, a failure that could not be written, and one that the database refuses.
abbrev tellings : List Telling
tellings = (none, told) ∷ (some (sqlite_fault 5), broken) ∷ (none, nul_first) ∷ []

find-remembers_example :
    (find_record clockwork none chatgpt
        (codes "c:1")
        (tell_all clockwork IsClockwork-clockwork tellings opened)
      ≡ ok (remembered clockwork IsClockwork-clockwork chatgpt (codes "c:1") tellings none))
    × (answers clockwork IsClockwork-clockwork tellings opened ≡ map answer_to tellings)
unfolding find_record require_ready require_file storage_call rows_of lookup found_row
    new_import_record opaque_identifier is_unusable is_space filled_text optional_text text
    is_surrogate status_is_recordable
find-remembers_example =
    find-remembers clockwork IsClockwork-clockwork chatgpt (codes "c:1") tellings opened none
      IsOpen-opened (refl, (refl, (refl, tt))) refl
