-- ===== src/Ingestion/State.antt =====
-- src/engineering_memory/ingestion/state.py: what is remembered of an import, and the skip.
use hermes_memory.Base.{
  ◌≡◌, Bool, true, false, not, ◌&&◌, Option, none, some, Str, str_eq, is_empty, if◌then◌else◌, ok,
  err, ◌>>=◌, arith, is_some,
}
use hermes_memory.Normalization.Values.{
  Valid, Timestamp, opaque_identifier, skip_recorded, failure_without_error, error_without_failure,
}
use hermes_memory.Normalization.Conversation.{Source, optional_text, filled_text}

pub data ImportStatus : Type 0 where
  imported skipped failed : ImportStatus

unfoldable pub ImportStatus-discrete : Discrete ImportStatus
ImportStatus-discrete = hlevel

abbrev pub is_imported : ImportStatus → Bool
is_imported imported = true
is_imported s = false

abbrev pub is_skipped : ImportStatus → Bool
is_skipped skipped = true
is_skipped s = false

abbrev pub is_failed : ImportStatus → Bool
is_failed failed = true
is_failed s = false

pub record ImportRecord : Type 0 where
  pub source : Source
  pub source_id : Str
  pub content_hash : Str
  pub document_id : Str
  pub recorded_at : Timestamp
  pub status : ImportStatus
  pub error : Option Str

-- `not self.error`: absent or empty.
abbrev pub has_error_text : Option Str → Bool
has_error_text none = false
has_error_text (some e) = not (is_empty e)

-- The two validators of the model, the one on skips first.
unfoldable pub status_is_recordable : ImportRecord → Valid Unit
status_is_recordable r =
    if is_skipped r.status
    then err skip_recorded
    else if is_failed r.status && not (has_error_text r.error)
    then err failure_without_error
    else if is_some r.error && not (is_failed r.status)
    then err error_without_failure
    else ok tt

unfoldable pub new_import_record : ImportRecord → Valid ImportRecord
unfolding opaque_identifier filled_text optional_text status_is_recordable
new_import_record r = do
  _ ← opaque_identifier r.source_id
  _ ← filled_text r.content_hash
  _ ← filled_text r.document_id
  _ ← optional_text r.error
  _ ← status_is_recordable r
  ok r

unfoldable pub may_skip : Option ImportRecord → Str → Bool → Bool
may_skip none hash force = false
may_skip (some r) hash force = not force && (is_imported r.status && str_eq r.content_hash hash)

-- A record that is accepted is the one that was given; it is of no skip, and it explains itself with
-- a text that is not empty exactly if it is of a failure.
pub new_import_record-explains :
    (r : ImportRecord) {r' : ImportRecord}
    → new_import_record r ≡ ok r'
    → (r' ≡ r) × (is_skipped r.status ≡ false) × (has_error_text r.error ≡ is_failed r.status)
unfolding new_import_record status_is_recordable
new_import_record-explains r h = ground arith
