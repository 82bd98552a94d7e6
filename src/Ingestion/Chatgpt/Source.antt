-- ===== src/Ingestion/Chatgpt/Source.antt =====
-- src/engineering_memory/ingestion/chatgpt/source.py: the reader of an export, as what its successive
-- `next` calls do. The files of the export and what scanning each gives are its input.
pub mod Fresh
mod Tests
use hermes_memory.Base.{
  ℕ, Bool, true, false, Option, none, some, List, [], ◌∷◌, ◌++◌, Str, codes, if◌then◌else◌, Result,
  ok, err,
}
use hermes_memory.Json.{Json, obj, Fields, get}
use hermes_memory.Json.Utf8.{EncodeError, encode}
use hermes_memory.Normalization.Conversation.{Conversation}
use hermes_memory.Ingestion.Chatgpt.Unreadable.{
  Readable, UnreadableRecord, type_error, bad_account, key_missing, endless,
}
use hermes_memory.Ingestion.Chatgpt.Thread.{is_member}
use hermes_memory.Ingestion.Chatgpt.Values.{Times}
use hermes_memory.Ingestion.Chatgpt.Record.{filled_id, ReadConversation, parse_value}
use hermes_memory.Ingestion.Pipeline.Boundaries.{SourceConversation}
use hermes_memory.Ingestion.Pipeline.Run.{Event, item, format_error, broken, interrupted}

-- `ExportRecord` of records.py.
pub record ExportRecord : Type 0 where
  pub raw : Str
  pub value : Json

-- What opening an export, opening a file or scanning it raises: `SourceFormatError`, which has no
-- subject here, `SourceUnavailable`, or a `BaseException` that is not an `Exception`.
pub data Failure : Type 0 where
  unreadable unavailable stopped : Failure

-- One conversation file: the records that are scanned, and the failure that they end with.
pub record File : Type 0 where
  pub records : List ExportRecord
  pub failure : Option Failure

abbrev media_type : Str
media_type = codes "application/json"

abbrev either_id : Option Str → Option Str → Option Str
either_id (some s) other = some s
either_id none other = other

-- `_identifier`
abbrev pub identifier : Json → Option Str
identifier (obj fields) =
    either_id (filled_id (get (codes "conversation_id") fields))
      (filled_id (get (codes "id") fields))
identifier v = none

-- `except UnreadableRecord` and `except ValidationError`; nothing else is caught.
abbrev pub is_caught : UnreadableRecord → Bool
is_caught type_error = false
is_caught bad_account = false
is_caught key_missing = false
is_caught endless = false
is_caught u = true

abbrev pub unreadable_event : UnreadableRecord → Option Str → Event
unreadable_event u subject = if is_caught u then format_error subject else broken

abbrev pub failure_event : Failure → Event
failure_event unreadable = format_error none
failure_event unavailable = broken
failure_event stopped = interrupted

-- A text with a lone surrogate is refused by `encode`, and nothing catches that.
abbrev pub encoded_event : Conversation → Result EncodeError (List ℕ) → Event
encoded_event c (ok bytes) =
    item
      (record { conversation = c; original = record { content = bytes; media_type = media_type } })
encoded_event c (err e) = broken

-- `_convert`, of a record that is read: the identifiers seen are a set, the latest first.
unfoldable pub convert_read : Str → Conversation → List Str → Event × List Str
convert_read raw c seen =
    if is_member c.source_id seen
    then (format_error (some c.source_id), seen)
    else (encoded_event c (encode raw), c.source_id ∷ seen)

abbrev pub converted : ExportRecord → List Str → Readable ReadConversation → Event × List Str
converted r seen (ok read) = convert_read r.raw read.0 seen
converted r seen (err u) = (unreadable_event u (identifier r.value), seen)

-- `_convert`
unfoldable pub convert : Times → ExportRecord → List Str → Event × List Str
convert times r seen = converted r seen (parse_value times r.value)

-- `__next__` again and again over the records of one file, with the identifiers seen after them.
unfoldable pub read_records : Times → List ExportRecord → List Str → List Event × List Str
read_records times [] seen = ([], seen)
read_records times (r ∷ rs) seen =
    let (e, after) = convert times r seen in
    let (es, seen') = read_records times rs after in (e ∷ es, seen')

-- What comes behind the records of a file: a reader that has failed is done.
abbrev pub ended : Option Failure → List Event → List Event
ended none rest = rest
ended (some e) rest = failure_event e ∷ []

-- `_next_record`: the files in their order, up to a failure.
unfoldable pub read_files : Times → List File → List Str → List Event
read_files times [] seen = []
read_files times (f ∷ fs) seen =
    let (es, seen') = read_records times f.records seen in
    let rest = read_files times fs seen' in es ++ ended f.failure rest

-- `ChatGPTExportSource.read`: the export is opened at the first `next`, which may fail.
unfoldable pub read_export : Times → Result Failure (List File) → List Event
read_export times (ok files) = read_files times files []
read_export times (err e) = failure_event e ∷ []
