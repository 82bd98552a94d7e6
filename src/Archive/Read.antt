-- ===== src/Archive/Read.antt =====
-- `_read`, `load` and `load_original` of src/engineering_memory/archive/local.py.
use hermes_memory.Base.{
  Bool, true, not, ◌&&◌, Option, none, some, Str, codes, str_eq, take, drop, ok, err, ◌>>=◌, ◌>>◌,
  require, translate,
}
use hermes_memory.Normalization.Provenance.{EnrichedConversation, enriched_document_id}
use hermes_memory.Normalization.Canonical.{content_hash}
use hermes_memory.Archive.{
  Attempt, Answer, Bytes, OriginalPayload, ArchiveError, document_not_found, archive_rejected,
  archive_unavailable, redirected_record, bad_record_name, listed_record_missing, invalid_record,
  bad_identity, not_read, Raised, boundary_error, os_error, file_not_found, value_error, Envelope,
  Codec, is_digest, as_value_error, new_envelope, payload, key, record_name,
}
use hermes_memory.Archive.Disk.{Disk, Faults, is_redirected, check_directory, read_bytes}

-- `re.fullmatch(r"[0-9a-f]{64}\.json", name)`
unfoldable pub is_record_name : Str → Bool
is_record_name name = is_digest (take 64 name) && str_eq (drop 64 name) (codes ".json")

-- The `except` clauses of `_read`.
unfoldable pub read_error : Option Str → Raised → ArchiveError
read_error id (boundary_error e) = e
read_error (some id) file_not_found = document_not_found id
read_error none file_not_found = archive_rejected listed_record_missing none
read_error id os_error = archive_unavailable not_read id
read_error id value_error = archive_rejected invalid_record id

-- `document_id is not None and envelope.document_id != document_id`, negated.
unfoldable pub is_asked_for : Option Str → Str → Bool
is_asked_for none found = true
is_asked_for (some id) found = str_eq found id

module _ (c : Codec) where
  -- `_Envelope.model_validate_json`
  unfoldable pub parsed : Bytes → Attempt Envelope
  parsed b = elim (c.parse b) [ none ↦ err value_error | some e ↦ new_envelope e ]

  -- The four conditions on an envelope, in the order in which Python evaluates them.
  unfoldable pub verify : Str → Option Str → Envelope → Attempt Unit
  verify name id e = do
    require (str_eq e.envelope_id (enriched_document_id e.enriched)) value_error
    require (is_asked_for id e.envelope_id) value_error
    digest ← key c e.envelope_id
    require (str_eq name (record_name digest)) value_error
    hash ← as_value_error (content_hash c.sha256 e.enriched.conversation)
    require (str_eq e.envelope_hash hash) value_error

  -- The `try` block of `_read`.
  unfoldable pub read_body : Faults → Disk → Str → Option Str → Attempt Envelope
  unfolding parsed
  read_body f d name id = do
    _ ← check_directory f d
    require (not (is_redirected d name)) (boundary_error (archive_rejected redirected_record id))
    require (is_record_name name) (boundary_error (archive_rejected bad_record_name none))
    data' ← read_bytes d name
    envelope ← parsed data'
    _ ← verify name id envelope
    _ ← payload c envelope
    ok envelope

  -- `_read`
  unfoldable pub read : Faults → Disk → Str → Option Str → Answer Envelope
  read f d name id = translate (read_error id) (read_body f d name id)

  -- `_path`
  unfoldable pub path : Str → Answer Str
  path id = do
    digest ← translate (λ _. archive_rejected bad_identity none) (key c id)
    ok (record_name digest)

  unfoldable pub load : Faults → Disk → Str → Answer EnrichedConversation
  load f d id = do name ← path id; envelope ← read f d name (some id); ok envelope.enriched

  -- The payload is taken again outside of the handler, where an error is raised as it is.
  unfoldable pub load_original : Faults → Disk → Str → Attempt OriginalPayload
  load_original f d id = do
    name ← translate boundary_error (path id)
    envelope ← translate boundary_error (read f d name (some id))
    payload c envelope
