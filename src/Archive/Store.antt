-- ===== src/Archive/Store.antt =====
-- `LocalRawArchive.store` of src/engineering_memory/archive/local.py.
use hermes_memory.Base.{
  some, Str, Str-discrete, if◌then◌else◌, ok, err, ◌>>=◌, ◌>>◌, require, not, translate, insert,
  remove,
}
use hermes_memory.Normalization.Provenance.{EnrichedConversation, enriched_document_id}
use hermes_memory.Normalization.Canonical.{content_hash}
use hermes_memory.Archive.{
  Attempt, Answer, Bytes, OriginalPayload, ArchiveError, archive_rejected, archive_unavailable,
  redirected_record, refused_record, not_persisted, Raised, boundary_error, os_error,
  file_not_found, value_error, integer, Envelope, Codec, as_value_error, new_envelope, key,
  record_name,
}
use hermes_memory.Archive.Disk.{
  contents, Disk, Faults, files, with_files, is_redirected, check_directory, make_directory,
}

-- The `except` clauses of `store`: FileNotFoundError is an OSError.
unfoldable pub store_error : Str → Raised → ArchiveError
store_error document_id (boundary_error e) = e
store_error document_id file_not_found = archive_unavailable not_persisted (some document_id)
store_error document_id os_error = archive_unavailable not_persisted (some document_id)
store_error document_id value_error = archive_rejected refused_record (some document_id)

-- The write of the temporary file, and `_publish`. A write that fails leaves a part of the data.
unfoldable pub publish : Faults → Str → Bytes → Str → Bytes → Disk → Attempt Unit × Disk
publish f temporary part name data' d =
    if f.at_write
    then (err os_error, with_files d (insert Str-discrete temporary (contents part) (files d)))
    else if f.at_replace
    then (err os_error, with_files d (insert Str-discrete temporary (contents data') (files d)))
    else (
      if f.at_replace_sync then err os_error else ok tt,
      with_files d
          (insert Str-discrete name (contents data') (remove Str-discrete temporary (files d))),
    )

-- `temporary.unlink(missing_ok=True)`, whose OSError is suppressed.
unfoldable pub unlink : Faults → Str → Disk → Disk
unlink f temporary d =
    if f.at_unlink then d else with_files d (remove Str-discrete temporary (files d))

module _ (c : Codec) where
  unfoldable pub envelope_of : EnrichedConversation → OriginalPayload → Str → Envelope
  envelope_of e o digest = record {
    format_version = integer 1;
    envelope_id = enriched_document_id e;
    enriched = e;
    envelope_hash = digest;
    original_type = o.media_type;
    content_base64 = c.b64encode o.content;
    original_sha256 = c.sha256 o.content;
  }

  -- The block up to the bytes of the record: the name of its file, and what is written there.
  unfoldable pub prepare :
      Faults → EnrichedConversation → OriginalPayload → Disk → Attempt (Str × Bytes)
  unfolding envelope_of
  prepare f e o d = do
    _ ← check_directory f d
    digest ← key c (enriched_document_id e)
    require (not (is_redirected d (record_name digest)))
        (boundary_error (archive_rejected redirected_record (some (enriched_document_id e))))
    hash ← as_value_error (content_hash c.sha256 e.conversation)
    envelope ← new_envelope (envelope_of e o hash)
    data' ← as_value_error (c.dump envelope)
    ok (record_name digest, data')

  unfoldable pub write_record : Faults → Str → Bytes → Str × Bytes → Disk → Attempt Unit × Disk
  write_record f temporary part (name, data') d =
      if f.at_create
      then (err os_error, d)
      else let (r, d') = publish f temporary part name data' d in (r, unlink f temporary d')

  unfoldable pub keep : Faults → Str → Bytes → Str × Bytes → Disk → Attempt Unit × Disk
  unfolding write_record
  keep f temporary part prepared d =
      let (made, d') = make_directory f d in
      elim made [ err r ↦ (err r, d') | ok _ ↦ write_record f temporary part prepared d' ]

  -- `temporary` is the name that `NamedTemporaryFile` makes up, `part` what a failed write leaves.
  unfoldable pub store :
      Faults → Str → Bytes → EnrichedConversation → OriginalPayload → Disk → Answer Unit × Disk
  unfolding keep
  store f temporary part e o d = elim (prepare f e o d) [
    | err r ↦ (err (store_error (enriched_document_id e) r), d)
    | ok prepared ↦
        let (r, d') = keep f temporary part prepared d in
        (translate (store_error (enriched_document_id e)) r, d')
  ]
