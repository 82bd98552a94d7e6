-- ===== src/Archive/Lookup.antt =====
-- What `store` does to the files of the archive (src/engineering_memory/archive/local.py).
use hermes_memory.Base.{
  ◌≡◌, ◌≢◌, refl, sym, ◌∙◌, Bool, true, false, not, ◌&&◌, Option, none, some, Str, Str-discrete,
  if◌then◌else◌, ite, ok, err, Result-cases, translate-ok, inl, inr, Dict, lookup, insert, remove,
  lookup-insert, lookup-remove, arith,
}
use hermes_memory.Normalization.Provenance.{EnrichedConversation, enriched_document_id}
use hermes_memory.Archive.{Bytes, OriginalPayload, Codec}
use hermes_memory.Archive.Disk.{
  File, contents, Disk, Faults, files, check_directory, make_root, make_directory,
}
use hermes_memory.Archive.Store.{store_error, publish, unlink, prepare, write_record, keep, store}

abbrev pub quiet : Faults
quiet = record {
  at_check = false;
  at_parents = false;
  at_root = false;
  at_root_sync = false;
  at_version = false;
  at_version_sync = false;
  at_create = false;
  at_write = false;
  at_replace = false;
  at_replace_sync = false;
  at_unlink = false;
}

abbrev pub at : Str → Disk → Option File
at name d = lookup Str-discrete name (files d)

-- Whether the record of an operation takes its place in the directory.
abbrev pub lands : Faults → Disk → Bool
lands f d = elim (make_directory f d).0 [
  | err _ ↦ false
  | ok _ ↦ not f.at_create && (not f.at_write && not f.at_replace)
]

make_directory-files : (f : Faults) (d : Disk) → files (make_directory f d).1 ≡ files d
unfolding make_directory make_root
make_directory-files f d = ground arith

make_directory-check :
    (f : Faults) (d : Disk)
    → check_directory quiet d ≡ ok tt
    → check_directory quiet (make_directory f d).1 ≡ ok tt
unfolding make_directory make_root check_directory
make_directory-check f d h = ground arith

module _ (f : Faults) (temporary : Str) (n : Str) (ne : n ≢ temporary) where
  lookup-other :
      (file : File) (fs : Dict Str File)
      → lookup Str-discrete n (insert Str-discrete temporary file fs) ≡ lookup Str-discrete n fs
  lookup-other file fs = ground (arith, lookup-insert Str-discrete temporary n file fs)

  lookup-without :
      (fs : Dict Str File)
      → lookup Str-discrete n (remove Str-discrete temporary fs) ≡ lookup Str-discrete n fs
  lookup-without fs = ground (arith, lookup-remove Str-discrete temporary n fs)

  at-unlink : (d : Disk) → at n (unlink f temporary d) ≡ at n d
  unfolding unlink
  at-unlink d = ground (arith, lookup-without (files d))

  at-publish :
      (part : Bytes) (name : Str) (data' : Bytes) (d : Disk)
      → at n (publish f temporary part name data' d).1 ≡ (
          if not f.at_write && not f.at_replace
          then ite (Str-discrete name n) (some (contents data')) (at n d)
          else at n d)
  unfolding publish
  at-publish part name data' d =
      let wrote = lookup-other (contents part) (files d) in
      let written = lookup-other (contents data') (files d) in
      let replaced =
        lookup-insert Str-discrete name n (contents data')
          (remove Str-discrete temporary (files d)) in
      let kept = lookup-without (files d) in ground (arith, wrote, written, replaced, kept)

  -- A record is found as it was, or, if the operation lands, as it was written.
  pub at-keep :
      (c : Codec) (part : Bytes) (name : Str) (data' : Bytes) (d : Disk)
      → at n (keep c f temporary part (name, data') d).1
        ≡ (if lands f d then ite (Str-discrete name n) (some (contents data')) (at n d) else at n d)
  unfolding keep write_record
  at-keep c part name data' d =
      let (made, d') = make_directory f d in
      let same : files d' ≡ files d = make_directory-files f d in
      let published = at-publish part name data' d' in
      let unlinked = at-unlink (publish f temporary part name data' d').1 in
      ground (arith, same, published, unlinked)

module _ (c : Codec) (f : Faults) (temporary : Str) (part : Bytes) where
  pub keep-lands :
      (p : Str × Bytes) (d : Disk) → (keep c f temporary part p d).0 ≡ ok tt → lands f d ≡ true
  unfolding keep write_record publish
  keep-lands p d h = ground arith

  pub keep-check :
      (p : Str × Bytes) (d : Disk)
      → check_directory quiet d ≡ ok tt
      → check_directory quiet (keep c f temporary part p d).1 ≡ ok tt
  unfolding keep write_record publish unlink check_directory
  keep-check p d h = let made = make_directory-check f d h in ground (arith, made)

-- The name and the data of the record that an operation puts in its place.
abbrev pub written :
    Codec → Faults → EnrichedConversation → OriginalPayload → Disk → Option (Str × Bytes)
written c f e o d = elim (prepare c f e o d) [
  | err _ ↦ none
  | ok p ↦ if lands f d then some p else none
]

-- The files with such a record among them.
abbrev pub overwritten : Option (Str × Bytes) → Str → Option File → Option File
overwritten none n old = old
overwritten (some (name, data')) n old = ite (Str-discrete name n) (some (contents data')) old

module _ (c : Codec) (f : Faults) (temporary : Str) (part : Bytes) (e : EnrichedConversation)
    (o : OriginalPayload) (d : Disk) where
  pub written-prepare : {p : Str × Bytes} → written c f e o d ≡ some p → prepare c f e o d ≡ ok p
  written-prepare h = ground arith

  pub store-written :
      (store c f temporary part e o d).0 ≡ ok tt → (p : Str × Bytes) × (written c f e o d ≡ some p)
  unfolding store
  store-written h = elim (Result-cases (prepare c f e o d)) [
    | inr (r, failed) ↦ absurd (ground arith)
    | inl (p, made) ↦
        let kept : (keep c f temporary part p d).0 ≡ ok tt =
          translate-ok (store_error (enriched_document_id e)) _ (ground arith) in
        let landed = keep-lands c f temporary part p d kept in (p, ground arith)
  ]

  pub at-store :
      (n : Str)
      → n ≢ temporary
      → at n (store c f temporary part e o d).1 ≡ overwritten (written c f e o d) n (at n d)
  unfolding store
  at-store n ne = elim (Result-cases (prepare c f e o d)) [
    | inr (r, failed) ↦ ground arith
    | inl ((name, data'), made) ↦
        let kept = at-keep f temporary n ne c part name data' d in ground (arith, kept)
  ]

  pub store-check :
      check_directory quiet d ≡ ok tt
      → check_directory quiet (store c f temporary part e o d).1 ≡ ok tt
  unfolding store
  store-check h = elim (Result-cases (prepare c f e o d)) [
    | inr (r, failed) ↦ rw (store, failed) h
    | inl (p, made) ↦ rw (store, made) (keep-check c f temporary part p d h)
  ]

  -- Whether a later reading passes the check of the directory does not change.
  pub store-check_directory :
      ((p : Str × Bytes) → prepare c f e o d ≡ ok p → check_directory quiet d ≡ ok tt)
      → check_directory quiet (store c f temporary part e o d).1 ≡ check_directory quiet d
  unfolding store
  store-check_directory checks = elim (Result-cases (prepare c f e o d)) [
    | inr (r, failed) ↦ rw (store, failed) refl
    | inl (p, made) ↦
        let checked = checks p made in
        rw (store, made) (keep-check c f temporary part p d checked ∙ sym checked)
  ]
