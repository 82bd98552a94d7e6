-- ===== src/Archive/Replay.antt =====
-- Any sequence of calls of `store` (src/engineering_memory/archive/local.py), against what the
-- archive promises in src/engineering_memory/archive/interface.py: the last store wins.
use hermes_memory.Base.{
  ◌≡◌, ◌≢◌, refl, sym, ap, ap₂, subst, ◌∙◌, true, false, Option, none, some, List, [], ◌∷◌, Str,
  Str-discrete, take, ok, Result-cases, Option-cases, All, inl, inr, arith,
}
use hermes_memory.Normalization.Provenance.{EnrichedConversation, enriched_document_id}
use hermes_memory.Archive.{
  Bytes, OriginalPayload, Attempt, Answer, Codec, IsCodec, new_payload, key, record_name, is_digest,
}
use hermes_memory.Archive.Disk.{Disk, Faults, is_redirected, check_directory, read_bytes}
use hermes_memory.Archive.Store.{store}
use hermes_memory.Archive.Read.{is_record_name, read_body, read, path, load, load_original}
use hermes_memory.Archive.Lookup.{
  quiet, at, written, overwritten, written-prepare, store-written, at-store, store-check_directory,
}
use hermes_memory.Archive.RoundTrip.{
  Prepared, prepare-Prepared, Reads, Reads-written, key-digest, record_name-take,
  record_name-IsRecordName,
}

-- One call, with what the system does meanwhile.
pub record Call : Type 0 where
  pub faults : Faults
  pub temporary : Str
  pub part : Bytes
  pub enriched : EnrichedConversation
  pub original : OriginalPayload

-- What a reader is given for a document: both forms, or the errors.
pub record Seen : Type 0 where
  pub loaded : Answer EnrichedConversation
  pub loaded_original : Attempt OriginalPayload

module _ (c : Codec) where
  abbrev pub seen : Disk → Str → Seen
  seen d id = record { loaded = load c quiet d id; loaded_original = load_original c quiet d id }

  abbrev pub call : Call → Disk → Answer Unit × Disk
  call s d = store c s.faults s.temporary s.part s.enriched s.original d

  abbrev pub run : List Call → Disk → Disk
  run [] d = d
  run (s ∷ calls) d = run calls (call s d).1

  abbrev pub answers : List Call → Disk → List (Answer Unit)
  answers [] d = []
  answers (s ∷ calls) d = (call s d).0 ∷ answers calls (call s d).1

-- What a reader of one document may see after each call: a call that takes effect gives both forms of
-- its document at once and leaves every other document; one that takes none leaves all, and has failed.
pub data Replays (id : Str) : List Call → List (Answer Unit) → Seen → Seen → Type 0 where
  replayed : (s : Seen) → Replays id [] [] s s
  replaces :
      (s : Call) (a : Answer Unit) (calls : List Call) (as' : List (Answer Unit)) (old new : Seen)
      → enriched_document_id s.enriched ≡ id
      → Replays id calls as'
          (record { loaded = ok s.enriched; loaded_original = ok s.original })
          new
      → Replays id (s ∷ calls) (a ∷ as') old new
  passes :
      (s : Call) (a : Answer Unit) (calls : List Call) (as' : List (Answer Unit)) (old new : Seen)
      → (enriched_document_id s.enriched ≡ id → a ≢ ok tt)
      → Replays id calls as' old new
      → Replays id (s ∷ calls) (a ∷ as') old new

-- What is assumed of a call: the name of its temporary file is not that of a record, the original
-- is one that OriginalPayload accepts, and its document shares no digest with the one that is read.
pub record IsFit (c : Codec) (id : Str) (s : Call) : Type 0 where
  pub unrecorded : is_record_name s.temporary ≡ false
  pub valid : new_payload s.original ≡ ok s.original
  pub distinguished :
      (digest : Str)
      → key c (enriched_document_id s.enriched) ≡ ok digest
      → key c id ≡ ok digest
      → enriched_document_id s.enriched ≡ id

module _ (c : Codec) (laws : IsCodec c) where
  read-same :
      (d d' : Disk) (name : Str) (id : Option Str)
      → check_directory quiet d' ≡ check_directory quiet d
      → at name d' ≡ at name d
      → read c quiet d' name id ≡ read c quiet d name id
  unfolding read read_body is_redirected read_bytes
  read-same d d' name id checks same =
      let redirected : is_redirected d' name ≡ is_redirected d name =
        rw (is_redirected, same) refl in
      let bytes : read_bytes d' name ≡ read_bytes d name = rw (read_bytes, same) refl in
      rw (checks, redirected, bytes) refl

  seen-same :
      (d d' : Disk) (id : Str)
      → check_directory quiet d' ≡ check_directory quiet d
      → ((digest : Str)
          → key c id ≡ ok digest
          → at (record_name digest) d' ≡ at (record_name digest) d)
      → seen c d' id ≡ seen c d id
  unfolding load load_original path
  seen-same d d' id checks same = elim (Result-cases (key c id)) [
    | inr (r, failed) ↦ rw failed refl
    | inl (digest, keyed) ↦
        let reads = read-same d d' (record_name digest) (some id) checks (same digest keyed) in
        rw (keyed, reads) refl
  ]

  record_name-injective :
      (a b : Str) → is_digest a ≡ true → is_digest b ≡ true → record_name a ≡ record_name b → a ≡ b
  record_name-injective a b h k e =
      sym (record_name-take a h) ∙ ap (take 64) e ∙ record_name-take b k

  module _ (id : Str) (s : Call) (fit : IsFit c id s) (d : Disk) where
    call-checks : check_directory quiet (call c s d).1 ≡ check_directory quiet d
    call-checks =
        store-check_directory c s.faults s.temporary s.part s.enriched s.original d
          λ p made. (prepare-Prepared c s.faults s.enriched s.original d p.0 p.1 made).checked

    call-at :
        (digest : Str)
        → is_digest digest ≡ true
        → at (record_name digest) (call c s d).1
          ≡ overwritten
              (written c s.faults s.enriched s.original d)
              (record_name digest)
              (at (record_name digest) d)
    call-at digest h =
        at-store c s.faults s.temporary s.part s.enriched s.original d (record_name digest) λ same.
          let recorded = record_name-IsRecordName digest h in
          let unrecorded = fit.unrecorded in ground arith

    -- A call that takes no effect.
    call-loses :
        written c s.faults s.enriched s.original d ≡ none
        → (seen c (call c s d).1 id ≡ seen c d id) × ((call c s d).0 ≢ ok tt)
    call-loses lost = (
      seen-same d (call c s d).1 id call-checks
          (λ digest keyed. call-at digest (key-digest c id laws keyed) ∙ rw lost refl),
      λ fine.
          let (p, w) = store-written c s.faults s.temporary s.part s.enriched s.original d fine in
          ground arith,
    )

    module _ (name : Str) (data' : Bytes)
        (landed : written c s.faults s.enriched s.original d ≡ some (name, data')) where
      call-Prepared : Prepared c s.enriched s.original d name data'
      call-Prepared =
          prepare-Prepared c s.faults s.enriched s.original d name data'
            (written-prepare c s.faults s.temporary s.part s.enriched s.original d landed)

      call-gives : Reads c (call c s d).1 s.enriched s.original
      call-gives =
          let p = call-Prepared in
          let named = p.named in
          let found = call-at p.digest (key-digest c _ laws p.keyed) in
          Reads-written c laws s.enriched s.original fit.valid (call c s d).1 p
            (call-checks ∙ p.checked)
            (ap (λ n. at n (call c s d).1) named ∙ found ∙ rw landed (ground (arith, named)))

      call-shows :
          enriched_document_id s.enriched ≡ id
          → seen c (call c s d).1 id
            ≡ record { loaded = ok s.enriched; loaded_original = ok s.original }
      call-shows mine =
          let (first, second) = call-gives in
          subst
            (λ i.
              seen c (call c s d).1 i
              ≡ record { loaded = ok s.enriched; loaded_original = ok s.original })
            mine (ap₂ (λ a b. record { loaded = a; loaded_original = b }) first second)

      call-leaves : enriched_document_id s.enriched ≢ id → seen c (call c s d).1 id ≡ seen c d id
      call-leaves ne =
          let p = call-Prepared in
          seen-same d (call c s d).1 id call-checks λ digest keyed.
            let other : name ≢ record_name digest = λ same. ne (
              fit.distinguished p.digest p.keyed (
                keyed
                ∙ ap ok (
                    record_name-injective digest p.digest (key-digest c id laws keyed)
                      (key-digest c _ laws p.keyed) (sym same ∙ p.named)))) in
            call-at digest (key-digest c id laws keyed) ∙ rw landed (ground (arith, other))

  -- For a reader of a document, any sequence of calls of `store`, whatever fails in the system
  -- during each, is a sequence of replacements of both forms at once: a call for another document
  -- changes nothing, and one for this document replaces both forms, unless it failed. The readings
  -- are made after the calls, while nothing fails; temporary files are assumed not to be named as
  -- records, originals to be valid, and no other document to have the digest of this one.
  pub run-Replays :
      (id : Str) (calls : List Call) (d : Disk)
      → All (IsFit c id) calls
      → Replays id calls (answers c calls d) (seen c d id) (seen c (run c calls d) id)
  run-Replays id [] d fit = replayed (seen c d id)
  run-Replays id (s ∷ calls) d fit =
      let d' = (call c s d).1 in
      let as' = answers c calls d' in
      let new = seen c (run c calls d') id in
      let rest = run-Replays id calls d' fit.1 in
      let onwards : (old : Seen) → seen c d' id ≡ old → Replays id calls as' old new =
        λ old e. subst (λ before. Replays id calls as' before new) e rest in
      elim (Option-cases (written c s.faults s.enriched s.original d)) [
        | inl lost ↦
            let (same, failed) = call-loses id s fit.0 d lost in
            passes s _ calls as' _ new (λ _. failed) (onwards (seen c d id) same)
        | inr ((name, data'), landed) ↦ elim (Str-discrete (enriched_document_id s.enriched) id) [
          | yes mine ↦
              replaces s _ calls as' _ new mine
                (onwards _ (call-shows id s fit.0 d name data' landed mine))
          | no other ↦
              passes s _ calls as' _ new (λ mine. absurd (other mine))
                (onwards (seen c d id) (call-leaves id s fit.0 d name data' landed other))
        ]
      ]
