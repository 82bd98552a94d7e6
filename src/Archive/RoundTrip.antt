-- ===== src/Archive/RoundTrip.antt =====
-- `store`, then `load` and `load_original` of src/engineering_memory/archive/local.py.
use hermes_memory.Base.{
  ◌≡◌, ◌≢◌, refl, sym, ap, subst, ◌∙◌, ℕ, true, false, not, some, Str, Str-discrete, str_eq, codes,
  length, take, drop, take-append, drop-append, ok, require, >>=-eq-ok, translate-ok, str_eq_self,
  arith, ◌==◌,
}
use hermes_memory.Json.Utf8.{encode}
use hermes_memory.Normalization.Provenance.{EnrichedConversation, enriched_document_id}
use hermes_memory.Normalization.Canonical.{content_hash}
use hermes_memory.Archive.{
  Bytes, OriginalPayload, Envelope, Codec, IsCodec, as_value_error, new_envelope, new_payload,
  payload, is_digest, key, record_name,
}
use hermes_memory.Archive.Disk.{contents, Disk, Faults, is_redirected, check_directory, read_bytes}
use hermes_memory.Archive.Store.{envelope_of, prepare, store}
use hermes_memory.Archive.Read.{
  is_record_name, is_asked_for, parsed, verify, read_body, read, path, load, load_original,
}
use hermes_memory.Archive.Lookup.{quiet, at, written-prepare, store-written, at-store, store-check}

digest-length : (s : Str) → is_digest s ≡ true → length s ≡ 64
unfolding is_digest
digest-length s h = is_64 (length s) (ground arith)
  where
    is_64 : (n : ℕ) → n == 64 ≡ true → n ≡ 64
    is_64 n h = ground arith

pub record_name-take :
    (digest : Str) → is_digest digest ≡ true → take 64 (record_name digest) ≡ digest
record_name-take digest h =
    ap (λ n. take n (record_name digest)) (sym (digest-length digest h))
    ∙ take-append digest (codes ".json")

pub record_name-IsRecordName :
    (digest : Str) → is_digest digest ≡ true → is_record_name (record_name digest) ≡ true
unfolding is_record_name is_digest
record_name-IsRecordName digest h =
    let long = digest-length digest h in
    let front = record_name-take digest h in
    let back : drop 64 (record_name digest) ≡ codes ".json" =
      ap (λ n. drop n (record_name digest)) (sym long) ∙ drop-append digest (codes ".json") in
    let ending = str_eq_self (codes ".json") in rw (front, back, ending, h)

-- What `store` has prepared when it writes.
pub record Prepared (c : Codec) (e : EnrichedConversation) (o : OriginalPayload) (d : Disk)
    (name : Str) (data' : Bytes) : Type 0 where
  pub digest : Str
  pub hash : Str
  pub checked : check_directory quiet d ≡ ok tt
  pub keyed : key c (enriched_document_id e) ≡ ok digest
  pub named : name ≡ record_name digest
  pub unlinked : is_redirected d name ≡ false
  pub hashed : content_hash c.sha256 e.conversation ≡ ok hash
  pub valid : new_envelope (envelope_of c e o hash) ≡ ok (envelope_of c e o hash)
  pub dumped : c.dump (envelope_of c e o hash) ≡ ok data'

check-quiet :
    (f : Faults) (d : Disk) → check_directory f d ≡ ok tt → check_directory quiet d ≡ ok tt
unfolding check_directory
check-quiet f d h = ground arith

new_envelope-same : (e : Envelope) {e' : Envelope} → new_envelope e ≡ ok e' → e' ≡ e
unfolding new_envelope as_value_error
new_envelope-same e h = ground arith

pub prepare-Prepared :
    (c : Codec) (f : Faults) (e : EnrichedConversation) (o : OriginalPayload) (d : Disk)
    (name : Str) (data' : Bytes)
    → prepare c f e o d ≡ ok (name, data')
    → Prepared c e o d name data'
unfolding prepare as_value_error
prepare-Prepared c f e o d name data' h =
    let (_, checked, h1) = >>=-eq-ok (check_directory f d) _ h in
    let (digest, keyed, h2) = >>=-eq-ok (key c (enriched_document_id e)) _ h1 in
    let (_, unlinked, h3) =
      >>=-eq-ok (require (not (is_redirected d (record_name digest))) _) _ h2 in
    let (hash, hashed, h4) =
      >>=-eq-ok (as_value_error (content_hash c.sha256 e.conversation)) _ h3 in
    let (envelope, valid, h5) = >>=-eq-ok (new_envelope (envelope_of c e o hash)) _ h4 in
    let (d', dumped, h6) = >>=-eq-ok (as_value_error (c.dump envelope)) _ h5 in
    let same = new_envelope-same (envelope_of c e o hash) valid in
    let dumped' = translate-ok _ (c.dump envelope) dumped in
    record {
      digest = digest;
      hash = hash;
      checked = check-quiet f d checked;
      keyed = keyed;
      named = ground arith;
      unlinked = ground arith;
      hashed = translate-ok _ (content_hash c.sha256 e.conversation) hashed;
      valid = ground arith;
      dumped = ground arith;
    }

pub key-digest :
    (c : Codec) (id : Str) {digest : Str}
    → IsCodec c
    → key c id ≡ ok digest
    → is_digest digest ≡ true
unfolding key as_value_error
key-digest c id {digest} laws h =
    let (b, encoded, hashed) = >>=-eq-ok (as_value_error (encode id)) _ h in
    let same : c.sha256 b ≡ digest = ground arith in
    subst (λ s. is_digest s ≡ true) same (laws.digests b)

pub Prepared-IsRecordName :
    (c : Codec) (e : EnrichedConversation) (o : OriginalPayload) (d : Disk) (name : Str)
    (data' : Bytes)
    → IsCodec c
    → Prepared c e o d name data'
    → is_record_name name ≡ true
Prepared-IsRecordName c e o d name data' laws p =
    ap is_record_name p.named ∙ record_name-IsRecordName p.digest (key-digest c _ laws p.keyed)

found-read_bytes :
    (d : Disk) (name : Str) {b : Bytes}
    → at name d ≡ some (contents b)
    → (read_bytes d name ≡ ok b) × (is_redirected d name ≡ false)
unfolding read_bytes is_redirected
found-read_bytes d name found = (rw (read_bytes, found) refl, rw (is_redirected, found) refl)

abbrev pub Reads : Codec → Disk → EnrichedConversation → OriginalPayload → Type 0
Reads c d e o =
    (load c quiet d (enriched_document_id e) ≡ ok e)
    × (load_original c quiet d (enriched_document_id e) ≡ ok o)

-- What makes a record readable.
module _ (c : Codec) (laws : IsCodec c) (e : EnrichedConversation) (o : OriginalPayload)
    (valid_payload : new_payload o ≡ ok o) where
  payload-envelope_of : (hash : Str) → payload c (envelope_of c e o hash) ≡ ok o
  unfolding payload envelope_of
  payload-envelope_of hash =
      let decodes = laws.decodes o.content in
      let same = str_eq_self (c.sha256 o.content) in ground (arith, decodes, same)

  verify-envelope_of :
      {d : Disk} {name : Str} {data' : Bytes} (p : Prepared c e o d name data')
      → verify c name (some (enriched_document_id e)) (envelope_of c e o p.hash) ≡ ok tt
  unfolding verify envelope_of is_asked_for as_value_error
  verify-envelope_of {d} {name} {data'} p =
      let same_id = str_eq_self (enriched_document_id e) in
      let same_hash = str_eq_self p.hash in
      let same_name : str_eq name (record_name p.digest) ≡ true =
        ap (λ n. str_eq n (record_name p.digest)) p.named ∙ str_eq_self (record_name p.digest) in
      rw (same_id, p.keyed, same_name, p.hashed, same_hash)

  parsed-written :
      {d : Disk} {name : Str} {data' : Bytes} (p : Prepared c e o d name data')
      → parsed c data' ≡ ok (envelope_of c e o p.hash)
  unfolding parsed
  parsed-written {d} {name} {data'} p =
      let parses = laws.parses (envelope_of c e o p.hash) data' p.dumped in
      let valid = p.valid in ground (arith, parses, valid)

  read-written :
      {d : Disk} (d' : Disk) {name : Str} {data' : Bytes} (p : Prepared c e o d name data')
      → check_directory quiet d' ≡ ok tt
      → at name d' ≡ some (contents data')
      → read c quiet d' name (some (enriched_document_id e)) ≡ ok (envelope_of c e o p.hash)
  unfolding read read_body
  read-written d' {name} {data'} p checked found =
      let parses = parsed-written p in
      let well_named = Prepared-IsRecordName c e o _ name data' laws p in
      let sound = payload-envelope_of p.hash in
      let verified = verify-envelope_of p in
      let (bytes, direct) = found-read_bytes d' name found in
      rw (checked, direct, well_named, bytes, parses, verified, sound)

  pub Reads-written :
      {d : Disk} (d' : Disk) {name : Str} {data' : Bytes} (p : Prepared c e o d name data')
      → check_directory quiet d' ≡ ok tt
      → at name d' ≡ some (contents data')
      → Reads c d' e o
  unfolding load load_original path envelope_of
  Reads-written d' {name} p checked found =
      let written = read-written d' p checked found in
      let named = p.named in
      let sound = payload-envelope_of p.hash in
      (rw (p.keyed, sym named, written) refl, rw (p.keyed, sym named, written) sound)

  -- Stored without an error, an original that is valid and the enriched conversation are then
  -- loaded as they were stored, if nothing is changed in between and no call of the system fails.
  -- The temporary file is assumed not to have the name of a record.
  pub store-load :
      (f : Faults) (temporary : Str) (part : Bytes) (d : Disk)
      → is_record_name temporary ≡ false
      → (store c f temporary part e o d).0 ≡ ok tt
      → let d' = (store c f temporary part e o d).1 in
        (load c quiet d' (enriched_document_id e) ≡ ok e)
        × (load_original c quiet d' (enriched_document_id e) ≡ ok o)
  store-load f temporary part d unrecorded stored =
      let ((name, data'), lands') = store-written c f temporary part e o d stored in
      let p =
        prepare-Prepared c f e o d name data' (written-prepare c f temporary part e o d lands') in
      let recorded : is_record_name name ≡ true = Prepared-IsRecordName c e o d name data' laws p in
      let other : name ≢ temporary = λ same. ground arith in
      let found = at-store c f temporary part e o d name other in
      Reads-written (store c f temporary part e o d).1 p
        (store-check c f temporary part e o d p.checked)
        (found ∙ rw lands' (ground (arith, Str-discrete name name)))
