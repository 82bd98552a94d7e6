-- ===== src/Archive/Tests.antt =====
-- An archive on a small disk, with simple functions for the libraries.
use hermes_memory.Base.{
  ◌≡◌, refl, ap, Bool, true, false, Option, none, some, List, [], ◌∷◌, Str, codes, Result, ok, err,
  if◌then◌else◌, sym, ◌++◌, ◌==◌, arith, Str-discrete, ℕ_discrete, lookup, insert, remove, length,
}
use hermes_memory.Json.Utf8.{EncodeError, surrogate, encode}
use hermes_memory.Normalization.Values.{text, is_surrogate}
use hermes_memory.Normalization.Conversation.{Conversation, document_id, chatgpt, Source-discrete}
use hermes_memory.Normalization.Provenance.{EnrichedConversation, enriched_document_id}
use hermes_memory.Normalization.Enrichment.{enriched_of}
use hermes_memory.Normalization.Canonical.{content_hash, canonical_bytes}
use hermes_memory.Normalization.Tests.{asked, at_noon, importer}
use hermes_memory.Archive.{
  archive_rejected, bad_record_name, record_name, Bytes, OriginalPayload, Codec, IsCodec, Envelope,
  integer, key, is_digest, new_payload, payload, new_envelope, is_version_one, as_value_error,
}
use hermes_memory.Archive.Disk.{
  contents, Disk, absent, directory, check_directory, make_directory, make_root, is_redirected,
  read_bytes,
}
use hermes_memory.Archive.Store.{store, prepare, envelope_of, keep, write_record, publish, unlink}
use hermes_memory.Archive.Read.{
  read_error, read, read_body, load, load_original, path, parsed, verify, is_record_name,
  is_asked_for,
}
use hermes_memory.Archive.Lookup.{quiet}
use hermes_memory.Archive.RoundTrip.{store-load}
use hermes_memory.Archive.Intact.{Intact, load-Intact}
use hermes_memory.Archive.Replay.{run-Replays, Call, IsFit, Replays, answers, seen, run}
use hermes_memory.Archive.Listing.{
  found, raises, yields, fresh, open_at, next, next_entry, is_temporary, is_wanted,
}
use hermes_memory.Archive.Drain.{next-loads, drain, drain-fresh, contributions}

-- 63 zeros and a digit that tells lengths apart.
abbrev digest_of : Bool → Str
digest_of b =
    codes "000000000000000000000000000000000000000000000000000000000000000"
    ++ (elim b [ true ↦ b'1' | false ↦ b'0' ]) ∷ []

abbrev sum : Bytes → Str
sum b = digest_of (length b == 12)

abbrev second : Conversation
second = record asked { source_id = codes "c:22" }

abbrev enriched_first : EnrichedConversation
enriched_first = enriched_of asked (codes "orchard") importer at_noon

abbrev enriched_second : EnrichedConversation
enriched_second = enriched_of second (codes "orchard") importer at_noon

abbrev page : OriginalPayload
page = record { content = 7 ∷ 8 ∷ []; media_type = codes "application/json" }

abbrev envelope : EnrichedConversation → Envelope
envelope e = record {
  format_version = integer 1;
  envelope_id = enriched_document_id e;
  enriched = e;
  envelope_hash = digest_of false;
  original_type = codes "application/json";
  content_base64 = 7 ∷ 8 ∷ [];
  original_sha256 = digest_of false;
}

Envelope-discrete : Discrete Envelope
Envelope-discrete = hlevel ℕ_discrete

abbrev numbered : {A B : Type 0} → Dec A → Dec B → Result EncodeError Bytes
numbered (yes a) d = ok (1 ∷ [])
numbered (no a) (yes b) = ok (2 ∷ [])
numbered (no a) (no b) = err surrogate

abbrev small_dump : Envelope → Result EncodeError Bytes
small_dump e =
    numbered (Envelope-discrete e (envelope enriched_first))
      (Envelope-discrete e (envelope enriched_second))

abbrev small_parse : Bytes → Option Envelope
small_parse [] = none
small_parse (n ∷ b) =
    if n == 1
    then some (envelope enriched_first)
    else if n == 2
    then some (envelope enriched_second)
    else none

abbrev small : Codec
small = record {
  sha256 = sum;
  b64encode = λ b. b;
  b64decode = λ s. some s;
  dump = small_dump;
  parse = small_parse;
}

digest-sum : (b : Bytes) → is_digest (sum b) ≡ true
unfolding is_digest
digest-sum b = elim (length b == 12) as (λ x. is_digest (digest_of x) ≡ true) [
  | true ↦ refl
  | false ↦ refl
]

parse-numbered :
    (e : Envelope) (d : Dec (e ≡ envelope enriched_first)) (d' : Dec (e ≡ envelope enriched_second))
    (b : Bytes)
    → numbered d d' ≡ ok b
    → small_parse b ≡ some e
parse-numbered e (yes one) d b h = let same : b ≡ 1 ∷ [] = cc in rw same (ap some (sym one))
parse-numbered e (no not_one) (yes two) b h =
    let same : b ≡ 2 ∷ [] = cc in rw same (ap some (sym two))
parse-numbered e (no not_one) (no not_two) b h = cc

IsCodec-small : IsCodec small
IsCodec-small = record {
  decodes = λ b. refl;
  parses = λ e b h.
      parse-numbered e (Envelope-discrete e (envelope enriched_first))
        (Envelope-discrete e (envelope enriched_second)) b h;
  digests = digest-sum;
}

-- The archive does not exist yet.
abbrev empty : Disk
empty = record {
  root_redirected = false;
  version_redirected = false;
  root = absent;
  version = absent;
}

page_valid : new_payload page ≡ ok page
unfolding new_payload as_value_error text is_surrogate
page_valid = refl

store-load_example :
    let d' = (store small quiet (codes ".x.tmp") [] enriched_first page empty).1 in
    (load small quiet d' (enriched_document_id enriched_first) ≡ ok enriched_first)
    × (load_original small quiet d' (enriched_document_id enriched_first) ≡ ok page)
unfolding store prepare envelope_of keep write_record publish unlink check_directory make_directory
    make_root is_redirected content_hash canonical_bytes encode key as_value_error new_envelope
    is_version_one text is_surrogate is_record_name is_digest lookup insert remove Str-discrete
    ℕ_discrete Envelope-discrete document_id
store-load_example =
    store-load small IsCodec-small enriched_first page page_valid quiet (codes ".x.tmp") [] empty
      refl refl

abbrev stored : Disk
stored = record {
  root_redirected = false;
  version_redirected = false;
  root = directory tt;
  version = directory ((record_name (digest_of false), contents (1 ∷ [])) ∷ []);
}

load-Intact_example :
    (enriched_document_id enriched_first ≡ codes "chatgpt:c:1")
    × ((envelope : Envelope) × (name : Str) × (envelope.enriched ≡ enriched_first)
        × Intact small name (some (codes "chatgpt:c:1")) envelope
        × (read small quiet stored name (some (codes "chatgpt:c:1")) ≡ ok envelope))
unfolding load path key read read_body parsed verify payload check_directory is_redirected
    read_bytes content_hash canonical_bytes encode as_value_error new_envelope new_payload
    is_version_one text is_surrogate is_record_name is_asked_for is_digest lookup Str-discrete
    ℕ_discrete document_id
load-Intact_example = load-Intact small quiet stored (codes "chatgpt:c:1") enriched_first refl

-- A record, the temporary file of a store that broke off, and a file that is no record.
abbrev names : List (Option Str)
names = some (codes ".a.tmp") ∷ some (codes "notes") ∷ some (record_name (digest_of false)) ∷ []

next-loads_example :
    (e : EnrichedConversation) × (load small quiet stored (codes "chatgpt:c:1") ≡ ok e)
    × (is_wanted (some chatgpt) e.conversation.source ≡ true)
unfolding next next_entry read read_body parsed verify payload check_directory is_redirected
    read_bytes content_hash canonical_bytes encode key as_value_error new_envelope new_payload
    is_version_one text is_surrogate is_record_name is_asked_for is_digest is_temporary is_wanted
    lookup Str-discrete ℕ_discrete document_id Source-discrete
next-loads_example =
    next-loads small quiet stored (some chatgpt) (found names)
      (open_at (some (record_name (digest_of false)) ∷ [])) (codes "chatgpt:c:1") refl

drain-fresh_example :
    drain small quiet stored none 4 (found names) fresh
    ≡ some (contributions small quiet stored none names)
unfolding check_directory
drain-fresh_example = drain-fresh small quiet stored none names refl

listed_names :
    contributions small quiet stored none names
    ≡ raises (archive_rejected bad_record_name none) ∷ yields (codes "chatgpt:c:1") ∷ []
unfolding read read_body parsed verify payload check_directory is_redirected read_bytes content_hash
    canonical_bytes encode key as_value_error new_envelope new_payload is_version_one text
    is_surrogate is_record_name is_asked_for is_digest is_temporary is_wanted lookup Str-discrete
    ℕ_discrete document_id read_error
listed_names = refl

-- A store of another document whose write breaks off, and one that succeeds.
abbrev broken_call : Call
broken_call = record {
  faults = record quiet { at_write = true };
  temporary = codes ".y.tmp";
  part = 2 ∷ [];
  enriched = enriched_second;
  original = page;
}

abbrev good_call : Call
good_call = record {
  faults = quiet;
  temporary = codes ".x.tmp";
  part = [];
  enriched = enriched_first;
  original = page;
}

IsFit-broken : IsFit small (codes "chatgpt:c:1") broken_call
unfolding is_record_name is_digest key encode as_value_error document_id Str-discrete ℕ_discrete
IsFit-broken = record {
  unrecorded = refl;
  valid = page_valid;
  distinguished = λ digest h k. ground arith;
}

IsFit-good : IsFit small (codes "chatgpt:c:1") good_call
unfolding is_record_name is_digest document_id Str-discrete ℕ_discrete
IsFit-good = record { unrecorded = refl; valid = page_valid; distinguished = λ digest h k. refl }

run-Replays_example :
    let calls = broken_call ∷ good_call ∷ [] in
    Replays
      (codes "chatgpt:c:1")
      calls
      (answers small calls empty)
      (seen small empty (codes "chatgpt:c:1"))
      (seen small (run small calls empty) (codes "chatgpt:c:1"))
run-Replays_example =
    run-Replays small IsCodec-small (codes "chatgpt:c:1") (broken_call ∷ good_call ∷ []) empty
      (IsFit-broken, (IsFit-good, tt))
