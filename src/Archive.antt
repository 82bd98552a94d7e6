-- ===== src/Archive.antt =====
-- src/engineering_memory/archive: the records of interface.py and local.py, and the errors. SHA-256,
-- base64 and the writing and reading of JSON are parameters.
pub mod Disk
pub mod Store
pub mod Read
pub mod Listing
pub mod Lookup
pub mod RoundTrip
pub mod Replay
pub mod Intact
pub mod Drain
mod Tests
use hermes_memory.Base.{
  ℕ, ◌≡◌, Bool, true, false, not, ◌&&◌, ◌||◌, Option, none, some, List, [], ◌∷◌, ◌++◌, Str, codes,
  length, all, leb, ◌==◌, is_empty, str_eq, if◌then◌else◌, Result, ok, err, ◌>>=◌, ◌>>◌, require,
  translate,
}
use hermes_memory.Json.Utf8.{EncodeError, encode}
use hermes_memory.Normalization.Values.{text}
use hermes_memory.Normalization.Provenance.{EnrichedConversation}

abbrev pub Bytes : Type 0
Bytes = List ℕ

pub record OriginalPayload : Type 0 where
  pub content : Bytes
  pub media_type : Str

-- The messages of ArchiveRejected and ArchiveUnavailable.
pub data Rejection : Type 0 where
  redirected_directory redirected_record refused_record : Rejection
  bad_record_name listed_record_missing invalid_record bad_identity : Rejection

pub data Unavailability : Type 0 where
  root_not_directory version_not_directory : Unavailability
  not_persisted not_read not_enumerated : Unavailability

-- The last argument is the subject, where the error has one.
pub data ArchiveError : Type 0 where
  document_not_found : Str → ArchiveError
  archive_rejected : Rejection → Option Str → ArchiveError
  archive_unavailable : Unavailability → Option Str → ArchiveError

-- What may be raised inside a `try` block: an error of the boundary, FileNotFoundError, any other
-- OSError, or a ValueError (UnicodeError, binascii.Error and ValidationError are such).
pub data Raised : Type 0 where
  boundary_error : ArchiveError → Raised
  file_not_found os_error value_error : Raised

-- A statement inside a `try` block, and an operation of the archive.
abbrev pub Attempt : Type 0 → Type 0
Attempt = Result Raised

abbrev pub Answer : Type 0 → Type 0
Answer = Result ArchiveError

-- The JSON value of `format_version`.
pub data FormatVersion : Type 0 where
  integer : ℕ → FormatVersion
  no_integer : FormatVersion

pub record Envelope : Type 0 where
  pub format_version : FormatVersion
  pub envelope_id : Str
  pub enriched : EnrichedConversation
  pub envelope_hash : Str
  pub original_type : Str
  pub content_base64 : Str
  pub original_sha256 : Str

-- The libraries that the archive calls.
pub record Codec : Type 0 where
  -- `sha256(data).hexdigest()`
  pub sha256 : Bytes → Str
  pub b64encode : Bytes → Str
  -- `b64decode(..., validate=True)`
  pub b64decode : Str → Option Bytes
  -- `model_dump_json().encode("utf-8")`
  pub dump : Envelope → Result EncodeError Bytes
  -- The fields of the JSON document, with the models in them validated.
  pub parse : Bytes → Option Envelope

is_hex : ℕ → Bool
is_hex c = leb b'0' c && leb c b'9' || leb b'a' c && leb c b'f'

-- `[0-9a-f]{64}`
unfoldable pub is_digest : Str → Bool
unfolding is_hex
is_digest s = length s == 64 && all is_hex s

-- What is documented of the libraries: base64 decodes what it encoded, a model can be read from the
-- JSON that it was written as, and a digest is 64 hexadecimal digits.
pub record IsCodec (c : Codec) : Type 0 where
  pub decodes : (b : Bytes) → c.b64decode (c.b64encode b) ≡ some b
  pub parses : (e : Envelope) (data' : Bytes) → c.dump e ≡ ok data' → c.parse data' ≡ some e
  pub digests : (b : Bytes) → is_digest (c.sha256 b) ≡ true

-- An error of another kind that is a ValueError.
unfoldable pub as_value_error : {E A : Type 0} → Result E A → Attempt A
as_value_error r = translate (λ _. value_error) r

-- `_integer_version` and `Literal[1]`
unfoldable pub is_version_one : FormatVersion → Bool
is_version_one (integer n) = n == 1
is_version_one no_integer = false

-- The validation of an envelope, and of the original in it.
unfoldable pub new_envelope : Envelope → Attempt Envelope
unfolding is_version_one as_value_error text
new_envelope e = do
  require (is_version_one e.format_version) value_error
  _ ← as_value_error (text e.original_type)
  ok e

-- `OriginalPayload(...)`
unfoldable pub new_payload : OriginalPayload → Attempt OriginalPayload
unfolding as_value_error text
new_payload p = do
  require (not (is_empty p.media_type)) value_error
  _ ← as_value_error (text p.media_type)
  ok p

module _ (c : Codec) where
  decoded : Str → Attempt Bytes
  decoded s = elim (c.b64decode s) [ none ↦ err value_error | some b ↦ ok b ]

  -- `_Envelope.payload`
  unfoldable pub payload : Envelope → Attempt OriginalPayload
  unfolding decoded new_payload
  payload e = do
    content ← decoded e.content_base64
    require (str_eq (c.sha256 content) e.original_sha256) value_error
    new_payload (record { content = content; media_type = e.original_type })

  -- `_key`
  unfoldable pub key : Str → Attempt Str
  unfolding as_value_error
  key document_id = do b ← as_value_error (encode document_id); ok (c.sha256 b)

abbrev pub record_name : Str → Str
record_name digest = digest ++ codes ".json"
