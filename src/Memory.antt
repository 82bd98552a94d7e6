-- ===== src/Memory.antt =====
-- src/engineering_memory/memory: the errors and results of interface/store.py, and what the adapter
-- in hindsight takes from libraries.
pub mod Serialization
pub mod Retry
pub mod Requests
pub mod Retain
pub mod Recall
pub mod Attempts
pub mod Pending
pub mod Repeats
pub mod Completed
pub mod Facts
pub mod Recalled
mod Tests
use hermes_memory.Base.{ℕ, Option, Str, List, Result}
use hermes_memory.Json.{Json}
use hermes_memory.Json.Utf8.{EncodeError}
use hermes_memory.Normalization.Values.{Timestamp}
use hermes_memory.Normalization.Conversation.{Conversation}
use hermes_memory.Normalization.Provenance.{Provenance}

-- The messages of MemoryStoreRejected and MemoryStoreUnavailable.
pub data MemoryError : Type 0 where
  empty_conversation oversized_request refused invalid_response : MemoryError
  invalid_acknowledgement invalid_operation extraction_failed : MemoryError
  empty_query bad_limit invalid_recall_response invalid_recall_result : MemoryError
  deadline_exceeded unavailable too_many_uncertain : MemoryError
  -- A UnicodeEncodeError, which is raised as it is.
  not_encodable : MemoryError

abbrev pub Outcome : Type 0 → Type 0
Outcome = Result MemoryError

pub record RecallResult : Type 0 where
  pub content : Str
  pub provenance : Provenance

pub record Wire : Type 0 where
  -- `json.dumps(body, ensure_ascii=False, separators=(",", ":")).encode("utf-8")`
  pub encode : Json → Result EncodeError (List ℕ)
  -- `hashlib.sha256(data).hexdigest()`
  pub sha256 : List ℕ → Str
  -- `model_dump_json` of the models, and `datetime.isoformat`
  pub conversation_json : Conversation → Str
  pub provenance_json : Provenance → Str
  pub isoformat : Timestamp → Str
  -- `Provenance.model_validate_json`
  pub read_provenance : Str → Option Provenance
