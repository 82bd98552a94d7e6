-- ===== src/Memory/Requests.antt =====
-- `_request` and `_single_request` of src/engineering_memory/memory/hindsight/store.py. The script of
-- a request says, for each attempt, what the clock and the engine do.
use hermes_memory.Base.{
  ℕ, ◌+◌, ◌-◌, Bool, not, ◌&&◌, ◌||◌, ◌==◌, Option, none, some, List, ◌∷◌, Str, Str-discrete, leb,
  if◌then◌else◌, Dict, remove,
}
use hermes_memory.Json.{Json, null, bool, num, str, arr, obj, Fields}
use hermes_memory.Memory.{deadline_exceeded, unavailable, refused, invalid_response, Outcome}
use hermes_memory.Memory.Retry.{
  http_status, TransportError, transient_transport, Ended, transient, failed, returned, RetryPolicy,
  Times, attempt_from,
}

-- What is sent: the item of an operation with its body, the question whether it is done, a recall.
pub data Request : Type 0 where
  retain_request : Str → List ℕ → Request
  poll_request : Str → Request
  recall_request : List ℕ → Request

-- The status and the JSON value of a response, or the exception. A body that is no JSON is `none`.
pub data Reply : Type 0 where
  response : ℕ → Option Json → Reply
  transport_error : TransportError → Reply

pub record Exchange : Type 0 where
  pub times : Times
  pub late_to_send : Bool
  pub reply : Reply
  pub late_after : Bool

-- What was sent, and what came back.
pub record Entry : Type 0 where
  pub request : Request
  pub reply : Reply

-- The state of a `HindsightStore`, with the requests that it has sent, latest first. The pending
-- operations are kept by document id: the fingerprint of the item, and the operation's id.
pub record State : Type 0 where
  pub pending : Dict Str (Str × Str)
  pub request_ordinal : ℕ
  pub log : List Entry

abbrev pub forget : Str → State → State
forget id s = record s { pending = remove Str-discrete id s.pending }

abbrev pub note : Request → Reply → State → State
note request reply s = record s { log = record { request = request; reply = reply } ∷ s.log }

-- `self._pending.pop(reject_identity, None)`
unfoldable pub drop_rejected : Option Str → State → State
drop_rejected none s = s
drop_rejected (some id) s = forget id s

-- 429, 502, 503 and 504.
unfoldable pub is_retryable : ℕ → Bool
is_retryable n = n == 429 || (n == 502 || (n == 503 || n == 504))

-- `response.is_success`
unfoldable pub is_success : ℕ → Bool
is_success n = leb 200 n && leb n 299

-- What is made of a response in time.
unfoldable pub read_response : ℕ → Option Json → Option Str → State → Ended Fields × State
unfolding is_retryable is_success drop_rejected
read_response status body reject_identity s =
    if is_retryable status
    then (transient http_status, s)
    else if not (is_success status)
    then (failed refused, drop_rejected reject_identity s)
    else elim body [
      | some (obj fs) ↦ (returned fs, s)
      | some null ↦ (failed invalid_response, s)
      | some (bool _) ↦ (failed invalid_response, s)
      | some (num _) ↦ (failed invalid_response, s)
      | some (str _) ↦ (failed invalid_response, s)
      | some (arr _) ↦ (failed invalid_response, s)
      | none ↦ (failed invalid_response, s)
    ]

unfoldable pub read_reply : Bool → Reply → Option Str → State → Ended Fields × State
unfolding transient_transport read_response
read_reply late (response status body) reject_identity s =
    if late then (failed deadline_exceeded, s) else read_response status body reject_identity s
read_reply late (transport_error e) reject_identity s = elim (transient_transport e) [
  | some category ↦ if late then (failed unavailable, s) else (transient category, s)
  | none ↦ (failed unavailable, s)
]

-- `_single_request`
unfoldable pub single_request : Request → Exchange → Option Str → State → Ended Fields × State
unfolding read_reply
single_request request x reject_identity s =
    if x.late_to_send
    then (failed deadline_exceeded, s)
    else read_reply x.late_after x.reply reject_identity (note request x.reply s)

-- `request_once`: after a transient failure a refusal no longer settles anything.
unfoldable pub request_once :
    Request → Exchange → State × Option Str → Ended Fields × (State × Option Str)
unfolding single_request
request_once request x (s, reject_identity) =
    let (ended, s') = single_request request x reject_identity s in
    elim ended [
      | transient category ↦ (transient category, (s', none))
      | failed e ↦ (failed e, (s', reject_identity))
      | returned fs ↦ (returned fs, (s', reject_identity))
    ]

-- `_request`, by which an ordinal is used up
unfoldable pub request :
    RetryPolicy → Request → Option Str → List Exchange → State → Outcome Fields × State
unfolding request_once attempt_from
request policy r reject_identity script s =
    let (outcome, (s', _)) =
      attempt_from Exchange.times (request_once r) (policy.max_attempts - 1) script
        (record s { request_ordinal = s.request_ordinal + 1 }, reject_identity) in
    (outcome, s')
