-- ===== src/Memory/Retain.antt =====
-- `retain` of src/engineering_memory/memory/hindsight/store.py.
use hermes_memory.Base.{
  ℕ, Bool, true, false, ◌&&◌, ◌||◌, Option, none, some, List, [], ◌∷◌, Str, Str-discrete, codes,
  str_eq, is_some, leb, ltb, length, if◌then◌else◌, ok, err, ◌>>=◌, ◌>>◌, require, translate,
  lookup, insert,
}
use hermes_memory.Json.{Json, null, bool, str, arr, obj, nil, cons, Fields, end, field, get}
use hermes_memory.Normalization.Provenance.{EnrichedConversation, enriched_document_id}
use hermes_memory.Memory.{
  oversized_request, invalid_acknowledgement, invalid_operation, extraction_failed, unavailable,
  deadline_exceeded, too_many_uncertain, not_encodable, Outcome, Wire,
}
use hermes_memory.Memory.Serialization.{item_for}
use hermes_memory.Memory.Retry.{RetryPolicy}
use hermes_memory.Memory.Requests.{retain_request, poll_request, Exchange, State, forget, request}

-- `result.get("status")` of an operation
pub data OperationStatus : Type 0 where
  completed unsuccessful unknown_operation waiting unusable : OperationStatus

unfoldable pub operation_status : Option Json → OperationStatus
operation_status (some (str s)) =
    if str_eq s (codes "completed")
    then completed
    else if str_eq s (codes "failed") || str_eq s (codes "cancelled")
    then unsuccessful
    else if str_eq s (codes "not_found")
    then unknown_operation
    else if str_eq s (codes "pending") || str_eq s (codes "processing")
    then waiting
    else unusable
operation_status v = unusable

abbrev pub is_true : Option Json → Bool
is_true (some (bool b)) = b
is_true v = false

abbrev pub is_text : Str → Option Json → Bool
is_text s (some (str t)) = str_eq t s
is_text s v = false

-- `result.get("operation_ids") in (None, [operation])`
abbrev pub is_absent_or_only : Str → Option Json → Bool
is_absent_or_only s none = true
is_absent_or_only s (some null) = true
is_absent_or_only s (some (arr (cons (str t) nil))) = str_eq t s
is_absent_or_only s v = false

unfoldable pub acknowledges : Str → Fields → Bool
acknowledges operation result =
    is_true (get (codes "success") result)
    && (is_true (get (codes "async") result)
        && (is_text operation (get (codes "operation_id") result)
            && is_absent_or_only operation (get (codes "operation_ids") result)))

-- The operation that a retain uses: the pending one, if it is of the same item, or a new one.
unfoldable pub is_replaying : Option (Str × Str) → Str → Bool
is_replaying none fingerprint = false
is_replaying (some (held, operation)) fingerprint = str_eq held fingerprint

unfoldable pub operation_for : Option (Str × Str) → Str → Str → Str
operation_for none fingerprint fresh = fresh
operation_for (some (held, operation)) fingerprint fresh =
    if str_eq held fingerprint then operation else fresh

unfoldable pub body_for : Json → Str → Json
body_for item operation = obj (
    field (codes "items") (arr (cons item nil))
      (field (codes "async") (bool true) (field (codes "operation_id") (str operation) end)))

unfoldable pub on_status :
    OperationStatus → Str → State → Outcome Unit × State → Outcome Unit × State
on_status completed id s later = (ok tt, forget id s)
on_status unsuccessful id s later = (err extraction_failed, forget id s)
on_status unknown_operation id s later = (err unavailable, s)
on_status waiting id s later = later
on_status unusable id s later = (err invalid_operation, s)

-- What follows a request for the state of the operation.
unfoldable pub after_poll :
    Str → Outcome Fields → State → Outcome Unit × State → Outcome Unit × State
unfolding operation_status on_status
after_poll id (err e) s later = (err e, s)
after_poll id (ok fs) s later = on_status (operation_status (get (codes "status") fs)) id s later

-- What follows the request that hands the item over.
unfoldable pub after_submit :
    Str → Outcome Fields → State → Outcome Unit × State → Outcome Unit × State
unfolding acknowledges
after_submit operation (err e) s polled = (err e, s)
after_submit operation (ok fs) s polled =
    if acknowledges operation fs then polled else (err invalid_acknowledgement, s)

module _ (w : Wire) (policy : RetryPolicy) (max_bytes : ℕ) where
  unfoldable pub encoded : Json → Outcome (List ℕ)
  encoded j = translate (λ _. not_encodable) (w.encode j)

  unfoldable pub fingerprint : Json → Outcome Str
  unfolding encoded
  fingerprint item = do b ← encoded item; ok (w.sha256 b)

  -- The loop on the operation. Each script is that of one more request.
  unfoldable pub poll : Str → Str → List (List Exchange) → State → Outcome Unit × State
  unfolding request
  poll id operation [] s =
      (err deadline_exceeded, (request policy (poll_request operation) none [] s).1)
  poll id operation (script ∷ scripts) s =
      let (result, s') = request policy (poll_request operation) none script s in
      let later = poll id operation scripts s' in after_poll id result s' later

  -- After the operation is noted as pending: the request, its acknowledgement, and the loop.
  unfoldable pub submit :
      Str
      → Str
      → List ℕ
      → Bool
      → List Exchange
      → List (List Exchange)
      → State
      → Outcome Unit × State
  unfolding request
  submit id operation body replaying script scripts s =
      let (result, s') =
        request policy (retain_request operation body) (if replaying then none else some id) script
          s in
      after_submit operation result s' (poll id operation scripts s')

  -- What is computed before anything changes: the fingerprint, the operation and the body.
  unfoldable pub plan : EnrichedConversation → Str → State → Outcome (Str × Str × List ℕ)
  unfolding item_for fingerprint operation_for body_for
  plan e fresh s = do
    item ← item_for w e
    print ← fingerprint item
    let operation =
        operation_for (lookup Str-discrete (enriched_document_id e) s.pending) print fresh
    body ← encoded (body_for item operation)
    require (leb (length body) max_bytes) oversized_request
    require
        (is_some (lookup Str-discrete (enriched_document_id e) s.pending)
          || ltb (length s.pending) 128)
        too_many_uncertain
    ok (print, operation, body)

  -- `fresh` is the `uuid4` that a new operation would be given.
  unfoldable pub retain :
      EnrichedConversation
      → Str
      → List Exchange
      → List (List Exchange)
      → State
      → Outcome Unit × State
  unfolding plan submit is_replaying
  retain e fresh script scripts s = elim (plan e fresh s) [
    | err x ↦ (err x, s)
    | ok (print, operation, body) ↦
        let id = enriched_document_id e in
        let replaying = is_replaying (lookup Str-discrete id s.pending) print in
        submit id operation body replaying script scripts
          (record s { pending = insert Str-discrete id (print, operation) s.pending })
  ]
