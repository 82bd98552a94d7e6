-- ===== src/Memory/Tests.antt =====
-- A store of a few requests, with simple functions for the libraries.
use hermes_memory.Base.{
  ℕ, ◌+◌, ◌≤◌, ◌≡◌, ◌≢◌, refl, true, false, none, some, List, [], ◌∷◌, Str, codes, strip, lstrip,
  rstrip, ok, length, Member, map, arith, Str-discrete, ℕ_discrete, lookup, insert, remove,
}
use hermes_memory.Json.{bool, str, arr, obj, nil, cons, Items, items, Fields, end, field, get}
use hermes_memory.Normalization.Values.{text, is_space, is_surrogate}
use hermes_memory.Normalization.Conversation.{document_id}
use hermes_memory.Normalization.Tags.{project_tag, render}
use hermes_memory.Normalization.Provenance.{EnrichedConversation, enriched_document_id}
use hermes_memory.Normalization.Enrichment.{enriched_of, provenance_of}
use hermes_memory.Normalization.Tests.{asked, at_noon, importer}
use hermes_memory.Memory.{RecallResult, Wire}
use hermes_memory.Memory.Serialization.{
  item_for, has_content, decode_result, check_tags, fact_tags, strings, named_document, read_model,
  new_recall_result,
}
use hermes_memory.Memory.Retry.{transient_transport, RetryPolicy, attempt_from}
use hermes_memory.Memory.Requests.{
  retain_request, poll_request, recall_request, Reply, response, transport_error, Exchange, State,
  read_response, is_retryable, is_success, read_reply, single_request, request_once, request,
}
use hermes_memory.Memory.Retain.{
  acknowledges, operation_status, on_status, after_poll, after_submit, is_replaying, operation_for,
  body_for, encoded, fingerprint, poll, submit, plan, retain,
}
use hermes_memory.Memory.Recall.{
  recall, recall_bytes, recall_body, check_limit, facts_of, decode_all, limited, read_results,
}
use hermes_memory.Memory.Attempts.{entry, Tried, request-Tried}
use hermes_memory.Memory.Pending.{retain-bounded}
use hermes_memory.Memory.Repeats.{retain-repeats, retain-others}
use hermes_memory.Memory.Completed.{Done, retain-Done}
use hermes_memory.Memory.Recalled.{VouchedBy, kept, recall-Vouched}

abbrev enriched : EnrichedConversation
enriched = enriched_of asked (codes "orchard") importer at_noon

abbrev wire : Wire
wire = record {
  encode = λ j. ok (codes "bytes");
  sha256 = λ b. b;
  conversation_json = λ c. codes "{}";
  provenance_json = λ p. codes "{}";
  isoformat = λ t. codes "2024-03-09T12:00:00+00:00";
  read_provenance = λ s. some (provenance_of asked (codes "orchard") importer at_noon);
}

abbrev policy : RetryPolicy
policy = record { max_attempts = 4; initial = 1; maximum = 8; jitter = 1 }

abbrev in_time : Reply → Exchange
in_time r = record {
  times = record { late = false; no_time_to_wait = false };
  late_to_send = false;
  reply = r;
  late_after = false;
}

abbrev timed_out : Reply
timed_out = transport_error (record { is_timeout = true; causes = [] })

abbrev new_store : State
new_store = record { pending = []; request_ordinal = 0; log = [] }

abbrev accepted : Fields
accepted =
    field (codes "success") (bool true)
      (field (codes "async") (bool true) (field (codes "operation_id") (str (codes "op-1")) end))

abbrev finished : Fields
finished = field (codes "status") (str (codes "completed")) end

abbrev answer : Fields → Reply
answer fs = response 200 (some (obj fs))

request-Tried_example :
    let s' =
      (request policy
        (poll_request (codes "op-1"))
        none
        (in_time timed_out ∷ in_time (answer finished) ∷ [])
        new_store).1 in
    Tried (poll_request (codes "op-1")) 4 [] s'.log × (length s'.log ≤ 0 + 4)
request-Tried_example =
    request-Tried policy (poll_request (codes "op-1")) none
      (in_time timed_out ∷ in_time (answer finished) ∷ []) new_store (omega arith)

-- The timeout and the answer.
sends_twice :
    (request policy
      (poll_request (codes "op-1"))
      none
      (in_time timed_out ∷ in_time (answer finished) ∷ [])
      new_store).1.log
    ≡ entry (poll_request (codes "op-1")) (answer finished)
      ∷ entry (poll_request (codes "op-1")) timed_out
      ∷ []
unfolding request attempt_from request_once single_request read_reply read_response
    transient_transport is_retryable is_success
sends_twice = refl

retain-bounded_example :
    length
      (retain wire policy 1000 enriched
        (codes "op-1")
        (in_time timed_out ∷ [])
        []
        new_store).1.pending
    ≤ 128
retain-bounded_example =
    retain-bounded wire policy 1000 enriched (codes "op-1") (in_time timed_out ∷ []) [] new_store
      (omega arith)

retain-repeats_example :
    let s' =
      (retain wire policy 1000 enriched (codes "op-1") (in_time timed_out ∷ []) [] new_store).1 in
    (print : Str) × (operation : Str) × (body : List ℕ) × (lookup Str-discrete
        (enriched_document_id enriched)
        s'.pending
      ≡ some (print, operation))
    × (plan wire policy 1000 enriched (codes "op-1") new_store ≡ ok (print, operation, body))
    × (plan wire policy 1000 enriched (codes "op-2") s' ≡ ok (print, operation, body))
unfolding retain plan item_for has_content fingerprint encoded operation_for body_for submit
    after_submit request attempt_from request_once single_request read_reply transient_transport
    lookup insert is_replaying is_space strip lstrip rstrip document_id Str-discrete ℕ_discrete
retain-repeats_example =
    retain-repeats wire policy 1000 enriched (codes "op-1") (codes "op-2") (in_time timed_out ∷ [])
      [] new_store refl

another-document : enriched_document_id enriched ≢ codes "chatgpt:other"
unfolding document_id
another-document same = ground arith

retain-others_example :
    lookup Str-discrete
      (codes "chatgpt:other")
      (retain wire policy 1000 enriched
        (codes "op-1")
        (in_time timed_out ∷ [])
        []
        new_store).1.pending
    ≡ none
unfolding lookup
retain-others_example =
    retain-others wire policy 1000 enriched (codes "op-1") (in_time timed_out ∷ []) [] new_store
      (codes "chatgpt:other") another-document

retain-Done_example :
    let s' =
      (retain wire policy 1000 enriched
        (codes "op-1")
        (in_time (answer accepted) ∷ [])
        ((in_time (answer finished) ∷ []) ∷ [])
        new_store).1 in
    (print : Str) × (operation : Str) × (body : List ℕ) × (status : ℕ) × (ack : Fields) × (plan wire
        policy 1000 enriched
        (codes "op-1")
        new_store
      ≡ ok (print, operation, body))
    × (acknowledges operation ack ≡ true)
    × Member (entry (retain_request operation body) (response status (some (obj ack)))) s'.log
    × Done (enriched_document_id enriched) operation s'
unfolding retain plan item_for has_content fingerprint encoded operation_for body_for submit
    after_submit request attempt_from request_once single_request read_reply read_response
    transient_transport lookup insert remove is_replaying is_space strip lstrip rstrip document_id
    Str-discrete ℕ_discrete is_retryable is_success poll after_poll on_status operation_status
    acknowledges get
retain-Done_example =
    retain-Done wire policy 1000 (omega arith) enriched (codes "op-1")
      (in_time (answer accepted) ∷ []) ((in_time (answer finished) ∷ []) ∷ []) new_store refl

abbrev fact : Fields
fact = field (codes "text") (str (codes "The key was rotated.")) (
    field (codes "document_id") (str (codes "chatgpt:c:1")) (
      field (codes "tags") (arr (cons (str (codes "project:orchard")) nil)) (
        field (codes "metadata")
          (obj (
            field (codes "engineering_memory.version") (str (codes "1"))
              (field (codes "engineering_memory.provenance") (str (codes "{}")) end)))
          end)))

abbrev recalled : RecallResult
recalled = record {
  content = codes "The key was rotated.";
  provenance = provenance_of asked (codes "orchard") importer at_noon;
}

abbrev facts : Items
facts = cons (obj fact) (cons (obj fact) nil)

abbrev answered_facts : List Exchange
answered_facts = in_time (answer (field (codes "results") (arr facts) end)) ∷ []

recall-Vouched_example :
    (body : List ℕ) × (answer : Fields) × (facts : Items) × (wire.encode
        (recall_body (codes "key") (project_tag (codes "orchard") ∷ []))
      ≡ ok body)
    × ((request policy (recall_request body) none answered_facts new_store).0 ≡ ok answer)
    × (get (codes "results") answer ≡ some (arr facts))
    × VouchedBy wire (map render (project_tag (codes "orchard") ∷ [])) (items facts) (recalled ∷ [])
    × (1 ≡ kept (some 1) (length (items facts)))
unfolding recall recall_bytes recall_body check_limit facts_of decode_all limited read_results
    decode_result check_tags fact_tags strings named_document read_model new_recall_result text
    is_surrogate request attempt_from request_once single_request read_reply read_response
    is_retryable is_success get render is_space strip lstrip rstrip Str-discrete ℕ_discrete
recall-Vouched_example =
    recall-Vouched wire policy (codes "key") (project_tag (codes "orchard") ∷ []) (some 1)
      answered_facts new_store (recalled ∷ []) refl
