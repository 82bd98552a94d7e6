-- ===== src/Memory/Pending.antt =====
-- The pending operations of a retain (src/engineering_memory/memory/hindsight/store.py).
use hermes_memory.Base.{
  ℕ, ◌≤◌, ◌≡◌, refl, sym, ap, subst, ◌∙◌, ◌⊎◌, inl, inr, Bool, true, false, ◌||◌, Option, none,
  some, List, [], ◌∷◌, Str, Str-discrete, is_some, ltb, length, leb, if◌then◌else◌, ok, err,
  require, >>=-eq-ok, Result-cases, Option-cases, arith, lookup, insert, remove, length-insert,
  length-insert_known, length-remove, ltb→lt,
}
use hermes_memory.Json.{Json, Fields}
use hermes_memory.Normalization.Provenance.{EnrichedConversation, enriched_document_id}
use hermes_memory.Memory.{refused, extraction_failed, invalid_acknowledgement, Outcome, Wire}
use hermes_memory.Memory.Serialization.{item_for}
use hermes_memory.Memory.Retry.{RetryPolicy}
use hermes_memory.Memory.Requests.{Request, retain_request, poll_request, Exchange, State, request}
use hermes_memory.Memory.Retain.{
  encoded, OperationStatus, completed, unsuccessful, unknown_operation, waiting, unusable,
  on_status, after_poll, after_submit, operation_for, is_replaying, body_for, fingerprint, poll,
  submit, plan, retain, acknowledges,
}
use hermes_memory.Memory.Attempts.{Settles, request-Settles}

-- The engine has said what became of the operation, or refused it.
abbrev pub is_decided : Outcome Unit → Bool
is_decided (ok _) = true
is_decided (err extraction_failed) = true
is_decided (err refused) = true
is_decided (err e) = false

abbrev Holds : Str → State → Outcome Unit × State → Type 0
Holds id s (outcome, s') =
    (s'.pending ≡ s.pending)
    ⊎ ((s'.pending ≡ remove Str-discrete id s.pending) × (is_decided outcome ≡ true))

on_status-Holds :
    (status : OperationStatus) (id : Str) (s s' : State) (later : Outcome Unit × State)
    → s'.pending ≡ s.pending
    → Holds id s later
    → Holds id s (on_status status id s' later)
unfolding on_status
on_status-Holds completed id s s' later same held = inr (ap (remove Str-discrete id) same, refl)
on_status-Holds unsuccessful id s s' later same held = inr (ap (remove Str-discrete id) same, refl)
on_status-Holds unknown_operation id s s' later same held = inl same
on_status-Holds waiting id s s' later same held = held
on_status-Holds unusable id s s' later same held = inl same

after_poll-Holds :
    (id : Str) (result : Outcome Fields) (s s' : State) (later : Outcome Unit × State)
    → s'.pending ≡ s.pending
    → Holds id s later
    → Holds id s (after_poll id result s' later)
unfolding after_poll
after_poll-Holds id (err e) s s' later same held = inl same
after_poll-Holds id (ok fs) s s' later same held = on_status-Holds _ id s s' later same held

Holds-before :
    (id : Str) (s s' : State) (end : Outcome Unit × State)
    → s'.pending ≡ s.pending
    → Holds id s' end
    → Holds id s end
Holds-before id s s' end same (inl kept) = inl (kept ∙ same)
Holds-before id s s' end same (inr (dropped, decided)) =
    inr (dropped ∙ ap (remove Str-discrete id) same, decided)

after_submit-Holds :
    (r : Request) (id operation : Str) (who : Option Str) (result : Outcome Fields) (s s' : State)
    (polled : Outcome Unit × State)
    → ((i : Str) → who ≡ some i → i ≡ id)
    → Settles r who s result s'
    → Holds id s' polled
    → Holds id s (after_submit operation result s' polled)
unfolding after_submit
after_submit-Holds r id operation who (err e) s s' polled own (inl same) held = inl same
after_submit-Holds r id operation who (err e) s s' polled own (inr (i, named, dropped, out)) held =
    let mine = own i named in
    inr (dropped ∙ ap (λ j. remove Str-discrete j s.pending) mine, ground arith)
after_submit-Holds r id operation who (ok fs) s s' polled own (inl same) held =
    elim (acknowledges operation fs)
      as (λ b. Holds id s (if b then polled else (err invalid_acknowledgement, s'))) [
        | true ↦ Holds-before id s s' polled same held
        | false ↦ inl same
      ]
after_submit-Holds r id operation who (ok fs) s s' polled own (inr (i, named, dropped, out)) held =
    absurd (ground arith)

module _ (w : Wire) (policy : RetryPolicy) (max_bytes : ℕ) where
  request-keeps :
      (r : Request) (script : List Exchange) (s : State)
      → (request policy r none script s).1.pending ≡ s.pending
  request-keeps r script s = elim (request-Settles policy r none script s) [
    | inl same ↦ same
    | inr (i, named, _, _) ↦ absurd (ground arith)
  ]

  poll-Holds :
      (id operation : Str) (scripts : List (List Exchange)) (s : State)
      → Holds id s (poll w policy max_bytes id operation scripts s)
  unfolding poll
  poll-Holds id operation [] s = inl (request-keeps (poll_request operation) [] s)
  poll-Holds id operation (script ∷ scripts) s =
      let (result, s') = request policy (poll_request operation) none script s in
      let same = request-keeps (poll_request operation) script s in
      let later = poll w policy max_bytes id operation scripts s' in
      after_poll-Holds id result s s' later same
        (Holds-before id s s' later same (poll-Holds id operation scripts s'))

  submit-Holds :
      (id operation : Str) (body : List ℕ) (replaying : Bool) (script : List Exchange)
      (scripts : List (List Exchange)) (s : State)
      → Holds id s (submit w policy max_bytes id operation body replaying script scripts s)
  unfolding submit
  submit-Holds id operation body replaying script scripts s =
      let r = retain_request operation body in
      let who = if replaying then none else some id in
      let (result, s') = request policy r who script s in
      after_submit-Holds r id operation who result s s'
        (poll w policy max_bytes id operation scripts s') (λ i named. ground arith)
        (request-Settles policy r who script s) (poll-Holds id operation scripts s')

  -- What `retain` leaves of the pending operations.
  abbrev pub Kept : Str → Str × Str → State → Outcome Unit × State → Type 0
  Kept id noted s (outcome, s') =
      (s'.pending ≡ insert Str-discrete id noted s.pending)
      ⊎ ((s'.pending ≡ remove Str-discrete id (insert Str-discrete id noted s.pending))
          × (is_decided outcome ≡ true))

  pub retain-Kept :
      (e : EnrichedConversation) (fresh print operation : Str) (body : List ℕ)
      (script : List Exchange) (scripts : List (List Exchange)) (s : State)
      → plan w policy max_bytes e fresh s ≡ ok (print, operation, body)
      → Kept
          (enriched_document_id e)
          (print, operation)
          s
          (retain w policy max_bytes e fresh script scripts s)
  unfolding retain
  retain-Kept e fresh print operation body script scripts s planned =
      let id = enriched_document_id e in
      let replaying = is_replaying (lookup Str-discrete id s.pending) print in
      let noted = record s { pending = insert Str-discrete id (print, operation) s.pending } in
      let held = submit-Holds id operation body replaying script scripts noted in
      let same : submit w policy max_bytes id operation body replaying script scripts noted
          ≡ retain w policy max_bytes e fresh script scripts s =
        rw (retain, planned) refl in
      subst (Kept id (print, operation) s) same held

  -- What `plan` has made sure of.
  pub plan_parts :
      (e : EnrichedConversation) (fresh print operation : Str) (body : List ℕ) (s : State)
      → plan w policy max_bytes e fresh s ≡ ok (print, operation, body)
      → let held = lookup Str-discrete (enriched_document_id e) s.pending in
        (item : Json) × (item_for w e ≡ ok item)
        × (fingerprint w policy max_bytes item ≡ ok print)
        × (operation ≡ operation_for held print fresh)
        × (encoded w policy max_bytes (body_for item operation) ≡ ok body)
        × (leb (length body) max_bytes ≡ true)
        × ((is_some held || ltb (length s.pending) 128) ≡ true)
  unfolding plan
  plan_parts e fresh print operation body s planned =
      let (item, made, h1) = >>=-eq-ok (item_for w e) _ planned in
      let (print', printed, h2) = >>=-eq-ok (fingerprint w policy max_bytes item) _ h1 in
      let held = lookup Str-discrete (enriched_document_id e) s.pending in
      let operation' = operation_for held print' fresh in
      let (body', written, h3) =
        >>=-eq-ok (encoded w policy max_bytes (body_for item operation')) _ h2 in
      let (_, small, h4) = >>=-eq-ok (require (leb (length body') max_bytes) _) _ h3 in
      let (_, room, h5) = >>=-eq-ok (require (is_some held || ltb (length s.pending) 128) _) _ h4 in
      let same_print : print' ≡ print = ground arith in
      let same_operation : operation' ≡ operation = ground arith in
      let same_body : body' ≡ body = ground arith in
      (
        item,
        made,
        printed ∙ ap ok same_print,
        sym same_operation ∙ ap (λ p. operation_for held p fresh) same_print,
        ap (λ o. encoded w policy max_bytes (body_for item o)) (sym same_operation)
            ∙ written
            ∙ ap ok same_body,
        ap (λ b. leb (length b) max_bytes) (sym same_body) ∙ ground arith,
        ground arith,
      )

  plan_size :
      (e : EnrichedConversation) (fresh print operation : Str) (body : List ℕ) (s : State)
      → plan w policy max_bytes e fresh s ≡ ok (print, operation, body)
      → length s.pending ≤ 128
      → length (insert Str-discrete (enriched_document_id e) (print, operation) s.pending) ≤ 128
  plan_size e fresh print operation body s planned few =
      let id = enriched_document_id e in
      let (_, _, _, _, _, _, room) = plan_parts e fresh print operation body s planned in
      elim (Option-cases (lookup Str-discrete id s.pending)) [
        | inl absent ↦
            let below = ltb→lt (length s.pending) 128 (ground arith) in
            omega (arith, length-insert Str-discrete id (print, operation) s.pending, below)
        | inr (held, found) ↦
            let same =
              length-insert_known Str-discrete id (print, operation) held s.pending found in
            omega (arith, same, few)
      ]

  -- Never more than 128 operations are pending: a retain that starts with no more ends with no more,
  -- whatever the engine answers.
  pub retain-bounded :
      (e : EnrichedConversation) (fresh : Str) (script : List Exchange)
      (scripts : List (List Exchange)) (s : State)
      → length s.pending ≤ 128
      → length (retain w policy max_bytes e fresh script scripts s).1.pending ≤ 128
  unfolding retain
  retain-bounded e fresh script scripts s few =
      elim (Result-cases (plan w policy max_bytes e fresh s)) [
        | inr (x, failed) ↦ rw (retain, failed) few
        | inl ((print, operation, body), planned) ↦
            let size = plan_size e fresh print operation body s planned few in
            elim (retain-Kept e fresh print operation body script scripts s planned) [
              | inl kept ↦ rw kept size
              | inr (dropped, _) ↦
                  let id = enriched_document_id e in
                  let shorter =
                    length-remove Str-discrete id
                      (insert Str-discrete id (print, operation) s.pending) in
                  rw dropped (omega (arith, shorter, size))
            ]
      ]
