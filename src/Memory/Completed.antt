-- ===== src/Memory/Completed.antt =====
-- A retain that succeeds (src/engineering_memory/memory/hindsight/store.py).
use hermes_memory.Base.{
  ℕ, ◌+◌, ◌-◌, ◌≤◌, ◌≡◌, refl, sym, ap, subst, ◌∙◌, inl, inr, Bool, true, false, Option, none, some,
  List, [], ◌∷◌, Str, Str-discrete, codes, if◌then◌else◌, ok, err, Result-cases, Bool-cases, arith,
  Member, lookup, insert, lookup-remove,
}
use hermes_memory.Json.{Json, obj, Fields, get}
use hermes_memory.Normalization.Provenance.{EnrichedConversation, enriched_document_id}
use hermes_memory.Memory.{Outcome, Wire}
use hermes_memory.Memory.Retry.{returned, RetryPolicy, attempt_from, outcome_of, attempt_from-ind}
use hermes_memory.Memory.Requests.{
  Request, retain_request, poll_request, Reply, response, transport_error, Exchange, Entry, State,
  note, is_success, read_response, read_reply, single_request, request_once, request,
}
use hermes_memory.Memory.Retain.{
  OperationStatus, completed, unsuccessful, unknown_operation, waiting, unusable, operation_status,
  acknowledges, on_status, after_poll, after_submit, is_replaying, poll, submit, plan, retain,
}
use hermes_memory.Memory.Attempts.{entry, Tried, stopped, answered, again, request-Tried}

-- The latest request was this one, and was answered with these fields.
pub record Answered (r : Request) (fs : Fields) (log : List Entry) : Type 0 where
  pub status : ℕ
  pub before : List Entry
  pub latest : log ≡ entry r (response status (some (obj fs))) ∷ before
  pub successful : is_success status ≡ true

module _ (r : Request) where
  read_response-returns :
      (status : ℕ) (body : Option Json) (id : Option Str) (s : State) (fs : Fields)
      → (read_response status body id s).0 ≡ returned fs
      → (body ≡ some (obj fs))
        × (is_success status ≡ true)
        × ((read_response status body id s).1 ≡ s)
  unfolding read_response
  read_response-returns status body id s fs h = (ground arith, ground arith, ground arith)

  read_reply-returns :
      (late : Bool) (reply : Reply) (id : Option Str) (s : State) (fs : Fields)
      → (read_reply late reply id s).0 ≡ returned fs
      → (status : ℕ) × (reply ≡ response status (some (obj fs)))
        × (is_success status ≡ true)
        × ((read_reply late reply id s).1 ≡ s)
  unfolding read_reply
  read_reply-returns true (response status body) id s fs h = absurd (ground arith)
  read_reply-returns false (response status body) id s fs h =
      let (same, good, kept) = read_response-returns status body id s fs h in
      (status, ap (response status) same, good, kept)
  read_reply-returns late (transport_error e) id s fs h = absurd (ground arith)

  once_answers :
      (x : Exchange) (s : State) (id : Option Str) (fs : Fields)
      → (request_once r x (s, id)).0 ≡ returned fs
      → Answered r fs (request_once r x (s, id)).1.0.log
  unfolding request_once single_request
  once_answers x s id fs h = elim (Bool-cases x.late_to_send) [
    | inl late ↦ absurd (ground arith)
    | inr timely ↦
        let noted = note r x.reply s in
        let (status, same, good, kept) =
          read_reply-returns x.late_after x.reply id noted fs (ground arith) in
        let logs : (request_once r x (s, id)).1.0.log ≡ entry r x.reply ∷ s.log = ground arith in
        record {
          status = status;
          before = s.log;
          latest = logs ∙ ap (λ p. entry r p ∷ s.log) same;
          successful = good;
        }
  ]

  abbrev AnsweredIf : ℕ → State × Option Str → Outcome Fields × (State × Option Str) → Type 0
  AnsweredIf n s (outcome, (s', _)) = (fs : Fields) → outcome ≡ ok fs → Answered r fs s'.log

  run-Answered :
      (left : ℕ) (script : List Exchange) (s : State × Option Str)
      → AnsweredIf left s (attempt_from Exchange.times (request_once r) left script s)
  run-Answered =
      attempt_from-ind Exchange.times (request_once r) AnsweredIf
        (λ n s fs h. absurd (ground arith)) ends (λ n x s c end missed later. later)
    where
      ends :
          (n : ℕ) (x : Exchange) (s : State × Option Str)
          → AnsweredIf n s (outcome_of (request_once r x s).0, (request_once r x s).1)
      ends n x (s, id) fs h = once_answers x s id fs (ground arith)

  request-Answered :
      (policy : RetryPolicy) (id : Option Str) (script : List Exchange) (s : State) (fs : Fields)
      → (request policy r id script s).0 ≡ ok fs
      → Answered r fs (request policy r id script s).1.log
  unfolding request
  request-Answered policy id script s fs h =
      run-Answered (policy.max_attempts - 1) script
        (record s { request_ordinal = s.request_ordinal + 1 }, id) fs h

Tried-Member :
    (r : Request) (n : ℕ) (log new : List Entry) (e : Entry)
    → Tried r n log new
    → Member e log
    → Member e new
Tried-Member r n log new e (stopped _ _) m = m
Tried-Member r n log new e (answered _ reply _) m = inr m
Tried-Member r n log new e (again m' reply _ _ worth tries) m =
    Tried-Member r m' _ new e tries (inr m)

-- The engine has said that the operation is completed, and it is no longer pending.
pub record Done (id operation : Str) (s : State) : Type 0 where
  pub result : Fields
  pub told : Answered (poll_request operation) result s.log
  pub finished : operation_status (get (codes "status") result) ≡ completed
  pub settled : lookup Str-discrete id s.pending ≡ none

abbrev Grows : State → State → Type 0
Grows s s' = (e : Entry) → Member e s.log → Member e s'.log

abbrev Finishes : Str → Str → State → Outcome Unit × State → Type 0
Finishes id operation s (outcome, s') = outcome ≡ ok tt → Done id operation s' × Grows s s'

on_status-Finishes :
    (status : OperationStatus) (id operation : Str) (fs : Fields) (s s' : State)
    (later : Outcome Unit × State)
    → Answered (poll_request operation) fs s'.log
    → operation_status (get (codes "status") fs) ≡ status
    → Grows s s'
    → Finishes id operation s later
    → Finishes id operation s (on_status status id s' later)
unfolding on_status
on_status-Finishes completed id operation fs s s' later told status grows finishes h = (
  record {
    result = fs;
    told = told;
    finished = status;
    settled = ground (arith, lookup-remove Str-discrete id id s'.pending);
  },
  grows,
)
on_status-Finishes unsuccessful id operation fs s s' later told status grows finishes h =
    absurd (ground arith)
on_status-Finishes unknown_operation id operation fs s s' later told status grows finishes h =
    absurd (ground arith)
on_status-Finishes waiting id operation fs s s' later told status grows finishes h = finishes h
on_status-Finishes unusable id operation fs s s' later told status grows finishes h =
    absurd (ground arith)

module _ (w : Wire) (policy : RetryPolicy) (max_bytes : ℕ)
    (some_attempt : 1 ≤ policy.max_attempts) where
  request-Grows :
      (r : Request) (id : Option Str) (script : List Exchange) (s : State)
      → Grows s (request policy r id script s).1
  request-Grows r id script s e =
      Tried-Member r policy.max_attempts s.log _ e
        (request-Tried policy r id script s some_attempt).0

  after_poll-Finishes :
      (id operation : Str) (result : Outcome Fields) (s s' : State) (later : Outcome Unit × State)
      → ((fs : Fields) → result ≡ ok fs → Answered (poll_request operation) fs s'.log)
      → Grows s s'
      → Finishes id operation s later
      → Finishes id operation s (after_poll id result s' later)
  unfolding after_poll
  after_poll-Finishes id operation (err e) s s' later told grows finishes h = absurd (ground arith)
  after_poll-Finishes id operation (ok fs) s s' later told grows finishes h =
      on_status-Finishes _ id operation fs s s' later (told fs refl) refl grows finishes h

  poll-Finishes :
      (id operation : Str) (scripts : List (List Exchange)) (s : State)
      → Finishes id operation s (poll w policy max_bytes id operation scripts s)
  unfolding poll
  poll-Finishes id operation [] s h = absurd (ground arith)
  poll-Finishes id operation (script ∷ scripts) s h =
      let r = poll_request operation in
      let (result, s') = request policy r none script s in
      let later = poll w policy max_bytes id operation scripts s' in
      let grows = request-Grows r none script s in
      after_poll-Finishes id operation result s s' later (request-Answered r policy none script s)
        grows
        (λ fine.
          let (done, more) = poll-Finishes id operation scripts s' fine in
          (done, λ e m. more e (grows e m)))
        h

  after_submit-ok :
      (operation : Str) (result : Outcome Fields) (s : State) (polled : Outcome Unit × State)
      → (after_submit operation result s polled).0 ≡ ok tt
      → (ack : Fields) × (result ≡ ok ack)
        × (acknowledges operation ack ≡ true)
        × (after_submit operation result s polled ≡ polled)
  unfolding after_submit
  after_submit-ok operation (err e) s polled h = absurd (ground arith)
  after_submit-ok operation (ok ack) s polled h = elim (Bool-cases (acknowledges operation ack)) [
    | inl accepted ↦ (ack, refl, accepted, rw accepted refl)
    | inr unaccepted ↦ absurd (ground arith)
  ]

  submit-Done :
      (id operation : Str) (body : List ℕ) (replaying : Bool) (script : List Exchange)
      (scripts : List (List Exchange)) (s : State)
      → let (outcome, s') =
          submit w policy max_bytes id operation body replaying script scripts s in
        outcome ≡ ok tt
        → (status : ℕ) × (ack : Fields) × (acknowledges operation ack ≡ true)
          × Member (entry (retain_request operation body) (response status (some (obj ack)))) s'.log
          × Done id operation s'
  unfolding submit
  submit-Done id operation body replaying script scripts s h =
      let r = retain_request operation body in
      let who = if replaying then none else some id in
      let (result, s1) = request policy r who script s in
      let polled = poll w policy max_bytes id operation scripts s1 in
      let (ack, handed, accepted, same) = after_submit-ok operation result s1 polled h in
      let told = request-Answered r policy who script s ack handed in
      let (done, grows) = poll-Finishes id operation scripts s1 (ap (λ x. x.0) (sym same) ∙ h) in
      let sent = entry r (response told.status (some (obj ack))) in
      let posted = grows sent (subst (Member sent) (sym told.latest) (inl refl)) in
      (
        told.status,
        ack,
        accepted,
        subst (λ (x : Outcome Unit × State). Member sent x.1.log) (sym same) posted,
        subst (λ (x : Outcome Unit × State). Done id operation x.1) (sym same) done,
      )

  -- A retain that returns has handed over the item of an operation, which the engine acknowledged,
  -- and has then been told that this operation is completed, by a successful answer to its latest
  -- request; the operation is no longer pending. The policy is assumed to allow an attempt.
  pub retain-Done :
      (e : EnrichedConversation) (fresh : Str) (script : List Exchange)
      (scripts : List (List Exchange)) (s : State)
      → (retain w policy max_bytes e fresh script scripts s).0 ≡ ok tt
      → let s' = (retain w policy max_bytes e fresh script scripts s).1 in
        (print : Str) × (operation : Str) × (body : List ℕ) × (status : ℕ) × (ack : Fields) × (plan
            w policy max_bytes e fresh s
          ≡ ok (print, operation, body))
        × (acknowledges operation ack ≡ true)
        × Member (entry (retain_request operation body) (response status (some (obj ack)))) s'.log
        × Done (enriched_document_id e) operation s'
  unfolding retain
  retain-Done e fresh script scripts s h = elim (Result-cases (plan w policy max_bytes e fresh s)) [
    | inr (x, unplanned) ↦ absurd (ground arith)
    | inl ((print, operation, body), planned) ↦
        let id = enriched_document_id e in
        let replaying = is_replaying (lookup Str-discrete id s.pending) print in
        let noted = record s { pending = insert Str-discrete id (print, operation) s.pending } in
        let same : submit w policy max_bytes id operation body replaying script scripts noted
            ≡ retain w policy max_bytes e fresh script scripts s =
          rw (retain, planned) refl in
        let (status, ack, accepted, posted, done) =
          submit-Done id operation body replaying script scripts noted (ap (λ x. x.0) same ∙ h) in
        let ended = ap (λ x. x.1) same in
        (
          print,
          operation,
          body,
          status,
          ack,
          planned,
          accepted,
          subst
              (λ (t : State).
                Member (entry (retain_request operation body) (response status (some (obj ack))))
                  t.log)
              ended posted,
          subst (Done id operation) ended done,
        )
  ]
