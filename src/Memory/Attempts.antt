-- ===== src/Memory/Attempts.antt =====
-- How often a request is sent (src/engineering_memory/memory/hindsight/retry.py and store.py).
use hermes_memory.Base.{
  ℕ, suc, ◌+◌, ◌-◌, ◌≤◌, ◌≡◌, ◌≢◌, refl, sym, ap, subst, ◌∙◌, ◌⊎◌, inl, inr, Bool, true, false, not,
  ◌&&◌, Option, none, some, List, ◌∷◌, Str, Str-discrete, length, err, Bool-cases, arith, remove,
}
use hermes_memory.Json.{Fields}
use hermes_memory.Memory.{Outcome, refused, deadline_exceeded}
use hermes_memory.Memory.Retry.{
  Category, transient_transport, Ended, transient, failed, RetryPolicy, attempt_from, outcome_of,
  attempt_from-ind,
}
use hermes_memory.Memory.Requests.{
  Request, Reply, response, transport_error, Exchange, Entry, State, drop_rejected, is_retryable,
  is_success, read_response, read_reply, single_request, request_once, request,
}

-- A reply that is worth another attempt: a timeout or a reset, or one of four statuses.
abbrev pub is_transient : Reply → Bool
is_transient (response status body) = is_retryable status
is_transient (transport_error e) = elim (transient_transport e) [ none ↦ false | some c ↦ true ]

abbrev pub entry : Request → Reply → Entry
entry r reply = record { request = r; reply = reply }

-- A request that is sent so many times at most, and again only where the reply was transient; from
-- one log to another, latest first.
pub data Tried (r : Request) : ℕ → List Entry → List Entry → Type 0 where
  stopped : (n : ℕ) (log : List Entry) → Tried r n log log
  answered : (n : ℕ) (reply : Reply) (log : List Entry) → Tried r (suc n) log (entry r reply ∷ log)
  again :
      (n : ℕ) (reply : Reply) (log new : List Entry)
      → is_transient reply ≡ true
      → Tried r n (entry r reply ∷ log) new
      → Tried r (suc n) log new

-- A refusal in time, which no retry follows.
abbrev refuses : Exchange → Bool
refuses x =
    not x.late_to_send
    && (not x.late_after && elim x.reply [
      | response status body ↦ not (is_retryable status) && not (is_success status)
      | transport_error e ↦ false
    ])

abbrev NotTransient : Ended Fields → Type 0
NotTransient e = (c : Category) → e ≢ transient c

module _ (r : Request) where
  once_sends :
      (x : Exchange) (s : State) (id : Option Str)
      → let (ended, (s', _)) = request_once r x (s, id) in
        ((s'.log ≡ s.log) × NotTransient ended)
        ⊎ ((s'.log ≡ entry r x.reply ∷ s.log)
            × ((c : Category) → ended ≡ transient c → is_transient x.reply ≡ true))
  unfolding request_once single_request read_reply read_response drop_rejected
  once_sends x s id = elim (Bool-cases x.late_to_send) [
    | inl late ↦ inl (ground arith, λ c h. ground arith)
    | inr timely ↦ inr (ground arith, λ c h. ground arith)
  ]

  once_settles :
      (x : Exchange) (s : State) (id : Option Str)
      → let (ended, (s', id')) = request_once r x (s, id) in
        ((s'.pending ≡ s.pending) × ((c : Category) → ended ≡ transient c → id' ≡ none))
        ⊎ ((i : Str) × (id ≡ some i)
            × (s'.pending ≡ remove Str-discrete i s.pending)
            × (ended ≡ failed refused))
  unfolding request_once single_request read_reply read_response drop_rejected
  once_settles x s none = inl (ground arith, λ c h. ground arith)
  once_settles x s (some i) = elim (Bool-cases (refuses x)) [
    | inl refused' ↦ inr (i, refl, ground arith, ground arith)
    | inr spared ↦ inl (ground arith, λ c h. ground arith)
  ]

  -- What becomes of the pending operations: nothing, or a refused one is dropped.
  abbrev pub Settles : Option Str → State → Outcome Fields → State → Type 0
  Settles id s outcome s' =
      (s'.pending ≡ s.pending)
      ⊎ ((i : Str) × (id ≡ some i)
          × (s'.pending ≡ remove Str-discrete i s.pending)
          × (outcome ≡ err refused))

  abbrev After : ℕ → State × Option Str → Outcome Fields × (State × Option Str) → Type 0
  After n (s, id) (outcome, (s', _)) = Tried r (suc n) s.log s'.log × Settles id s outcome s'

  run-After :
      (left : ℕ) (script : List Exchange) (s : State × Option Str)
      → After left s (attempt_from Exchange.times (request_once r) left script s)
  run-After = attempt_from-ind Exchange.times (request_once r) After late ends goes
    where
      late : (n : ℕ) (s : State × Option Str) → After n s (err deadline_exceeded, s)
      late n (s, id) = (stopped _ _, inl refl)

      ends :
          (n : ℕ) (x : Exchange) (s : State × Option Str)
          → After n s (outcome_of (request_once r x s).0, (request_once r x s).1)
      ends n x (s, id) = (
        elim (once_sends x s id) [
          | inl (same, _) ↦ subst (Tried r (suc n) s.log) (sym same) (stopped _ _)
          | inr (longer, _) ↦ subst (Tried r (suc n) s.log) (sym longer) (answered n x.reply s.log)
        ],
        elim (once_settles x s id) [
          | inl (same, _) ↦ inl same
          | inr (i, named, dropped, out) ↦ inr (i, named, dropped, ap outcome_of out)
        ],
      )

      goes :
          (n : ℕ) (x : Exchange) (s : State × Option Str) (c : Category)
          (end : Outcome Fields × (State × Option Str))
          → (request_once r x s).0 ≡ transient c
          → After n (request_once r x s).1 end
          → After (suc n) s end
      goes n x (s, id) c end missed (tries, settles) = (
        elim (once_sends x s id) [
          | inl (_, never) ↦ absurd (never c missed)
          | inr (longer, worth) ↦
              again (suc n) x.reply s.log _ (worth c missed)
                (subst (λ log. Tried r (suc n) log end.1.0.log) longer tries)
        ],
        elim (once_settles x s id) [
          | inr (i, named, dropped, out) ↦ absurd (ground arith)
          | inl (same, unnamed) ↦ elim settles [
            | inl kept ↦ inl (kept ∙ same)
            | inr (i, named, _, _) ↦ let gone = unnamed c missed in absurd (ground arith)
          ]
        ],
      )

length-Tried :
    (r : Request) (n : ℕ) (log new : List Entry) → Tried r n log new → length new ≤ length log + n
length-Tried r n log new (stopped _ _) = omega arith
length-Tried r n log new (answered m reply _) = omega arith
length-Tried r n log new (again m reply _ _ worth tries) =
    omega (arith, length-Tried r m (entry r reply ∷ log) new tries)

-- A request is sent as often as the policy has attempts, at most; it is sent again only after a
-- reply that is transient: a timeout, a reset of the connection, or the status 429, 502, 503 or 504.
pub request-Tried :
    (policy : RetryPolicy) (r : Request) (id : Option Str) (script : List Exchange) (s : State)
    → 1 ≤ policy.max_attempts
    → let s' = (request policy r id script s).1 in
      Tried r policy.max_attempts s.log s'.log
      × (length s'.log ≤ length s.log + policy.max_attempts)
unfolding request
request-Tried policy r id script s h =
    let before = record s { request_ordinal = s.request_ordinal + 1 } in
    let (tries, _) = run-After r (policy.max_attempts - 1) script (before, id) in
    let attempts : suc (policy.max_attempts - 1) ≡ policy.max_attempts = omega (arith, h) in
    let all_tries =
      subst (λ n. Tried r n s.log (request policy r id script s).1.log) attempts tries in
    (
      all_tries,
      length-Tried r policy.max_attempts s.log (request policy r id script s).1.log all_tries,
    )

-- What a request does to the pending operations.
pub request-Settles :
    (policy : RetryPolicy) (r : Request) (id : Option Str) (script : List Exchange) (s : State)
    → Settles r id s (request policy r id script s).0 (request policy r id script s).1
unfolding request
request-Settles policy r id script s =
    let before = record s { request_ordinal = s.request_ordinal + 1 } in
    (run-After r (policy.max_attempts - 1) script (before, id)).1
