-- ===== src/Memory/Retry.antt =====
-- src/engineering_memory/memory/hindsight/retry.py: which failures are transient, and how often a
-- request is repeated. What the clock says at each place is part of the script of a request.
use hermes_memory.Base.{
  ℕ, zero, suc, ◌≡◌, refl, subst, inl, inr, ◌⊎◌, Bool-cases, Bool, true, false, ◌&&◌, ◌||◌, Option,
  none, some, List, [], ◌∷◌, leb, ltb, if◌then◌else◌, ok, err, arith,
}
use hermes_memory.Memory.{MemoryError, deadline_exceeded, unavailable, Outcome}

-- An exception in the chain of causes: ConnectionResetError, or an OSError with errno ECONNRESET,
-- or another. A cyclic chain is walked until it comes back.
pub data Cause : Type 0 where
  connection_reset_error other_cause : Cause
  os_error_number : ℕ → Cause

abbrev pub econnreset : ℕ
econnreset = 104

is_reset_cause : Cause → Bool
is_reset_cause connection_reset_error = true
is_reset_cause other_cause = false
is_reset_cause (os_error_number n) = leb n econnreset && leb econnreset n

unfoldable pub is_reset : List Cause → Bool
unfolding is_reset_cause
is_reset [] = false
is_reset (c ∷ causes) = is_reset_cause c || is_reset causes

pub data Category : Type 0 where
  timeout connection_reset http_status : Category

-- An `httpx.TransportError` or a TimeoutError of the executor: whether it is an
-- `httpx.TimeoutException`, and its chain.
pub record TransportError : Type 0 where
  pub is_timeout : Bool
  pub causes : List Cause

unfoldable pub transient_transport : TransportError → Option Category
unfolding is_reset
transient_transport e =
    if e.is_timeout then some timeout else if is_reset e.causes then some connection_reset else none

-- How one call of the action ended.
pub data Ended (A : Type 0) : Type 0 where
  transient : Category → Ended A
  failed : MemoryError → Ended A
  returned : A → Ended A

pub record RetryPolicy : Type 0 where
  pub max_attempts : ℕ
  pub initial : ℕ
  pub maximum : ℕ
  pub jitter : ℕ

-- `__post_init__`, for delays that are finite and not negative
unfoldable pub is_valid_policy : RetryPolicy → Bool
is_valid_policy p = ltb 0 p.max_attempts && (ltb 0 p.initial && leb p.initial p.maximum)

-- What the clock says around one attempt: the deadline has passed before it; the wait that would
-- follow it reaches the deadline.
pub record Times : Type 0 where
  pub late : Bool
  pub no_time_to_wait : Bool

abbrev is_final : {A : Type 0} → Ended A → Bool
is_final (transient c) = false
is_final (failed error) = true
is_final (returned a) = true

-- How an attempt that no other follows ends the request.
abbrev pub outcome_of : {A : Type 0} → Ended A → Outcome A
outcome_of (returned a) = ok a
outcome_of (failed error) = err error
outcome_of (transient category) = err unavailable

module _ {S E A : Type 0} (times : E → Times) (action : E → S → Ended A × S) where
  -- The loop of `Retrying`: `left` is how many more attempts may follow the next one. A script that
  -- ends stands for a clock that has passed the deadline.
  unfoldable pub attempt_from : ℕ → List E → S → Outcome A × S
  attempt_from left [] s = (err deadline_exceeded, s)
  attempt_from zero (e ∷ script) s =
      if (times e).late
      then (err deadline_exceeded, s)
      else let (ended, s') = action e s in
        elim ended [
          | returned a ↦ (ok a, s')
          | failed error ↦ (err error, s')
          | transient category ↦ (err unavailable, s')
        ]
  attempt_from (suc left) (e ∷ script) s =
      if (times e).late
      then (err deadline_exceeded, s)
      else let (ended, s') = action e s in
        let again = attempt_from left script s' in
        elim ended [
          | returned a ↦ (ok a, s')
          | failed error ↦ (err error, s')
          | transient category ↦ if (times e).no_time_to_wait then (err unavailable, s') else again
        ]

  -- Whether another attempt follows.
  abbrev follows :
      (b : Bool) (ended : Ended A)
      → ((b ≡ false) × ((c : Category) × (ended ≡ transient c))) ⊎ ((b || is_final ended) ≡ true)
  follows true ended = inr refl
  follows false (transient c) = inl (refl, (c, refl))
  follows false (failed error) = inr refl
  follows false (returned a) = inr refl

  -- A request ends without an attempt, or with one, or goes on after a transient failure.
  pub attempt_from-ind :
      (P : ℕ → S → Outcome A × S → Type 0)
      → ((n : ℕ) (s : S) → P n s (err deadline_exceeded, s))
      → ((n : ℕ) (e : E) (s : S) → P n s (outcome_of (action e s).0, (action e s).1))
      → ((n : ℕ) (e : E) (s : S) (c : Category) (end : Outcome A × S)
          → (action e s).0 ≡ transient c
          → P n (action e s).1 end
          → P (suc n) s end)
      → (left : ℕ) (script : List E) (s : S) → P left s (attempt_from left script s)
  unfolding attempt_from
  attempt_from-ind P late ends goes left [] s = late left s
  attempt_from-ind P late ends goes zero (e ∷ script) s = elim (Bool-cases (times e).late) [
    | inl is_late ↦
        let out : (err deadline_exceeded, s) ≡ attempt_from zero (e ∷ script) s = ground arith in
        subst (P zero s) out (late zero s)
    | inr timely ↦
        let out : (outcome_of (action e s).0, (action e s).1) ≡ attempt_from zero (e ∷ script) s =
          ground arith in
        subst (P zero s) out (ends zero e s)
  ]
  attempt_from-ind P late ends goes (suc left) (e ∷ script) s = elim (Bool-cases (times e).late) [
    | inl is_late ↦
        let out : (err deadline_exceeded, s) ≡ attempt_from (suc left) (e ∷ script) s =
          ground arith in
        subst (P (suc left) s) out (late (suc left) s)
    | inr timely ↦ elim (follows (times e).no_time_to_wait (action e s).0) [
      | inl (wait, (c, missed)) ↦
          let out : attempt_from left script (action e s).1
              ≡ attempt_from (suc left) (e ∷ script) s =
            ground arith in
          subst (P (suc left) s) out (
            goes left e s c (attempt_from left script (action e s).1) missed
              (attempt_from-ind P late ends goes left script (action e s).1))
      | inr over ↦
          let out : (outcome_of (action e s).0, (action e s).1)
              ≡ attempt_from (suc left) (e ∷ script) s =
            ground arith in
          subst (P (suc left) s) out (ends (suc left) e s)
    ]
  ]
