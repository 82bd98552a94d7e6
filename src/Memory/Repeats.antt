-- ===== src/Memory/Repeats.antt =====
-- A retain that is repeated (src/engineering_memory/memory/hindsight/store.py).
use hermes_memory.Base.{
  ℕ, ◌≡◌, ◌≢◌, refl, ap, ◌∙◌, inl, inr, Bool, true, false, some, List, Str, Str-discrete,
  str_eq_self, ite, ok, err, Result-cases, arith, lookup, insert, lookup-insert, lookup-remove,
}
use hermes_memory.Normalization.Provenance.{EnrichedConversation, enriched_document_id}
use hermes_memory.Memory.{MemoryError, unavailable, deadline_exceeded, Outcome, Wire}
use hermes_memory.Memory.Serialization.{item_for}
use hermes_memory.Memory.Retry.{RetryPolicy}
use hermes_memory.Memory.Requests.{Exchange, State}
use hermes_memory.Memory.Retain.{encoded, operation_for, fingerprint, plan, retain}
use hermes_memory.Memory.Pending.{is_decided, retain-Kept, plan_parts}

-- The engine could not be asked, or did not answer.
abbrev pub is_uncertain : Outcome Unit → Bool
is_uncertain (err deadline_exceeded) = true
is_uncertain (err unavailable) = true
is_uncertain r = false

not_both : (o : Outcome Unit) → is_decided o ≡ true → ¬ (is_uncertain o ≡ true)
not_both o decided uncertain = ground arith

ite_self : {A : Type 0} (id : Str) (a b : A) → ite (Str-discrete id id) a b ≡ a
ite_self id a b = ground arith

ite_other :
    {A : Type 0} (id other : Str) (a b : A) → id ≢ other → ite (Str-discrete id other) a b ≡ b
ite_other id other a b ne = ground arith

module _ (w : Wire) (policy : RetryPolicy) (max_bytes : ℕ) where
  plan-error :
      (e : EnrichedConversation) (fresh : Str) (s : State) (x : MemoryError)
      → plan w policy max_bytes e fresh s ≡ err x
      → is_uncertain (err x) ≡ false
  unfolding plan item_for fingerprint encoded
  plan-error e fresh s x failed = ground arith

  -- A plan that was made, and whose operation is pending, is made again.
  plan-again :
      (e : EnrichedConversation) (fresh fresh' print operation : Str) (body : List ℕ) (s s' : State)
      → plan w policy max_bytes e fresh s ≡ ok (print, operation, body)
      → lookup Str-discrete (enriched_document_id e) s'.pending ≡ some (print, operation)
      → plan w policy max_bytes e fresh' s' ≡ ok (print, operation, body)
  unfolding plan operation_for
  plan-again e fresh fresh' print operation body s s' planned pending =
      let (item, made, printed, _, written, small, _) =
        plan_parts w policy max_bytes e fresh print operation body s planned in
      let same = str_eq_self print in rw (made, printed, pending, same, written, small) refl

  -- A retain that ends uncertainly is repeated with the same operation and the same body, whatever id
  -- would be drawn for a new one: the operation is still pending, with the fingerprint of the item.
  pub retain-repeats :
      (e : EnrichedConversation) (fresh fresh' : Str) (script : List Exchange)
      (scripts : List (List Exchange)) (s : State)
      → let (outcome, s') = retain w policy max_bytes e fresh script scripts s in
        is_uncertain outcome ≡ true
        → (print : Str) × (operation : Str) × (body : List ℕ) × (lookup Str-discrete
              (enriched_document_id e)
              s'.pending
            ≡ some (print, operation))
          × (plan w policy max_bytes e fresh s ≡ ok (print, operation, body))
          × (plan w policy max_bytes e fresh' s' ≡ ok (print, operation, body))
  unfolding retain
  retain-repeats e fresh fresh' script scripts s uncertain =
      elim (Result-cases (plan w policy max_bytes e fresh s)) [
        | inr (x, failed) ↦ let certain = plan-error e fresh s x failed in absurd (ground arith)
        | inl ((print, operation, body), planned) ↦
            let id = enriched_document_id e in
            let s' = (retain w policy max_bytes e fresh script scripts s).1 in
            elim (retain-Kept w policy max_bytes e fresh print operation body script scripts s
              planned) [
                | inr (_, decided) ↦ absurd (not_both _ decided uncertain)
                | inl kept ↦
                    let pending : lookup Str-discrete id s'.pending ≡ some (print, operation) =
                      ap (lookup Str-discrete id) kept
                      ∙ lookup-insert Str-discrete id id (print, operation) s.pending
                      ∙ ite_self id (some (print, operation)) (lookup Str-discrete id s.pending) in
                    (
                      print,
                      operation,
                      body,
                      pending,
                      planned,
                      plan-again e fresh fresh' print operation body s s' planned pending,
                    )
              ]
      ]

  -- The pending operations of all other documents stay as they are.
  pub retain-others :
      (e : EnrichedConversation) (fresh : Str) (script : List Exchange)
      (scripts : List (List Exchange)) (s : State) (other : Str)
      → enriched_document_id e ≢ other
      → lookup Str-discrete other (retain w policy max_bytes e fresh script scripts s).1.pending
        ≡ lookup Str-discrete other s.pending
  unfolding retain
  retain-others e fresh script scripts s other ne =
      elim (Result-cases (plan w policy max_bytes e fresh s)) [
        | inr (x, failed) ↦ rw (retain, failed) refl
        | inl ((print, operation, body), planned) ↦
            let id = enriched_document_id e in
            let noted = insert Str-discrete id (print, operation) s.pending in
            let inserted : lookup Str-discrete other noted ≡ lookup Str-discrete other s.pending =
              lookup-insert Str-discrete id other (print, operation) s.pending
              ∙ ite_other id other _ _ ne in
            elim (retain-Kept w policy max_bytes e fresh print operation body script scripts s
              planned) [
                | inl kept ↦ ap (lookup Str-discrete other) kept ∙ inserted
                | inr (dropped, _) ↦
                    ap (lookup Str-discrete other) dropped
                    ∙ lookup-remove Str-discrete id other noted
                    ∙ ite_other id other _ _ ne
                    ∙ inserted
              ]
      ]
