-- ===== src/Ingestion/Pipeline/Outcomes/Each.antt =====
-- The outcome of one conversation, of `_process` in pipeline.py.
use hermes_memory.Base.{◌≡◌, ◌≢◌, refl, Bool, true, false, Option, none, some, ◌∷◌, Str, ok, err}
use hermes_memory.Normalization.Values.{Valid, Timestamp}
use hermes_memory.Normalization.Conversation.{Conversation, document_id}
use hermes_memory.Normalization.Enrichment.{Importer}
use hermes_memory.Ingestion.State.{
  ImportStatus, imported, skipped, failed, ImportRecord, new_import_record, may_skip,
}
use hermes_memory.Ingestion.Report.{Stage, stage_value, ConversationOutcome, has_diagnostics}
use hermes_memory.Ingestion.Pipeline.Boundaries.{
  SourceConversation, clock, Reply, returned, raised, cancelled, History, Boundaries, Action,
  and_then, ◌>>=◌, caught,
}
use hermes_memory.Ingestion.Pipeline.Process.{
  Progress, Ending, returns, completes, fails, cancels, Body, continue, step, new_outcome,
  outcome_of, make_outcome, record_of, write_failure, record_failure, enrich_and_keep,
  skip_or_import, attempt, conclude, process,
}
use hermes_memory.Ingestion.Pipeline.Run.{suppressed, try_emit, reported}

-- The answer is no exception, and what is returned satisfies `P`.
abbrev pub Yields : {A : Type 0} → (A → Type 0) → Reply A → Type 0
Yields P (returned a) = P a
Yields P raised = ⊥
Yields P cancelled = Unit

and_then-Yields :
    {A B : Type 0} (P : A → Type 0) (Q : B → Type 0) (r : Reply A) (f : A → Action B) (h : History)
    → Yields P r
    → ((a : A) → P a → Yields Q (f a h).0)
    → Yields Q (and_then r f h).0
and_then-Yields P Q (returned a) f h y next = next a y
and_then-Yields P Q cancelled f h y next = tt
and_then-Yields P Q raised f h y next = y

pub bind-Yields :
    {A B : Type 0} (P : A → Type 0) (Q : B → Type 0) (m : Action A) (f : A → Action B) (h : History)
    → Yields P (m h).0
    → ((a : A) → P a → Yields Q (f a (m h).1).0)
    → Yields Q ((m >>= f) h).0
unfolding ◌>>=◌
bind-Yields P Q m f h y next = and_then-Yields P Q (m h).0 f (m h).1 y next

-- An outcome that the validator accepts and that names the conversation.
pub record Describes (c : Conversation) (o : ConversationOutcome) : Type 0 where
  pub source : o.source ≡ c.source
  pub source_id : o.source_id ≡ some c.source_id
  pub document : o.document_id ≡ some (document_id c)
  pub diagnosed : has_diagnostics o ≡ true

pub new_outcome-Yields :
    (o : ConversationOutcome) (h : History)
    → has_diagnostics o ≡ true
    → (new_outcome o h).0 ≡ returned o
unfolding new_outcome
new_outcome-Yields o h d = rw d

abbrev Made : Conversation → ImportStatus → Option Stage → Bool → ConversationOutcome → Type 0
Made c status error bad o =
    Describes c o × (o.status ≡ status) × (o.error ≡ error) × (o.state_record_failed ≡ bad)

make_outcome-Yields :
    (b : Boundaries) (c : Conversation) (status : ImportStatus) (error : Option Stage) (bad : Bool)
    (h : History)
    → ((at : Timestamp) → has_diagnostics (outcome_of c status error bad at) ≡ true)
    → Yields (Made c status error bad) (make_outcome b c status error bad h).0
unfolding make_outcome
make_outcome-Yields b c status error bad h d =
    let o = outcome_of c status error bad (b.on_clock h) in
    rw (new_outcome-Yields o (clock ∷ h) (d (b.on_clock h))) (
      record { source = refl; source_id = refl; document = refl; diagnosed = d (b.on_clock h) },
      refl,
      refl,
      refl,
    )

diagnosed_skip :
    (c : Conversation) (at : Timestamp)
    → has_diagnostics (outcome_of c skipped none false at) ≡ true
unfolding has_diagnostics
diagnosed_skip c at = refl

diagnosed_import :
    (c : Conversation) (at : Timestamp)
    → has_diagnostics (outcome_of c imported none false at) ≡ true
unfolding has_diagnostics
diagnosed_import c at = refl

diagnosed_failure :
    (c : Conversation) (stage : Stage) (bad : Bool) (at : Timestamp)
    → has_diagnostics (outcome_of c failed (some stage) bad at) ≡ true
unfolding has_diagnostics
diagnosed_failure c stage true at = refl
diagnosed_failure c stage false at = refl

-- The `try` block returns only a skip.
abbrev EndsWell : Conversation → Ending → Type 0
EndsWell c (returns p) = Describes c p.0 × (p.0.status ≡ skipped)
EndsWell c _ = Unit

continue-EndsWell :
    {A : Type 0} (c : Conversation) (P : A → Type 0) (r : Reply A) (p : Progress) (k : A → Body)
    (h : History)
    → (r ≢ raised → Yields P r)
    → ((a : A) → P a → EndsWell c (k a h).0)
    → EndsWell c (continue r p k h).0
continue-EndsWell c P (returned a) p k h y next = next a (y (λ e. cc))
continue-EndsWell c P raised p k h y next = tt
continue-EndsWell c P cancelled p k h y next = tt

step-Ends :
    {A : Type 0} (c : Conversation) (P : A → Type 0) (p : Progress) (m : Action A) (k : A → Body)
    (h : History)
    → ((m h).0 ≢ raised → Yields P (m h).0)
    → ((a : A) → P a → EndsWell c (k a (m h).1).0)
    → EndsWell c (step p m k h).0
unfolding step
step-Ends c P p m k h y next = continue-EndsWell c P (m h).0 p k (m h).1 y next

any_reply : {B : Type 0} (r : Reply B) → r ≢ raised → Yields (λ _. Unit) r
any_reply (returned a) n = tt
any_reply raised n = n refl
any_reply cancelled n = tt

step-EndsWell :
    {A : Type 0} (c : Conversation) (p : Progress) (m : Action A) (k : A → Body) (h : History)
    → ((a : A) → EndsWell c (k a (m h).1).0)
    → EndsWell c (step p m k h).0
step-EndsWell c p m k h next = step-Ends c (λ _. Unit) p m k h (any_reply (m h).0) (λ a _. next a)

module _ (b : Boundaries) (importer : Importer) where
  keep-EndsWell :
      (c : SourceConversation) (digest : Str) (sanitized : Conversation) (project : Str)
      (h : History)
      → EndsWell c.conversation (enrich_and_keep b importer c digest sanitized project h).0
  unfolding enrich_and_keep
  keep-EndsWell c digest sanitized project h = step-EndsWell _ _ _ _ _ λ _.
      step-EndsWell _ _ _ _ _ λ _. step-EndsWell _ _ _ _ _ λ _. step-EndsWell _ _ _ _ _ λ _.
        step-EndsWell _ _ _ _ _ λ _. step-EndsWell _ _ _ _ _ λ _. step-EndsWell _ _ _ _ _ λ _. tt

  skip_or_import-EndsWell :
      (c : SourceConversation) (digest : Str) (skip : Bool) (h : History)
      → EndsWell c.conversation (skip_or_import b importer c digest skip h).0
  unfolding skip_or_import
  skip_or_import-EndsWell c digest true h =
      let o = c.conversation in
      step-Ends o (Made o skipped none false) _ _ _ h
        (λ _. make_outcome-Yields b o skipped none false h (diagnosed_skip o))
        λ a made. (made.0, made.1)
  skip_or_import-EndsWell c digest false h =
      step-EndsWell _ _ _ _ _ λ _. step-EndsWell _ _ _ _ _ λ _. keep-EndsWell c digest _ _ _

  attempt-EndsWell :
      (c : SourceConversation) (force : Bool) (h : History)
      → EndsWell c.conversation (attempt b importer c force h).0
  unfolding attempt
  attempt-EndsWell c force h = step-EndsWell _ _ _ _ _ λ digest.
      step-EndsWell _ _ _ _ _
        λ found. skip_or_import-EndsWell c digest (may_skip found digest force) _

  record_failure-Yields :
      (c : Conversation) (stage : Stage) (digest : Option Str) (h : History)
      → Yields (λ _. Unit) (record_failure b importer c stage digest h).0
  record_failure-Yields c stage none h = tt
  record_failure-Yields c stage (some digest) h =
      written
        (new_import_record (record_of c digest failed (some (stage_value stage)) (b.on_clock h)))
    where
      settled : (r : Reply Unit) → Yields (λ _. Unit) (caught r)
      settled (returned a) = tt
      settled raised = tt
      settled cancelled = tt

      written :
          (v : Valid ImportRecord) → Yields (λ _. Unit) (write_failure b importer v (clock ∷ h)).0
      written (err e) = tt
      written (ok r) = settled (b.on_record (clock ∷ h) r)

  conclude-Yields :
      (c : Conversation) (ending : Ending) (h : History)
      → EndsWell c ending
      → Yields (λ p. Describes c p.0) (conclude b importer c ending h).0
  unfolding conclude
  conclude-Yields c (returns p) h e = e.0
  conclude-Yields c (completes project) h e =
      bind-Yields _ _ _ _ h (make_outcome-Yields b c imported none false h (diagnosed_import c))
        λ o made. made.0
  conclude-Yields c (fails p) h e =
      bind-Yields _ _ _ _ h (record_failure-Yields c p.stage p.content_hash h) λ bad _.
        bind-Yields _ _ _ _ _
          (make_outcome-Yields b c failed (some p.stage) bad _ (diagnosed_failure c p.stage bad))
          λ o made. made.0
  conclude-Yields c cancels h e = tt

  -- Processing a conversation raises no exception, whatever the boundaries answer; the outcome that
  -- it returns names the conversation and is one that the report's validator accepts.
  pub process-Yields :
      (c : SourceConversation) (force : Bool) (h : History)
      → Yields (λ p. Describes c.conversation p.0) (process b importer c force h).0
  unfolding process
  process-Yields c force h =
      conclude-Yields c.conversation (attempt b importer c force h).0
        (attempt b importer c force h).1 (attempt-EndsWell c force h)

  pub reported-Yields :
      (P : ConversationOutcome → Type 0) (at : Timestamp) (project : Option Str)
      (o : ConversationOutcome) (h : History)
      → P o
      → Yields P (reported b importer at project o h).0
  unfolding reported try_emit
  reported-Yields P at project o h p =
      bind-Yields (λ _. Unit) P _ _ h (settled (b.on_emit h o project at)) λ _ _. p
    where
      settled : (r : Reply Unit) → Yields (λ _. Unit) (suppressed b importer r)
      settled (returned a) = tt
      settled raised = tt
      settled cancelled = tt
