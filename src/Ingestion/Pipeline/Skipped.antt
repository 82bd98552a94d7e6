-- ===== src/Ingestion/Pipeline/Skipped.antt =====
-- When pipeline.py reports a conversation as skipped.
use hermes_memory.Base.{
  ◌≡◌, refl, Bool, true, false, Option, none, some, ◌∷◌, Str, str_eq→eq, ok, ◌∙◌, ap, sym, subst,
  Result, err, arith,
}
use hermes_memory.Normalization.Conversation.{Conversation}
use hermes_memory.Normalization.Enrichment.{Importer}
use hermes_memory.Normalization.Canonical.{content_hash}
use hermes_memory.Ingestion.State.{
  imported, skipped, ImportStatus, is_imported, ImportRecord, may_skip,
}
use hermes_memory.Ingestion.Report.{state_read, ConversationOutcome, has_diagnostics}
use hermes_memory.Ingestion.Pipeline.Boundaries.{
  SourceConversation, clock, find, returned, History, Boundaries, Action, call_find, lift, ◌>>=◌,
}
use hermes_memory.Ingestion.Pipeline.Process.{
  Progress, Ending, returns, completes, fails, cancels, Body, step, new_outcome, make_outcome,
  enrich_and_keep, skip_or_import, attempt, conclude, process,
}
use hermes_memory.Ingestion.Pipeline.Skips.{continue-Settles, lift-ok}

-- The state answered, asked once before anything else was called, that the conversation is imported
-- with the content that it has, and nothing forces its import; then the clock was read.
pub record WasImported (b : Boundaries) (c : Conversation) (force : Bool) (before after : History)
    : Type 0 where
  pub unforced : force ≡ false
  pub known : ImportRecord
  pub found : b.on_find before c.source c.source_id ≡ returned (some known)
  pub done : known.status ≡ imported
  pub unchanged : content_hash b.sha256 c ≡ ok known.content_hash
  pub calls : after ≡ clock ∷ find c.source c.source_id ∷ before

-- What holds of a `try` block if it ends by its `return`.
abbrev Returning : (History → Type 0) → Ending × History → Type 0
Returning P (returns p, h) = P h
Returning P (completes project, h) = Unit
Returning P (fails p, h) = Unit
Returning P (cancels, h) = Unit

step-Returning :
    {A : Type 0} (P : History → Type 0) (p : Progress) (m : Action A) (k : A → Body) (h : History)
    → ((a : A) → (m h).0 ≡ returned a → Returning P (k a (m h).1))
    → Returning P (step p m k h)
unfolding step
step-Returning P p m k h next =
    continue-Settles (Returning P) (m h).0 p k (m h).1 (λ _. tt) (λ _. tt) next

is_imported-imported : (s : ImportStatus) → is_imported s ≡ true → s ≡ imported
is_imported-imported s h = ground arith

may_skip-known :
    (found : Option ImportRecord) (digest : Str) (force : Bool)
    → may_skip found digest force ≡ true
    → (force ≡ false)
      × ((known : ImportRecord) × (found ≡ some known)
          × (known.status ≡ imported)
          × (known.content_hash ≡ digest))
unfolding may_skip
may_skip-known none digest force h = absurd (ground arith)
may_skip-known (some r) digest force h =
    (ground arith, (r, refl, ground arith, str_eq→eq r.content_hash digest (ground arith)))

module _ (b : Boundaries) (importer : Importer) where
  keep-Returning :
      (P : History → Type 0) (c : SourceConversation) (digest : Str) (sanitized : Conversation)
      (project : Str) (h : History)
      → Returning P (enrich_and_keep b importer c digest sanitized project h)
  unfolding enrich_and_keep
  keep-Returning P c digest sanitized project h = step-Returning P _ _ _ _ λ _ _.
      step-Returning P _ _ _ _ λ _ _. step-Returning P _ _ _ _ λ _ _.
        step-Returning P _ _ _ _ λ _ _.
          step-Returning P _ _ _ _
            λ _ _. step-Returning P _ _ _ _ λ _ _. step-Returning P _ _ _ _ λ _ _. tt

  outcome_calls :
      (c : Conversation) (h : History) → (make_outcome b c skipped none false h).1 ≡ clock ∷ h
  unfolding make_outcome new_outcome has_diagnostics
  outcome_calls c h = ground arith

  skip-Returning :
      (c : SourceConversation) (digest : Str) (skip : Bool) (h : History)
      → Returning
          (λ after. (skip ≡ true) × (after ≡ clock ∷ h))
          (skip_or_import b importer c digest skip h)
  unfolding skip_or_import
  skip-Returning c digest true h =
      step-Returning _ _ _ _ _ λ o made. (refl, outcome_calls c.conversation h)
  skip-Returning c digest false h =
      step-Returning _ _ _ _ _
        λ _ _. step-Returning _ _ _ _ _ λ _ _. keep-Returning _ c digest _ _ _

  Returning-weaken :
      (P Q : History → Type 0) (end : Ending × History)
      → ((h : History) → P h → Q h)
      → Returning P end
      → Returning Q end
  Returning-weaken P Q (returns p, h) f q = f h q
  Returning-weaken P Q (completes project, h) f q = tt
  Returning-weaken P Q (fails p, h) f q = tt
  Returning-weaken P Q (cancels, h) f q = tt

  lift-calls : {E A : Type 0} (r : Result E A) (h : History) → (lift r h).1 ≡ h
  lift-calls (ok a) h = refl
  lift-calls (err e) h = refl

  found-Returning :
      (c : SourceConversation) (digest : Str) (force : Bool) (p : Progress) (h : History)
      → content_hash b.sha256 c.conversation ≡ ok digest
      → Returning (WasImported b c.conversation force h) (
          step p
            (call_find b c.conversation.source c.conversation.source_id)
            (λ found. skip_or_import b importer c digest (may_skip found digest force))
            h)
  found-Returning c digest force p h hashed =
      let before = find c.conversation.source c.conversation.source_id ∷ h in
      step-Returning (WasImported b c.conversation force h) p _ _ h λ found asked.
        Returning-weaken _ (WasImported b c.conversation force h)
          (skip_or_import b importer c digest (may_skip found digest force) before)
          (λ after q.
            let (unforced, (known, same, done, hash)) = may_skip-known found digest force q.0 in
            record {
              unforced = unforced;
              known = known;
              found = asked ∙ ap returned same;
              done = done;
              unchanged = hashed ∙ ap ok (sym hash);
              calls = q.1;
            })
          (skip-Returning c digest (may_skip found digest force) before)

  attempt-Returning :
      (c : SourceConversation) (force : Bool) (h : History)
      → Returning (WasImported b c.conversation force h) (attempt b importer c force h)
  unfolding attempt
  attempt-Returning c force h =
      let hash = content_hash b.sha256 c.conversation in
      step-Returning (WasImported b c.conversation force h) _ (lift hash) _ h λ digest made.
        subst
          (λ x. Returning (WasImported b c.conversation force x) (
            step (record { stage = state_read; content_hash = some digest; project = none })
              (call_find b c.conversation.source c.conversation.source_id)
              (λ found. skip_or_import b importer c digest (may_skip found digest force))
              (lift hash h).1))
          (lift-calls hash h)
          (found-Returning c digest force _ (lift hash h).1 (lift-ok hash digest h made))

  after_skip :
      (P : History → Type 0) (c : Conversation) (ending : Ending) (h : History)
      (o : ConversationOutcome) (project : Option Str)
      → Returning P (ending, h)
      → (conclude b importer c ending h).0 ≡ returned (o, project)
      → o.status ≡ skipped
      → P (conclude b importer c ending h).1
  unfolding conclude make_outcome new_outcome has_diagnostics ◌>>=◌
  after_skip P c (returns p) h o project q e s = q
  after_skip P c (completes project') h o project q e s = absurd (ground arith)
  after_skip P c (fails p) h o project q e s = absurd (ground arith)
  after_skip P c cancels h o project q e s = cc

  -- A conversation is reported as skipped only if nothing forces its import and the state, asked
  -- before anything else was called, answered that it is imported with the hash that it has now; and
  -- then no boundary but the clock was called besides.
  pub process-WasImported :
      (c : SourceConversation) (force : Bool) (h : History) (o : ConversationOutcome)
      (project : Option Str)
      → (process b importer c force h).0 ≡ returned (o, project)
      → o.status ≡ skipped
      → WasImported b c.conversation force h (process b importer c force h).1
  unfolding process
  process-WasImported c force h o project e s =
      let (ending, h1) = attempt b importer c force h in
      after_skip (WasImported b c.conversation force h) c.conversation ending h1 o project
        (attempt-Returning c force h) e s
