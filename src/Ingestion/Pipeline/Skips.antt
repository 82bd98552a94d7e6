-- ===== src/Ingestion/Pipeline/Skips.antt =====
-- The skip of pipeline.py, and a state that remembers.
use hermes_memory.Base.{
  ◌≡◌, refl, sym, ap, ◌∙◌, Bool, true, false, ◌&&◌, Option, none, some, [], ◌∷◌, Str, str_eq, holds,
  if◌then◌else◌, Result, ok, err, arith,
}
use hermes_memory.Normalization.Conversation.{Source, Source-discrete, Conversation}
use hermes_memory.Normalization.Enrichment.{Importer}
use hermes_memory.Normalization.Canonical.{content_hash}
use hermes_memory.Ingestion.State.{imported, skipped, ImportRecord, new_import_record, may_skip}
use hermes_memory.Ingestion.Report.{ConversationOutcome, has_diagnostics}
use hermes_memory.Ingestion.Pipeline.Boundaries.{
  SourceConversation, clock, find, record_state, Reply, returned, raised, cancelled, History,
  Boundaries, Action, lift, ◌>>=◌,
}
use hermes_memory.Ingestion.Pipeline.Process.{
  Progress, Ending, returns, completes, fails, cancels, Body, continue, step, new_outcome,
  outcome_of, make_outcome, enrich_and_keep, skip_or_import, attempt, conclude, process,
}

abbrev accepted : Reply Unit → Bool
accepted (returned _) = true
accepted raised = false
accepted cancelled = false

-- The record that the state was last told of for a conversation, among the calls that returned.
abbrev pub latest : Boundaries → Source → Str → History → Option ImportRecord
latest b s i [] = none
latest b s i (record_state r ∷ h) =
    if holds (Source-discrete r.source s) && (str_eq r.source_id i && accepted (b.on_record h r))
    then some r
    else latest b s i h
latest b s i (_ ∷ h) = latest b s i h

-- The state of the contract: it answers with the last record that it accepted.
abbrev pub Remembers : Boundaries → Type 0
Remembers b = (h : History) (s : Source) (i : Str) → b.on_find h s i ≡ returned (latest b s i h)

pub continue-Settles :
    {A : Type 0} (P : Ending × History → Type 0) (r : Reply A) (p : Progress) (k : A → Body)
    (h : History)
    → ((h' : History) → P (fails p, h'))
    → ((h' : History) → P (cancels, h'))
    → ((a : A) → r ≡ returned a → P (k a h))
    → P (continue r p k h)
continue-Settles P (returned a) p k h f c next = next a refl
continue-Settles P raised p k h f c next = f h
continue-Settles P cancelled p k h f c next = c h

-- A completed `try` block has just told the state so, and the state has returned.
record IsTold (b : Boundaries) (c : Conversation) (h : History) : Type 0 where
  written : ImportRecord
  rest : History
  calls : h ≡ record_state written ∷ rest
  told : b.on_record rest written ≡ returned tt
  same_source : written.source ≡ c.source
  same_id : written.source_id ≡ c.source_id
  done : written.status ≡ imported
  hashed : content_hash b.sha256 c ≡ ok written.content_hash

abbrev Told : Boundaries → Conversation → Ending × History → Type 0
Told b c (completes project, h) = IsTold b c h
Told b c (returns p, h) = p.0.status ≡ skipped
Told b c (fails p, h) = Unit
Told b c (cancels, h) = Unit

step-Told :
    {A : Type 0} (b : Boundaries) (c : Conversation) (p : Progress) (m : Action A) (k : A → Body)
    (h : History)
    → ((a : A) → (m h).0 ≡ returned a → Told b c (k a (m h).1))
    → Told b c (step p m k h)
unfolding step
step-Told b c p m k h next =
    continue-Settles (Told b c) (m h).0 p k (m h).1 (λ _. tt) (λ _. tt) next

pub lift-ok :
    {E A : Type 0} (r : Result E A) (a : A) (h : History) → (lift r h).0 ≡ returned a → r ≡ ok a
lift-ok (ok a') a h e = cc
lift-ok (err x) a h e = cc

new_import_record-same :
    (r : ImportRecord) {r' : ImportRecord} → new_import_record r ≡ ok r' → r' ≡ r
unfolding new_import_record
new_import_record-same r h = ground arith

pub skipped_outcome :
    (b : Boundaries) (c : Conversation) (h : History) (o : ConversationOutcome)
    → (make_outcome b c skipped none false h).0 ≡ returned o
    → o.status ≡ skipped
unfolding make_outcome new_outcome has_diagnostics
skipped_outcome b c h o e = ground arith

module _ (b : Boundaries) (importer : Importer) where
  -- Where the state answers with an imported record that holds the hash of the conversation and
  -- nothing forces the import, the conversation is reported as skipped, and the lookup and the
  -- clock are the only calls: nothing is sanitized, stored, retained or recorded.
  process_skips :
      (c : SourceConversation) (digest : Str) (r : ImportRecord) (h : History)
      → content_hash b.sha256 c.conversation ≡ ok digest
      → b.on_find h c.conversation.source c.conversation.source_id ≡ returned (some r)
      → r.status ≡ imported
      → r.content_hash ≡ digest
      → let looked_up = find c.conversation.source c.conversation.source_id ∷ h in
        process b importer c false h ≡ (
          returned (outcome_of c.conversation skipped none false (b.on_clock looked_up), none),
          clock ∷ looked_up,
        )
  unfolding process attempt step skip_or_import make_outcome new_outcome conclude may_skip
      has_diagnostics
  process_skips c digest r h hashed found status same = ground arith

  keep-Told :
      (c : SourceConversation) (digest : Str) (sanitized : Conversation) (project : Str)
      (h : History)
      → content_hash b.sha256 c.conversation ≡ ok digest
      → Told b c.conversation (enrich_and_keep b importer c digest sanitized project h)
  unfolding enrich_and_keep
  keep-Told c digest sanitized project h hashed = step-Told b _ _ _ _ _ λ _ _.
      step-Told b _ _ _ _ _ λ _ _. step-Told b _ _ _ _ _ λ _ _. step-Told b _ _ _ _ _ λ _ _.
        step-Told b _ _ _ _ _ λ at _. step-Told b _ _ _ _ _ λ r made.
          let e = new_import_record-same _ (lift-ok _ r _ made) in
          step-Told b _ _ _ _ _ λ _ told. record {
            written = r;
            rest = _;
            calls = refl;
            told = told;
            same_source = ap (λ (x : ImportRecord). x.source) e;
            same_id = ap (λ (x : ImportRecord). x.source_id) e;
            done = ap (λ (x : ImportRecord). x.status) e;
            hashed = hashed ∙ ap (λ (x : ImportRecord). ok x.content_hash) (sym e);
          }

  skip_or_import-Told :
      (c : SourceConversation) (digest : Str) (skip : Bool) (h : History)
      → content_hash b.sha256 c.conversation ≡ ok digest
      → Told b c.conversation (skip_or_import b importer c digest skip h)
  unfolding skip_or_import
  skip_or_import-Told c digest true h hashed =
      step-Told b _ _ _ _ _ λ o made. skipped_outcome b c.conversation h o made
  skip_or_import-Told c digest false h hashed =
      step-Told b _ _ _ _ _ λ _ _. step-Told b _ _ _ _ _ λ _ _. keep-Told c digest _ _ _ hashed

  attempt-Told :
      (c : SourceConversation) (force : Bool) (h : History)
      → Told b c.conversation (attempt b importer c force h)
  unfolding attempt
  attempt-Told c force h = step-Told b _ _ _ _ _ λ digest made. step-Told b _ _ _ _ _ λ found _.
      skip_or_import-Told c digest (may_skip found digest force) _ (lift-ok _ digest h made)

  after_import :
      (c : Conversation) (ending : Ending) (h : History) (o : ConversationOutcome)
      (project : Option Str)
      → Told b c (ending, h)
      → (conclude b importer c ending h).0 ≡ returned (o, project)
      → o.status ≡ imported
      → IsTold b c h × ((conclude b importer c ending h).1 ≡ clock ∷ h)
  unfolding conclude make_outcome new_outcome has_diagnostics ◌>>=◌
  after_import c (returns p) h o project told e s = absurd (ground arith)
  after_import c (completes project') h o project told e s = (told, ground arith)
  after_import c (fails p) h o project told e s = absurd (ground arith)
  after_import c cancels h o project told e s = cc

  latest_told :
      (c : Conversation) (h : History) (told : IsTold b c h)
      → latest b c.source c.source_id (clock ∷ h) ≡ some told.written
  latest_told c h told = rw told.calls (ground (arith, told.told, told.same_source, told.same_id))

  process-IsTold :
      (c : SourceConversation) (force : Bool) (h : History) (o : ConversationOutcome)
      (project : Option Str)
      → (process b importer c force h).0 ≡ returned (o, project)
      → o.status ≡ imported
      → (before : History) × IsTold b c.conversation before
        × ((process b importer c force h).1 ≡ clock ∷ before)
  unfolding process
  process-IsTold c force h o project e s =
      let (ending, h1) = attempt b importer c force h in
      let (told, end) =
        after_import c.conversation ending h1 o project (attempt-Told c force h) e s in
      (h1, told, end)

  -- A conversation that a state of the contract was told is imported is skipped the next time, if
  -- it has not changed and nothing forces it: one lookup, and no other boundary is called.
  pub reimport_skips :
      (c : SourceConversation) (force : Bool) (h : History) (o : ConversationOutcome)
      (project : Option Str)
      → Remembers b
      → (process b importer c force h).0 ≡ returned (o, project)
      → o.status ≡ imported
      → let h' = (process b importer c force h).1 in
        let looked_up = find c.conversation.source c.conversation.source_id ∷ h' in
        process b importer c false h' ≡ (
          returned (outcome_of c.conversation skipped none false (b.on_clock looked_up), none),
          clock ∷ looked_up,
        )
  reimport_skips c force h o project remembers e s =
      let (before, told, end) = process-IsTold c force h o project e s in
      let c' = c.conversation in
      process_skips c told.written.content_hash told.written _ told.hashed
        (remembers _ c'.source c'.source_id
          ∙ ap returned (ap (latest b c'.source c'.source_id) end ∙ latest_told c' before told))
        told.done refl
