-- ===== src/Ingestion/Pipeline/Discipline/Stages.antt =====
-- The calls of `_process` in pipeline.py, each beside the calls before it.
use hermes_memory.Base.{◌≡◌, refl, Bool, true, false, Option, none, some, ◌∷◌, Str, ok, err, arith}
use hermes_memory.Normalization.Values.{Valid, Timestamp}
use hermes_memory.Normalization.Conversation.{Conversation}
use hermes_memory.Normalization.Enrichment.{Importer, enrich}
use hermes_memory.Normalization.Canonical.{content_hash}
use hermes_memory.Sanitization.Report.{RedactionReport}
use hermes_memory.Ingestion.State.{
  ImportStatus, imported, skipped, failed, ImportRecord, new_import_record, may_skip,
}
use hermes_memory.Ingestion.Report.{Stage, stage_value, ConversationOutcome}
use hermes_memory.Ingestion.Pipeline.Boundaries.{
  SourceConversation, clock, sanitize, classify, record_state, returned, History, Boundaries,
}
use hermes_memory.Ingestion.Pipeline.Process.{
  Ending, returns, completes, fails, cancels, new_outcome, make_outcome, record_of, write_failure,
  record_failure, enrich_and_keep, skip_or_import, attempt, conclude, process,
}
use hermes_memory.Ingestion.Pipeline.Discipline.Rules.{
  IsSanitized, IsStored, IsRetained, Disciplined, step-Disciplined, lift-Disciplined,
  bind-Disciplined,
}

pub new_outcome-history : (o : ConversationOutcome) (h : History) → (new_outcome o h).1 ≡ h
unfolding new_outcome
new_outcome-history o h = ground arith

new_import_record-status :
    (r : ImportRecord) {r' : ImportRecord} → new_import_record r ≡ ok r' → r' ≡ r
unfolding new_import_record
new_import_record-status r h = ground arith

module _ (b : Boundaries) (importer : Importer) where
  make_outcome-Disciplined :
      (c : Conversation) (status : ImportStatus) (error : Option Stage) (bad : Bool) (h : History)
      → Disciplined b importer h
      → Disciplined b importer (make_outcome b c status error bad h).1
  unfolding make_outcome
  make_outcome-Disciplined c status error bad h d = rw new_outcome-history (tt, d)

  write_failure-Disciplined :
      (c : Conversation) (digest : Str) (why : Option Str) (at : Timestamp) (v : Valid ImportRecord)
      (h : History)
      → new_import_record (record_of c digest failed why at) ≡ v
      → Disciplined b importer h
      → Disciplined b importer (write_failure b importer v h).1
  write_failure-Disciplined c digest why at (err e) h made d = d
  write_failure-Disciplined c digest why at (ok r) h made d =
      let same = new_import_record-status (record_of c digest failed why at) made in (rw same tt, d)

  record_failure-Disciplined :
      (c : Conversation) (stage : Stage) (digest : Option Str) (h : History)
      → Disciplined b importer h
      → Disciplined b importer (record_failure b importer c stage digest h).1
  record_failure-Disciplined c stage none h d = d
  record_failure-Disciplined c stage (some digest) h d =
      write_failure-Disciplined c digest (some (stage_value stage)) (b.on_clock h) _ (clock ∷ h)
        refl (tt, d)

  keep_Disciplined :
      (c : SourceConversation) (digest : Str) (sanitized : Conversation) (report : RedactionReport)
      (project : Str) (rest : History)
      → content_hash b.sha256 c.conversation ≡ ok digest
      → b.on_sanitize rest c.conversation ≡ returned (sanitized, report)
      → b.on_classify (sanitize c.conversation ∷ rest) sanitized ≡ returned project
      → Disciplined b importer (classify sanitized ∷ sanitize c.conversation ∷ rest)
      → Disciplined b importer
          (enrich_and_keep b importer c digest sanitized project
            (classify sanitized ∷ sanitize c.conversation ∷ rest)).1
  unfolding enrich_and_keep
  keep_Disciplined c digest sanitized report project rest hashed answered classified d =
      step-Disciplined b importer _ _ _ _ (tt, d)
        λ at read_at.
          lift-Disciplined b importer (enrich sanitized project importer at) _ _ _ (tt, d)
            λ e enriched.
              let first : IsSanitized b importer e _ = record {
                read = c.conversation;
                sanitized = sanitized;
                report = report;
                project = project;
                rest = rest;
                calls = refl;
                answered = answered;
                classified = classified;
                enriched = cc;
              } in
              step-Disciplined b importer _ _ _ _ (first, (tt, d))
                λ _ stored.
                  let kept : IsStored b importer e _ = record {
                    original = c.original;
                    rest = _;
                    calls = refl;
                    stored = stored;
                  } in
                  step-Disciplined b importer _ _ _ _ (kept, (first, (tt, d)))
                    λ _ retained.
                      step-Disciplined b importer _ _ _ _ (tt, (kept, (first, (tt, d))))
                        λ recorded_at _.
                          let written = record_of c.conversation digest imported none recorded_at in
                          lift-Disciplined b importer (new_import_record written) _ _ _
                            (tt, (kept, (first, (tt, d))))
                            λ r made.
                              let confirmed : IsRetained b importer written _ = record {
                                enriched = e;
                                original = c.original;
                                rest = _;
                                calls = refl;
                                retained = retained;
                                sanitized = first;
                                same_source = refl;
                                same_id = refl;
                                same_document = refl;
                                hashed = hashed;
                              } in
                              let known : Disciplined b importer (record_state r ∷ _) = (
                                rw (new_import_record-status written made) confirmed,
                                (tt, (kept, (first, (tt, d)))),
                              ) in
                              step-Disciplined b importer _ _ _ _ known λ _ _. known

  skip_or_keep :
      (c : SourceConversation) (digest : Str) (skip : Bool) (h : History)
      → content_hash b.sha256 c.conversation ≡ ok digest
      → Disciplined b importer h
      → Disciplined b importer (skip_or_import b importer c digest skip h).1
  unfolding skip_or_import
  skip_or_keep c digest true h hashed d =
      let made = make_outcome-Disciplined c.conversation skipped none false h d in
      step-Disciplined b importer _ _ _ _ made λ _ _. made
  skip_or_keep c digest false h hashed d =
      step-Disciplined b importer _ _ _ _ (tt, d)
        λ answer answered.
          step-Disciplined b importer _ _ _ _ (tt, (tt, d))
            λ project classified.
              keep_Disciplined c digest answer.0 answer.1 project h hashed answered classified
                (tt, (tt, d))

  attempt-Disciplined :
      (c : SourceConversation) (force : Bool) (h : History)
      → Disciplined b importer h
      → Disciplined b importer (attempt b importer c force h).1
  unfolding attempt
  attempt-Disciplined c force h d =
      lift-Disciplined b importer (content_hash b.sha256 c.conversation) _ _ h d λ digest hashed.
        step-Disciplined b importer _ _ _ _ (tt, d)
          λ found _. skip_or_keep c digest (may_skip found digest force) _ hashed (tt, d)

  conclude-Disciplined :
      (c : Conversation) (ending : Ending) (h : History)
      → Disciplined b importer h
      → Disciplined b importer (conclude b importer c ending h).1
  unfolding conclude
  conclude-Disciplined c (returns processed) h d = d
  conclude-Disciplined c (completes project) h d =
      let made = make_outcome-Disciplined c imported none false h d in
      bind-Disciplined b importer _ _ _ made λ _. made
  conclude-Disciplined c (fails p) h d =
      let recorded = record_failure-Disciplined c p.stage p.content_hash h d in
      bind-Disciplined b importer _ _ _ recorded λ secondary.
        let made = make_outcome-Disciplined c failed (some p.stage) secondary _ recorded in
        bind-Disciplined b importer _ _ _ made λ _. made
  conclude-Disciplined c cancels h d = d

  pub process-Disciplined :
      (c : SourceConversation) (force : Bool) (h : History)
      → Disciplined b importer h
      → Disciplined b importer (process b importer c force h).1
  unfolding process
  process-Disciplined c force h d =
      conclude-Disciplined c.conversation (attempt b importer c force h).0
        (attempt b importer c force h).1 (attempt-Disciplined c force h d)
