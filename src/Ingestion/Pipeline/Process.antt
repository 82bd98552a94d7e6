-- ===== src/Ingestion/Pipeline/Process.antt =====
-- `_process` of pipeline.py: one conversation through all the stages.
use hermes_memory.Base.{Bool, true, false, Option, none, some, Str, if◌then◌else◌, ok, err}
use hermes_memory.Normalization.Values.{Valid, Timestamp}
use hermes_memory.Normalization.Conversation.{Conversation, document_id}
use hermes_memory.Normalization.Enrichment.{Importer, enrich}
use hermes_memory.Normalization.Canonical.{content_hash}
use hermes_memory.Ingestion.State.{
  ImportStatus, imported, skipped, failed, ImportRecord, new_import_record, may_skip,
}
use hermes_memory.Ingestion.Report.{
  Stage, hash as hash_stage, state_read, sanitize, classify, enrich as enrich_stage, archive,
  retain, state_write, stage_value, ConversationOutcome, has_diagnostics,
}
use hermes_memory.Ingestion.Pipeline.Boundaries.{
  SourceConversation, Reply, returned, raised, cancelled, History, Boundaries, Action, call_find,
  call_sanitize, call_classify, call_store, call_retain, call_record, now, call_clock, lift, caught,
  ◌>>=◌, pure,
}

-- The outcome, and the project for the diagnostic.
abbrev pub Processed : Type 0
Processed = ConversationOutcome × Option Str

-- The local variables that the handler reads: `stage`, `content_hash` and `project`.
pub record Progress : Type 0 where
  pub stage : Stage
  pub content_hash : Option Str
  pub project : Option Str

-- How the `try` block ends: by its `return` (the skip), at its end, with an exception, or cancelled.
pub data Ending : Type 0 where
  returns : Processed → Ending
  completes : Option Str → Ending
  fails : Progress → Ending
  cancels : Ending

abbrev pub Body : Type 0
Body = History → Ending × History

-- One statement of the block, made with the local variables as `p` holds them.
abbrev pub continue : {A : Type 0} → Reply A → Progress → (A → Body) → Body
continue (returned a) p k h = k a h
continue raised p k h = (fails p, h)
continue cancelled p k h = (cancels, h)

unfoldable pub step : {A : Type 0} → Progress → Action A → (A → Body) → Body
step p m k h = let (answer, h') = m h in continue answer p k h'

-- `ConversationOutcome(...)` validates.
unfoldable pub new_outcome : ConversationOutcome → Action ConversationOutcome
unfolding has_diagnostics
new_outcome o h = if has_diagnostics o then (returned o, h) else (raised, h)

abbrev pub outcome_of :
    Conversation → ImportStatus → Option Stage → Bool → Timestamp → ConversationOutcome
outcome_of c status error record_failed at = record {
  source = c.source;
  source_id = some c.source_id;
  document_id = some (document_id c);
  status = status;
  completed_at = at;
  error = error;
  state_record_failed = record_failed;
}

unfoldable pub make_outcome :
    Boundaries → Conversation → ImportStatus → Option Stage → Bool → Action ConversationOutcome
unfolding new_outcome
make_outcome b c status error record_failed h =
    let (at, h') = now b h in new_outcome (outcome_of c status error record_failed at) h'

abbrev pub record_of : Conversation → Str → ImportStatus → Option Str → Timestamp → ImportRecord
record_of c digest status error at = record {
  source = c.source;
  source_id = c.source_id;
  content_hash = digest;
  document_id = document_id c;
  recorded_at = at;
  status = status;
  error = error;
}

module _ (b : Boundaries) (importer : Importer) where
  abbrev at_stage : Stage → Str → Option Str → Progress
  at_stage stage digest project = record {
    stage = stage;
    content_hash = some digest;
    project = project;
  }

  -- From the enrich stage on.
  unfoldable pub enrich_and_keep : SourceConversation → Str → Conversation → Str → Body
  enrich_and_keep item digest sanitized project =
      let c = item.conversation in
      step (at_stage enrich_stage digest (some project)) (call_clock b) λ imported_at.
        step (at_stage enrich_stage digest (some project))
          (lift (enrich sanitized project importer imported_at))
          λ enriched.
            step (at_stage archive digest (some project)) (call_store b enriched item.original) λ _.
              step (at_stage retain digest (some project)) (call_retain b enriched) λ _.
                step (at_stage state_write digest (some project)) (call_clock b) λ recorded_at.
                  step (at_stage state_write digest (some project))
                    (lift (new_import_record (record_of c digest imported none recorded_at)))
                    λ r.
                      step (at_stage state_write digest (some project)) (call_record b r)
                        λ _ h. (completes (some project), h)

  -- What follows the test of `may_skip`.
  unfoldable pub skip_or_import : SourceConversation → Str → Bool → Body
  skip_or_import item digest true =
      step (at_stage state_read digest none) (make_outcome b item.conversation skipped none false)
        (λ outcome h. (returns (outcome, none), h))
  skip_or_import item digest false =
      step (at_stage sanitize digest none) (call_sanitize b item.conversation) λ answer.
        step (at_stage classify digest none) (call_classify b answer.0)
          λ project. enrich_and_keep item digest answer.0 project

  unfoldable pub attempt : SourceConversation → Bool → Body
  attempt item force =
      let c = item.conversation in
      step (record { stage = hash_stage; content_hash = none; project = none })
        (lift (content_hash b.sha256 c))
        λ digest.
          step (at_stage state_read digest none) (call_find b c.source c.source_id)
            λ found. skip_or_import item digest (may_skip found digest force)

  -- The nested `try` that records the failure. The result tells whether it raised.
  abbrev pub write_failure : Valid ImportRecord → Action Bool
  write_failure (err e) h = (returned true, h)
  write_failure (ok r) h = let (answer, h') = call_record b r h in (caught answer, h')

  abbrev pub record_failure : Conversation → Stage → Option Str → Action Bool
  record_failure c stage none h = (returned false, h)
  record_failure c stage (some digest) h =
      let (at, h') = now b h in
      write_failure (new_import_record (record_of c digest failed (some (stage_value stage)) at)) h'

  unfoldable pub conclude : Conversation → Ending → Action Processed
  conclude c (returns processed) = pure processed
  conclude c (completes project) = do
    outcome ← make_outcome b c imported none false
    pure (outcome, project)
  conclude c (fails p) = do
    secondary ← record_failure c p.stage p.content_hash
    outcome ← make_outcome b c failed (some p.stage) secondary
    pure (outcome, p.project)
  conclude c cancels = λ h. (cancelled, h)

  unfoldable pub process : SourceConversation → Bool → Action Processed
  process item force h =
      let (ending, h') = attempt item force h in conclude item.conversation ending h'
