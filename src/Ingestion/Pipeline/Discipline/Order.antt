-- ===== src/Ingestion/Pipeline/Discipline/Order.antt =====
-- The calls of `run` in pipeline.py, each beside the calls before it.
use hermes_memory.Base.{◌≡◌, subst, Bool, Option, none, some, List, [], ◌∷◌, ◌++◌, Str}
use hermes_memory.Normalization.Values.{Timestamp}
use hermes_memory.Normalization.Conversation.{Source}
use hermes_memory.Normalization.Provenance.{EnrichedConversation}
use hermes_memory.Normalization.Enrichment.{Importer}
use hermes_memory.Ingestion.State.{ImportRecord}
use hermes_memory.Ingestion.Report.{ConversationOutcome}
use hermes_memory.Ingestion.Pipeline.Boundaries.{
  OriginalPayload, SourceConversation, clock, store, retain, record_state, History, Boundaries,
}
use hermes_memory.Ingestion.Pipeline.Process.{new_outcome}
use hermes_memory.Ingestion.Pipeline.Run.{
  Event, item, format_error, broken, interrupted, try_emit, reported, format_outcome,
  format_failure, process_and_emit, run_from, run,
}
use hermes_memory.Ingestion.Pipeline.Discipline.Rules.{
  IsSanitized, IsStored, Confirms, Disciplined, Disciplined-split, bind-Disciplined,
}
use hermes_memory.Ingestion.Pipeline.Discipline.Stages.{new_outcome-history, process-Disciplined}

module _ (b : Boundaries) (importer : Importer) where
  reported-Disciplined :
      (at : Timestamp) (project : Option Str) (o : ConversationOutcome) (h : History)
      → Disciplined b importer h
      → Disciplined b importer (reported b importer at project o h).1
  unfolding reported try_emit
  reported-Disciplined at project o h d = bind-Disciplined b importer _ _ h (tt, d) λ _. (tt, d)

  format_failure-Disciplined :
      (source : Source) (subject : Option Str) (at : Timestamp) (h : History)
      → Disciplined b importer h
      → Disciplined b importer (format_failure b importer source subject at h).1
  unfolding format_failure
  format_failure-Disciplined source subject at h d =
      bind-Disciplined b importer _ _ h (tt, d)
        λ now.
          let made : Disciplined b importer
              (new_outcome (format_outcome source subject now) (clock ∷ h)).1 =
            rw new_outcome-history (tt, d) in
          bind-Disciplined b importer (new_outcome (format_outcome source subject now)) _
            (clock ∷ h) made λ o. reported-Disciplined at none o _ made

  process_and_emit-Disciplined :
      (c : SourceConversation) (force : Bool) (at : Timestamp) (h : History)
      → Disciplined b importer h
      → Disciplined b importer (process_and_emit b importer c force at h).1
  unfolding process_and_emit
  process_and_emit-Disciplined c force at h d =
      let done = process-Disciplined b importer c force h d in
      bind-Disciplined b importer _ _ h done
        λ processed. reported-Disciplined at processed.1 processed.0 _ done

  run_from-Disciplined :
      (source : Source) (force : Bool) (events : List Event) (outcomes : List ConversationOutcome)
      (h : History)
      → Disciplined b importer h
      → Disciplined b importer (run_from b importer source force events outcomes h).1
  unfolding run_from
  run_from-Disciplined source force [] outcomes h d =
      bind-Disciplined b importer _ _ h (tt, d) λ _. (tt, d)
  run_from-Disciplined source force (broken ∷ events) outcomes h d =
      bind-Disciplined b importer _ _ h (tt, d) λ _. (tt, d)
  run_from-Disciplined source force (interrupted ∷ events) outcomes h d =
      bind-Disciplined b importer _ _ h (tt, d) λ _. (tt, d)
  run_from-Disciplined source force (format_error subject ∷ events) outcomes h d =
      bind-Disciplined b importer _ _ h (tt, d)
        λ started_at.
          let done = format_failure-Disciplined source subject started_at (clock ∷ h) (tt, d) in
          bind-Disciplined b importer _ _ _ done
            λ o. run_from-Disciplined source force events (outcomes ++ o ∷ []) _ done
  run_from-Disciplined source force (item c ∷ events) outcomes h d =
      bind-Disciplined b importer _ _ h (tt, d)
        λ started_at.
          let done = process_and_emit-Disciplined c force started_at (clock ∷ h) (tt, d) in
          bind-Disciplined b importer _ _ _ done
            λ o. run_from-Disciplined source force events (outcomes ++ o ∷ []) _ done

  pub run-Disciplined :
      (source : Source) (force : Bool) (events : Option (List Event))
      → Disciplined b importer (run b importer source force events []).1
  unfolding run
  run-Disciplined source force none = tt
  run-Disciplined source force (some events) = run_from-Disciplined source force events [] [] tt

  -- Whatever the boundaries answer, and whatever the source yields: every conversation sent to
  -- memory was stored in the archive by the call just before, and the archive had returned.
  pub retain_after_store :
      (source : Source) (force : Bool) (events : Option (List Event)) (later earlier : History)
      (e : EnrichedConversation)
      → (run b importer source force events []).1 ≡ later ++ retain e ∷ earlier
      → IsStored b importer e earlier
  retain_after_store source force events later earlier e split =
      Disciplined-split b importer later (retain e) earlier
        (subst (Disciplined b importer) split (run-Disciplined source force events))

  -- Whatever the boundaries answer: what is stored in the archive is the enrichment, with the tag
  -- that the classifier gave, of what the sanitizer returned just before.
  pub store_after_sanitize :
      (source : Source) (force : Bool) (events : Option (List Event)) (later earlier : History)
      (e : EnrichedConversation) (o : OriginalPayload)
      → (run b importer source force events []).1 ≡ later ++ store e o ∷ earlier
      → IsSanitized b importer e earlier
  store_after_sanitize source force events later earlier e o split =
      Disciplined-split b importer later (store e o) earlier
        (subst (Disciplined b importer) split (run-Disciplined source force events))

  -- Whatever the boundaries answer: the state is told that a conversation is imported only just
  -- after memory has returned from retaining it, sanitized and archived; the record then names the
  -- conversation as it was read, and holds the hash of that form. The state is never told of a
  -- skip.
  pub record_after_retain :
      (source : Source) (force : Bool) (events : Option (List Event)) (later earlier : History)
      (r : ImportRecord)
      → (run b importer source force events []).1 ≡ later ++ record_state r ∷ earlier
      → Confirms b importer r.status r earlier
  record_after_retain source force events later earlier r split =
      Disciplined-split b importer later (record_state r) earlier
        (subst (Disciplined b importer) split (run-Disciplined source force events))
