-- ===== src/Ingestion/Tests.antt =====
-- A run over boundaries that all answer, and the theorems on the pipeline applied to it.
use hermes_memory.Base.{
  ap, if◌then◌else◌, holds, ◌&&◌, ◌≡◌, ◌↔◌, refl, true, false, Option, none, some, List, [], ◌∷◌,
  ◌++◌, Str, codes, str_eq, ok, ℕ_discrete, Str-discrete,
}
use hermes_memory.Normalization.Values.{
  opaque_identifier, is_unusable, is_space, text, is_surrogate, slug, is_slug,
}
use hermes_memory.Normalization.Conversation.{
  Source, chatgpt, Source-discrete, optional_text, filled_text, document_id,
}
use hermes_memory.Normalization.Tags.{Tag-discrete, new_tag}
use hermes_memory.Normalization.Provenance.{
  EnrichedConversation, new_provenance, new_enriched, describes, agrees, all_agree, distinct,
}
use hermes_memory.Normalization.Enrichment.{enrich, user_tags, enriched_of}
use hermes_memory.Normalization.Canonical.{content_hash}
use hermes_memory.Normalization.Tests.{asked, at_noon, importer}
use hermes_memory.Ingestion.State.{
  is_skipped, is_failed, has_error_text, new_import_record-explains, ImportRecord, imported,
  skipped, new_import_record, status_is_recordable, may_skip,
}
use hermes_memory.Ingestion.Report.{
  ConversationOutcome, RunReport, success, failure, run_status, IsClean, AllFailed, run_status_lem,
  has_diagnostics,
}
use hermes_memory.Ingestion.Pipeline.Boundaries.{
  OriginalPayload, SourceConversation, returned, clock, find, sanitize, classify, store, retain,
  record_state, emit, History, Boundaries, ◌>>=◌ as and_bind,
}
use hermes_memory.Ingestion.Pipeline.Process.{
  step, new_outcome, outcome_of, make_outcome, record_of, enrich_and_keep, skip_or_import, attempt,
  conclude, process,
}
use hermes_memory.Ingestion.Pipeline.Run.{
  Event, item, format_error, broken, format_outcome, try_emit, reported, process_and_emit, run_from,
  run,
}
use hermes_memory.Ingestion.Pipeline.Discipline.Rules.{IsSanitized, IsStored, Confirms}
use hermes_memory.Ingestion.Pipeline.Discipline.Order.{
  retain_after_store, store_after_sanitize, record_after_retain,
}
use hermes_memory.Ingestion.Pipeline.Outcomes.Each.{Yields}
use hermes_memory.Ingestion.Pipeline.Outcomes.Whole.{
  Matches, reported_events, terminal, run_reports,
}
use hermes_memory.Ingestion.Pipeline.Skips.{latest, Remembers, reimport_skips}
use hermes_memory.Ingestion.Pipeline.Skipped.{WasImported, process-WasImported}

abbrev digest : Str
digest = codes "0af3"

-- A state that keeps the contract: it answers with the last record that it was told of.
abbrev remembered : Source → Str → History → Option ImportRecord
remembered s i [] = none
remembered s i (record_state r ∷ h) =
    if holds (Source-discrete r.source s) && (str_eq r.source_id i && true)
    then some r
    else remembered s i h
remembered s i (_ ∷ h) = remembered s i h

abbrev working : Boundaries
working = record {
  sha256 = λ bytes. digest;
  on_clock = λ h. at_noon;
  on_find = λ h s i. returned (remembered s i h);
  on_sanitize = λ h c. returned (c, record { counts = [] });
  on_classify = λ h c. returned (codes "orchard");
  on_store = λ h e o. returned tt;
  on_retain = λ h e. returned tt;
  on_record = λ h r. returned tt;
  on_emit = λ h o p t. returned tt;
}

abbrev original : OriginalPayload
original = record { content = 123 ∷ 125 ∷ []; media_type = codes "application/json" }

abbrev read : SourceConversation
read = record { conversation = asked; original = original }

abbrev enriched : EnrichedConversation
enriched = enriched_of asked (codes "orchard") importer at_noon

abbrev written : ImportRecord
written = record_of asked digest imported none at_noon

abbrev outcome : ConversationOutcome
outcome = outcome_of asked imported none false at_noon

abbrev looked_up : History
looked_up = find chatgpt (codes "c:1") ∷ clock ∷ []

abbrev before_store : History
before_store = clock ∷ classify asked ∷ sanitize asked ∷ looked_up

abbrev before_record : History
before_record = clock ∷ retain enriched ∷ store enriched original ∷ before_store

abbrev after_record : History
after_record = clock ∷ emit outcome (some (codes "orchard")) at_noon ∷ clock ∷ []

abbrev events : List Event
events = item read ∷ []

run_calls :
    (run working importer chatgpt false (some events) []).1
    ≡ after_record ++ record_state written ∷ before_record
unfolding run run_from process_and_emit reported try_emit process attempt skip_or_import
    enrich_and_keep conclude make_outcome new_outcome step content_hash may_skip enrich user_tags
    new_tag slug is_slug new_provenance new_enriched describes agrees all_agree distinct
    new_import_record status_is_recordable opaque_identifier is_unusable is_space optional_text
    filled_text text is_surrogate has_diagnostics Source-discrete Str-discrete Tag-discrete
    ℕ_discrete and_bind document_id
run_calls = refl

process_imports :
    (process working importer read false []).0 ≡ returned (outcome, some (codes "orchard"))
unfolding process attempt skip_or_import enrich_and_keep conclude make_outcome new_outcome step
    content_hash may_skip enrich user_tags new_tag slug is_slug new_provenance new_enriched
    describes agrees all_agree distinct new_import_record status_is_recordable opaque_identifier
    is_unusable is_space optional_text filled_text text is_surrogate has_diagnostics Source-discrete
    Str-discrete Tag-discrete ℕ_discrete and_bind document_id
process_imports = refl

remembered-latest : (s : Source) (i : Str) (h : History) → remembered s i h ≡ latest working s i h
remembered-latest s i [] = refl
remembered-latest s i (record_state r ∷ h) = rw (remembered-latest s i h) refl
remembered-latest s i (clock ∷ h) = remembered-latest s i h
remembered-latest s i (find _ _ ∷ h) = remembered-latest s i h
remembered-latest s i (sanitize _ ∷ h) = remembered-latest s i h
remembered-latest s i (classify _ ∷ h) = remembered-latest s i h
remembered-latest s i (store _ _ ∷ h) = remembered-latest s i h
remembered-latest s i (retain _ ∷ h) = remembered-latest s i h
remembered-latest s i (emit _ _ _ ∷ h) = remembered-latest s i h

working-Remembers : Remembers working
working-Remembers h s i = ap returned (remembered-latest s i h)

-- A record that cannot be read, after one that can; the source breaks on the third.
abbrev troubled : List Event
troubled = item read ∷ format_error (some (codes "c 2")) ∷ broken ∷ item read ∷ []

abbrev report : RunReport
report = record {
  outcomes = outcome ∷ format_outcome chatgpt (some (codes "c2")) at_noon ∷ [];
  terminal_error = none;
}

-- Applications

retain_after_store_example :
    IsStored working importer enriched (store enriched original ∷ before_store)
retain_after_store_example =
    retain_after_store working importer chatgpt false (some events)
      (after_record ++ record_state written ∷ clock ∷ []) (store enriched original ∷ before_store)
      enriched run_calls

store_after_sanitize_example : IsSanitized working importer enriched before_store
store_after_sanitize_example =
    store_after_sanitize working importer chatgpt false (some events)
      (after_record ++ record_state written ∷ clock ∷ retain enriched ∷ []) before_store enriched
      original run_calls

record_after_retain_example : Confirms working importer imported written before_record
record_after_retain_example =
    record_after_retain working importer chatgpt false (some events) after_record before_record
      written run_calls

run_reports_example :
    Yields
      (λ (r : RunReport).
        Matches (reported_events troubled) r.outcomes × (r.terminal_error ≡ terminal troubled))
      (run working importer chatgpt false (some troubled) []).0
run_reports_example = run_reports working importer chatgpt false troubled

hashed : content_hash working.sha256 asked ≡ ok digest
unfolding content_hash
hashed = refl

found_again :
    working.on_find (record_state written ∷ []) chatgpt (codes "c:1") ≡ returned (some written)
unfolding Source-discrete Str-discrete ℕ_discrete
found_again = refl

skips_again :
    (process working importer read false (record_state written ∷ [])).0
    ≡ returned (outcome_of asked skipped none false at_noon, none)
unfolding process attempt step skip_or_import make_outcome new_outcome conclude may_skip
    has_diagnostics content_hash Source-discrete Str-discrete ℕ_discrete
skips_again = refl

process-WasImported_example :
    let h = record_state written ∷ [] in
    WasImported working asked false h (process working importer read false h).1
process-WasImported_example =
    process-WasImported working importer read false (record_state written ∷ [])
      (outcome_of asked skipped none false at_noon) none skips_again refl

reimport_skips_example :
    let h = (process working importer read false []).1 in
    let looked_up' = find chatgpt (codes "c:1") ∷ h in
    process working importer read false h
    ≡ (returned (outcome_of asked skipped none false at_noon, none), clock ∷ looked_up')
reimport_skips_example =
    reimport_skips working importer read false [] outcome (some (codes "orchard")) working-Remembers
      process_imports refl

run_status_lem_example :
    ((run_status report ≡ success) ↔ IsClean report)
    × ((run_status report ≡ failure) ↔ (¬ IsClean report) × AllFailed report)
run_status_lem_example = run_status_lem report

written_accepted : new_import_record written ≡ ok written
unfolding new_import_record status_is_recordable opaque_identifier is_unusable is_space
    optional_text filled_text text is_surrogate document_id
written_accepted = refl

new_import_record-explains_example :
    (written ≡ written)
    × (is_skipped written.status ≡ false)
    × (has_error_text written.error ≡ is_failed written.status)
new_import_record-explains_example = new_import_record-explains written written_accepted
