-- ===== src/Ingestion/Pipeline/Run.antt =====
-- `run` of pipeline.py: every conversation of a source, in order.
use hermes_memory.Base.{Bool, false, Option, none, some, List, [], ◌∷◌, ◌++◌, Str, ok, err}
use hermes_memory.Normalization.Values.{Timestamp, opaque_identifier}
use hermes_memory.Normalization.Conversation.{Source}
use hermes_memory.Normalization.Enrichment.{Importer}
use hermes_memory.Ingestion.State.{failed}
use hermes_memory.Ingestion.Report.{source as source_stage, ConversationOutcome, RunReport}
use hermes_memory.Ingestion.Pipeline.Boundaries.{
  SourceConversation, Reply, returned, raised, cancelled, Boundaries, Action, call_clock, call_emit,
  ◌>>=◌, pure,
}
use hermes_memory.Ingestion.Pipeline.Process.{new_outcome, process}

-- What one `next(reader)` does, `StopIteration` excepted. A `SourceFormatError` has its subject.
pub data Event : Type 0 where
  item : SourceConversation → Event
  format_error : Option Str → Event
  broken : Event
  interrupted : Event

-- `_usable_identity`
unfoldable pub usable_identity : Option Str → Option Str
unfolding opaque_identifier
usable_identity none = none
usable_identity (some subject) = elim (opaque_identifier subject) [
  | ok value ↦ some value
  | err e ↦ none
]

unfoldable pub format_outcome : Source → Option Str → Timestamp → ConversationOutcome
unfolding usable_identity
format_outcome source subject at = record {
  source = source;
  source_id = usable_identity subject;
  document_id = none;
  status = failed;
  completed_at = at;
  error = some source_stage;
  state_record_failed = false;
}

module _ (b : Boundaries) (importer : Importer) where
  -- `_try_emit`: an exception of the sink is suppressed.
  abbrev pub suppressed : Reply Unit → Reply Unit
  suppressed (returned _) = returned tt
  suppressed raised = returned tt
  suppressed cancelled = cancelled

  unfoldable pub try_emit : ConversationOutcome → Option Str → Timestamp → Action Unit
  try_emit o project started_at h =
      let (answer, h') = call_emit b o project started_at h in (suppressed answer, h')

  -- The outcome of one event, its diagnostic emitted.
  unfoldable pub reported :
      Timestamp → Option Str → ConversationOutcome → Action ConversationOutcome
  reported started_at project o = do _ ← try_emit o project started_at; pure o

  unfoldable pub format_failure : Source → Option Str → Timestamp → Action ConversationOutcome
  format_failure source subject started_at = do
    at ← call_clock b
    o ← new_outcome (format_outcome source subject at)
    reported started_at none o

  unfoldable pub process_and_emit :
      SourceConversation → Bool → Timestamp → Action ConversationOutcome
  process_and_emit c force started_at = do
    processed ← process b importer c force
    reported started_at processed.1 processed.0

  -- The `while True` loop: each round reads the clock before it asks the reader.
  unfoldable pub run_from : Source → Bool → List Event → List ConversationOutcome → Action RunReport
  run_from source force [] outcomes = do
    _ ← call_clock b
    pure (record { outcomes = outcomes; terminal_error = none })
  run_from source force (broken ∷ events) outcomes = do
    _ ← call_clock b
    pure (record { outcomes = outcomes; terminal_error = some source_stage })
  run_from source force (interrupted ∷ events) outcomes = do _ ← call_clock b; λ h. (cancelled, h)
  run_from source force (format_error subject ∷ events) outcomes = do
    started_at ← call_clock b
    o ← format_failure source subject started_at
    run_from source force events (outcomes ++ o ∷ [])
  run_from source force (item c ∷ events) outcomes = do
    started_at ← call_clock b
    o ← process_and_emit c force started_at
    run_from source force events (outcomes ++ o ∷ [])

  -- `none` stands for a source whose `read()` raises.
  unfoldable pub run : Source → Bool → Option (List Event) → Action RunReport
  run source force none h =
      (returned (record { outcomes = []; terminal_error = some source_stage }), h)
  run source force (some events) h = run_from source force events [] h
