-- ===== src/Ingestion/Pipeline/Outcomes/Whole.antt =====
-- The outcomes of a run, in the order of its source.
use hermes_memory.Base.{
  ◌≡◌, refl, subst, Bool, true, Option, none, some, List, [], ◌∷◌, ◌++◌, append_assoc, append-nil,
  Str,
}
use hermes_memory.Normalization.Values.{Timestamp}
use hermes_memory.Normalization.Conversation.{Source}
use hermes_memory.Normalization.Enrichment.{Importer}
use hermes_memory.Ingestion.State.{failed}
use hermes_memory.Ingestion.Report.{
  Stage, source as source_stage, ConversationOutcome, has_diagnostics, RunReport,
}
use hermes_memory.Ingestion.Pipeline.Boundaries.{
  SourceConversation, clock, Reply, History, Boundaries,
}
use hermes_memory.Ingestion.Pipeline.Process.{new_outcome}
use hermes_memory.Ingestion.Pipeline.Run.{
  Event, item, format_error, broken, interrupted, usable_identity, format_outcome, format_failure,
  process_and_emit, run_from, run,
}
use hermes_memory.Ingestion.Pipeline.Outcomes.Each.{
  Yields, bind-Yields, Describes, new_outcome-Yields, process-Yields, reported-Yields,
}

-- Where a run has got to: what it reports of each event, up to the first that ends it.
abbrev pub Reports : Event → ConversationOutcome → Type 0
Reports (item c) o = Describes c.conversation o
Reports (format_error subject) o =
    (o.source_id ≡ usable_identity subject)
    × (o.status ≡ failed)
    × (o.error ≡ some source_stage)
    × (has_diagnostics o ≡ true)
Reports broken o = ⊥
Reports interrupted o = ⊥

-- The events that the run reports, and whether it ended with a terminal error.
abbrev pub reported_events : List Event → List Event
reported_events [] = []
reported_events (item c ∷ events) = item c ∷ reported_events events
reported_events (format_error s ∷ events) = format_error s ∷ reported_events events
reported_events (broken ∷ events) = []
reported_events (interrupted ∷ events) = []

abbrev pub terminal : List Event → Option Stage
terminal [] = none
terminal (item c ∷ events) = terminal events
terminal (format_error s ∷ events) = terminal events
terminal (broken ∷ events) = some source_stage
terminal (interrupted ∷ events) = none

abbrev pub Matches : List Event → List ConversationOutcome → Type 0
Matches [] [] = Unit
Matches [] (o ∷ os) = ⊥
Matches (e ∷ es) [] = ⊥
Matches (e ∷ es) (o ∷ os) = Reports e o × Matches es os

Matches-append :
    (es : List Event) (os : List ConversationOutcome) (fs : List Event)
    (ps : List ConversationOutcome)
    → Matches es os
    → Matches fs ps
    → Matches (es ++ fs) (os ++ ps)
Matches-append [] [] fs ps m n = n
Matches-append [] (o ∷ os) fs ps m n = absurd m
Matches-append (e ∷ es) [] fs ps m n = absurd m
Matches-append (e ∷ es) (o ∷ os) fs ps m n = (m.0, Matches-append es os fs ps m.1 n)

module _ (b : Boundaries) (importer : Importer) where
  process_and_emit-Yields :
      (c : SourceConversation) (force : Bool) (at : Timestamp) (h : History)
      → Yields (Reports (item c)) (process_and_emit b importer c force at h).0
  unfolding process_and_emit
  process_and_emit-Yields c force at h =
      bind-Yields (λ p. Describes c.conversation p.0) (Reports (item c)) _ _ h
        (process-Yields b importer c force h)
        λ p y. reported-Yields b importer (Reports (item c)) at p.1 p.0 _ y

  diagnosed_format :
      (source : Source) (subject : Option Str) (at : Timestamp)
      → has_diagnostics (format_outcome source subject at) ≡ true
  unfolding has_diagnostics format_outcome
  diagnosed_format source subject at = refl

  format_failure-Yields :
      (source : Source) (subject : Option Str) (at : Timestamp) (h : History)
      → Yields (Reports (format_error subject)) (format_failure b importer source subject at h).0
  unfolding format_failure
  format_failure-Yields source subject at h =
      bind-Yields (λ _. Unit) (Reports (format_error subject)) _ _ h tt
        λ now _.
          let o = format_outcome source subject now in
          let d = diagnosed_format source subject now in
          let made : Yields (Reports (format_error subject)) (new_outcome o (clock ∷ h)).0 =
            rw (new_outcome-Yields o (clock ∷ h) d)
              (unfold format_outcome in (refl, refl, refl, d)) in
          bind-Yields (Reports (format_error subject)) (Reports (format_error subject))
            (new_outcome o) _ _ made
            λ o' y. reported-Yields b importer (Reports (format_error subject)) at none o' _ y

  abbrev Faithful : List Event → Option Stage → RunReport → Type 0
  Faithful events end r = Matches events r.outcomes × (r.terminal_error ≡ end)

  regroup :
      (done : List Event) (e : Event) (rest : List Event) (end : Option Stage) (r : Reply RunReport)
      → Yields (Faithful ((done ++ e ∷ []) ++ rest) end) r
      → Yields (Faithful (done ++ e ∷ rest) end) r
  regroup done e rest end r y =
      subst (λ l. Yields (Faithful l end) r) (append_assoc done (e ∷ []) rest) y

  run_from-Yields :
      (source : Source) (force : Bool) (events done : List Event)
      (outcomes : List ConversationOutcome) (h : History)
      → Matches done outcomes
      → Yields
          (Faithful (done ++ reported_events events) (terminal events))
          (run_from b importer source force events outcomes h).0
  unfolding run_from
  run_from-Yields source force [] done outcomes h m =
      bind-Yields (λ _. Unit) _ _ _ h tt λ _ _. (rw append-nil m, refl)
  run_from-Yields source force (broken ∷ events) done outcomes h m =
      bind-Yields (λ _. Unit) _ _ _ h tt λ _ _. (rw append-nil m, refl)
  run_from-Yields source force (interrupted ∷ events) done outcomes h m =
      bind-Yields (λ _. Unit) _ _ _ h tt λ _ _. tt
  run_from-Yields source force (format_error subject ∷ events) done outcomes h m =
      let e = format_error subject in
      bind-Yields (λ _. Unit) _ _ _ h tt
        λ at _. bind-Yields (Reports e) _ _ _ _ (format_failure-Yields source subject at _) λ o y.
          regroup done e (reported_events events) (terminal events) _ (
            run_from-Yields source force events (done ++ e ∷ []) (outcomes ++ o ∷ []) _
              (Matches-append done outcomes (e ∷ []) (o ∷ []) m (y, tt)))
  run_from-Yields source force (item c ∷ events) done outcomes h m =
      let e = item c in
      bind-Yields (λ _. Unit) _ _ _ h tt
        λ at _. bind-Yields (Reports e) _ _ _ _ (process_and_emit-Yields c force at _) λ o y.
          regroup done e (reported_events events) (terminal events) _ (
            run_from-Yields source force events (done ++ e ∷ []) (outcomes ++ o ∷ []) _
              (Matches-append done outcomes (e ∷ []) (o ∷ []) m (y, tt)))

  -- Whatever the boundaries answer, a run over a source that can be opened raises no exception.
  -- If it is not cancelled, its report holds exactly one outcome for each conversation and each
  -- unreadable record that the source yields before it breaks or ends, in the source's order;
  -- each outcome names its conversation, or for an unreadable record the identifier if it is
  -- usable, and is one that the report's validator accepts; and the terminal error is there
  -- exactly if the source broke.
  pub run_reports :
      (source : Source) (force : Bool) (events : List Event)
      → Yields
          (λ (r : RunReport).
            Matches (reported_events events) r.outcomes × (r.terminal_error ≡ terminal events))
          (run b importer source force (some events) []).0
  unfolding run
  run_reports source force events = run_from-Yields source force events [] [] [] tt
