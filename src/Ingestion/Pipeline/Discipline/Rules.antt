-- ===== src/Ingestion/Pipeline/Discipline/Rules.antt =====
-- What justifies a call, and how justification passes through the statements of `_process`.
use hermes_memory.Base.{◌≡◌, refl, [], ◌∷◌, ◌++◌, Str, Result, ok, err}
use hermes_memory.Normalization.Conversation.{Conversation, document_id}
use hermes_memory.Normalization.Provenance.{EnrichedConversation}
use hermes_memory.Normalization.Enrichment.{Importer, enrich}
use hermes_memory.Normalization.Canonical.{content_hash}
use hermes_memory.Sanitization.Report.{RedactionReport}
use hermes_memory.Ingestion.State.{ImportStatus, imported, skipped, failed, ImportRecord}
use hermes_memory.Ingestion.Pipeline.Boundaries.{
  OriginalPayload, Call, clock, sanitize, classify, store, retain, record_state, Reply, returned,
  raised, cancelled, History, Boundaries, Action, lift, and_then, ◌>>=◌,
}
use hermes_memory.Ingestion.Pipeline.Process.{Progress, Body, continue, step}

module _ (b : Boundaries) (importer : Importer) where
  -- `e` is the enrichment of what the sanitizer returned for a conversation, just now.
  pub record IsSanitized (e : EnrichedConversation) (h : History) : Type 0 where
    pub read : Conversation
    pub sanitized : Conversation
    pub report : RedactionReport
    pub project : Str
    pub rest : History
    pub calls : h ≡ clock ∷ classify sanitized ∷ sanitize read ∷ rest
    pub answered : b.on_sanitize rest read ≡ returned (sanitized, report)
    pub classified : b.on_classify (sanitize read ∷ rest) sanitized ≡ returned project
    pub enriched :
        enrich sanitized project importer (b.on_clock (classify sanitized ∷ sanitize read ∷ rest))
        ≡ ok e

  -- The call before stored `e` with its original, and returned.
  pub record IsStored (e : EnrichedConversation) (h : History) : Type 0 where
    pub original : OriginalPayload
    pub rest : History
    pub calls : h ≡ store e original ∷ rest
    pub stored : b.on_store rest e original ≡ returned tt

  -- Just before, a conversation was stored and retained, and memory returned; `r` names the
  -- conversation that it was sanitized from, and holds the hash of that one.
  pub record IsRetained (r : ImportRecord) (h : History) : Type 0 where
    pub enriched : EnrichedConversation
    pub original : OriginalPayload
    pub rest : History
    pub calls : h ≡ clock ∷ retain enriched ∷ store enriched original ∷ rest
    pub retained : b.on_retain (store enriched original ∷ rest) enriched ≡ returned tt
    pub sanitized : IsSanitized enriched rest
    pub same_source : r.source ≡ sanitized.read.source
    pub same_id : r.source_id ≡ sanitized.read.source_id
    pub same_document : r.document_id ≡ document_id sanitized.read
    pub hashed : content_hash b.sha256 sanitized.read ≡ ok r.content_hash

  abbrev pub Confirms : ImportStatus → ImportRecord → History → Type 0
  Confirms imported r h = IsRetained r h
  Confirms skipped r h = ⊥
  Confirms failed r h = Unit

  abbrev pub Justified : Call → History → Type 0
  Justified (store e o) h = IsSanitized e h
  Justified (retain e) h = IsStored e h
  Justified (record_state r) h = Confirms r.status r h
  Justified _ h = Unit

  abbrev pub Disciplined : History → Type 0
  Disciplined [] = Unit
  Disciplined (call ∷ h) = Justified call h × Disciplined h

  pub Disciplined-split :
      (later : History) (call : Call) (earlier : History)
      → Disciplined (later ++ call ∷ earlier)
      → Justified call earlier
  Disciplined-split [] call earlier d = d.0
  Disciplined-split (c ∷ later) call earlier d = Disciplined-split later call earlier d.1

  continue-Disciplined :
      {A : Type 0} (r : Reply A) (p : Progress) (k : A → Body) (h : History)
      → Disciplined h
      → ((a : A) → r ≡ returned a → Disciplined (k a h).1)
      → Disciplined (continue r p k h).1
  continue-Disciplined (returned a) p k h d next = next a refl
  continue-Disciplined raised p k h d next = d
  continue-Disciplined cancelled p k h d next = d

  pub step-Disciplined :
      {A : Type 0} (p : Progress) (m : Action A) (k : A → Body) (h : History)
      → Disciplined (m h).1
      → ((a : A) → (m h).0 ≡ returned a → Disciplined (k a (m h).1).1)
      → Disciplined (step p m k h).1
  unfolding step
  step-Disciplined p m k h d next = continue-Disciplined (m h).0 p k (m h).1 d next

  pub lift-Disciplined :
      {E A : Type 0} (r : Result E A) (p : Progress) (k : A → Body) (h : History)
      → Disciplined h
      → ((a : A) → r ≡ ok a → Disciplined (k a h).1)
      → Disciplined (step p (lift r) k h).1
  unfolding step
  lift-Disciplined (ok a) p k h d next = next a refl
  lift-Disciplined (err e) p k h d next = d

  and_then-Disciplined :
      {A B : Type 0} (r : Reply A) (f : A → Action B) (h : History)
      → Disciplined h
      → ((a : A) → Disciplined (f a h).1)
      → Disciplined (and_then r f h).1
  and_then-Disciplined (returned a) f h d next = next a
  and_then-Disciplined raised f h d next = d
  and_then-Disciplined cancelled f h d next = d

  pub bind-Disciplined :
      {A B : Type 0} (m : Action A) (f : A → Action B) (h : History)
      → Disciplined (m h).1
      → ((a : A) → Disciplined (f a (m h).1).1)
      → Disciplined ((m >>= f) h).1
  unfolding ◌>>=◌
  bind-Disciplined m f h d next = and_then-Disciplined (m h).0 f (m h).1 d next
