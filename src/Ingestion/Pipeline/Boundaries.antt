-- ===== src/Ingestion/Pipeline/Boundaries.antt =====
-- The boundaries that `IngestionPipeline` calls. A boundary may answer each call as it likes, also
-- by what was called before: an answer is a function of the calls made so far, the latest first.
use hermes_memory.Base.{ℕ, Bool, true, false, Option, List, ◌∷◌, Str, Result, ok, err}
use hermes_memory.Normalization.Values.{Timestamp}
use hermes_memory.Normalization.Conversation.{Source, Conversation}
use hermes_memory.Normalization.Provenance.{EnrichedConversation}
use hermes_memory.Sanitization.Report.{RedactionReport}
use hermes_memory.Ingestion.State.{ImportRecord}
use hermes_memory.Ingestion.Report.{ConversationOutcome}

-- `OriginalPayload` of archive/interface.py.
pub record OriginalPayload : Type 0 where
  pub content : List ℕ
  pub media_type : Str

-- `SourceConversation` of ingestion/source.py.
pub record SourceConversation : Type 0 where
  pub conversation : Conversation
  pub original : OriginalPayload

-- What a call does: it returns, raises an `Exception`, or is cancelled by another `BaseException`.
pub data Reply (A : Type 0) : Type 0 where
  returned : A → Reply A
  raised : Reply A
  cancelled : Reply A

pub data Call : Type 0 where
  clock : Call
  find : Source → Str → Call
  sanitize : Conversation → Call
  classify : Conversation → Call
  store : EnrichedConversation → OriginalPayload → Call
  retain : EnrichedConversation → Call
  record_state : ImportRecord → Call
  emit : ConversationOutcome → Option Str → Timestamp → Call

abbrev pub History : Type 0
History = List Call

pub record Boundaries : Type 0 where
  pub sha256 : List ℕ → Str
  pub on_clock : History → Timestamp
  pub on_find : History → Source → Str → Reply (Option ImportRecord)
  pub on_sanitize : History → Conversation → Reply (Conversation × RedactionReport)
  pub on_classify : History → Conversation → Reply Str
  pub on_store : History → EnrichedConversation → OriginalPayload → Reply Unit
  pub on_retain : History → EnrichedConversation → Reply Unit
  pub on_record : History → ImportRecord → Reply Unit
  pub on_emit : History → ConversationOutcome → Option Str → Timestamp → Reply Unit

-- Code that calls boundaries.
abbrev pub Action : Type 0 → Type 0
Action A = History → Reply A × History

abbrev pub call_find : Boundaries → Source → Str → Action (Option ImportRecord)
call_find b s i h = (b.on_find h s i, find s i ∷ h)

abbrev pub call_sanitize : Boundaries → Conversation → Action (Conversation × RedactionReport)
call_sanitize b c h = (b.on_sanitize h c, sanitize c ∷ h)

abbrev pub call_classify : Boundaries → Conversation → Action Str
call_classify b c h = (b.on_classify h c, classify c ∷ h)

abbrev pub call_store : Boundaries → EnrichedConversation → OriginalPayload → Action Unit
call_store b e o h = (b.on_store h e o, store e o ∷ h)

abbrev pub call_retain : Boundaries → EnrichedConversation → Action Unit
call_retain b e h = (b.on_retain h e, retain e ∷ h)

abbrev pub call_record : Boundaries → ImportRecord → Action Unit
call_record b r h = (b.on_record h r, record_state r ∷ h)

abbrev pub call_emit : Boundaries → ConversationOutcome → Option Str → Timestamp → Action Unit
call_emit b o p t h = (b.on_emit h o p t, emit o p t ∷ h)

-- The clock answers without failing.
abbrev pub now : Boundaries → History → Timestamp × History
now b h = (b.on_clock h, clock ∷ h)

abbrev pub call_clock : Boundaries → Action Timestamp
call_clock b h = let (at, h') = now b h in (returned at, h')

-- A pure step that may raise.
abbrev pub lift : {E A : Type 0} → Result E A → Action A
lift (ok a) h = (returned a, h)
lift (err e) h = (raised, h)

-- `m` and then `f`, outside of any handler.
abbrev pub and_then : {A B : Type 0} → Reply A → (A → Action B) → Action B
and_then (returned a) f h = f a h
and_then raised f h = (raised, h)
and_then cancelled f h = (cancelled, h)

infixl 5 ◌>>=◌
unfoldable pub ◌>>=◌ : {A B : Type 0} → Action A → (A → Action B) → Action B
◌>>=◌ m f h = let (answer, h') = m h in and_then answer f h'

abbrev pub pure : {A : Type 0} → A → Action A
pure a h = (returned a, h)

-- `try: ... except Exception: ...` around a statement: whether it raised.
abbrev pub caught : Reply Unit → Reply Bool
caught (returned _) = returned false
caught raised = returned true
caught cancelled = cancelled
