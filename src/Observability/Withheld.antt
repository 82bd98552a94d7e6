-- ===== src/Observability/Withheld.antt =====
-- What a record does not show (src/engineering_memory/observability/redaction.py).
use hermes_memory.Base.{
  ℕ, ◌+◌, ◌<◌, lt→ltb, ◌≡◌, refl, sym, ap, ap₂, ◌∙◌, Bool, true, false, Option, none, some, Str,
  arith,
}
use hermes_memory.Observability.{
  Value, secret, conversation_content, mapping, sequence, Entries, no_entries, with_entry, Values,
  no_values, with_value, Emitted, emit_string, redacted_marker, emit_value,
}
use hermes_memory.Observability.Names.{is_sensitive_name}
use hermes_memory.Observability.Redaction.{
  Sweep, max_depth, redact_shapes, render_content, is_withheld, mapping_of, sequence_of, entry_of,
  guarded, inspect, redact_entries, redact_values, redact_record,
}

-- Values that differ only where a record is not to show them: below the depth that the walk goes to,
-- under a name that says so, in secrets, and, while the flag is off, in the content of conversations.
mutual
  pub data Alike (w : Sweep) (include : Bool) : ℕ → Option Str → Value → Value → Type 0 where
    too_deep : (d : ℕ) (k : Option Str) (a b : Value) → max_depth < d → Alike w include d k a b
    sensitive :
        (d : ℕ) (key : Str) (a b : Value)
        → is_sensitive_name w.lower key ≡ true
        → Alike w include d (some key) a b
    secrets : (d : ℕ) (k : Option Str) (s t : Str) → Alike w include d k (secret s) (secret t)
    contents :
        (d : ℕ) (k : Option Str) (s t : Str)
        → include ≡ false
        → Alike w include d k (conversation_content s) (conversation_content t)
    same : (d : ℕ) (k : Option Str) (a : Value) → Alike w include d k a a
    mappings :
        (d : ℕ) (k : Option Str) (as' bs : Entries)
        → AlikeEntries w include (d + 1) as' bs
        → Alike w include d k (mapping as') (mapping bs)
    sequences :
        (d : ℕ) (k : Option Str) (as' bs : Values)
        → AlikeValues w include (d + 1) as' bs
        → Alike w include d k (sequence as') (sequence bs)

  pub data AlikeEntries (w : Sweep) (include : Bool) : ℕ → Entries → Entries → Type 0 where
    none_left : (d : ℕ) → AlikeEntries w include d no_entries no_entries
    entry_first :
        (d : ℕ) (k : Option Str) (a b : Value) (as' bs : Entries)
        → Alike w include d k a b
        → AlikeEntries w include d as' bs
        → AlikeEntries w include d (with_entry k a as') (with_entry k b bs)

  pub data AlikeValues (w : Sweep) (include : Bool) : ℕ → Values → Values → Type 0 where
    no_more : (d : ℕ) → AlikeValues w include d no_values no_values
    value_first :
        (d : ℕ) (a b : Value) (as' bs : Values)
        → Alike w include d none a b
        → AlikeValues w include d as' bs
        → AlikeValues w include d (with_value a as') (with_value b bs)

module _ (w : Sweep) (include : Bool) where
  guarded_deep :
      (d : ℕ) (k : Option Str) (x : Option Emitted)
      → max_depth < d
      → guarded w d k x ≡ emit_string redacted_marker
  unfolding guarded
  guarded_deep d k x h = let deep = lt→ltb max_depth d h in rw deep refl

  guarded_name :
      (d : ℕ) (key : Str) (x : Option Emitted)
      → is_sensitive_name w.lower key ≡ true
      → guarded w d (some key) x ≡ emit_string redacted_marker
  unfolding guarded is_withheld
  guarded_name d key x h = ground arith

  content_withheld :
      (s t : Str) → include ≡ false → render_content w include s ≡ render_content w include t
  unfolding render_content
  content_withheld s t off = rw off refl

  mutual
    unfolding inspect

    redact-Alike :
        (d : ℕ) (k : Option Str) (a b : Value)
        → Alike w include d k a b
        → guarded w d k (inspect w include d a) ≡ guarded w d k (inspect w include d b)
    redact-Alike d k a b (too_deep _ _ _ _ h) =
        guarded_deep d k (inspect w include d a) h
        ∙ sym (guarded_deep d k (inspect w include d b) h)
    redact-Alike d k a b (sensitive _ key _ _ h) =
        guarded_name d key (inspect w include d a) h
        ∙ sym (guarded_name d key (inspect w include d b) h)
    redact-Alike d k a b (secrets _ _ s t) = refl
    redact-Alike d k a b (contents _ _ s t off) =
        ap (λ x. guarded w d k (some (emit_string x))) (content_withheld s t off)
    redact-Alike d k a b (same _ _ _) = refl
    redact-Alike d k a b (mappings _ _ as' bs alike) =
        ap (λ es. guarded w d k (mapping_of es)) (redact_entries-Alike (d + 1) as' bs alike)
    redact-Alike d k a b (sequences _ _ as' bs alike) =
        ap (λ vs. guarded w d k (sequence_of vs)) (redact_values-Alike (d + 1) as' bs alike)

    redact_entries-Alike :
        (d : ℕ) (as' bs : Entries)
        → AlikeEntries w include d as' bs
        → redact_entries w include d as' ≡ redact_entries w include d bs
    redact_entries-Alike d as' bs (none_left _) = refl
    redact_entries-Alike d as' bs (entry_first _ none a b as'' bs' alike rest) = refl
    redact_entries-Alike d as' bs (entry_first _ (some key) a b as'' bs' alike rest) =
        ap₂ (λ e es. entry_of (redact_shapes w key) e es) (redact-Alike d (some key) a b alike)
          (redact_entries-Alike d as'' bs' rest)

    redact_values-Alike :
        (d : ℕ) (as' bs : Values)
        → AlikeValues w include d as' bs
        → redact_values w include d as' ≡ redact_values w include d bs
    redact_values-Alike d as' bs (no_more _) = refl
    redact_values-Alike d as' bs (value_first _ a b as'' bs' alike rest) =
        ap₂ emit_value (redact-Alike d none a b alike) (redact_values-Alike d as'' bs' rest)

  -- Two records that differ only in what is not to be shown are emitted alike: in values that lie
  -- deeper than the sixth level, in values whose name is that of a credential, in secrets, and, while
  -- the flag is off, in the content of conversations, wherever in the record these stand.
  pub redact_record-Alike :
      (as' bs : Entries)
      → AlikeEntries w include 0 as' bs
      → redact_record w include as' ≡ redact_record w include bs
  unfolding redact_record
  redact_record-Alike as' bs alike = redact_entries-Alike 0 as' bs alike
