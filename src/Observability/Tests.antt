-- ===== src/Observability/Tests.antt =====
-- Names and records of a log.
use hermes_memory.Base.{◌≡◌, refl, true, false, some, [], Str, codes, Str-discrete, ℕ_discrete}
use hermes_memory.Observability.{
  secret, conversation_content, string, mapping, Entries, no_entries, with_entry, emit_string,
  emit_mapping, emit_entry, emit_no_entries, redacted_marker, content_redacted,
}
use hermes_memory.Observability.Names.{is_sensitive_name, segments, segments_from, has_pair}
use hermes_memory.Observability.Redaction.{
  Sweep, redact_record, redact_entries, guarded, is_withheld, render_content, redact_shapes,
}
use hermes_memory.Observability.Withheld.{
  secrets, sensitive, contents, same, mappings, AlikeEntries, none_left, entry_first,
  redact_record-Alike,
}

-- No pattern matches here, and all names are in lower case.
abbrev plain : Sweep
plain = record { lower = λ s. s; decode = λ b. b; patterns = [] }

api_key_is_sensitive : is_sensitive_name plain.lower (codes "x-api_key") ≡ true
unfolding is_sensitive_name segments segments_from has_pair Str-discrete ℕ_discrete
api_key_is_sensitive = refl

sort_key_is_not : is_sensitive_name plain.lower (codes "sort_key") ≡ false
unfolding is_sensitive_name segments segments_from has_pair Str-discrete ℕ_discrete
sort_key_is_not = refl

author_is_not : is_sensitive_name plain.lower (codes "author") ≡ false
unfolding is_sensitive_name segments segments_from has_pair Str-discrete ℕ_discrete
author_is_not = refl

abbrev logged : Str → Str → Str → Entries
logged token hidden said = with_entry (some (codes "event")) (string (codes "sent")) (
    with_entry (some (codes "headers"))
      (mapping (
        with_entry (some (codes "auth_token")) (string token)
          (with_entry (some (codes "bank")) (secret hidden) no_entries)))
      (with_entry (some (codes "body")) (conversation_content said) no_entries))

logged_record :
    redact_record plain false (logged (codes "t") (codes "h") (codes "s"))
    ≡ some (
        emit_entry (codes "event") (emit_string (codes "sent")) (
          emit_entry
            (codes "headers")
            (emit_mapping (
              emit_entry
                (codes "auth_token")
                (emit_string redacted_marker)
                (emit_entry (codes "bank") (emit_string redacted_marker) emit_no_entries)))
            (emit_entry (codes "body") (emit_string content_redacted) emit_no_entries)))
unfolding redact_record redact_entries guarded is_withheld render_content redact_shapes
    is_sensitive_name segments segments_from has_pair Str-discrete ℕ_discrete
logged_record = refl

logged-Alike :
    AlikeEntries plain false 0
      (logged (codes "t") (codes "h") (codes "s"))
      (logged (codes "u") (codes "i") (codes "r"))
unfolding is_sensitive_name segments segments_from has_pair Str-discrete ℕ_discrete
logged-Alike = entry_first _ _ _ _ _ _ (same _ _ _) (
    entry_first _ _ _ _ _ _
      (mappings _ _ _ _ (
        entry_first _ _ _ _ _ _ (sensitive _ _ _ _ refl)
          (entry_first _ _ _ _ _ _ (secrets _ _ _ _) (none_left _))))
      (entry_first _ _ _ _ _ _ (contents _ _ _ _ refl) (none_left _)))

redact_record-Alike_example :
    redact_record plain false (logged (codes "t") (codes "h") (codes "s"))
    ≡ redact_record plain false (logged (codes "u") (codes "i") (codes "r"))
redact_record-Alike_example =
    redact_record-Alike plain false (logged (codes "t") (codes "h") (codes "s"))
      (logged (codes "u") (codes "i") (codes "r")) logged-Alike
