-- ===== src/Normalization/Tests.antt =====
-- Conversations to run the definitions on, and the theorems on the model applied to them.
use hermes_memory.Base.{
  ◌≡◌, ◌↔◌, refl, subst, true, Option, none, some, [], ◌∷◌, map, Str, codes, ok, err, arith,
}
use hermes_memory.Normalization.Values.{
  Civil, Timestamp, unusable_identifier, activity_before_start, opaque_identifier, is_unusable,
  is_space, text, is_surrogate, is_slug, before, lex_lt,
}
use hermes_memory.Normalization.Conversation.{
  chatgpt, codex, user, image, Message, Conversation, optional_text, filled_text, new_conversation,
  activity_follows_start, document_id,
}
use hermes_memory.Normalization.Identity.{document_id-injective}
use hermes_memory.Normalization.Tags.{source_tag}
use hermes_memory.Normalization.Rendering.{render-injective}
use hermes_memory.Normalization.Enrichment.{Importer, Enrichable, enrich, enriched_of, enrich_total}
use hermes_memory.Normalization.Canonical.{padded, format, canonical_form}
use hermes_memory.Normalization.Clock.{IsCivil}
use hermes_memory.Normalization.Coverage.{content_of, canonical_form-covers}

abbrev pub noon : Civil
noon = record {
  year = 2024;
  month = 3;
  day = 9;
  hour = 12;
  minute = 0;
  second = 0;
  microsecond = 0;
}

abbrev pub morning : Civil
morning = record {
  year = 2024;
  month = 3;
  day = 9;
  hour = 7;
  minute = 5;
  second = 30;
  microsecond = 12;
}

abbrev pub at_noon : Timestamp
at_noon = record { utc = noon; offset = 1440 }

-- The same instant, written an hour further east.
abbrev pub at_noon_east : Timestamp
at_noon_east = record { utc = noon; offset = 1500 }

abbrev pub in_the_morning : Timestamp
in_the_morning = record { utc = morning; offset = 1440 }

abbrev pub question : Timestamp → Message
question at = record {
  role = user;
  text = codes "my key is sk-abc";
  sent_at = some at;
  tool_activity = [];
  non_text_parts = (record { kind = image; name = none }) ∷ [];
}

abbrev pub titled : Option Str → Timestamp → Conversation
titled title at = record {
  source = chatgpt;
  source_id = codes "c:1";
  title = title;
  started_at = at_noon;
  last_activity_at = none;
  messages = question at ∷ [];
}

abbrev pub asked : Conversation
asked = titled (some (codes "Keys")) at_noon

abbrev pub importer : Importer
importer = record { importer_version = codes "0.1"; repository = none; user = some (codes "nkz") }

-- Tests

format-noon : format noon ≡ codes "2024-03-09T12:00:00.000000Z"
unfolding format padded
format-noon = refl

document_id_asked : document_id asked ≡ codes "chatgpt:c:1"
unfolding document_id
document_id_asked = refl

newline_in_id : opaque_identifier (codes "c\n1") ≡ err unusable_identifier
unfolding opaque_identifier is_unusable is_space
newline_in_id = refl

ends_before_start :
    new_conversation (record asked { last_activity_at = some in_the_morning })
    ≡ err activity_before_start
unfolding new_conversation opaque_identifier is_unusable is_space optional_text text is_surrogate
    activity_follows_start before lex_lt
ends_before_start = refl

-- Applications

IsCivil-noon : IsCivil noon
IsCivil-noon = record {
  year = omega arith;
  month = omega arith;
  day = omega arith;
  hour = omega arith;
  minute = omega arith;
  second = omega arith;
  microsecond = omega arith;
}

canonical_form-covers_example :
    (canonical_form asked ≡ canonical_form (titled none at_noon_east))
    ↔ (map content_of asked.messages ≡ map content_of (titled none at_noon_east).messages)
canonical_form-covers_example =
    canonical_form-covers asked (titled none at_noon_east) (IsCivil-noon, tt) (IsCivil-noon, tt)

document_id-injective_example :
    (asked.source ≡ (titled none at_noon).source)
    × (asked.source_id ≡ (titled none at_noon).source_id)
unfolding document_id
document_id-injective_example = document_id-injective asked (titled none at_noon) refl

render-injective_example : source_tag codex ≡ source_tag codex
render-injective_example = render-injective (source_tag codex) (source_tag codex) refl

Enrichable-asked : Enrichable asked (codes "orchard") importer
unfolding opaque_identifier is_unusable is_space optional_text filled_text text is_surrogate is_slug
Enrichable-asked = record {
  usable_id = refl;
  usable_title = refl;
  usable_project = refl;
  usable_repository = refl;
  usable_version = refl;
  usable_user = λ u h. let same : codes "nkz" ≡ u = cc in subst (λ v. is_slug v ≡ true) same refl;
}

enrich_total_example :
    enrich asked (codes "orchard") importer at_noon
    ≡ ok (enriched_of asked (codes "orchard") importer at_noon)
enrich_total_example = enrich_total asked (codes "orchard") importer at_noon Enrichable-asked
