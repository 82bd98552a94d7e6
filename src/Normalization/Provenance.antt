-- ===== src/Normalization/Provenance.antt =====
-- src/engineering_memory/normalization/provenance.py
use hermes_memory.Base.{
  Bool, true, not, ◌&&◌, Option, List, [], ◌∷◌, Str, str_eq, holds, any, if◌then◌else◌, ok, err,
  ◌>>=◌, require,
}
use hermes_memory.Normalization.Values.{
  Valid, opaque_identifier, slug, Timestamp, provenance_source, provenance_source_id, tag_source,
  tag_project, duplicate_tag,
}
use hermes_memory.Normalization.Conversation.{
  Source, Source-discrete, Conversation, optional_text, filled_text, document_id,
}
use hermes_memory.Normalization.Tags.{Tag, Tag-discrete, source_tag, project_tag}

pub record Provenance : Type 0 where
  pub source : Source
  pub source_id : Str
  pub project : Str
  pub repository : Option Str
  pub title : Option Str
  pub imported_at : Timestamp
  pub importer_version : Str

unfoldable pub new_provenance : Provenance → Valid Provenance
unfolding opaque_identifier slug optional_text filled_text
new_provenance p = do
  _ ← opaque_identifier p.source_id
  _ ← slug p.project
  _ ← optional_text p.repository
  _ ← optional_text p.title
  _ ← filled_text p.importer_version
  ok p

pub record EnrichedConversation : Type 0 where
  pub conversation : Conversation
  pub provenance : Provenance
  pub tags : List Tag

-- `_provenance_describes_this_conversation`
unfoldable pub describes : EnrichedConversation → Valid Unit
describes e =
    if holds (Source-discrete e.provenance.source e.conversation.source)
    then (if str_eq e.provenance.source_id e.conversation.source_id
        then ok tt
        else err provenance_source_id)
    else err provenance_source

-- `_the_tags_agree_with_what_they_scope`
unfoldable pub agrees : EnrichedConversation → Tag → Valid Unit
agrees e (source_tag s) = require (holds (Source-discrete s e.conversation.source)) tag_source
agrees e (project_tag p) = require (str_eq p e.provenance.project) tag_project
agrees e tag = ok tt

unfoldable pub all_agree : EnrichedConversation → List Tag → Valid Unit
unfolding agrees
all_agree e [] = ok tt
all_agree e (tag ∷ tags) = do _ ← agrees e tag; all_agree e tags

-- `len(set(tags)) == len(tags)`
unfoldable pub distinct : List Tag → Bool
distinct [] = true
distinct (tag ∷ tags) = not (any (λ t. holds (Tag-discrete tag t)) tags) && distinct tags

unfoldable pub new_enriched : EnrichedConversation → Valid EnrichedConversation
unfolding describes all_agree distinct
new_enriched e = do
  _ ← describes e
  _ ← all_agree e e.tags
  _ ← require (distinct e.tags) duplicate_tag
  ok e

-- `EnrichedConversation.document_id` delegates.
abbrev pub enriched_document_id : EnrichedConversation → Str
enriched_document_id e = document_id e.conversation
