-- ===== src/Normalization/Enrichment.antt =====
-- src/engineering_memory/normalization/enrichment.py
use hermes_memory.Base.{◌≡◌, refl, true, Option, none, some, List, [], ◌∷◌, Str, ok, ◌>>=◌, arith}
use hermes_memory.Normalization.Values.{Valid, Timestamp, is_slug, slug, opaque_identifier}
use hermes_memory.Normalization.Conversation.{Conversation, optional_text, filled_text}
use hermes_memory.Normalization.Tags.{
  Tag, source_tag, project_tag, type_tag, user_tag, conversation, new_tag,
}
use hermes_memory.Normalization.Provenance.{
  Provenance, EnrichedConversation, new_provenance, new_enriched, describes, all_agree, agrees,
  distinct,
}

-- The keyword arguments of `enrich`.
pub record Importer : Type 0 where
  pub importer_version : Str
  pub repository : Option Str
  pub user : Option Str

-- `if user is not None: tags += (UserTag(value=user),)`
unfoldable pub user_tags : Option Str → Valid (List Tag)
unfolding new_tag
user_tags none = ok []
user_tags (some user) = do tag ← new_tag (user_tag user); ok (tag ∷ [])

abbrev pub provenance_of : Conversation → Str → Importer → Timestamp → Provenance
provenance_of c project importer imported_at = record {
  source = c.source;
  source_id = c.source_id;
  project = project;
  repository = importer.repository;
  title = c.title;
  imported_at = imported_at;
  importer_version = importer.importer_version;
}

-- The project is a `ProjectTag`, given by its value.
unfoldable pub enrich : Conversation → Str → Importer → Timestamp → Valid EnrichedConversation
unfolding user_tags new_provenance new_enriched
enrich c project importer imported_at = do
  more ← user_tags importer.user
  provenance ← new_provenance (provenance_of c project importer imported_at)
  new_enriched (record {
    conversation = c;
    provenance = provenance;
    tags = source_tag c.source ∷ project_tag project ∷ type_tag conversation ∷ more;
  })

-- What `enrich` needs of its arguments.
pub record Enrichable (c : Conversation) (project : Str) (importer : Importer) : Type 0 where
  pub usable_id : opaque_identifier c.source_id ≡ ok c.source_id
  pub usable_title : optional_text c.title ≡ ok c.title
  pub usable_project : is_slug project ≡ true
  pub usable_repository : optional_text importer.repository ≡ ok importer.repository
  pub usable_version : filled_text importer.importer_version ≡ ok importer.importer_version
  pub usable_user : (u : Str) → importer.user ≡ some u → is_slug u ≡ true

abbrev pub user_tags_of : Option Str → List Tag
user_tags_of none = []
user_tags_of (some u) = user_tag u ∷ []

user_tags-ok :
    (user : Option Str)
    → ((u : Str) → user ≡ some u → is_slug u ≡ true)
    → user_tags user ≡ ok (user_tags_of user)
unfolding user_tags new_tag slug
user_tags-ok none h = refl
user_tags-ok (some u) h = ground (arith, h u)

all_agree-ok :
    (e : EnrichedConversation) (user : Option Str) → all_agree e (user_tags_of user) ≡ ok tt
unfolding all_agree
all_agree-ok e none = refl
all_agree-ok e (some u) = refl

-- What is promised of `enrich`, written out.
abbrev pub enriched_of : Conversation → Str → Importer → Timestamp → EnrichedConversation
enriched_of c project importer at = record {
  conversation = c;
  provenance = record {
    source = c.source;
    source_id = c.source_id;
    project = project;
    repository = importer.repository;
    title = c.title;
    imported_at = at;
    importer_version = importer.importer_version;
  };
  tags =
      source_tag c.source
      ∷ project_tag project
      ∷ type_tag conversation
      ∷ user_tags_of importer.user;
}

new_enriched-ok :
    (c : Conversation) (project : Str) (importer : Importer) (at : Timestamp)
    → new_enriched (enriched_of c project importer at) ≡ ok (enriched_of c project importer at)
unfolding new_enriched describes all_agree agrees distinct
new_enriched-ok c project importer at = ground arith

-- On valid arguments enrichment does not fail, and its result holds the conversation unchanged, a
-- provenance with its own source, native id and title and with the project, repository, version and
-- time that were given, and exactly the tags for the source, the project, the type and, if there is
-- one, the user.
pub enrich_total :
    (c : Conversation) (project : Str) (importer : Importer) (at : Timestamp)
    → Enrichable c project importer
    → enrich c project importer at ≡ ok (enriched_of c project importer at)
unfolding enrich new_provenance slug
enrich_total c project importer at h =
    ground (arith, user_tags-ok importer.user, new_enriched-ok c project importer at)
