-- ===== src/Memory/Serialization.antt =====
-- src/engineering_memory/memory/hindsight/serialization.py
use hermes_memory.Base.{
  ◌++◌, Bool, not, ◌||◌, Option, none, some, List, [], ◌∷◌, Str, codes, str_eq, any, all, is_empty,
  strip, ok, err, ◌>>=◌, ◌>>◌, require, translate,
}
use hermes_memory.Json.{
  Json, null, bool, num, str, arr, obj, Items, nil, cons, Fields, end, field, get,
}
use hermes_memory.Normalization.Values.{is_space, text}
use hermes_memory.Normalization.Conversation.{Message, source_value}
use hermes_memory.Normalization.Provenance.{Provenance, EnrichedConversation, enriched_document_id}
use hermes_memory.Normalization.Tags.{Tag, render}
use hermes_memory.Memory.{empty_conversation, invalid_recall_result, Outcome, RecallResult, Wire}

abbrev pub version_key : Str
version_key = codes "engineering_memory.version"

abbrev pub provenance_key : Str
provenance_key = codes "engineering_memory.provenance"

unfoldable pub has_content : Message → Bool
unfolding is_space
has_content m =
    not (is_empty (strip is_space m.text))
    || (not (is_empty m.tool_activity) || not (is_empty m.non_text_parts))

unfoldable pub tag_items : List Tag → Items
unfolding render
tag_items [] = nil
tag_items (t ∷ ts) = cons (str (render t)) (tag_items ts)

unfoldable pub item_for : Wire → EnrichedConversation → Outcome Json
unfolding has_content tag_items
item_for w e = do
  require (any has_content e.conversation.messages) empty_conversation
  ok (
      obj (
        field (codes "content") (str (w.conversation_json e.conversation)) (
          field (codes "document_id") (str (enriched_document_id e)) (
            field (codes "timestamp") (str (w.isoformat e.conversation.started_at)) (
              field (codes "update_mode") (str (codes "replace")) (
                field (codes "tags") (arr (tag_items e.tags)) (
                  field (codes "metadata")
                    (obj (
                      field version_key (str (codes "1")) (
                        field provenance_key (str (w.provenance_json e.provenance)) (
                          field (codes "engineering_memory.started_at")
                            (str (w.isoformat e.conversation.started_at)) end))))
                    end)))))))

-- Whatever the reading of a fact raises is caught, and becomes one error.
abbrev pub string : Option Json → Outcome Str
string (some (str s)) = ok s
string v = err invalid_recall_result

abbrev pub fields : Option Json → Outcome Fields
fields (some (obj fs)) = ok fs
fields v = err invalid_recall_result

-- The strings among the elements of a set; `set` raises on an element that is a list or a dict.
unfoldable pub strings : Items → Outcome (List Str)
strings nil = ok []
strings (cons (str s) rest) = do ss ← strings rest; ok (s ∷ ss)
strings (cons (arr _) rest) = err invalid_recall_result
strings (cons (obj _) rest) = err invalid_recall_result
strings (cons null rest) = strings rest
strings (cons (bool _) rest) = strings rest
strings (cons (num _) rest) = strings rest

field_names : Fields → List Str
field_names end = []
field_names (field k v rest) = k ∷ field_names rest

characters : Str → List Str
characters [] = []
characters (c ∷ cs) = (c ∷ []) ∷ characters cs

-- `set(fact["tags"])`: a dict is iterated over its keys, a string over its characters.
unfoldable pub fact_tags : Option Json → Outcome (List Str)
unfolding field_names characters
fact_tags (some (arr vs)) = strings vs
fact_tags (some (obj fs)) = ok (field_names fs)
fact_tags (some (str s)) = ok (characters s)
fact_tags v = err invalid_recall_result

-- `set(required_tags) <= set(fact["tags"])`
abbrev pub includes : List Str → List Str → Bool
includes found required = all (λ wanted. any (str_eq wanted) found) required

unfoldable pub check_tags : List Str → Option Json → Outcome Unit
unfolding fact_tags
check_tags [] v = ok tt
check_tags (t ∷ ts) v = do
  found ← fact_tags v
  require (includes found (t ∷ ts)) invalid_recall_result

-- The document id that a provenance names.
unfoldable pub named_document : Provenance → Str
named_document p = source_value p.source ++ b':' ∷ p.source_id

unfoldable pub read_model : Option Provenance → Outcome Provenance
read_model none = err invalid_recall_result
read_model (some p) = ok p

unfoldable pub new_recall_result : RecallResult → Outcome RecallResult
unfolding text
new_recall_result r = translate (λ _. invalid_recall_result) (do _ ← text r.content; ok r)

unfoldable pub decode_result : Wire → Json → List Str → Outcome RecallResult
unfolding check_tags named_document read_model new_recall_result
decode_result w fact required = do
  fs ← fields (some fact)
  metadata ← fields (get (codes "metadata") fs)
  version ← string (get version_key metadata)
  require (str_eq version (codes "1")) invalid_recall_result
  written ← string (get provenance_key metadata)
  provenance ← read_model (w.read_provenance written)
  document ← string (get (codes "document_id") fs)
  require (str_eq document (named_document provenance)) invalid_recall_result
  check_tags required (get (codes "tags") fs)
  content ← string (get (codes "text") fs)
  new_recall_result (record { content = content; provenance = provenance })
