-- ===== src/Memory/Facts.antt =====
-- What a fact of an answer must hold for a result to be made of it: `decode_result` of
-- src/engineering_memory/memory/hindsight/serialization.py.
use hermes_memory.Base.{
  ◌++◌, ◌≡◌, ap, ◌∙◌, true, Option, none, some, List, [], ◌∷◌, Str, codes, str_eq, str_eq→eq, All,
  any, ok, require, >>=-eq-ok, require-ok, arith,
}
use hermes_memory.Json.{Json, null, bool, num, str, arr, obj, Fields, get}
use hermes_memory.Normalization.Conversation.{source_value}
use hermes_memory.Normalization.Provenance.{Provenance}
use hermes_memory.Memory.{RecallResult, Wire}
use hermes_memory.Memory.Serialization.{
  string, fields, version_key, provenance_key, read_model, named_document, includes, fact_tags,
  check_tags, new_recall_result, decode_result,
}

-- A tag is among those of a fact.
abbrev pub HasTag : Str → Option Json → Type 0
HasTag t v = (found : List Str) × (fact_tags v ≡ ok found) × (any (str_eq t) found ≡ true)

-- A result is vouched for by a fact: the fact is of the first version, the result's provenance is read
-- from it and names its document, and it has the result's text and each tag that was asked for.
pub record Vouches (w : Wire) (required : List Str) (fact : Json) (r : RecallResult) : Type 0 where
  pub body : Fields
  pub has_body : fact ≡ obj body
  pub metadata : Fields
  pub has_metadata : get (codes "metadata") body ≡ some (obj metadata)
  pub version : get version_key metadata ≡ some (str (codes "1"))
  pub written : Str
  pub has_written : get provenance_key metadata ≡ some (str written)
  pub origin : w.read_provenance written ≡ some r.provenance
  pub document :
      get (codes "document_id") body
      ≡ some (str (source_value r.provenance.source ++ b':' ∷ r.provenance.source_id))
  pub tagged : All (λ t. HasTag t (get (codes "tags") body)) required
  pub content : get (codes "text") body ≡ some (str r.content)

includes-All :
    (found required : List Str)
    → includes found required ≡ true
    → All (λ t. any (str_eq t) found ≡ true) required
includes-All found [] h = tt
includes-All found (t ∷ ts) h = (ground arith, includes-All found ts (ground arith))

All-map :
    {A : Type 0} {P Q : A → Type 0} (f : (x : A) → P x → Q x) (xs : List A) → All P xs → All Q xs
All-map f [] a = tt
All-map f (x ∷ xs) (p, a) = (f x p, All-map f xs a)

check_tags-HasTag :
    (required : List Str) (v : Option Json)
    → check_tags required v ≡ ok tt
    → All (λ t. HasTag t v) required
unfolding check_tags
check_tags-HasTag [] v h = tt
check_tags-HasTag (t ∷ ts) v h =
    let (found, tags, h1) = >>=-eq-ok (fact_tags v) _ h in
    All-map (λ wanted p. (found, tags, p)) (t ∷ ts) (includes-All found (t ∷ ts) (ground arith))

new_result-same : (x : RecallResult) {r : RecallResult} → new_recall_result x ≡ ok r → x ≡ r
unfolding new_recall_result
new_result-same x h = ground arith

read_model-some : (o : Option Provenance) (p : Provenance) → read_model o ≡ ok p → o ≡ some p
unfolding read_model
read_model-some none p h = absurd (ground arith)
read_model-some (some q) p h = ground arith

string-some : (v : Option Json) (s : Str) → string v ≡ ok s → v ≡ some (str s)
string-some (some (str t)) s h = ground arith
string-some none s h = absurd (ground arith)
string-some (some null) s h = absurd (ground arith)
string-some (some (bool _)) s h = absurd (ground arith)
string-some (some (num _)) s h = absurd (ground arith)
string-some (some (arr _)) s h = absurd (ground arith)
string-some (some (obj _)) s h = absurd (ground arith)

fields-some : (v : Option Json) (fs : Fields) → fields v ≡ ok fs → v ≡ some (obj fs)
fields-some (some (obj gs)) fs h = ground arith
fields-some none fs h = absurd (ground arith)
fields-some (some null) fs h = absurd (ground arith)
fields-some (some (bool _)) fs h = absurd (ground arith)
fields-some (some (num _)) fs h = absurd (ground arith)
fields-some (some (arr _)) fs h = absurd (ground arith)
fields-some (some (str _)) fs h = absurd (ground arith)

obj_of : (fact : Json) (fs : Fields) → fields (some fact) ≡ ok fs → fact ≡ obj fs
obj_of fact fs h = let e = fields-some (some fact) fs h in cc

module _ (w : Wire) where
  pub decode_result-Vouches :
      (fact : Json) (required : List Str) (r : RecallResult)
      → decode_result w fact required ≡ ok r
      → Vouches w required fact r
  unfolding decode_result named_document
  decode_result-Vouches fact required r h =
      let (fs, body, h1) = >>=-eq-ok (fields (some fact)) _ h in
      let (metadata, meta, h2) = >>=-eq-ok (fields (get (codes "metadata") fs)) _ h1 in
      let (version, first, h3) = >>=-eq-ok (string (get version_key metadata)) _ h2 in
      let (_, versioned, h4) = >>=-eq-ok (require (str_eq version (codes "1")) _) _ h3 in
      let (written, stored, h5) = >>=-eq-ok (string (get provenance_key metadata)) _ h4 in
      let (provenance, modelled, h6) = >>=-eq-ok (read_model (w.read_provenance written)) _ h5 in
      let (document, named, h7) = >>=-eq-ok (string (get (codes "document_id") fs)) _ h6 in
      let (_, same, h8) =
        >>=-eq-ok (require (str_eq document (named_document provenance)) _) _ h7 in
      let (_, tagged, h9) = >>=-eq-ok (check_tags required (get (codes "tags") fs)) _ h8 in
      let (content, read, h10) = >>=-eq-ok (string (get (codes "text") fs)) _ h9 in
      let made : record { content = content; provenance = provenance } ≡ r =
        new_result-same _ h10 in
      let matched = str_eq→eq document (named_document provenance) (require-ok _ _ same) in
      let one = str_eq→eq version (codes "1") (require-ok _ _ versioned) in
      record {
        body = fs;
        has_body = obj_of fact fs body;
        metadata = metadata;
        has_metadata = fields-some _ metadata meta;
        version = string-some _ version first ∙ ap (λ v. some (str v)) one;
        written = written;
        has_written = string-some _ written stored;
        origin = read_model-some _ _ modelled ∙ ap (λ (x : RecallResult). some x.provenance) made;
        document =
            string-some _ document named
            ∙ ap (λ d. some (str d))
                (matched ∙ ap (λ (x : RecallResult). named_document x.provenance) made);
        tagged = check_tags-HasTag required _ tagged;
        content = string-some _ content read ∙ ap (λ (x : RecallResult). some (str x.content)) made;
      }
