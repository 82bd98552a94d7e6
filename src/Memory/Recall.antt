-- ===== src/Memory/Recall.antt =====
-- `recall` of src/engineering_memory/memory/hindsight/store.py.
use hermes_memory.Base.{
  ℕ, ltb, not, Option, none, some, List, [], ◌∷◌, Str, codes, strip, is_empty, take, map, ok, err,
  ◌>>=◌, ◌>>◌, require, translate,
}
use hermes_memory.Json.{Json, num, int, str, arr, obj, nil, cons, items, Fields, end, field, get}
use hermes_memory.Normalization.Values.{is_space}
use hermes_memory.Normalization.Tags.{Tag, render}
use hermes_memory.Memory.{
  empty_query, bad_limit, invalid_recall_response, not_encodable, Outcome, RecallResult, Wire,
}
use hermes_memory.Memory.Serialization.{tag_items, decode_result}
use hermes_memory.Memory.Retry.{RetryPolicy}
use hermes_memory.Memory.Requests.{recall_request, Exchange, State, request}

unfoldable pub recall_body : Str → List Tag → Json
unfolding tag_items
recall_body query tags = obj (
    field (codes "query") (str query) (
      field (codes "tags") (arr (tag_items tags)) (
        field (codes "tags_match") (str (codes "all_strict")) (
          field (codes "types")
            (arr (cons (str (codes "world")) (cons (str (codes "experience")) nil)))
            (field (codes "budget") (str (codes "mid"))
              (field (codes "max_tokens") (num (int 4096)) end))))))

-- A limit that is no positive integer is refused.
unfoldable pub check_limit : Option ℕ → Outcome Unit
check_limit none = ok tt
check_limit (some n) = require (ltb 0 n) bad_limit

unfoldable pub limited : Option ℕ → List RecallResult → List RecallResult
limited none results = results
limited (some n) results = take n results

-- `isinstance(facts, list)`
unfoldable pub facts_of : Option Json → Outcome (List Json)
facts_of (some (arr facts)) = ok (items facts)
facts_of v = err invalid_recall_response

module _ (w : Wire) (policy : RetryPolicy) where
  unfoldable pub decode_all : List Json → List Str → Outcome (List RecallResult)
  unfolding decode_result
  decode_all [] required = ok []
  decode_all (fact ∷ facts) required = do
    r ← decode_result w fact required
    rs ← decode_all facts required
    ok (r ∷ rs)

  unfoldable pub read_results : Fields → List Str → Option ℕ → Outcome (List RecallResult)
  unfolding facts_of decode_all limited
  read_results result required limit = do
    facts ← facts_of (get (codes "results") result)
    rs ← decode_all facts required
    ok (limited limit rs)

  -- What is checked and encoded before anything is sent.
  unfoldable pub recall_bytes : Str → List Tag → Option ℕ → Outcome (List ℕ)
  unfolding is_space check_limit recall_body
  recall_bytes query tags limit = do
    require (not (is_empty (strip is_space query))) empty_query
    _ ← check_limit limit
    translate (λ _. not_encodable) (w.encode (recall_body query tags))

  unfoldable pub recall :
      Str → List Tag → Option ℕ → List Exchange → State → Outcome (List RecallResult) × State
  unfolding recall_bytes read_results request
  recall query tags limit script s = elim (recall_bytes query tags limit) [
    | err e ↦ (err e, s)
    | ok body ↦
        let (result, s') = request policy (recall_request body) none script s in
        (result >>= λ fs. read_results fs (map render tags) limit, s')
  ]
