-- ===== src/Memory/Recalled.antt =====
-- What a recall returns (src/engineering_memory/memory/hindsight/store.py).
use hermes_memory.Base.{
  min, not, is_empty, strip, translate-ok, sym, ℕ, zero, suc, ◌≡◌, refl, ap, subst, ◌∙◌, inl, inr,
  Option, none, some, List, [], ◌∷◌, Str, codes, length, take, length-take, map, ok, ◌>>=◌, require,
  >>=-eq-ok, Result-cases, arith,
}
use hermes_memory.Json.{Json, null, bool, num, str, arr, obj, Items, items, Fields, get}
use hermes_memory.Normalization.Values.{is_space}
use hermes_memory.Normalization.Tags.{Tag, render}
use hermes_memory.Memory.{RecallResult, Wire}
use hermes_memory.Memory.Serialization.{decode_result}
use hermes_memory.Memory.Retry.{RetryPolicy}
use hermes_memory.Memory.Requests.{recall_request, Exchange, State, request}
use hermes_memory.Memory.Recall.{
  facts_of, limited, decode_all, read_results, recall_bytes, recall, recall_body, check_limit,
}
use hermes_memory.Memory.Facts.{Vouches, decode_result-Vouches}

-- The results are vouched for, one for one and in their order, by the first of the facts.
abbrev pub VouchedBy : Wire → List Str → List Json → List RecallResult → Type 0
VouchedBy w required facts [] = Unit
VouchedBy w required [] (r ∷ rs) = ⊥
VouchedBy w required (fact ∷ facts) (r ∷ rs) =
    Vouches w required fact r × VouchedBy w required facts rs

-- How many of so many facts are returned.
abbrev pub kept : Option ℕ → ℕ → ℕ
kept none count = count
kept (some n) count = min n count

facts_of-some :
    (v : Option Json) (facts : List Json)
    → facts_of v ≡ ok facts
    → (listed : Items) × (v ≡ some (arr listed)) × (items listed ≡ facts)
unfolding facts_of
facts_of-some (some (arr vs)) facts h = (vs, refl, ground arith)
facts_of-some none facts h = absurd (ground arith)
facts_of-some (some null) facts h = absurd (ground arith)
facts_of-some (some (bool _)) facts h = absurd (ground arith)
facts_of-some (some (num _)) facts h = absurd (ground arith)
facts_of-some (some (str _)) facts h = absurd (ground arith)
facts_of-some (some (obj _)) facts h = absurd (ground arith)

module _ (w : Wire) where
  decode_all-VouchedBy :
      (policy : RetryPolicy) (facts : List Json) (required : List Str) (rs : List RecallResult)
      → decode_all w policy facts required ≡ ok rs
      → VouchedBy w required facts rs × (length rs ≡ length facts)
  unfolding decode_all
  decode_all-VouchedBy policy [] required rs h =
      let same : [] ≡ rs = ground arith in
      subst (λ x. VouchedBy w required [] x × (length x ≡ 0)) same (tt, refl)
  decode_all-VouchedBy policy (fact ∷ facts) required rs h =
      let (first, decoded, h1) = >>=-eq-ok (decode_result w fact required) _ h in
      let (rest, others, h2) = >>=-eq-ok (decode_all w policy facts required) _ h1 in
      let same : first ∷ rest ≡ rs = ground arith in
      let (vouched, count) = decode_all-VouchedBy policy facts required rest others in
      subst (λ x. VouchedBy w required (fact ∷ facts) x × (length x ≡ suc (length facts))) same
        ((decode_result-Vouches w fact required first decoded, vouched), ap suc count)

  take-VouchedBy :
      (n : ℕ) (required : List Str) (facts : List Json) (rs : List RecallResult)
      → VouchedBy w required facts rs
      → VouchedBy w required facts (take n rs)
  take-VouchedBy zero required facts rs v = tt
  take-VouchedBy (suc n) required facts [] v = tt
  take-VouchedBy (suc n) required [] (r ∷ rs) v = absurd v
  take-VouchedBy (suc n) required (fact ∷ facts) (r ∷ rs) (first, v) =
      (first, take-VouchedBy n required facts rs v)

  limited-VouchedBy :
      (limit : Option ℕ) (required : List Str) (facts : List Json) (rs : List RecallResult)
      → VouchedBy w required facts rs
      → length rs ≡ length facts
      → VouchedBy w required facts (limited limit rs)
        × (length (limited limit rs) ≡ kept limit (length facts))
  unfolding limited
  limited-VouchedBy none required facts rs v count = (v, count)
  limited-VouchedBy (some n) required facts rs v count =
      (take-VouchedBy n required facts rs v, length-take n rs ∙ ap (min n) count)

module _ (w : Wire) (policy : RetryPolicy) where
  recall_bytes-encoded :
      (query : Str) (tags : List Tag) (limit : Option ℕ) (body : List ℕ)
      → recall_bytes w policy query tags limit ≡ ok body
      → w.encode (recall_body query tags) ≡ ok body
  unfolding recall_bytes
  recall_bytes-encoded query tags limit body h =
      let (_, _, h1) = >>=-eq-ok (require (not (is_empty (strip is_space query))) _) _ h in
      let (_, _, h2) = >>=-eq-ok (check_limit limit) _ h1 in translate-ok _ _ h2

  -- A recall that returns has sent the query and the tags and was answered with facts, and what it
  -- returns is vouched for, one for one and in their order, by the first of these facts, as many as the
  -- limit allows, or by all: each result's provenance is read from its fact and names the fact's
  -- document, its content is the fact's text, and the fact has all the tags that were asked for.
  pub recall-Vouched :
      (query : Str) (tags : List Tag) (limit : Option ℕ) (script : List Exchange) (s : State)
      (rs : List RecallResult)
      → (recall w policy query tags limit script s).0 ≡ ok rs
      → (body : List ℕ) × (answer : Fields) × (facts : Items) × (w.encode (recall_body query tags)
          ≡ ok body)
        × ((request policy (recall_request body) none script s).0 ≡ ok answer)
        × (get (codes "results") answer ≡ some (arr facts))
        × VouchedBy w (map render tags) (items facts) rs
        × (length rs ≡ kept limit (length (items facts)))
  unfolding recall read_results
  recall-Vouched query tags limit script s rs h =
      elim (Result-cases (recall_bytes w policy query tags limit)) [
        | inr (e, unasked) ↦ absurd (ground arith)
        | inl (body, asked) ↦
            let out : (request policy (recall_request body) none script s).0
                  >>= (λ fs. read_results w policy fs (map render tags) limit)
                ≡ (recall w policy query tags limit script s).0 =
              rw (recall, asked) refl in
            let (fs, answered, h1) =
              >>=-eq-ok (request policy (recall_request body) none script s).0 _ (out ∙ h) in
            let (facts, found, h2) = >>=-eq-ok (facts_of (get (codes "results") fs)) _ h1 in
            let (all_rs, decoded, h3) =
              >>=-eq-ok (decode_all w policy facts (map render tags)) _ h2 in
            let same : limited limit all_rs ≡ rs = ground arith in
            let (facts', listed, elements) = facts_of-some _ facts found in
            let (vouched, count) =
              decode_all-VouchedBy w policy facts (map render tags) all_rs decoded in
            let returned = limited-VouchedBy w limit (map render tags) facts all_rs vouched count in
            let (all_vouched, all_count) =
              subst (λ x. VouchedBy w (map render tags) x rs × (length rs ≡ kept limit (length x)))
                (sym elements)
                (subst
                  (λ x.
                    VouchedBy w (map render tags) facts x × (length x ≡ kept limit (length facts)))
                  same returned) in
            (
              body,
              fs,
              facts',
              recall_bytes-encoded query tags limit body asked,
              answered,
              listed,
              all_vouched,
              all_count,
            )
      ]
