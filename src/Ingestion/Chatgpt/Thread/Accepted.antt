-- ===== src/Ingestion/Chatgpt/Thread/Accepted.antt =====
-- What `_validate` of thread.py has checked of a mapping that it accepts.
use hermes_memory.Base.{
  ℕ, suc, ◌≡◌, subst, ◌==◌, is_empty, List, [], ◌∷◌, Str, ok, ◌>>=◌, >>=-eq-ok, require, arith, inl,
  inr, Bool-cases,
}
use hermes_memory.Json.{Fields, entries}
use hermes_memory.Ingestion.Chatgpt.Thread.{check_nodes, check_tree, reach, validate, size}
use hermes_memory.Ingestion.Chatgpt.Thread.Links.{require-true}

-- What `_validate` has checked when it answers.
pub validated :
    (mapping : Fields) {root : Str}
    → validate mapping ≡ ok root
    → (reached : ℕ) × (check_nodes mapping (entries mapping) ≡ ok (root ∷ []))
      × (reach mapping (suc (size mapping)) (root ∷ []) ≡ ok reached)
      × (reached ≡ size mapping)
unfolding validate
validated mapping {root = root} h = elim (Bool-cases (is_empty (entries mapping))) [
  | inl empty ↦ ground (arith, empty)
  | inr filled ↦
      let h0 : check_nodes mapping (entries mapping) >>= check_tree mapping ≡ ok root =
        ground (arith, filled) in
      let (roots, e, h1) =
        >>=-eq-ok (check_nodes mapping (entries mapping)) (check_tree mapping) h0 in
      one_root roots e h1
]
  where
    one_root :
        (roots : List Str)
        → check_nodes mapping (entries mapping) ≡ ok roots
        → check_tree mapping roots ≡ ok root
        → (reached : ℕ) × (check_nodes mapping (entries mapping) ≡ ok (root ∷ []))
          × (reach mapping (suc (size mapping)) (root ∷ []) ≡ ok reached)
          × (reached ≡ size mapping)
    one_root [] e t = cc
    one_root (r ∷ []) e t =
        let (reached, e1, h1) = >>=-eq-ok (reach mapping (suc (size mapping)) (r ∷ [])) _ t in
        let (u, e2, h2) = >>=-eq-ok (require (reached == size mapping) _) _ h1 in
        let same : r ≡ root = cc in
        let equal = require-true (reached == size mapping) _ e2 in
        (
          reached,
          subst (λ x. check_nodes mapping (entries mapping) ≡ ok (x ∷ [])) same e,
          subst (λ x. reach mapping (suc (size mapping)) (x ∷ []) ≡ ok reached) same e1,
          ground (arith, equal),
        )
    one_root (r ∷ r' ∷ roots) e t = cc
