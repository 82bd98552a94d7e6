-- ===== src/Ingestion/Chatgpt/Thread/Visits.antt =====
-- The second loop of `_validate`: what its count shows of the mapping.
use hermes_memory.Base.{
  ◌≡◌, refl, sym, ap, ◌∙◌, subst, Bool, true, false, Option, none, some, List, [], ◌∷◌, All, Str,
  ok, >>=-eq-ok, arith, Member, Distinct, inl, inr, ◌⊎◌,
}
use hermes_memory.Json.{Json, str, obj, Fields, entries}
use hermes_memory.Ingestion.Chatgpt.Thread.{
  parent, as_node, node_at, check_parent, check_node, check_children, children, check_nodes,
  with_root, parent_at,
}
use hermes_memory.Ingestion.Chatgpt.Thread.Links.{HasParent, HasNone, Agrees, check_nodes-Agrees}
use hermes_memory.Ingestion.Chatgpt.Thread.Tree.{keys, entry-get, get-key, has_parent-Member}

no_parent :
    (mapping : Fields) (node_id : Str) (v : Option Json)
    → check_parent mapping node_id v ≡ ok true
    → v ≡ none
unfolding check_parent
no_parent mapping node_id none h = refl
no_parent mapping node_id (some (str above)) h = ground arith
no_parent mapping node_id (some v) h = cc

root_node :
    (mapping : Fields) (node_id : Str) (value : Json)
    → check_node mapping node_id value ≡ ok true
    → (node : Fields) × (value ≡ obj node) × (parent node ≡ none)
unfolding check_node
root_node mapping node_id (obj node) h =
    let (b, e1, h1) = >>=-eq-ok (check_parent mapping node_id (parent node)) _ h in
    let (below, e2, h2) = >>=-eq-ok (children node) _ h1 in
    let (u, e3, h3) = >>=-eq-ok (check_children mapping node_id below) _ h2 in
    let is_root : b ≡ true = ground arith in
    (node, refl, no_parent mapping node_id (parent node) (e1 ∙ ap ok is_root))
root_node mapping node_id v h = cc

abbrev Rootless : Fields → List (Str × Json) → Str → Type 0
Rootless mapping es r = (node : Fields) × Member (r, obj node) es × (parent node ≡ none)

roots_without_parent :
    (mapping : Fields) (es : List (Str × Json)) {roots : List Str}
    → check_nodes mapping es ≡ ok roots
    → All (Rootless mapping es) roots
unfolding check_nodes
roots_without_parent mapping [] {roots = roots} h =
    let none_there : [] ≡ roots = cc in subst (All (Rootless mapping [])) none_there tt
roots_without_parent mapping ((k, v) ∷ es) {roots = roots} h =
    let (is_root, e1, h1) = >>=-eq-ok (check_node mapping k v) _ h in
    let (rest, e2, h2) = >>=-eq-ok (check_nodes mapping es) _ h1 in
    let all_roots : with_root mapping is_root k rest ≡ roots = ground arith in
    subst (All (Rootless mapping ((k, v) ∷ es))) all_roots
      (with_first is_root rest e1 (later rest (roots_without_parent mapping es e2)))
  where
    later : (rs : List Str) → All (Rootless mapping es) rs → All (Rootless mapping ((k, v) ∷ es)) rs
    later [] a = tt
    later (r ∷ rs) a = let (node, m, e) = a.0 in ((node, inr m, e), later rs a.1)

    with_first :
        (is_root : Bool) (rs : List Str)
        → check_node mapping k v ≡ ok is_root
        → All (Rootless mapping ((k, v) ∷ es)) rs
        → All (Rootless mapping ((k, v) ∷ es)) (with_root mapping is_root k rs)
    with_first false rs e a = a
    with_first true rs e a =
        let (node, same, no_one) = root_node mapping k v e in
        ((node, inl (ap (λ x. (k, x)) (sym same)), no_one), a)

module _ (mapping : Fields) (root : Str) (unique : Distinct (keys mapping))
    (nodes : check_nodes mapping (entries mapping) ≡ ok (root ∷ [])) where
  pub agree : All (Agrees mapping (root ∷ [])) (entries mapping)
  agree = check_nodes-Agrees mapping (entries mapping) nodes

  pub root-HasNone : HasNone mapping root
  unfolding node_at
  root-HasNone =
      let (node, m, no_one) = (roots_without_parent mapping (entries mapping) nodes).0 in
      let found = entry-get mapping root (obj node) unique m in
      ap (λ v. parent_at mapping (as_node mapping v)) found ∙ ap ok no_one

  pub root-Member : Member root (keys mapping)
  root-Member =
      let (node, m, no_one) = (roots_without_parent mapping (entries mapping) nodes).0 in
      get-key mapping root (entry-get mapping root (obj node) unique m)

  one_parent : (x p q : Str) → HasParent mapping x p → HasParent mapping x q → p ≡ q
  one_parent x p q h k = let e = sym h ∙ k in cc

  -- The root, or a node whose parent is there.
  abbrev pub Settled : Str → List Str → Type 0
  Settled x seen = (x ≡ root) ⊎ ((p : Str) × HasParent mapping x p × Member p seen)

  -- Nodes that were visited, the latest first: each after its parent.
  abbrev pub Rooted : List Str → Type 0
  Rooted [] = Unit
  Rooted (x ∷ seen) = Settled x seen × Rooted seen

  Settled-more : (x y : Str) (seen : List Str) → Settled x seen → Settled x (y ∷ seen)
  Settled-more x y seen (inl e) = inl e
  Settled-more x y seen (inr (p, h, m)) = inr (p, h, inr m)

  pub all-Settled :
      (y : Str) (seen xs : List Str)
      → All (λ x. Settled x seen) xs
      → All (λ x. Settled x (y ∷ seen)) xs
  all-Settled y seen [] a = tt
  all-Settled y seen (x ∷ xs) a = (Settled-more x y seen a.0, all-Settled y seen xs a.1)

  pub Rooted-Settled : (x : Str) (seen : List Str) → Rooted seen → Member x seen → Settled x seen
  Rooted-Settled x [] r m = absurd m
  Rooted-Settled x (y ∷ seen) r (inl e) =
      Settled-more x y seen (subst (λ z. Settled z seen) (sym e) r.0)
  Rooted-Settled x (y ∷ seen) r (inr m) = Settled-more x y seen (Rooted-Settled x seen r.1 m)

  pub Rooted-keys : (seen : List Str) → Rooted seen → All (λ x. Member x (keys mapping)) seen
  Rooted-keys [] r = tt
  Rooted-keys (x ∷ seen) r = (settled_key r.0, Rooted-keys seen r.1)
    where
      settled_key : Settled x seen → Member x (keys mapping)
      settled_key (inl e) = subst (λ z. Member z (keys mapping)) (sym e) root-Member
      settled_key (inr (p, h, m)) = has_parent-Member mapping root agree x p h

  -- Whose parent is not among the visited was not visited.
  pub fresh :
      (child above : Str) (seen : List Str)
      → HasParent mapping child above
      → ¬ Member above seen
      → ¬ Settled child seen
  fresh child above seen h n (inl e) =
      let e' = sym h ∙ subst (λ x. HasNone mapping x) (sym e) root-HasNone in cc
  fresh child above seen h n (inr (p, h', m)) =
      n (subst (λ x. Member x seen) (one_parent child p above h' h) m)
