-- ===== src/Ingestion/Chatgpt/Thread/Tree.antt =====
-- The links of a mapping that `_validate` of thread.py accepted, node by node.
use hermes_memory.Base.{
  ◌≡◌, ◌≢◌, refl, sym, ap, ◌∙◌, subst, Bool, true, Option, none, some, List, [], ◌∷◌, map, All, Str,
  Str-discrete, ok, >>=-eq-ok, require, arith, Member, Distinct, inl, inr, ◌⊎◌,
}
use hermes_memory.Json.{Json, str, obj, Fields, end, field, get, entries}
use hermes_memory.Ingestion.Chatgpt.Thread.{
  is_member, children, parent, as_node, node_at, has_key, lists_child, check_parent, children_at,
  parent_at,
}
use hermes_memory.Ingestion.Chatgpt.Thread.Links.{
  HasParent, HasNone, HasChildren, Checked, Agrees, get-entry, children-Distinct, require-true,
  is_member-Member,
}

abbrev pub keys : Fields → List Str
keys mapping = map (λ (e : Str × Json). e.0) (entries mapping)

obj_of :
    (v : Option Json) {node : Fields} (mapping : Fields)
    → as_node mapping v ≡ some node
    → v ≡ some (obj node)
obj_of none mapping h = cc
obj_of (some (obj fs)) mapping h = ground arith
obj_of (some v) mapping h = cc

open_children :
    (mapping : Fields) (o : Option Fields) {below : List Str}
    → children_at mapping o ≡ ok below
    → (node : Fields) × (o ≡ some node) × (children node ≡ ok below)
unfolding children_at
open_children mapping none h = cc
open_children mapping (some node) h = (node, refl, h)

open_parent :
    (mapping : Fields) (o : Option Fields) {above : Option Json}
    → parent_at mapping o ≡ ok above
    → (node : Fields) × (o ≡ some node) × (parent node ≡ above)
open_parent mapping none h = cc
open_parent mapping (some node) h = (node, refl, ground arith)

key-get : (m : Fields) (k : Str) → Member k (keys m) → (v : Json) × (get k m ≡ some v)
unfolding get
key-get end k h = absurd h
key-get (field j v m) k h = elim (Str-discrete j k) [
  | yes e ↦ (v, ground (arith, e))
  | no ne ↦ let (w, found) = key-get m k (later h ne) in (w, ground (arith, ne, found))
]
  where
    later : Member k (j ∷ keys m) → j ≢ k → Member k (keys m)
    later (inl e) ne = absurd (ne (sym e))
    later (inr m') ne = m'

pub get-key : (m : Fields) (k : Str) {v : Json} → get k m ≡ some v → Member k (keys m)
unfolding get
get-key end k h = cc
get-key (field j v m) k {v = w} h = elim (Str-discrete j k) [
  | yes e ↦ inl (sym e)
  | no ne ↦ inr (get-key m k {v = w} (ground (arith, ne)))
]

entry-key :
    (k : Str) (v : Json) (es : List (Str × Json))
    → Member (k, v) es
    → Member k (map (λ (e : Str × Json). e.0) es)
entry-key k v [] m = absurd m
entry-key k v (e ∷ es) (inl same) = inl (ap (λ (x : Str × Json). x.0) same)
entry-key k v (e ∷ es) (inr m) = inr (entry-key k v es m)

pub entry-get :
    (m : Fields) (k : Str) (v : Json)
    → Distinct (keys m)
    → Member (k, v) (entries m)
    → get k m ≡ some v
unfolding get
entry-get end k v d h = absurd h
entry-get (field j w m) k v d h = elim (Str-discrete j k) [
  | yes e ↦ let same = here e h in ground (arith, e, same)
  | no ne ↦ ground (arith, ne, entry-get m k v d.1 (later h ne))
]
  where
    here : j ≡ k → Member (k, v) ((j, w) ∷ entries m) → w ≡ v
    here e (inl same) = sym (ap (λ (x : Str × Json). x.1) same)
    here e (inr m') =
        absurd (d.0 (subst (λ x. Member x (keys m)) (sym e) (entry-key k v (entries m) m')))

    later : Member (k, v) ((j, w) ∷ entries m) → j ≢ k → Member (k, v) (entries m)
    later (inl e) ne = absurd (ne (sym (ap (λ (x : Str × Json). x.0) e)))
    later (inr m') ne = m'

module _ (mapping : Fields) (root : Str)
    (agree : All (Agrees mapping (root ∷ [])) (entries mapping)) where
  checked :
      (node_id : Str) {node : Fields}
      → node_at mapping node_id ≡ some node
      → (c : Checked mapping node_id node) × (c.is_root ≡ true → node_id ≡ root)
  unfolding node_at
  checked node_id {node = node} h =
      let found = obj_of (get node_id mapping) mapping h in
      let (node', e, c, one) =
        get-entry mapping (Agrees mapping (root ∷ [])) mapping node_id agree found in
      let same : node' ≡ node = ground arith in
      subst (λ n. (c : Checked mapping node_id n) × (c.is_root ≡ true → node_id ≡ root)) same
        (c, λ is_root. only (one is_root))
    where
      only : Member node_id (root ∷ []) → node_id ≡ root
      only (inl e) = e
      only (inr m) = absurd m

  -- The children of a node are distinct, and each names it as its parent.
  pub linked_children :
      (node_id : Str) (below : List Str)
      → HasChildren mapping node_id below
      → Distinct below × All (λ child. HasParent mapping child node_id) below
  linked_children node_id below h =
      let (node, found, listed) = open_children mapping (node_at mapping node_id) h in
      let (c, one) = checked node_id found in
      let same : c.below ≡ below = ground (arith, c.listed) in
      (
        children-Distinct node listed,
        subst (All (λ child. HasParent mapping child node_id)) same c.linked,
      )

  root_checked :
      (node_id : Str) (v : Option Json) {is_root : Bool}
      → v ≡ none
      → check_parent mapping node_id v ≡ ok is_root
      → is_root ≡ true
  unfolding check_parent
  root_checked node_id none e h = ground arith
  root_checked node_id (some v) e h = cc

  -- A node without a parent is the root.
  pub only_root : (node_id : Str) → HasNone mapping node_id → node_id ≡ root
  only_root node_id h =
      let (node, found, none_there) = open_parent mapping (node_at mapping node_id) h in
      let (c, one) = checked node_id found in
      one (root_checked node_id (parent node) none_there c.rooted)

  listed_above :
      (node_id above : Str) (o : Option Fields)
      → lists_child mapping node_id o ≡ ok tt
      → (listed : List Str) × (children_at mapping o ≡ ok listed) × Member node_id listed
  unfolding children_at
  listed_above node_id above none h = cc
  listed_above node_id above (some node) h =
      let (listed, e1, h1) = >>=-eq-ok (children node) _ h in
      (listed, e1, is_member-Member node_id listed (require-true (is_member node_id listed) _ h1))

  parent_checked :
      (node_id above : Str) (v : Option Json) {is_root : Bool}
      → v ≡ some (str above)
      → check_parent mapping node_id v ≡ ok is_root
      → (listed : List Str) × HasChildren mapping above listed × Member node_id listed
  unfolding check_parent
  parent_checked node_id above none e h = cc
  parent_checked node_id above (some (str a)) e h =
      let same : a ≡ above = cc in
      let (u1, e1, h1) = >>=-eq-ok (require (has_key mapping a) _) _ h in
      let (u2, e2, h2) = >>=-eq-ok (lists_child mapping node_id (node_at mapping a)) _ h1 in
      subst (λ x. (listed : List Str) × HasChildren mapping x listed × Member node_id listed) same
        (listed_above node_id a (node_at mapping a) e2)
  parent_checked node_id above (some v) e h = cc

  -- A node is among the children of its parent.
  pub listed_by_parent :
      (node_id above : Str)
      → HasParent mapping node_id above
      → (listed : List Str) × HasChildren mapping above listed × Member node_id listed
  listed_by_parent node_id above h =
      let (node, found, parent_there) = open_parent mapping (node_at mapping node_id) h in
      let (c, one) = checked node_id found in
      parent_checked node_id above (parent node) parent_there c.rooted

  parent_or_none :
      (node_id : Str) (v : Option Json) {is_root : Bool}
      → check_parent mapping node_id v ≡ ok is_root
      → (v ≡ none) ⊎ ((above : Str) × (v ≡ some (str above)))
  unfolding check_parent
  parent_or_none node_id none h = inl refl
  parent_or_none node_id (some (str above)) h = inr (above, refl)
  parent_or_none node_id (some v) h = cc

  key_node :
      (node_id : Str)
      → Member node_id (keys mapping)
      → (node : Fields) × (node_at mapping node_id ≡ some node)
  unfolding node_at
  key_node node_id m =
      let (v, found) = key-get mapping node_id m in
      let (node, e, c, one) =
        get-entry mapping (Agrees mapping (root ∷ [])) mapping node_id agree found in
      (node, ap (as_node mapping) (found ∙ ap some e))

  -- Every node has a parent or none.
  pub placed :
      (node_id : Str)
      → Member node_id (keys mapping)
      → HasNone mapping node_id ⊎ ((above : Str) × HasParent mapping node_id above)
  placed node_id m =
      let (node, found) = key_node node_id m in
      let (c, one) = checked node_id found in
      let at = ap (parent_at mapping) found in
      elim (parent_or_none node_id (parent node) c.rooted) [
        | inl e ↦ inl (at ∙ ap ok e)
        | inr (above, e) ↦ inr (above, at ∙ ap ok e)
      ]

  -- A node that has a parent is one of the mapping.
  pub has_parent-Member :
      (node_id above : Str) → HasParent mapping node_id above → Member node_id (keys mapping)
  unfolding node_at
  has_parent-Member node_id above h =
      let (node, found, parent_there) = open_parent mapping (node_at mapping node_id) h in
      get-key mapping node_id (obj_of (get node_id mapping) mapping found)

  -- And so is a node that has children.
  pub node_children :
      (node_id : Str)
      → Member node_id (keys mapping)
      → (below : List Str) × HasChildren mapping node_id below
  unfolding children_at
  node_children node_id m =
      let (node, found) = key_node node_id m in
      let (c, one) = checked node_id found in (c.below, ap (children_at mapping) found ∙ c.listed)
