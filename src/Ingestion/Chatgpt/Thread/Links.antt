-- ===== src/Ingestion/Chatgpt/Thread/Links.antt =====
-- What `_validate` of thread.py has checked of every node of the mapping.
use hermes_memory.Base.{
  ◌≡◌, refl, sym, ap₂, ◌∙◌, subst, Bool, true, false, Option, none, some, List, [], ◌∷◌, All, Str,
  Str-discrete, codes, ok, >>=-eq-ok, require, arith, Member, Distinct, inl, inr, Bool-cases,
}
use hermes_memory.Json.{Json, null, str, arr, obj, Fields, end, field, get, entries, items}
use hermes_memory.Ingestion.Chatgpt.Unreadable.{Readable, UnreadableRecord}
use hermes_memory.Ingestion.Chatgpt.Thread.{
  is_member, has_duplicates, strings, checked_children, listed_children, children, parent, node_at,
  has_key, check_parent, is_id, names_parent, check_children, with_root, check_node, check_nodes,
  children_at, parent_at,
}

pub is_member-Member : (x : Str) (xs : List Str) → is_member x xs ≡ true → Member x xs
is_member-Member x [] h = cc
is_member-Member x (y ∷ ys) h = elim (Str-discrete x y) [
  | yes e ↦ inl e
  | no ne ↦ inr (is_member-Member x ys (ground (arith, ne)))
]

pub not-Member : (x : Str) (xs : List Str) → is_member x xs ≡ false → ¬ Member x xs
not-Member x [] h m = absurd m
not-Member x (y ∷ ys) h (inl e) = ground arith
not-Member x (y ∷ ys) h (inr m) = not-Member x ys (ground arith) m

no_duplicates-Distinct : (xs : List Str) → has_duplicates xs ≡ false → Distinct xs
no_duplicates-Distinct [] h = tt
no_duplicates-Distinct (x ∷ xs) h =
    (not-Member x xs (ground arith), no_duplicates-Distinct xs (ground arith))

checked_children-Distinct :
    (ids : Option (List Str)) {listed : List Str}
    → checked_children ids ≡ ok listed
    → Distinct listed
checked_children-Distinct none h = cc
checked_children-Distinct (some ids) {listed = listed} h = elim (Bool-cases (has_duplicates ids)) [
  | inl twice ↦ ground (arith, twice)
  | inr once ↦
      let same : ids ≡ listed = ground (arith, once) in
      subst Distinct same (no_duplicates-Distinct ids once)
]

listed_children-Distinct :
    (v : Option Json) {listed : List Str} → listed_children v ≡ ok listed → Distinct listed
listed_children-Distinct none {listed = listed} h =
    let same : [] ≡ listed = cc in subst Distinct same tt
listed_children-Distinct (some (arr vs)) h = checked_children-Distinct (strings (items vs)) h
listed_children-Distinct (some v) h = cc

pub children-Distinct :
    (node : Fields) {listed : List Str} → children node ≡ ok listed → Distinct listed
unfolding children
children-Distinct node h = listed_children-Distinct (get (codes "children") node) h

pub require-true : (b : Bool) (e : UnreadableRecord) {u : Unit} → require b e ≡ ok u → b ≡ true
require-true true e h = refl
require-true false e h = cc

module _ (mapping : Fields) where
  -- The node is there and names `above` as its parent.
  abbrev pub HasParent : Str → Str → Type 0
  HasParent node_id above = parent_at mapping (node_at mapping node_id) ≡ ok (some (str above))

  abbrev pub HasNone : Str → Type 0
  HasNone node_id = parent_at mapping (node_at mapping node_id) ≡ ok none

  abbrev pub HasChildren : Str → List Str → Type 0
  HasChildren node_id below = children_at mapping (node_at mapping node_id) ≡ ok below

  names_parent-HasParent :
      (node_id child : Str) (below : Option Fields)
      → names_parent mapping node_id below ≡ ok tt
      → parent_at mapping below ≡ ok (some (str node_id))
  names_parent-HasParent node_id child none h = cc
  names_parent-HasParent node_id child (some below) h =
      named (parent below) (require-true (is_id mapping node_id (parent below)) _ h)
    where
      named :
          (v : Option Json)
          → is_id mapping node_id v ≡ true
          → ◌≡◌ {A = Readable (Option Json)} (ok v) (ok (some (str node_id)))
      named none e = cc
      named (some (str above)) e = ground arith
      named (some null) e = cc
      named (some v) e = cc

  check_children-HasParent :
      (node_id : Str) (below : List Str)
      → check_children mapping node_id below ≡ ok tt
      → All (λ child. HasParent child node_id) below
  unfolding check_children
  check_children-HasParent node_id [] h = tt
  check_children-HasParent node_id (child ∷ rest) h =
      let (u1, e1, h1) = >>=-eq-ok (require (has_key mapping child) _) _ h in
      let (u2, e2, h2) = >>=-eq-ok (names_parent mapping node_id (node_at mapping child)) _ h1 in
      (
        names_parent-HasParent node_id child (node_at mapping child) e2,
        check_children-HasParent node_id rest h2,
      )

  -- What is known of a node: whether it is a root, its children, and that they name it.
  pub record Checked (node_id : Str) (node : Fields) : Type 0 where
    pub is_root : Bool
    pub below : List Str
    pub rooted : check_parent mapping node_id (parent node) ≡ ok is_root
    pub listed : children node ≡ ok below
    pub linked : All (λ child. HasParent child node_id) below

  -- An entry of the mapping is a checked node, and one of `roots` if it is a root.
  abbrev pub Agrees : List Str → Str × Json → Type 0
  Agrees roots (node_id, value) =
      (node : Fields) × (value ≡ obj node)
      × (c : Checked node_id node) × (c.is_root ≡ true → Member node_id roots)

  check_node-Checked :
      (node_id : Str) (value : Json) {is_root : Bool}
      → check_node mapping node_id value ≡ ok is_root
      → (node : Fields) × (value ≡ obj node) × (c : Checked node_id node) × (c.is_root ≡ is_root)
  unfolding check_node
  check_node-Checked node_id (obj node) h =
      let (b, e1, h1) = >>=-eq-ok (check_parent mapping node_id (parent node)) _ h in
      let (below, e2, h2) = >>=-eq-ok (children node) _ h1 in
      let (u, e3, h3) = >>=-eq-ok (check_children mapping node_id below) _ h2 in
      (
        node,
        refl,
        record {
          is_root = b;
          below = below;
          rooted = e1;
          listed = e2;
          linked = check_children-HasParent node_id below e3;
        },
        ground arith,
      )
  check_node-Checked node_id v h = cc

  more_roots :
      (is_root : Bool) (node_id : Str) (roots : List Str) (es : List (Str × Json))
      → All (Agrees roots) es
      → All (Agrees (with_root mapping is_root node_id roots)) es
  more_roots false node_id roots es a = a
  more_roots true node_id roots [] a = tt
  more_roots true node_id roots ((k, v) ∷ es) a =
      let (node, e, c, one) = a.0 in
      ((node, e, c, λ is_root. inr (one is_root)), more_roots true node_id roots es a.1)

  with_root-Member :
      (is_root : Bool) (node_id : Str) (roots : List Str)
      → is_root ≡ true
      → Member node_id (with_root mapping is_root node_id roots)
  with_root-Member true node_id roots h = inl refl
  with_root-Member false node_id roots h = cc

  pub check_nodes-Agrees :
      (es : List (Str × Json)) {roots : List Str}
      → check_nodes mapping es ≡ ok roots
      → All (Agrees roots) es
  unfolding check_nodes
  check_nodes-Agrees [] h = tt
  check_nodes-Agrees ((k, v) ∷ es) {roots = roots} h =
      let (is_root, e1, h1) = >>=-eq-ok (check_node mapping k v) _ h in
      let (rest, e2, h2) = >>=-eq-ok (check_nodes mapping es) _ h1 in
      let all_roots : with_root mapping is_root k rest ≡ roots = ground arith in
      let (node, e, c, same) = check_node-Checked k v e1 in
      subst (λ rs. All (Agrees rs) ((k, v) ∷ es)) all_roots
        (
          (node, e, c, λ h'. with_root-Member is_root k rest (sym same ∙ h')),
          more_roots is_root k rest es (check_nodes-Agrees es e2),
        )

  pub get-entry :
      (P : Str × Json → Type 0) (m : Fields) (k : Str) {v : Json}
      → All P (entries m)
      → get k m ≡ some v
      → P (k, v)
  unfolding get
  get-entry P end k a h = cc
  get-entry P (field j w m) k {v = v} a h = elim (Str-discrete j k) [
    | yes e ↦ let same : w ≡ v = ground (arith, e) in subst P (ap₂ (λ k' v'. (k', v')) e same) a.0
    | no ne ↦ get-entry P m k a.1 (ground (arith, ne))
  ]
