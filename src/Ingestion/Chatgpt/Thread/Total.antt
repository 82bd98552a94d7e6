-- ===== src/Ingestion/Chatgpt/Thread/Total.antt =====
-- `reconstruct` of thread.py.
use hermes_memory.Base.{
  ℕ, zero, suc, ◌+◌, ◌-◌, ◌≤◌, ◌<◌, ◌≡◌, refl, sym, ap, ◌∙◌, subst, not, is_some, Option,
  Option-cases, none, some, List, [], ◌∷◌, ◌++◌, map, append-nil, append_assoc, Str, Str-discrete,
  length, length-append, ok, arith, Member, Member-Placed, Member-right, Distinct, Distinct-covers,
  All-Member, inl, inr,
}
use hermes_memory.Json.{Json, str, Fields, get, entries}
use hermes_memory.Ingestion.Chatgpt.Thread.{
  Thread, has_key, check_nodes, validate, size, last_of, last_child_leaf, walk_up, displayed,
  leaf_of, reconstruct,
}
use hermes_memory.Ingestion.Chatgpt.Thread.Links.{HasChildren}
use hermes_memory.Ingestion.Chatgpt.Thread.Tree.{
  keys, get-key, linked_children, has_parent-Member, node_children,
}
use hermes_memory.Ingestion.Chatgpt.Thread.Visits.{agree, Rooted, Rooted-keys, root-Member}
use hermes_memory.Ingestion.Chatgpt.Thread.Reach.{Order, validated-Order}
use hermes_memory.Ingestion.Chatgpt.Thread.Walks.{
  PathTo, walk_up-Walked, child_later, last_of-Member, leaf_stops, leaf_goes_on,
}
use hermes_memory.Ingestion.Chatgpt.Thread.Accepted.{validated}

abbrev pub Ends : Fields → Option Str → Str → Type 0
Ends mapping none leaf = HasChildren mapping leaf []
Ends mapping (some node_id) leaf = leaf ≡ node_id

-- The thread of a mapping: from the root, by parent links, to the displayed node, or where none is
-- displayed to a node without children; and every other node is counted as abandoned.
pub record IsThread (mapping : Fields) (current_node : Option Json) (thread : Thread) : Type 0 where
  pub leaf : Str
  pub path : PathTo mapping leaf thread.node_ids
  pub ends : Ends mapping (displayed mapping current_node) leaf
  pub marked : thread.fallback_branch ≡ not (is_some (displayed mapping current_node))
  pub counted : length thread.node_ids + thread.abandoned ≡ size mapping

length-map : {A B : Type 0} (f : A → B) (xs : List A) → length (map f xs) ≡ length xs
length-map f [] = refl
length-map f (x ∷ xs) = ap suc (length-map f xs)

displayed-Member :
    (mapping : Fields) (current_node : Option Json) (node_id : Str)
    → displayed mapping current_node ≡ some node_id
    → Member node_id (keys mapping)
unfolding has_key
displayed-Member mapping none node_id h = cc
displayed-Member mapping (some (str s)) node_id h = elim (Option-cases (get s mapping)) [
  | inl absent ↦ ground (arith, absent)
  | inr (v, found) ↦
      let same : s ≡ node_id = ground (arith, found) in
      get-key mapping node_id (subst (λ k. get k mapping ≡ some v) same found)
]
displayed-Member mapping (some v) node_id h = cc

module _ (mapping : Fields) (root : Str) (unique : Distinct (keys mapping))
    (nodes : check_nodes mapping (entries mapping) ≡ ok (root ∷ []))
    (o : Order mapping root unique nodes) where
  in_order : (x : Str) → Member x (keys mapping) → Member x o.order
  in_order x m =
      let all_keys : length (keys mapping) ≤ length o.order =
        omega (arith, length-map (λ (e : Str × Json). e.0) (entries mapping), o.complete) in
      Distinct-covers Str-discrete o.order (keys mapping) o.distinct
        (Rooted-keys mapping root unique nodes o.order o.rooted) all_keys x m

  -- What the walk over last children gives.
  record Descended (steps : ℕ) (x : Str) : Type 0 where
    leaf : Str
    known : Member leaf (keys mapping)
    childless : HasChildren mapping leaf []
    walks : last_child_leaf mapping steps x ≡ ok leaf

  abbrev Shorter : ℕ → List Str → Type 0
  Shorter steps front =
      (front' back' : List Str) (x' : Str)
      → o.order ≡ front' ++ x' ∷ back'
      → length front' < length front
      → Descended steps x'

  step_down :
      (steps : ℕ) (front back : List Str) (x : Str) (below : List Str)
      → o.order ≡ front ++ x ∷ back
      → HasChildren mapping x below
      → Member x (keys mapping)
      → Shorter steps front
      → Descended (suc steps) x
  step_down steps front back x [] e h here again = record {
    leaf = x;
    known = here;
    childless = h;
    walks = leaf_stops mapping steps x h;
  }
  step_down steps front back x (c ∷ rest) e h here again =
      let child = last_of mapping c rest in
      let (once, linked) =
        linked_children mapping root (agree mapping root unique nodes) x (c ∷ rest) h in
      let has_parent = All-Member _ child (c ∷ rest) linked (last_of-Member mapping c rest) in
      let known =
        has_parent-Member mapping root (agree mapping root unique nodes) child x has_parent in
      let later =
        child_later mapping root unique nodes front back x child
          (subst (Rooted mapping root unique nodes) e o.rooted) (subst Distinct e o.distinct)
          has_parent (subst (Member child) e (in_order child known)) in
      let p = Member-Placed child front later in
      let split : o.order ≡ p.front ++ child ∷ (p.back ++ x ∷ back) =
        e ∙ ap (λ f. f ++ x ∷ back) p.splits ∙ append_assoc p.front (child ∷ p.back) (x ∷ back) in
      let size_front : length front ≡ length p.front + suc (length p.back) =
        ap length p.splits ∙ length-append p.front (child ∷ p.back) in
      let d = again p.front (p.back ++ x ∷ back) child split (omega (arith, size_front)) in
      record {
        leaf = d.leaf;
        known = d.known;
        childless = d.childless;
        walks = leaf_goes_on mapping steps x c rest h ∙ d.walks;
      }

  descend :
      (steps : ℕ) (front back : List Str) (x : Str)
      → o.order ≡ front ++ x ∷ back
      → length front < steps
      → Descended steps x
  descend zero front back x e l = absurd (omega arith)
  descend (suc steps) front back x e l =
      let m : Member x o.order =
        subst (Member x) (sym e) (Member-right x front (x ∷ back) (inl refl)) in
      let here =
        All-Member _ x o.order (Rooted-keys mapping root unique nodes o.order o.rooted) m in
      let (below, h) = node_children mapping root (agree mapping root unique nodes) x here in
      step_down steps front back x below e h here
        (λ front' back' x' e' l'. descend steps front' back' x' e' (omega arith))

  -- The end of the thread is found.
  record Ended (current : Option Str) : Type 0 where
    leaf : Str
    known : Member leaf (keys mapping)
    ends : Ends mapping current leaf
    found : leaf_of mapping root current ≡ ok leaf

  ended :
      (current : Option Str)
      → ((id : Str) → current ≡ some id → Member id (keys mapping))
      → Ended current
  ended (some id) known = record { leaf = id; known = known id refl; ends = refl; found = refl }
  ended none known =
      let p = Member-Placed root o.order (in_order root (root-Member mapping root unique nodes)) in
      let total : length o.order ≡ length p.front + suc (length p.back) =
        ap length p.splits ∙ length-append p.front (root ∷ p.back) in
      let d =
        descend (size mapping) p.front p.back root p.splits (omega (arith, total, o.complete)) in
      record { leaf = d.leaf; known = d.known; ends = d.childless; found = d.walks }

  reconstructed :
      (current_node : Option Json)
      → validate mapping ≡ ok root
      → (thread : Thread) × (reconstruct mapping current_node ≡ ok thread)
        × IsThread mapping current_node thread
  unfolding reconstruct
  reconstructed current_node valid =
      let e = ended (displayed mapping current_node) (displayed-Member mapping current_node) in
      let w =
        walk_up-Walked mapping root unique nodes o.order e.leaf (size mapping) o.rooted
          (in_order e.leaf e.known) (omega (arith, o.complete)) in
      let walked : walk_up mapping (size mapping) e.leaf [] ≡ ok w.path =
        w.walks [] ∙ ap ok (append-nil w.path) in
      let thread : Thread = record {
        node_ids = w.path;
        fallback_branch = not (is_some (displayed mapping current_node));
        abandoned = size mapping - length w.path;
      } in
      (
        thread,
        rw valid (rw e.found (rw walked refl)),
        record {
          leaf = e.leaf;
          path = w.leads;
          ends = e.ends;
          marked = refl;
          counted = omega (arith, w.short, o.complete);
        },
      )

-- For every mapping with distinct keys, as those of a dict are, that the validation accepts, both
-- walks end and the answer is a thread: it leads from the root by parent links to the displayed
-- node, or, where the export marks no valid one and the fallback is reported, to a node without
-- children; and the nodes on it and the abandoned ones add up to all nodes.
pub reconstruct-IsThread :
    (mapping : Fields) (current_node : Option Json) {root : Str}
    → Distinct (keys mapping)
    → validate mapping ≡ ok root
    → (thread : Thread) × (reconstruct mapping current_node ≡ ok thread)
      × IsThread mapping current_node thread
reconstruct-IsThread mapping current_node {root = root} unique valid =
    let (reached, nodes, counted, all_there) = validated mapping valid in
    reconstructed mapping root unique nodes
      (validated-Order mapping root unique nodes counted all_there) current_node valid
