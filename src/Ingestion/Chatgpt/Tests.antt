-- ===== src/Ingestion/Chatgpt/Tests.antt =====
-- A message graph with a fork, and its thread.
use hermes_memory.Base.{
  ℕ, ◌≡◌, refl, true, false, none, some, List, [], ◌∷◌, Str, codes, Str-discrete, ℕ_discrete, ok,
  err, Distinct, arith,
}
use hermes_memory.Json.{Json, null, str, arr, obj, Fields, end, field, get, of_list}
use hermes_memory.Ingestion.Chatgpt.Unreadable.{not_a_tree}
use hermes_memory.Ingestion.Chatgpt.Thread.{
  Thread, children, parent, node_at, has_key, check_parent, check_children, check_node, check_nodes,
  children_at, reach, validate, last_child_leaf, walk_up, reconstruct,
}
use hermes_memory.Ingestion.Chatgpt.Thread.Tree.{keys}
use hermes_memory.Ingestion.Chatgpt.Thread.Total.{IsThread, reconstruct-IsThread}

abbrev node : Json → List Json → Json
node above below =
    obj (field (codes "parent") above (field (codes "children") (arr (of_list below)) end))

abbrev id : ℕ → Str
id n = n ∷ []

-- Node 1 is the root, 2 and 3 its children, and 4 follows 2.
abbrev forked : Fields
forked = field (id 1) (node null (str (id 2) ∷ str (id 3) ∷ [])) (
    field (id 2) (node (str (id 1)) (str (id 4) ∷ []))
      (field (id 3) (node (str (id 1)) []) (field (id 4) (node (str (id 2)) []) end)))

-- Two nodes that are each the other's parent, beside a root.
abbrev looped : Fields
looped = field (id 1) (node null []) (
    field (id 2) (node (str (id 3)) (str (id 3) ∷ []))
      (field (id 3) (node (str (id 2)) (str (id 2) ∷ [])) end))

displayed_node :
    reconstruct forked (some (str (id 4)))
    ≡ ok (record { node_ids = id 1 ∷ id 2 ∷ id 4 ∷ []; fallback_branch = false; abandoned = 1 })
unfolding reconstruct validate check_nodes check_node check_parent check_children children parent
    node_at has_key children_at reach last_child_leaf walk_up get Str-discrete ℕ_discrete
displayed_node = refl

last_child :
    reconstruct forked none
    ≡ ok (record { node_ids = id 1 ∷ id 3 ∷ []; fallback_branch = true; abandoned = 2 })
unfolding reconstruct validate check_nodes check_node check_parent check_children children parent
    node_at has_key children_at reach last_child_leaf walk_up get Str-discrete ℕ_discrete
last_child = refl

cycle_refused : reconstruct looped none ≡ err not_a_tree
unfolding reconstruct validate check_nodes check_node check_parent check_children children parent
    node_at has_key children_at reach last_child_leaf walk_up get Str-discrete ℕ_discrete
cycle_refused = refl

forked_valid : validate forked ≡ ok (id 1)
unfolding validate check_nodes check_node check_parent check_children children parent node_at
    has_key children_at reach get Str-discrete ℕ_discrete
forked_valid = refl

-- Applications

Distinct-keys-forked : Distinct (keys forked)
Distinct-keys-forked = ground arith

reconstruct-IsThread_example :
    (thread : Thread) × (reconstruct forked (some (str (id 4))) ≡ ok thread)
    × IsThread forked (some (str (id 4))) thread
reconstruct-IsThread_example =
    reconstruct-IsThread forked (some (str (id 4))) Distinct-keys-forked forked_valid
