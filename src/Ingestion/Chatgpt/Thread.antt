-- ===== src/Ingestion/Chatgpt/Thread.antt =====
-- src/engineering_memory/ingestion/chatgpt/thread.py
pub mod Links
pub mod Tree
pub mod Visits
pub mod Reach
pub mod Walks
pub mod Accepted
pub mod Total
use hermes_memory.Base.{
  ℕ, zero, suc, ◌+◌, ◌-◌, Bool, true, false, not, ◌&&◌, ◌||◌, Option, none, some, List, [], ◌∷◌,
  ◌++◌, Str, str_eq, Str-discrete, codes, any, length, is_empty, is_some, ◌==◌, if◌then◌else◌,
  Result, ok, err, ◌>>=◌, ◌>>◌, require,
}
use hermes_memory.Json.{Json, null, str, arr, obj, Fields, get, entries, items}
use hermes_memory.Ingestion.Chatgpt.Unreadable.{
  Readable, UnreadableRecord, children_not_ids, child_twice, no_mapping, entry_not_a_node,
  unknown_parent, parent_disagrees, unknown_child, child_disagrees, roots_not_one, not_a_tree,
  key_missing, endless,
}

pub record Thread : Type 0 where
  pub node_ids : List Str
  pub fallback_branch : Bool
  pub abandoned : ℕ

abbrev pub is_member : Str → List Str → Bool
is_member x = any (str_eq x)

abbrev pub has_duplicates : List Str → Bool
has_duplicates [] = false
has_duplicates (x ∷ xs) = is_member x xs || has_duplicates xs

-- `all(isinstance(child, str) for child in children)`, with the strings.
abbrev pub strings : List Json → Option (List Str)
strings [] = some []
strings (str s ∷ vs) = elim (strings vs) [ none ↦ none | some ss ↦ some (s ∷ ss) ]
strings (v ∷ vs) = none

abbrev pub checked_children : Option (List Str) → Readable (List Str)
checked_children none = err children_not_ids
checked_children (some ids) = if has_duplicates ids then err child_twice else ok ids

abbrev pub listed_children : Option Json → Readable (List Str)
listed_children none = ok []
listed_children (some (arr vs)) = checked_children (strings (items vs))
listed_children (some v) = err children_not_ids

-- `_children`
unfoldable pub children : Fields → Readable (List Str)
children node = listed_children (get (codes "children") node)

-- `_parent`: a missing key and `null` are both `None`.
abbrev pub present : Option Json → Option Json
present none = none
present (some null) = none
present (some v) = some v

unfoldable pub parent : Fields → Option Json
parent node = present (get (codes "parent") node)

module _ (mapping : Fields) where
  -- `mapping[node_id]`, as far as it is a mapping.
  abbrev pub as_node : Option Json → Option Fields
  as_node (some (obj node)) = some node
  as_node v = none

  unfoldable pub node_at : Str → Option Fields
  node_at node_id = as_node (get node_id mapping)

  unfoldable pub has_key : Str → Bool
  has_key node_id = is_some (get node_id mapping)

  abbrev pub lists_child : Str → Option Fields → Readable Unit
  lists_child node_id none = err parent_disagrees
  lists_child node_id (some above) = do
    listed ← children above
    require (is_member node_id listed) parent_disagrees

  -- The test of a node's parent: whether it is a root.
  unfoldable pub check_parent : Str → Option Json → Readable Bool
  check_parent node_id none = ok true
  check_parent node_id (some (str above)) = do
    require (has_key above) unknown_parent
    lists_child node_id (node_at above)
    ok false
  check_parent node_id (some v) = err unknown_parent

  abbrev pub is_id : Str → Option Json → Bool
  is_id node_id (some (str above)) = str_eq above node_id
  is_id node_id v = false

  abbrev pub names_parent : Str → Option Fields → Readable Unit
  names_parent node_id none = err child_disagrees
  names_parent node_id (some below) = require (is_id node_id (parent below)) child_disagrees

  unfoldable pub check_children : Str → List Str → Readable Unit
  check_children node_id [] = ok tt
  check_children node_id (child ∷ rest) = do
    require (has_key child) unknown_child
    names_parent node_id (node_at child)
    check_children node_id rest

  abbrev pub with_root : Bool → Str → List Str → List Str
  with_root true node_id roots = node_id ∷ roots
  with_root false node_id roots = roots

  -- One round of the first loop: whether the node is a root.
  unfoldable pub check_node : Str → Json → Readable Bool
  check_node node_id (obj node) = do
    is_root ← check_parent node_id (parent node)
    below ← children node
    check_children node_id below
    ok is_root
  check_node node_id v = err entry_not_a_node

  -- The loop: the roots.
  unfoldable pub check_nodes : List (Str × Json) → Readable (List Str)
  check_nodes [] = ok []
  check_nodes ((node_id, value) ∷ rest) = do
    is_root ← check_node node_id value
    roots ← check_nodes rest
    ok (with_root is_root node_id roots)

  -- `mapping[node_id]` and its children.
  unfoldable pub children_at : Option Fields → Readable (List Str)
  children_at none = err key_missing
  children_at (some node) = children node

  abbrev pub push : List Str → List Str → List Str
  push [] pending = pending
  push (child ∷ rest) pending = push rest (child ∷ pending)

  -- The second loop, which breaks off after the given number of rounds: how many there are. The last
  -- of `pending` is the first here.
  unfoldable pub reach : ℕ → List Str → Readable ℕ
  reach zero pending = ok 0
  reach (suc rounds) [] = ok 0
  reach (suc rounds) (node_id ∷ pending) = do
    below ← children_at (node_at node_id)
    more ← reach rounds (push below pending)
    ok (suc more)

  abbrev pub size : ℕ
  size = length (entries mapping)

  abbrev pub check_tree : List Str → Readable Str
  check_tree (root ∷ []) = do
    reached ← reach (suc size) (root ∷ [])
    require (reached == size) not_a_tree
    ok root
  check_tree roots = err roots_not_one

  -- `_validate`
  unfoldable pub validate : Readable Str
  validate =
      if is_empty (entries mapping)
      then err no_mapping
      else (do roots ← check_nodes (entries mapping); check_tree roots)

  abbrev pub last_of : Str → List Str → Str
  last_of x [] = x
  last_of x (y ∷ ys) = last_of y ys

  -- `_last_child_leaf`, in at most the given number of steps.
  unfoldable pub last_child_leaf : ℕ → Str → Readable Str
  last_child_leaf zero node_id = err endless
  last_child_leaf (suc steps) node_id = do
    below ← children_at (node_at node_id)
    elim below [ [] ↦ ok node_id | child ∷ rest ↦ last_child_leaf steps (last_of child rest) ]

  abbrev pub parent_at : Option Fields → Readable (Option Json)
  parent_at none = err key_missing
  parent_at (some node) = ok (parent node)

  -- The walk to the root, in at most the given number of steps: `path` reversed.
  unfoldable pub walk_up : ℕ → Str → List Str → Readable (List Str)
  walk_up zero node_id below = err endless
  walk_up (suc steps) node_id below = do
    above ← parent_at (node_at node_id)
    elim above [
      | none ↦ ok (node_id ∷ below)
      | some v ↦ elim v [ str next ↦ walk_up steps next (node_id ∷ below) | _ ↦ err key_missing ]
    ]

  abbrev pub displayed : Option Json → Option Str
  displayed (some (str node_id)) = if has_key node_id then some node_id else none
  displayed v = none

  -- The end of the thread: the displayed node, or the leaf that the last children lead to.
  abbrev pub leaf_of : Str → Option Str → Readable Str
  leaf_of root (some node_id) = ok node_id
  leaf_of root none = last_child_leaf size root

  -- `reconstruct`, of a mapping.
  unfoldable pub reconstruct : Option Json → Readable Thread
  reconstruct current_node = do
    root ← validate
    leaf ← leaf_of root (displayed current_node)
    path ← walk_up size leaf []
    ok (record {
      node_ids = path;
      fallback_branch = not (is_some (displayed current_node));
      abandoned = size - length path;
    })

-- `reconstruct`: a value that is no mapping has no messages.
abbrev pub reconstruct_value : Option Json → Option Json → Readable Thread
reconstruct_value (some (obj mapping)) current_node = reconstruct mapping current_node
reconstruct_value v current_node = err no_mapping
