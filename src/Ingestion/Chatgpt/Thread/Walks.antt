-- ===== src/Ingestion/Chatgpt/Thread/Walks.antt =====
-- The walks of thread.py over a mapping.
use hermes_memory.Base.{
  ℕ, zero, suc, ◌≤◌, ◌≡◌, refl, sym, ap, ◌∙◌, subst, List, [], ◌∷◌, ◌++◌, Str, length,
  length-append, append_assoc, ok, arith, Member, Member-append, Distinct, inl, inr,
}
use hermes_memory.Json.{Fields, entries}
use hermes_memory.Ingestion.Chatgpt.Thread.{check_nodes, last_of, last_child_leaf, walk_up}
use hermes_memory.Ingestion.Chatgpt.Thread.Links.{HasParent, HasNone, HasChildren}
use hermes_memory.Ingestion.Chatgpt.Thread.Tree.{keys}
use hermes_memory.Ingestion.Chatgpt.Thread.Visits.{
  root-HasNone, Settled, Rooted, Rooted-Settled, fresh,
}

-- `path` leads from a node without parent down to `x`, each node the parent of the next.
pub data PathTo (mapping : Fields) : Str → List Str → Type 0 where
  at_root : {x : Str} → HasNone mapping x → PathTo mapping x (x ∷ [])
  under :
      {x p : Str} {path : List Str}
      → HasParent mapping x p
      → PathTo mapping p path
      → PathTo mapping x (path ++ x ∷ [])

length-snoc : (path : List Str) (x : Str) → length (path ++ x ∷ []) ≡ suc (length path)
length-snoc path x = omega (arith, length-append path (x ∷ []))

pub last_of-Member :
    (mapping : Fields) (x : Str) (xs : List Str) → Member (last_of mapping x xs) (x ∷ xs)
last_of-Member mapping x [] = inl refl
last_of-Member mapping x (y ∷ ys) = inr (last_of-Member mapping y ys)

walk_stops :
    (mapping : Fields) (steps : ℕ) (x : Str) (below : List Str)
    → HasNone mapping x
    → walk_up mapping (suc steps) x below ≡ ok (x ∷ below)
unfolding walk_up
walk_stops mapping steps x below h = rw h refl

walk_goes_on :
    (mapping : Fields) (steps : ℕ) (x p : Str) (below : List Str)
    → HasParent mapping x p
    → walk_up mapping (suc steps) x below ≡ walk_up mapping steps p (x ∷ below)
unfolding walk_up
walk_goes_on mapping steps x p below h = rw h refl

pub leaf_stops :
    (mapping : Fields) (steps : ℕ) (x : Str)
    → HasChildren mapping x []
    → last_child_leaf mapping (suc steps) x ≡ ok x
unfolding last_child_leaf
leaf_stops mapping steps x h = rw h refl

pub leaf_goes_on :
    (mapping : Fields) (steps : ℕ) (x c : Str) (rest : List Str)
    → HasChildren mapping x (c ∷ rest)
    → last_child_leaf mapping (suc steps) x ≡ last_child_leaf mapping steps (last_of mapping c rest)
unfolding last_child_leaf
leaf_goes_on mapping steps x c rest h = rw h refl

module _ (mapping : Fields) (root : Str) (unique : Distinct (keys mapping))
    (nodes : check_nodes mapping (entries mapping) ≡ ok (root ∷ [])) where
  abbrev InOrder : List Str → Type 0
  InOrder seen = Rooted mapping root unique nodes seen

  -- What a walk to the root from `x` gives, of at most `bound` nodes.
  pub record Walked (steps bound : ℕ) (x : Str) : Type 0 where
    pub path : List Str
    pub leads : PathTo mapping x path
    pub short : length path ≤ bound
    pub walks : (below : List Str) → walk_up mapping steps x below ≡ ok (path ++ below)

  walk_root :
      (steps bound : ℕ) (x : Str) → HasNone mapping x → 1 ≤ bound → Walked (suc steps) bound x
  walk_root steps bound x h b = record {
    path = x ∷ [];
    leads = at_root h;
    short = b;
    walks = λ below. walk_stops mapping steps x below h;
  }

  walk_parent :
      (steps bound : ℕ) (x p : Str)
      → HasParent mapping x p
      → Walked steps bound p
      → Walked (suc steps) (suc bound) x
  walk_parent steps bound x p h w = record {
    path = w.path ++ x ∷ [];
    leads = under h w.leads;
    short = omega (arith, length-snoc w.path x, w.short);
    walks = λ below.
        walk_goes_on mapping steps x p below h
        ∙ w.walks (x ∷ below)
        ∙ ap ok (sym (append_assoc w.path (x ∷ []) below));
  }

  walk_longer : (steps m n : ℕ) (x : Str) → m ≤ n → Walked steps m x → Walked steps n x
  walk_longer steps m n x l w = record {
    path = w.path;
    leads = w.leads;
    short = omega (arith, w.short);
    walks = w.walks;
  }

  pub walk_up-Walked :
      (seen : List Str) (x : Str) (steps : ℕ)
      → InOrder seen
      → Member x seen
      → length seen ≤ steps
      → Walked steps (length seen) x
  walk_up-Walked [] x steps r m l = absurd m
  walk_up-Walked (y ∷ seen) x zero r m l = absurd (omega arith)
  walk_up-Walked (y ∷ seen) x (suc steps) r (inl e) l =
      subst (Walked (suc steps) (suc (length seen))) (sym e) (elim r.0 [
        | inl is_root ↦
            walk_root steps (suc (length seen)) y
              (subst (HasNone mapping) (sym is_root) (root-HasNone mapping root unique nodes))
              (omega arith)
        | inr (p, h, m) ↦
            walk_parent steps (length seen) y p h (walk_up-Walked seen p steps r.1 m (omega arith))
      ])
  walk_up-Walked (y ∷ seen) x (suc steps) r (inr m) l =
      walk_longer (suc steps) (length seen) (suc (length seen)) x (omega arith)
        (walk_up-Walked seen x (suc steps) r.1 m (omega arith))

  suffix_InOrder : (front back : List Str) → InOrder (front ++ back) → InOrder back
  suffix_InOrder [] back r = r
  suffix_InOrder (y ∷ front) back r = suffix_InOrder front back r.1

  suffix_Distinct : (front back : List Str) → Distinct (front ++ back) → Distinct back
  suffix_Distinct [] back d = d
  suffix_Distinct (y ∷ front) back d = suffix_Distinct front back d.1

  -- A child comes later than its parent.
  pub child_later :
      (front back : List Str) (x c : Str)
      → InOrder (front ++ x ∷ back)
      → Distinct (front ++ x ∷ back)
      → HasParent mapping c x
      → Member c (front ++ x ∷ back)
      → Member c front
  child_later front back x c r d h m =
      let r' = suffix_InOrder front (x ∷ back) r in
      let d' = suffix_Distinct front (x ∷ back) d in
      let not_known = fresh mapping root unique nodes c x back h d'.0 in
      elim (Member-append c front (x ∷ back) m) [
        | inl l ↦ l
        | inr s ↦ elim s [
          | inl e ↦
              absurd
                (not_known (subst (λ z. Settled mapping root unique nodes z back) (sym e) r'.0))
          | inr b ↦ absurd (not_known (Rooted-Settled mapping root unique nodes c back r'.1 b))
        ]
      ]
