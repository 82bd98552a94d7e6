-- ===== src/Ingestion/Chatgpt/Thread/Reach.antt =====
-- The count of `_validate` in thread.py.
use hermes_memory.Base.{
  ℕ, zero, suc, ◌+◌, ◌≡◌, refl, sym, subst, List, [], ◌∷◌, ◌++◌, All, Str, length, ok, >>=-eq-ok,
  arith, Member, Member-append, Member-left, Member-right, Distinct, All-Member, inl, inr,
}
use hermes_memory.Json.{Fields, entries}
use hermes_memory.Ingestion.Chatgpt.Unreadable.{Readable}
use hermes_memory.Ingestion.Chatgpt.Thread.{node_at, check_nodes, children_at, push, reach, size}
use hermes_memory.Ingestion.Chatgpt.Thread.Links.{HasParent, HasChildren}
use hermes_memory.Ingestion.Chatgpt.Thread.Tree.{keys, linked_children}
use hermes_memory.Ingestion.Chatgpt.Thread.Visits.{
  agree, Settled, Rooted, Rooted-Settled, all-Settled, fresh,
}

-- Moving the first of the pending nodes behind the others.
Distinct-middle : (x : Str) (xs ys : List Str) → Distinct (x ∷ (xs ++ ys)) → Distinct (xs ++ x ∷ ys)
Distinct-middle x [] ys d = d
Distinct-middle x (y ∷ xs) ys d = (
  λ m. elim (Member-append y xs (x ∷ ys) m) [
    | inl l ↦ d.1.0 (Member-left y xs ys l)
    | inr r ↦ elim r [ inl e ↦ d.0 (inl (sym e)) | inr r' ↦ d.1.0 (Member-right y xs ys r') ]
  ],
  Distinct-middle x xs ys (λ m. d.0 (inr m), d.1.1),
)

module _ (mapping : Fields) where
  push-Distinct :
      (below pending seen : List Str)
      → Distinct below
      → All (λ c. ¬ Member c (pending ++ seen)) below
      → Distinct (pending ++ seen)
      → Distinct (push mapping below pending ++ seen)
  push-Distinct [] pending seen b n d = d
  push-Distinct (c ∷ below) pending seen b n d =
      push-Distinct below (c ∷ pending) seen b.1 (others below b.0 n.1) (n.0, d)
    where
      others :
          (bs : List Str)
          → ¬ Member c bs
          → All (λ x. ¬ Member x (pending ++ seen)) bs
          → All (λ x. ¬ Member x ((c ∷ pending) ++ seen)) bs
      others [] absent a = tt
      others (x ∷ bs) absent a = (
        λ m. elim m [ inl e ↦ absent (inl (sym e)) | inr m' ↦ a.0 m' ],
        others bs (λ m. absent (inr m)) a.1,
      )

  push-All :
      (P : Str → Type 0) (below pending : List Str)
      → All P below
      → All P pending
      → All P (push mapping below pending)
  push-All P [] pending b p = p
  push-All P (c ∷ below) pending b p = push-All P below (c ∷ pending) b.1 (b.0, p)

module _ (mapping : Fields) (root : Str) (unique : Distinct (keys mapping))
    (nodes : check_nodes mapping (entries mapping) ≡ ok (root ∷ [])) where
  abbrev Known : Str → List Str → Type 0
  Known x seen = Settled mapping root unique nodes x seen

  -- The state of the loop.
  record Visiting (pending seen : List Str) : Type 0 where
    distinct : Distinct (pending ++ seen)
    settled : All (λ x. Known x seen) pending
    rooted : Rooted mapping root unique nodes seen

  children_fresh :
      (node_id : Str) (pending seen below : List Str)
      → Visiting (node_id ∷ pending) seen
      → All (λ c. HasParent mapping c node_id) below
      → All (λ c. ¬ Member c (pending ++ node_id ∷ seen)) below
  children_fresh node_id pending seen [] v h = tt
  children_fresh node_id pending seen (c ∷ below) v h = (
    λ m.
        fresh mapping root unique nodes c node_id seen h.0
          (λ m'. v.distinct.0 (Member-right node_id pending seen m')) (known m),
    children_fresh node_id pending seen below v h.1,
  )
    where
      known : Member c (pending ++ node_id ∷ seen) → Known c seen
      known m = elim (Member-append c pending (node_id ∷ seen) m) [
        | inl l ↦ All-Member (λ x. Known x seen) c pending v.settled.1 l
        | inr r ↦ elim r [
          | inl e ↦ subst (λ x. Known x seen) (sym e) v.settled.0
          | inr s ↦ Rooted-Settled mapping root unique nodes c seen v.rooted s
        ]
      ]

  children-Known :
      (node_id : Str) (seen below : List Str)
      → All (λ c. HasParent mapping c node_id) below
      → All (λ c. Known c (node_id ∷ seen)) below
  children-Known node_id seen [] h = tt
  children-Known node_id seen (c ∷ below) h =
      (inr (node_id, h.0, inl refl), children-Known node_id seen below h.1)

  visit :
      (node_id : Str) (pending seen below : List Str)
      → Visiting (node_id ∷ pending) seen
      → HasChildren mapping node_id below
      → Visiting (push mapping below pending) (node_id ∷ seen)
  visit node_id pending seen below v h =
      let (once, linked) =
        linked_children mapping root (agree mapping root unique nodes) node_id below h in
      record {
        distinct =
            push-Distinct mapping below pending (node_id ∷ seen) once
              (children_fresh node_id pending seen below v linked)
              (Distinct-middle node_id pending seen v.distinct);
        settled =
            push-All mapping _ below pending (children-Known node_id seen below linked)
              (all-Settled mapping root unique nodes node_id seen pending v.settled.1);
        rooted = (v.settled.0, v.rooted);
      }

  -- All the nodes, each after its parent.
  pub record Order : Type 0 where
    pub order : List Str
    pub distinct : Distinct order
    pub rooted : Rooted mapping root unique nodes order
    pub complete : length order ≡ size mapping

  reach-Order :
      (rounds : ℕ) (pending seen : List Str) {reached : ℕ}
      → Visiting pending seen
      → reach mapping rounds pending ≡ ok reached
      → reached + length seen ≡ size mapping
      → rounds + length seen ≡ suc (size mapping)
      → Order
  unfolding reach
  reach-Order zero pending seen v h a b = let nothing = ok-same h in absurd (omega (arith, nothing))
    where
      ok-same : {m n : ℕ} → ◌≡◌ {A = Readable ℕ} (ok m) (ok n) → m ≡ n
      ok-same e = cc
  reach-Order (suc rounds) [] seen v h a b = record {
    order = seen;
    distinct = v.distinct;
    rooted = v.rooted;
    complete = ground (arith, h);
  }
  reach-Order (suc rounds) (node_id ∷ pending) seen v h a b =
      let (below, e1, h1) = >>=-eq-ok (children_at mapping (node_at mapping node_id)) _ h in
      let (more, e2, h2) = >>=-eq-ok (reach mapping rounds (push mapping below pending)) _ h1 in
      reach-Order rounds (push mapping below pending) (node_id ∷ seen)
        (visit node_id pending seen below v e1) e2 (ground (arith, h2)) (omega arith)

  start : Visiting (root ∷ []) []
  start = record { distinct = (λ m. m, tt); settled = (inl refl, tt); rooted = tt }

  pub validated-Order :
      {reached : ℕ}
      → reach mapping (suc (size mapping)) (root ∷ []) ≡ ok reached
      → reached ≡ size mapping
      → Order
  validated-Order h e =
      reach-Order (suc (size mapping)) (root ∷ []) [] start h (omega (arith, e)) (omega arith)
