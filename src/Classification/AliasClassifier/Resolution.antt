-- ===== src/Classification/AliasClassifier/Resolution.antt =====
-- `_resolve` of alias_classifier.py: which of several projects wins.
use hermes_memory.Base.{
  ◌≡◌, ◌≢◌, ◌↔◌, refl, sym, subst, ap, ap₂, ◌∙◌, true, false, ◌⊎◌, inl, inr, List, [], ◌∷◌, ◌++◌,
  All, Str, arith, Bool-cases, if◌then◌else◌,
}
use hermes_memory.Classification.Priorities.{ℤ, below, same}
use hermes_memory.Classification.Rules.{unknown_project}
use hermes_memory.Classification.AliasClassifier.{highest, tied, only, resolve_named}

same-eq : (i j : ℤ) → same i j ≡ true → i ≡ j
same-eq i j h = ground arith

same_refl : (i : ℤ) → same i i ≡ true
same_refl i = ground arith

below-ne : (i j : ℤ) → below i j ≡ true → same i j ≡ false
below-ne i j h = ground arith

settled : (i j : ℤ) → below i j ≡ false → same j i ≡ false → below j i ≡ true
settled i j p q = ground arith

raised :
    (h most priority : ℤ)
    → below h (if below most priority then priority else most) ≡ false
    → (below h most ≡ false) × (below h priority ≡ false)
raised h most priority p = ground arith

abbrev pub Entry : Type 0
Entry = Str × ℤ

abbrev AllBelow : ℤ → List Entry → Type 0
AllBelow i = All (λ e. below e.1 i ≡ true)

abbrev NoneAbove : ℤ → List Entry → Type 0
NoneAbove i = All (λ e. below i e.1 ≡ false)

highest-NoneAbove :
    (most : ℤ) (rest : List Entry)
    → (below (highest most rest) most ≡ false) × NoneAbove (highest most rest) rest
unfolding highest
highest-NoneAbove most [] = (ground arith, tt)
highest-NoneAbove most ((p, i) ∷ rest) =
    let (first, others) = highest-NoneAbove (if below most i then i else most) rest in
    let (low, high) = raised (highest (if below most i then i else most) rest) most i first in
    (low, (high, others))

-- The highest priority is one of those given.
abbrev Any : (Entry → Type 0) → List Entry → Type 0
Any P [] = ⊥
Any P (e ∷ es) = P e ⊎ Any P es

highest-attained :
    (most : ℤ) (rest : List Entry)
    → (highest most rest ≡ most) ⊎ Any (λ e. e.1 ≡ highest most rest) rest
unfolding highest
highest-attained most [] = inl refl
highest-attained most ((p, i) ∷ rest) =
    elim (highest-attained (if below most i then i else most) rest) [
      | inl e ↦ elim (Bool-cases (below most i)) [
        | inl over ↦ inr (inl (ground (arith, over)))
        | inr stays ↦ inl (ground (arith, stays))
      ]
      | inr later ↦ inr (inr later)
    ]

-- `p` is there with a priority that every other entry is below.
pub record Wins (p : Str) (priority : ℤ) (named : List Entry) : Type 0 where
  pub front : List Entry
  pub back : List Entry
  pub splits : named ≡ front ++ (p, priority) ∷ back
  pub front_below : AllBelow priority front
  pub back_below : AllBelow priority back

tied-none : (h : ℤ) (es : List Entry) → NoneAbove h es → tied h es ≡ [] → AllBelow h es
unfolding tied
tied-none h [] n t = tt
tied-none h ((p, i) ∷ es) n t = elim (Bool-cases (same i h)) [
  | inl eq ↦ ground (arith, eq)
  | inr ne ↦ (settled h i n.0 ne, tied-none h es n.1 (ground (arith, ne)))
]

tied-Wins : (h : ℤ) (p : Str) (es : List Entry) → NoneAbove h es → tied h es ≡ p ∷ [] → Wins p h es
unfolding tied
tied-Wins h p [] n t = cc
tied-Wins h p ((q, i) ∷ es) n t = elim (Bool-cases (same i h)) [
  | inl eq ↦
      let is_h = same-eq i h eq in
      let first : q ≡ p = ground (arith, eq) in
      let rest : tied h es ≡ [] = ground (arith, eq) in
      record {
        front = [];
        back = es;
        splits = ap₂ (λ q' i'. (q', i') ∷ es) first is_h;
        front_below = tt;
        back_below = tied-none h es n.1 rest;
      }
  | inr ne ↦
      let w = tied-Wins h p es n.1 (ground (arith, ne)) in
      record {
        front = (q, i) ∷ w.front;
        back = w.back;
        splits = ap (λ es'. (q, i) ∷ es') w.splits;
        front_below = (settled h i n.0 ne, w.front_below);
        back_below = w.back_below;
      }
]

tied-below : (i : ℤ) (es : List Entry) → AllBelow i es → tied i es ≡ []
unfolding tied
tied-below i [] b = refl
tied-below i ((q, j) ∷ es) b = ground (arith, below-ne j i b.0, tied-below i es b.1)

tied-winner :
    (p : Str) (i : ℤ) (front back : List Entry)
    → AllBelow i front
    → AllBelow i back
    → tied i (front ++ (p, i) ∷ back) ≡ p ∷ []
unfolding tied
tied-winner p i [] back f b = ground (arith, same_refl i, tied-below i back b)
tied-winner p i ((q, j) ∷ front) back f b =
    ground (arith, below-ne j i f.0, tied-winner p i front back f.1 b)

NoneAbove-winner :
    (h : ℤ) (p : Str) (i : ℤ) (front back : List Entry)
    → NoneAbove h (front ++ (p, i) ∷ back)
    → below h i ≡ false
NoneAbove-winner h p i [] back n = n.0
NoneAbove-winner h p i (e ∷ front) back n = NoneAbove-winner h p i front back n.1

attained-below :
    (h i : ℤ) (es : List Entry) → AllBelow i es → Any (λ e. e.1 ≡ h) es → below h i ≡ true
attained-below h i [] b a = absurd a
attained-below h i (e ∷ es) b (inl eq) = rw (sym eq) b.0
attained-below h i (e ∷ es) b (inr a) = attained-below h i es b.1 a

attained-winner :
    (h : ℤ) (p : Str) (i : ℤ) (front back : List Entry)
    → AllBelow i front
    → AllBelow i back
    → below h i ≡ false
    → Any (λ e. e.1 ≡ h) (front ++ (p, i) ∷ back)
    → h ≡ i
attained-winner h p i [] back f b n (inl eq) = sym eq
attained-winner h p i [] back f b n (inr a) = ground (arith, attained-below h i back b a)
attained-winner h p i (e ∷ front) back f b n (inl eq) =
    let under : below h i ≡ true = rw (sym eq) f.0 in ground (arith, under)
attained-winner h p i (e ∷ front) back f b n (inr a) = attained-winner h p i front back f.1 b n a

only-one : (p : Str) (ps : List Str) → p ≢ unknown_project → only ps ≡ p → ps ≡ p ∷ []
only-one p [] ne e = absurd (ne (sym e))
only-one p (q ∷ []) ne e = ap (λ x. x ∷ []) e
only-one p (q ∷ q' ∷ qs) ne e = absurd (ne (sym e))

all_attained :
    (q : Str) (j : ℤ) (rest : List Entry)
    → (highest j rest ≡ j) ⊎ Any (λ e. e.1 ≡ highest j rest) rest
    → Any (λ e. e.1 ≡ highest j rest) ((q, j) ∷ rest)
all_attained q j rest (inl e) = inl (sym e)
all_attained q j rest (inr a) = inr a

-- Whatever the order in which the projects are given, a project other than `unknown` is the
-- answer exactly when it is one of them and its declared priority is above that of every other
-- one.
pub resolve_named-Wins :
    (named : List Entry) (p : Str)
    → p ≢ unknown_project
    → (resolve_named named ≡ p) ↔ ((priority : ℤ) × Wins p priority named)
unfolding resolve_named
resolve_named-Wins [] p ne = (λ h. absurd (ne (sym h)), λ w. no_entry w.0 w.1)
  where
    no_entry : (i : ℤ) → Wins p i [] → unknown_project ≡ p
    no_entry i w =
        elim w.front
            as (λ f. ◌≡◌ {A = List Entry} [] (f ++ (p, i) ∷ w.back) → unknown_project ≡ p) [
              | [] ↦ λ e. cc
              | x ∷ xs ↦ λ e. cc
            ]
          w.splits
resolve_named-Wins ((q, j) ∷ rest) p ne =
    let named = (q, j) ∷ rest in
    let h = highest j rest in
    let bound : NoneAbove h named = highest-NoneAbove j rest in
    let reached = all_attained q j rest (highest-attained j rest) in
    (
      λ e. (h, tied-Wins h p named bound (only-one p (tied h named) ne e)),
      λ (i, w).
          let top = NoneAbove-winner h p i w.front w.back (subst (NoneAbove h) w.splits bound) in
          let is_top =
            attained-winner h p i w.front w.back w.front_below w.back_below top
              (subst (Any (λ e. e.1 ≡ h)) w.splits reached) in
          ap only
            (ap₂ tied is_top w.splits ∙ tied-winner p i w.front w.back w.front_below w.back_below),
    )
