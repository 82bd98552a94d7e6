-- ===== src/Classification/Chain.antt =====
-- src/engineering_memory/classification/chain.py, of classifiers that answer without raising, as their
-- contract says. A state that asking a classifier may change shows which of them are asked.
use hermes_memory.Base.{
  ◌≡◌, ◌≢◌, ◌⊎◌, refl, ap, List, [], ◌∷◌, ◌++◌, Str, str_eq, str_eq→eq, str_eq_self, Bool-cases,
  inl, inr, if◌then◌else◌, true, false, ◌∙◌, sym,
}
use hermes_memory.Normalization.Conversation.{Conversation}
use hermes_memory.Classification.Rules.{unknown_project}

-- `ProjectClassifier.classify`, with the state before it and after it.
abbrev pub Classifier : Type 0 → Type 0
Classifier S = Conversation → S → Str × S

str_eq-ne : (a b : Str) → str_eq a b ≡ false → a ≢ b
str_eq-ne a b h e = let same : true ≡ false = sym (ap (λ x. str_eq x b) e ∙ str_eq_self b) ∙ h in cc

module _ {S : Type 0} where
  -- `classify`
  unfoldable pub chained : List (Classifier S) → Classifier S
  chained [] c s = (unknown_project, s)
  chained (classifier ∷ classifiers) c s =
      let (answered, s') = classifier c s in
      let rest = chained classifiers c s' in
      if str_eq answered unknown_project then rest else (answered, s')

  -- Asked one after the other, none of the classifiers resolves the project.
  abbrev pub Unresolved : List (Classifier S) → Conversation → S → S → Type 0
  Unresolved [] c s end = s ≡ end
  Unresolved (classifier ∷ classifiers) c s end =
      ((classifier c s).0 ≡ unknown_project) × Unresolved classifiers c (classifier c s).1 end

  -- A classifier of the list resolves the project, and those before it do not; what is left is its
  -- answer and its state.
  pub record ResolvedBy (classifiers : List (Classifier S)) (c : Conversation) (s : S)
      (end : Str × S) : Type 0 where
    pub front : List (Classifier S)
    pub resolver : Classifier S
    pub back : List (Classifier S)
    pub split : classifiers ≡ front ++ resolver ∷ back
    pub before : S
    pub passed : Unresolved front c s before
    pub answer : end ≡ resolver c before
    pub resolved : end.0 ≢ unknown_project

  ResolvedBy-later :
      (classifier : Classifier S) (classifiers : List (Classifier S)) (c : Conversation) (s : S)
      (end : Str × S)
      → (classifier c s).0 ≡ unknown_project
      → ResolvedBy classifiers c (classifier c s).1 end
      → ResolvedBy (classifier ∷ classifiers) c s end
  ResolvedBy-later classifier classifiers c s end unknown r = record {
    front = classifier ∷ r.front;
    resolver = r.resolver;
    back = r.back;
    split = ap (λ cs. classifier ∷ cs) r.split;
    before = r.before;
    passed = (unknown, r.passed);
    answer = r.answer;
    resolved = r.resolved;
  }

  -- Either no classifier of the chain resolves the project, all were asked in turn and the answer is
  -- `unknown`; or one does, and the chain ends with its answer in the state that it left, each
  -- before it having been asked once without resolving it and none behind it having been asked.
  pub chained-ResolvedBy :
      (classifiers : List (Classifier S)) (c : Conversation) (s : S)
      → let end = chained classifiers c s in
        ((end.0 ≡ unknown_project) × Unresolved classifiers c s end.1)
        ⊎ ResolvedBy classifiers c s end
  unfolding chained
  chained-ResolvedBy [] c s = inl (refl, refl)
  chained-ResolvedBy (classifier ∷ classifiers) c s =
      elim (Bool-cases (str_eq (classifier c s).0 unknown_project)) [
        | inl unknown ↦
            let asked = str_eq→eq _ _ unknown in
            rw unknown (elim (chained-ResolvedBy classifiers c (classifier c s).1) [
              | inl (answer, passed) ↦ inl (answer, (asked, passed))
              | inr r ↦ inr (ResolvedBy-later classifier classifiers c s _ asked r)
            ])
        | inr known ↦ rw known (
            inr (record {
              front = [];
              resolver = classifier;
              back = classifiers;
              split = refl;
              before = s;
              passed = refl;
              answer = refl;
              resolved = str_eq-ne _ _ known;
            }))
      ]
