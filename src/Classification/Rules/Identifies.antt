-- ===== src/Classification/Rules/Identifies.antt =====
-- The table of aliases that a rule set of rules.py gives the matcher.
use hermes_memory.Base.{
  ℕ, ◌≡◌, ◌≢◌, true, false, some, List, [], ◌∷◌, All, Str, Str-discrete, str_eq, any, ok, ◌>>=◌,
  >>=-eq-ok, Dict, lookup, insert, lookup-insert, arith, ap, sym, subst, ◌∙◌, Bool-cases, inl, inr,
}
use hermes_memory.Classification.Rules.{
  ProjectRule, alias_key, is_contested, claim, claim_all, new_rule_set, own, own_all, project_of,
}

module _ (fold : ℕ → Str) where
  owner_kept :
      (project key k q : Str) (claimed : Dict Str Str)
      → is_contested fold project (lookup Str-discrete key claimed) ≡ false
      → lookup Str-discrete k claimed ≡ some q
      → lookup Str-discrete k (insert Str-discrete key project claimed) ≡ some q
  owner_kept project key k q claimed free h =
      rw (lookup-insert Str-discrete key k project claimed) (ground arith)

  owner_new :
      (project key : Str) (claimed : Dict Str Str)
      → lookup Str-discrete key (insert Str-discrete key project claimed) ≡ some project
  owner_new project key claimed =
      rw (lookup-insert Str-discrete key key project claimed) (ground arith)

  claim-own :
      (project : Str) (aliases : List Str) (claimed : Dict Str Str) {claimed' : Dict Str Str}
      → claim fold project aliases claimed ≡ ok claimed'
      → own fold project aliases claimed ≡ claimed'
  unfolding claim own
  claim-own project [] claimed h = cc
  claim-own project (a ∷ aliases) claimed h =
      let key = alias_key fold a in
      elim (Bool-cases (is_contested fold project (lookup Str-discrete key claimed))) [
        | inl contested ↦ ground (arith, contested)
        | inr free ↦
            claim-own project aliases (insert Str-discrete key project claimed)
              (ground (arith, free))
      ]

  claim-keeps :
      (project k q : Str) (aliases : List Str) (claimed : Dict Str Str) {claimed' : Dict Str Str}
      → claim fold project aliases claimed ≡ ok claimed'
      → lookup Str-discrete k claimed ≡ some q
      → lookup Str-discrete k claimed' ≡ some q
  unfolding claim
  claim-keeps project k q [] claimed h l = ground arith
  claim-keeps project k q (a ∷ aliases) claimed h l =
      let key = alias_key fold a in
      elim (Bool-cases (is_contested fold project (lookup Str-discrete key claimed))) [
        | inl contested ↦ ground (arith, contested)
        | inr free ↦
            claim-keeps project k q aliases (insert Str-discrete key project claimed)
              (ground (arith, free)) (owner_kept project key k q claimed free l)
      ]

  -- The aliases of a rule have their owner.
  abbrev pub Own : Dict Str Str → Str → List Str → Type 0
  Own owners project = All (λ a. lookup Str-discrete (alias_key fold a) owners ≡ some project)

  claim-Own :
      (project : Str) (aliases : List Str) (claimed : Dict Str Str) {claimed' : Dict Str Str}
      → claim fold project aliases claimed ≡ ok claimed'
      → Own claimed' project aliases
  unfolding claim
  claim-Own project [] claimed h = tt
  claim-Own project (a ∷ aliases) claimed h =
      let key = alias_key fold a in
      let claimed1 = insert Str-discrete key project claimed in
      elim (Bool-cases (is_contested fold project (lookup Str-discrete key claimed))) [
        | inl contested ↦ ground (arith, contested)
        | inr free ↦
            let h1 : claim fold project aliases claimed1 ≡ ok _ = ground (arith, free) in
            (
              claim-keeps project key project aliases claimed1 h1 (owner_new project key claimed),
              claim-Own project aliases claimed1 h1,
            )
      ]

  claimed_next :
      (r : ProjectRule) (rules : List ProjectRule) (seen : List Str) (claimed : Dict Str Str)
      {claimed' : Dict Str Str}
      → any (str_eq r.project) seen ≡ false
      → claim_all fold (r ∷ rules) seen claimed ≡ ok claimed'
      → claim fold r.project r.aliases claimed
          >>= (λ next. claim_all fold rules (r.project ∷ seen) next)
        ≡ ok claimed'
  unfolding claim_all
  claimed_next r rules seen claimed new h = ground (arith, new)

  claim_all-keeps :
      (k q : Str) (rules : List ProjectRule) (seen : List Str) (claimed : Dict Str Str)
      {claimed' : Dict Str Str}
      → claim_all fold rules seen claimed ≡ ok claimed'
      → lookup Str-discrete k claimed ≡ some q
      → lookup Str-discrete k claimed' ≡ some q
  unfolding claim_all
  claim_all-keeps k q [] seen claimed h l = ground arith
  claim_all-keeps k q (r ∷ rules) seen claimed h l =
      elim (Bool-cases (any (str_eq r.project) seen)) [
        | inl twice ↦ ground (arith, twice)
        | inr new ↦
            let h0 = claimed_next r rules seen claimed new h in
            let (claimed1, e, h1) = >>=-eq-ok (claim fold r.project r.aliases claimed) _ h0 in
            claim_all-keeps k q rules (r.project ∷ seen) claimed1 h1
              (claim-keeps r.project k q r.aliases claimed e l)
      ]

  nothing_claimed :
      (seen : List Str) (claimed : Dict Str Str) {claimed' : Dict Str Str}
      → claim_all fold [] seen claimed ≡ ok claimed'
      → claimed ≡ claimed'
  unfolding claim_all
  nothing_claimed seen claimed h = cc

  refused_twice :
      (r : ProjectRule) (rules : List ProjectRule) (seen : List Str) (claimed : Dict Str Str)
      {claimed' : Dict Str Str}
      → any (str_eq r.project) seen ≡ true
      → claim_all fold (r ∷ rules) seen claimed ≢ ok claimed'
  unfolding claim_all
  refused_twice r rules seen claimed twice h = ground (arith, twice)

  Own-kept :
      (project : Str) (aliases : List Str) (rules : List ProjectRule) (seen : List Str)
      (claimed : Dict Str Str) {claimed' : Dict Str Str}
      → claim_all fold rules seen claimed ≡ ok claimed'
      → Own claimed project aliases
      → Own claimed' project aliases
  Own-kept project [] rules seen claimed h o = tt
  Own-kept project (a ∷ aliases) rules seen claimed h o = (
    claim_all-keeps (alias_key fold a) project rules seen claimed h o.0,
    Own-kept project aliases rules seen claimed h o.1,
  )

  abbrev IsUnseen : List Str → ProjectRule → Type 0
  IsUnseen seen r = any (str_eq r.project) seen ≡ false

  weaken :
      (project : Str) (seen : List Str) (rules : List ProjectRule)
      → All (IsUnseen (project ∷ seen)) rules
      → All (IsUnseen seen) rules
  weaken project seen [] u = tt
  weaken project seen (r ∷ rules) u = (ground arith, weaken project seen rules u.1)

  claim_all-Own :
      (rules : List ProjectRule) (seen : List Str) (claimed : Dict Str Str)
      {claimed' : Dict Str Str}
      → claim_all fold rules seen claimed ≡ ok claimed'
      → All (λ r. Own claimed' r.project r.aliases) rules
        × All (λ r. any (str_eq r.project) seen ≡ false) rules
        × (own_all fold rules claimed ≡ claimed')
  unfolding own_all
  claim_all-Own [] seen claimed h = (tt, tt, nothing_claimed seen claimed h)
  claim_all-Own (r ∷ rules) seen claimed h = elim (Bool-cases (any (str_eq r.project) seen)) [
    | inl twice ↦ absurd (refused_twice r rules seen claimed twice h)
    | inr new ↦
        let h0 = claimed_next r rules seen claimed new h in
        let (claimed1, e, h1) = >>=-eq-ok (claim fold r.project r.aliases claimed) _ h0 in
        let (owned, unseen, owners) = claim_all-Own rules (r.project ∷ seen) claimed1 h1 in
        let first = claim-Own r.project r.aliases claimed e in
        let start = claim-own r.project r.aliases claimed e in
        (
          (Own-kept r.project r.aliases rules (r.project ∷ seen) claimed1 h1 first, owned),
          (new, weaken r.project seen rules unseen),
          ap (own_all fold rules) start ∙ owners,
        )
  ]

  -- No two of the rules are for one project.
  abbrev pub DeclaredOnce : List ProjectRule → Type 0
  DeclaredOnce [] = Unit
  DeclaredOnce (r ∷ rules) = All (λ s. s.project ≢ r.project) rules × DeclaredOnce rules

  unlike :
      (project : Str) (seen : List Str) (rules : List ProjectRule)
      → All (IsUnseen (project ∷ seen)) rules
      → All (λ s. s.project ≢ project) rules
  unlike project seen [] u = tt
  unlike project seen (r ∷ rules) u = (λ e. ground arith, unlike project seen rules u.1)

  claim_all-DeclaredOnce :
      (rules : List ProjectRule) (seen : List Str) (claimed : Dict Str Str)
      {claimed' : Dict Str Str}
      → claim_all fold rules seen claimed ≡ ok claimed'
      → DeclaredOnce rules
  claim_all-DeclaredOnce [] seen claimed h = tt
  claim_all-DeclaredOnce (r ∷ rules) seen claimed h =
      elim (Bool-cases (any (str_eq r.project) seen)) [
        | inl twice ↦ absurd (refused_twice r rules seen claimed twice h)
        | inr new ↦
            let h0 = claimed_next r rules seen claimed new h in
            let (claimed1, e, h1) = >>=-eq-ok (claim fold r.project r.aliases claimed) _ h0 in
            let (owned, unseen, owners) = claim_all-Own rules (r.project ∷ seen) claimed1 h1 in
            (
              unlike r.project seen rules unseen,
              claim_all-DeclaredOnce rules (r.project ∷ seen) claimed1 h1,
            )
      ]

  -- In a rule set that was accepted no project is declared twice, and the matcher's table leads
  -- from the key of each alias of each rule to the project of that rule.
  pub new_rule_set-Identifies :
      (rules : List ProjectRule) {accepted : List ProjectRule}
      → new_rule_set fold rules ≡ ok accepted
      → DeclaredOnce rules × All (λ r. Own (project_of fold rules) r.project r.aliases) rules
  unfolding new_rule_set project_of
  new_rule_set-Identifies rules h =
      let (claimed, e, h1) = >>=-eq-ok (claim_all fold rules [] []) _ h in
      let (owned, unseen, owners) = claim_all-Own rules [] [] e in
      (
        claim_all-DeclaredOnce rules [] [] e,
        subst (λ d. All (λ r. Own d r.project r.aliases) rules) (sym owners) owned,
      )
