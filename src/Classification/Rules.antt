-- ===== src/Classification/Rules.antt =====
-- src/engineering_memory/classification/rules.py. Case folding and `str.isalnum` are parameters,
-- code point by code point, as Python's are.
pub mod Identifies
use hermes_memory.Base.{
  ℕ, Bool, true, false, not, ◌&&◌, ◌||◌, Option, none, some, List, [], ◌∷◌, ◌++◌, Str, Str-discrete,
  str_eq, codes, any, all, is_empty, strip, lstrip, rstrip, if◌then◌else◌, Result, ok, err, ◌>>=◌,
  Dict, lookup, insert,
}
use hermes_memory.Normalization.Values.{is_space, is_slug}
use hermes_memory.Classification.Priorities.{ℤ}

pub record ProjectRule : Type 0 where
  pub project : Str
  pub aliases : List Str
  pub priority : ℤ

-- `ProjectRulesError`, by the rule that was broken.
pub data RulesError : Type 0 where
  bad_project reserved_project no_alias vacuous_alias : RulesError
  project_declared_twice contested_alias : RulesError

-- The value of `UNKNOWN_PROJECT`.
abbrev pub unknown_project : Str
unknown_project = codes "unknown"

abbrev starts_with_space : Str → Bool
starts_with_space [] = false
starts_with_space (c ∷ cs) = is_space c

-- `_WHITESPACE.sub(" ", text)`: a run of whitespace ends in the one space that stands for it.
unfoldable pub collapse : Str → Str
unfolding is_space
collapse [] = []
collapse (c ∷ cs) =
    let rest = collapse cs in
    if is_space c then (if starts_with_space cs then rest else b' ' ∷ rest) else c ∷ rest

module _ (fold : ℕ → Str) where
  -- `str.casefold`
  unfoldable pub casefold : Str → Str
  casefold [] = []
  casefold (c ∷ cs) = fold c ++ casefold cs

  unfoldable pub alias_key : Str → Str
  unfolding casefold collapse strip
  alias_key alias = strip is_space (collapse (casefold alias))

-- `ProjectRule(...)`
unfoldable pub new_rule : (ℕ → Bool) → ProjectRule → Result RulesError ProjectRule
unfolding is_slug
new_rule is_alnum rule =
    if not (is_slug rule.project)
    then err bad_project
    else if str_eq rule.project unknown_project
    then err reserved_project
    else if is_empty rule.aliases
    then err no_alias
    else if not (all (any is_alnum) rule.aliases)
    then err vacuous_alias
    else ok rule

module _ (fold : ℕ → Str) where
  -- `owner is not None and owner != rule.project`
  abbrev pub is_contested : Str → Option Str → Bool
  is_contested project none = false
  is_contested project (some owner) = not (str_eq owner project)

  -- The inner loop, with `claimed_by`.
  unfoldable pub claim : Str → List Str → Dict Str Str → Result RulesError (Dict Str Str)
  claim project [] claimed = ok claimed
  claim project (alias ∷ aliases) claimed =
      let key = alias_key fold alias in
      if is_contested project (lookup Str-discrete key claimed)
      then err contested_alias
      else claim project aliases (insert Str-discrete key project claimed)

  -- The outer loop, with `seen_projects` and `claimed_by`.
  unfoldable pub claim_all :
      List ProjectRule → List Str → Dict Str Str → Result RulesError (Dict Str Str)
  claim_all [] seen claimed = ok claimed
  claim_all (rule ∷ rules) seen claimed =
      if any (str_eq rule.project) seen then err project_declared_twice else (do
        claimed' ← claim rule.project rule.aliases claimed
        claim_all rules (rule.project ∷ seen) claimed')

  -- `ProjectRuleSet(rules=...)`, of rules that were built.
  unfoldable pub new_rule_set : List ProjectRule → Result RulesError (List ProjectRule)
  new_rule_set rules = do claimed ← claim_all rules [] []; ok rules

  -- `_project_of` of the matcher: the last rule that declares an alias wins.
  unfoldable pub own : Str → List Str → Dict Str Str → Dict Str Str
  own project [] owners = owners
  own project (alias ∷ aliases) owners =
      own project aliases (insert Str-discrete (alias_key fold alias) project owners)

  unfoldable pub own_all : List ProjectRule → Dict Str Str → Dict Str Str
  own_all [] owners = owners
  own_all (rule ∷ rules) owners = own_all rules (own rule.project rule.aliases owners)

  unfoldable pub project_of : List ProjectRule → Dict Str Str
  project_of rules = own_all rules []
