-- ===== src/Classification/Tests.antt =====
-- A rule set, and the classifier run with it.
use hermes_memory.Base.{
  ◌⊎◌, ap, length, ℕ, ◌+◌, ◌≡◌, ◌≢◌, ◌↔◌, refl, Bool, ◌&&◌, ◌||◌, some, List, [], ◌∷◌, ◌++◌, All,
  Str, codes, Str-discrete, leb, ok, err, ℕ_discrete, strip, lstrip, rstrip, lookup, insert,
  if◌then◌else◌, arith,
}
use hermes_memory.Normalization.Values.{is_space}
use hermes_memory.Normalization.Conversation.{Conversation}
use hermes_memory.Normalization.Tests.{titled, at_noon}
use hermes_memory.Classification.Priorities.{ℤ, pos, negsuc}
use hermes_memory.Classification.Rules.{
  ProjectRule, contested_alias, unknown_project, collapse, casefold, alias_key, claim, claim_all,
  new_rule_set, own, own_all, project_of,
}
use hermes_memory.Classification.Rules.Identifies.{Own, DeclaredOnce, new_rule_set-Identifies}
use hermes_memory.Classification.Matcher.{
  split_parts, words, after_literal, after_words, str_lt, tried_before, insert_alias, sort_aliases,
  after_alias, match_at, finditer, owners_of, projects_named,
}
use hermes_memory.Classification.AliasClassifier.{
  join, sweep, priorities_from, priority_of, with_priorities, highest, tied, resolve_named, decide,
  classify,
}
use hermes_memory.Classification.AliasClassifier.Resolution.{Wins, resolve_named-Wins}
use hermes_memory.Classification.Chain.{
  Classifier, chained, Unresolved, ResolvedBy, chained-ResolvedBy,
}

abbrev letter_or_digit : ℕ → Bool
letter_or_digit c = leb b'a' c && leb c b'z' || leb b'A' c && leb c b'Z' || leb b'0' c && leb c b'9'

-- Case folding of ASCII.
abbrev fold : ℕ → Str
fold c = if leb b'A' c && leb c b'Z' then (c + 32) ∷ [] else c ∷ []

abbrev rules : List ProjectRule
rules =
    (record {
      project = codes "orchard";
      aliases = codes "Orchard" ∷ codes "apple  tree" ∷ [];
      priority = pos 1;
    })
    ∷ (record { project = codes "nkz"; aliases = codes "nkz-soft/" ∷ []; priority = negsuc 0 })
    ∷ []

abbrev named_in : Str → Conversation
named_in title = record (titled (some title) at_noon) { messages = [] }

key_of_alias : alias_key fold (codes " Apple\n Tree") ≡ codes "apple tree"
unfolding alias_key casefold collapse strip lstrip rstrip is_space
key_of_alias = refl

rules_accepted : new_rule_set fold rules ≡ ok rules
unfolding new_rule_set claim_all claim alias_key casefold collapse strip lstrip rstrip is_space
    lookup insert Str-discrete ℕ_discrete
rules_accepted = refl

alias_contested :
    new_rule_set fold (
      rules
      ++ (record { project = codes "fruit"; aliases = codes "APPLE TREE" ∷ []; priority = pos 0 })
        ∷ [])
    ≡ err contested_alias
unfolding new_rule_set claim_all claim alias_key casefold collapse strip lstrip rstrip is_space
    lookup insert Str-discrete ℕ_discrete
alias_contested = refl

-- Two projects are named, across a line break, and the higher priority wins.
two_named :
    classify letter_or_digit fold rules (named_in (codes "nkz-soft/x and an apple\ntree"))
    ≡ some (codes "orchard")
unfolding classify sweep join projects_named project_of own_all own owners_of finditer match_at
    after_alias after_words after_literal words split_parts sort_aliases insert_alias tried_before
    str_lt priority_of priorities_from decide with_priorities resolve_named highest tied alias_key
    casefold collapse strip lstrip rstrip is_space lookup insert Str-discrete ℕ_discrete
two_named = refl

-- A hyphen is no boundary.
hyphenated :
    classify letter_or_digit fold rules (named_in (codes "orchard-pipeline")) ≡ some unknown_project
unfolding classify sweep join projects_named project_of own_all own owners_of finditer match_at
    after_alias after_words after_literal words split_parts sort_aliases insert_alias tried_before
    str_lt priority_of priorities_from decide with_priorities resolve_named highest tied alias_key
    casefold collapse strip lstrip rstrip is_space lookup insert Str-discrete ℕ_discrete
hyphenated = refl

-- Applications

new_rule_set-Identifies_example :
    DeclaredOnce fold rules × All (λ r. Own fold (project_of fold rules) r.project r.aliases) rules
new_rule_set-Identifies_example = new_rule_set-Identifies fold rules rules_accepted

abbrev candidates : List (Str × ℤ)
candidates = (codes "nkz", pos 1) ∷ (codes "orchard", negsuc 0) ∷ []

nkz-ne-unknown : codes "nkz" ≢ unknown_project
nkz-ne-unknown e = let lengths : ◌≡◌ {A = ℕ} 3 7 = ap length e in omega arith

resolve_named-Wins_example :
    (resolve_named candidates ≡ codes "nkz")
    ↔ ((priority : ℤ) × Wins (codes "nkz") priority candidates)
resolve_named-Wins_example = resolve_named-Wins candidates (codes "nkz") nkz-ne-unknown

-- A classifier that keeps a record of being asked.
abbrev numbered : ℕ → Str → Classifier (List ℕ)
numbered n answer c asked = (answer, n ∷ asked)

abbrev three_levels : List (Classifier (List ℕ))
three_levels =
    numbered 1 unknown_project ∷ numbered 2 (codes "nkz") ∷ numbered 3 (codes "orchard") ∷ []

third_not_asked : chained three_levels (named_in []) [] ≡ (codes "nkz", 2 ∷ 1 ∷ [])
unfolding chained Str-discrete ℕ_discrete
third_not_asked = refl

chained-ResolvedBy_example :
    (((chained three_levels (named_in []) []).0 ≡ unknown_project)
      × Unresolved three_levels (named_in []) [] (chained three_levels (named_in []) []).1)
    ⊎ ResolvedBy three_levels (named_in []) [] (chained three_levels (named_in []) [])
chained-ResolvedBy_example = chained-ResolvedBy three_levels (named_in []) []
