-- ===== src/Classification/Matcher.antt =====
-- src/engineering_memory/classification/matcher.py. The compiled alternation is run as written: at
-- each position the aliases are tried in order. An alias is a literal whose runs of whitespace
-- match any run of whitespace, held to a boundary where its own edge is a word character.
use hermes_memory.Base.{
  ℕ, zero, suc, ◌-◌, Bool, true, false, not, ◌&&◌, ◌||◌, Option, none, some, List, [], ◌∷◌, Str,
  Str-discrete, str_eq, any, length, take, lstrip, ltb, ◌==◌, if◌then◌else◌, Dict, lookup,
}
use hermes_memory.Normalization.Values.{is_space}
use hermes_memory.Classification.Rules.{ProjectRule, casefold, alias_key, project_of}

-- `_WHITESPACE.split(alias)` without its empty parts: the first part, and the others.
abbrev join_part : ℕ → List Str → List Str
join_part c [] = (c ∷ []) ∷ []
join_part c (part ∷ parts) = (c ∷ part) ∷ parts

abbrev open_part : Str → List Str → List Str
open_part [] parts = parts
open_part part parts = part ∷ parts

-- The part that is being read, and those that follow it.
unfoldable pub split_parts : Str → Str × List Str
unfolding is_space
split_parts [] = ([], [])
split_parts (c ∷ cs) =
    let (part, parts) = split_parts cs in
    if is_space c then ([], open_part part parts) else (c ∷ part, parts)

unfoldable pub words : Str → List Str
unfolding split_parts
words alias = let (part, parts) = split_parts alias in open_part part parts

-- What is left of a text after a literal.
unfoldable pub after_literal : Str → Str → Option Str
after_literal [] text = some text
after_literal (c ∷ cs) [] = none
after_literal (c ∷ cs) (d ∷ ds) = if c == d then after_literal cs ds else none

-- `\s+`, and then what follows.
abbrev after_spaces : Str → Option Str
after_spaces [] = none
after_spaces (c ∷ cs) = if is_space c then some (lstrip is_space cs) else none

unfoldable pub after_words : List Str → Str → Option Str
unfolding after_literal is_space lstrip
after_words [] text = some text
after_words (word ∷ []) text = after_literal word text
after_words (word ∷ word' ∷ more) text = elim (after_literal word text) [
  | none ↦ none
  | some rest ↦ elim (after_spaces rest) [
    | none ↦ none
    | some next ↦ after_words (word' ∷ more) next
  ]
]

abbrev pub last_of : Str → Option ℕ
last_of [] = none
last_of (c ∷ []) = some c
last_of (c ∷ c' ∷ cs) = last_of (c' ∷ cs)

abbrev pub first_of : Str → Option ℕ
first_of [] = none
first_of (c ∷ cs) = some c

-- Longest first, then alphabetically.
unfoldable pub str_lt : Str → Str → Bool
str_lt [] [] = false
str_lt [] (d ∷ ds) = true
str_lt (c ∷ cs) [] = false
str_lt (c ∷ cs) (d ∷ ds) = ltb c d || (c == d && str_lt cs ds)

unfoldable pub tried_before : Str → Str → Bool
unfolding str_lt
tried_before a b = ltb (length b) (length a) || (length a == length b && str_lt a b)

unfoldable pub insert_alias : Str → List Str → List Str
unfolding tried_before
insert_alias a [] = a ∷ []
insert_alias a (b ∷ bs) = if tried_before a b then a ∷ b ∷ bs else b ∷ insert_alias a bs

unfoldable pub sort_aliases : List Str → List Str
unfolding insert_alias
sort_aliases [] = []
sort_aliases (a ∷ as') = insert_alias a (sort_aliases as')

abbrev pub keys : Dict Str Str → List Str
keys [] = []
keys ((key, value) ∷ rest) = key ∷ keys rest

module _ (is_alnum : ℕ → Bool) where
  -- `_is_word_character`, which is also `[\w-]`.
  abbrev pub is_word_character : ℕ → Bool
  is_word_character c = is_alnum c || c == b'_' || c == b'-'

  abbrev pub is_word_edge : Option ℕ → Bool
  is_word_edge none = false
  is_word_edge (some c) = is_word_character c

  -- The boundary at one edge: required where the alias's edge is a word character.
  abbrev pub bounded : Option ℕ → Option ℕ → Bool
  bounded edge beside = not (is_word_edge edge) || not (is_word_edge beside)

  -- One alternative at one position, with the character before it: what is left of the text.
  unfoldable pub after_alias : Str → Option ℕ → Str → Option Str
  after_alias alias before text =
      if bounded (first_of alias) before
      then (elim (after_words (words alias) text) [
        | none ↦ none
        | some rest ↦ (if bounded (last_of alias) (first_of rest) then some rest else none)
      ])
      else none

  -- `found.group()` of the first alternative that matches.
  unfoldable pub match_at : List Str → Option ℕ → Str → Option Str
  match_at [] before text = none
  match_at (alias ∷ aliases) before text = elim (after_alias alias before text) [
    | none ↦ match_at aliases before text
    | some rest ↦ some (take (length text - length rest) text)
  ]

  -- `finditer`: `skip` characters of the last match are still to be passed over.
  unfoldable pub finditer : List Str → ℕ → Option ℕ → Str → List Str
  finditer aliases skip before [] = []
  finditer aliases (suc skip) before (c ∷ cs) = finditer aliases skip (some c) cs
  finditer aliases zero before (c ∷ cs) = elim (match_at aliases before (c ∷ cs)) [
    | none ↦ finditer aliases zero (some c) cs
    | some found ↦ found ∷ finditer aliases (length found - 1) (some c) cs
  ]

  module _ (fold : ℕ → Str) where
    -- `frozenset(...)`, which raises where a key is missing.
    abbrev add_project : Str → List Str → List Str
    add_project project named = if any (str_eq project) named then named else project ∷ named

    unfoldable pub owners_of : Dict Str Str → List Str → Option (List Str)
    owners_of owners [] = some []
    owners_of owners (found ∷ more) = elim (lookup Str-discrete (alias_key fold found) owners) [
      | none ↦ none
      | some project ↦ elim (owners_of owners more) [
        | none ↦ none
        | some named ↦ some (add_project project named)
      ]
    ]

    unfoldable pub projects_named : List ProjectRule → Str → Option (List Str)
    projects_named rules text =
        let owners = project_of fold rules in
        owners_of owners (finditer (sort_aliases (keys owners)) 0 none (casefold fold text))
