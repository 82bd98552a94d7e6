-- ===== src/Sanitization/Manifest/Nesting.antt =====
-- How the blocks of src/engineering_memory/sanitization/patterns.py lie in a text.
use hermes_memory.Base.{
  ℕ, ◌+◌, ◌≤◌, ◌≡◌, refl, subst, ◌⊎◌, inl, inr, Bool, true, false, ◌||◌, none, List, [], ◌∷◌, ◌++◌,
  Str, length, length-append, All, leb, if◌then◌else◌, Bool-cases, arith, rstrip, is_empty,
}
use hermes_memory.Sanitization.Manifest.{
  Line, block_end, opens_block, blocks_from, parse, parse_line, parse_lines, split_lines,
  secret_manifest_blocks, match_key, is_line_end, end_line, key_of,
}

-- The ends of lines do not go back, and do not go past the text; a blank line has no key.
abbrev Rising : ℕ → ℕ → List Line → Type 0
Rising n from [] = from ≤ n
Rising n from (line ∷ lines) =
    (from ≤ line.end) × (line.is_blank ≡ true → line.key ≡ none) × Rising n line.end lines

-- Each block is not reversed and ends within `n`.
abbrev pub Within : ℕ → ℕ × ℕ → Type 0
Within n (start, end) = (start ≤ end) × (end ≤ n)

-- A later block starts no earlier, and lies behind the first or inside it.
abbrev pub BehindOrInside : ℕ × ℕ → ℕ × ℕ → Type 0
BehindOrInside (start, end) (start', end') = (start ≤ start') × ((end ≤ start') ⊎ (end' ≤ end))

abbrev pub Nested : List (ℕ × ℕ) → Type 0
Nested [] = Unit
Nested (b ∷ bs) = All (BehindOrInside b) bs × Nested bs

Rising-last : (n from : ℕ) (lines : List Line) → Rising n from lines → from ≤ n
Rising-last n from [] r = r
Rising-last n from (line ∷ lines) (le, _, r) = omega (arith, le, Rising-last n line.end lines r)

Rising-from :
    (n before from : ℕ) (lines : List Line)
    → before ≤ from
    → Rising n from lines
    → Rising n before lines
Rising-from n before from [] le r = omega (arith, le, r)
Rising-from n before from (line ∷ lines) le (le', blank, r) = (omega (arith, le, le'), blank, r)

moved :
    (s e e' : ℕ) (bs bs' : List (ℕ × ℕ))
    → e ≡ e'
    → bs ≡ bs'
    → All (BehindOrInside (s, e)) bs
    → All (BehindOrInside (s, e')) bs'
moved s e e' bs bs' same_end same a =
    subst (All (BehindOrInside (s, e'))) same
      (subst (λ x. All (BehindOrInside (s, x)) bs) same_end a)

module _ (n : ℕ) where
  block_end-Within :
      (indent end : ℕ) (lines : List Line)
      → Rising n end lines
      → Within n (end, block_end indent end lines)
  unfolding block_end
  block_end-Within indent end [] r = (omega arith, r)
  block_end-Within indent end (line ∷ lines) (le, blank, r) =
      let same = block_end-Within indent end lines (Rising-from n end line.end lines le r) in
      let further = block_end-Within indent line.end lines r in
      let last = Rising-last n line.end lines r in ground (arith, same, further, le, last)

  -- A deeper key ends its block no later.
  block_end-deeper :
      (indent deeper end : ℕ) (lines : List Line)
      → indent ≤ deeper
      → Rising n end lines
      → block_end deeper end lines ≤ block_end indent end lines
  unfolding block_end
  block_end-deeper indent deeper end [] le r = omega arith
  block_end-deeper indent deeper end (line ∷ lines) le (le', blank, r) =
      let same =
        block_end-deeper indent deeper end lines le (Rising-from n end line.end lines le' r) in
      let further = block_end-deeper indent deeper line.end lines le r in
      let reaches = (block_end-Within indent line.end lines r).0 in
      ground (arith, same, further, reaches, le')

  -- Blocks start at or behind the place that was reached.
  abbrev StartsFrom : ℕ → ℕ × ℕ → Type 0
  StartsFrom from (start, end) = from ≤ start

  weaken :
      (from to : ℕ) (bs : List (ℕ × ℕ))
      → from ≤ to
      → All (StartsFrom to) bs
      → All (StartsFrom from) bs
  weaken from to [] le a = tt
  weaken from to (b ∷ bs) le (h, a) = (omega (arith, le, h), weaken from to bs le a)

  blocks-StartsFrom :
      (from : ℕ) (above lines : List Line)
      → Rising n from lines
      → All (StartsFrom from) (blocks_from above lines)
  unfolding blocks_from
  blocks-StartsFrom from above [] r = tt
  blocks-StartsFrom from above (line ∷ lines) (le, blank, r) =
      let rest = weaken from line.end _ le (blocks-StartsFrom line.end (line ∷ above) lines r) in
      elim (opens_block above line lines)
        as (λ b. All (StartsFrom from) (
          if b
          then (line.end, block_end line.indent line.end lines) ∷ blocks_from (line ∷ above) lines
          else blocks_from (line ∷ above) lines)) [ true ↦ (le, rest) | false ↦ rest ]

  behind :
      (s c : ℕ) (bs : List (ℕ × ℕ)) → s ≤ c → All (StartsFrom c) bs → All (BehindOrInside (s, c)) bs
  behind s c [] le a = tt
  behind s c ((start, end) ∷ bs) le (h, a) = ((omega (arith, le, h), inl h), behind s c bs le a)

  unkeyed :
      (above lines : List Line) (line : Line)
      → line.key ≡ none
      → opens_block above line lines ≡ false
  unfolding opens_block
  unkeyed above lines line h = ground arith

  -- The blocks below a key, beside the block of this key.
  below_block :
      (s indent c : ℕ) (above lines : List Line)
      → s ≤ c
      → Rising n c lines
      → All (BehindOrInside (s, block_end indent c lines)) (blocks_from above lines)
  unfolding blocks_from block_end
  below_block s indent c above [] le r = tt
  below_block s indent c above (line ∷ lines) le (le', blank, r) =
      let there = blocks_from (line ∷ above) lines in
      elim (Bool-cases line.is_blank) [
        | inl is_blank ↦
            let closed = unkeyed above lines line (blank is_blank) in
            moved s (block_end indent c lines) _ there _ (ground arith) (ground arith) (
              below_block s indent c (line ∷ above) lines le (Rising-from n c line.end lines le' r))
        | inr filled ↦ elim (Bool-cases (line.is_separator || leb line.indent indent)) [
          | inl stops ↦ moved s c _ (blocks_from above (line ∷ lines)) _ (ground arith) refl (
              behind s c (blocks_from above (line ∷ lines)) le
                (blocks-StartsFrom c above (line ∷ lines) (le', blank, r)))
          | inr goes ↦
              let end = block_end indent line.end lines in
              let own : ℕ × ℕ = (line.end, block_end line.indent line.end lines) in
              let rest =
                below_block s indent line.end (line ∷ above) lines (omega (arith, le, le')) r in
              let deeper : indent ≤ line.indent = ground arith in
              let here : BehindOrInside (s, end) own = (
                omega (arith, le, le'),
                inr (block_end-deeper indent line.indent line.end lines deeper r),
              ) in
              elim (Bool-cases (opens_block above line lines)) [
                | inl opens ↦
                    moved s end _ (own ∷ there) _ (ground arith) (ground arith) (here, rest)
                | inr closed ↦ moved s end _ there _ (ground arith) (ground arith) rest
              ]
        ]
      ]

  blocks_from-Nested :
      (from : ℕ) (above lines : List Line)
      → Rising n from lines
      → All (Within n) (blocks_from above lines) × Nested (blocks_from above lines)
  unfolding blocks_from
  blocks_from-Nested from above [] r = (tt, tt)
  blocks_from-Nested from above (line ∷ lines) (le, blank, r) =
      let (within, nested) = blocks_from-Nested line.end (line ∷ above) lines r in
      let own : ℕ × ℕ = (line.end, block_end line.indent line.end lines) in
      let first = below_block line.end line.indent line.end (line ∷ above) lines (omega arith) r in
      let there = blocks_from (line ∷ above) lines in
      elim (opens_block above line lines)
        as (λ b. let bs = if b then own ∷ there else there in All (Within n) bs × Nested bs) [
          | true ↦ ((block_end-Within line.indent line.end lines r, within), (first, nested))
          | false ↦ (within, nested)
        ]

-- The lines of a text

length-rstrip : (p : ℕ → Bool) (s : Str) → length (rstrip p s) ≤ length s
unfolding rstrip
length-rstrip p [] = omega arith
length-rstrip p (c ∷ cs) = let rest = length-rstrip p cs in ground (arith, rest)

total : List Str → ℕ
total [] = 0
total (s ∷ ss) = length s + total ss

total-end_line :
    (current : Str) (rest : List Str) → total (end_line current rest) ≡ length current + total rest
unfolding total end_line
total-end_line [] rest = omega arith
total-end_line (c ∷ cs) rest = refl

-- No character is lost.
total-split_lines :
    (current text : Str) → total (split_lines current text) ≡ length current + length text
unfolding split_lines total
total-split_lines current [] = total-end_line current []
total-split_lines current (c ∷ []) = omega (arith, length-append current (c ∷ []))
total-split_lines current (c ∷ d ∷ cs) =
    let longer = total-split_lines (current ++ c ∷ []) (d ∷ cs) in
    let next = total-split_lines [] (d ∷ cs) in
    let size = length-append current (c ∷ []) in ground (arith, longer, next, size)

blank_key : (s : Str) → is_empty s ≡ true → key_of (match_key s) ≡ none
unfolding match_key key_of
blank_key [] h = refl
blank_key (c ∷ cs) h = absurd (ground arith)

parse_lines-Rising :
    (n position : ℕ) (raws : List Str)
    → position + total raws ≤ n
    → Rising n position (parse_lines position raws)
unfolding parse_lines parse_line total match_key
parse_lines-Rising n position [] h = omega (arith, h)
parse_lines-Rising n position (raw ∷ rest) h =
    let short = length-rstrip is_line_end raw in
    let later = parse_lines-Rising n (position + length raw) rest (omega (arith, h)) in
    (
      omega arith,
      λ blank. blank_key _ blank,
      Rising-from n _ (position + length raw) _ (omega (arith, short)) later,
    )

-- The blocks of a text end within it and are not reversed; they are given in the order of their starts,
-- and of any two the later one lies behind the earlier one or inside it.
pub secret_manifest_blocks-Nested :
    (text : Str)
    → All (Within (length text)) (secret_manifest_blocks text)
      × Nested (secret_manifest_blocks text)
unfolding secret_manifest_blocks parse
secret_manifest_blocks-Nested text = blocks_from-Nested (length text) 0 [] (parse text) (
    parse_lines-Rising (length text) 0 (split_lines [] text)
      (omega (arith, total-split_lines [] text)))
