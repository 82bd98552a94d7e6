-- ===== src/Sanitization/Scanner/Kept.antt =====
-- The result of `_merge` of scanner.py, beside the kept and the incoming spans.
use hermes_memory.Base.{
  ℕ, ◌≤◌, ◌<◌, ◌≡◌, refl, sym, subst, ap, ◌∙◌, Bool, true, false, ◌||◌, List, [], ◌∷◌, ◌++◌, leb,
  All, All-append, if◌then◌else◌, arith, Bool-cases, inl, inr, ◌⊎◌, append_assoc,
}
use hermes_memory.Sanitization.Scanner.{
  Span, passed, remaining, starts_before, ends_after, merge_from, merge,
}
use hermes_memory.Sanitization.Scanner.Merge.{IsProper}

abbrev pub Any : (Span → Type 0) → List Span → Type 0
Any P [] = ⊥
Any P (x ∷ xs) = P x ⊎ Any P xs

-- The two spans have a position in common.
pub record Overlaps (s k : Span) : Type 0 where
  pub starts : k.start < s.stop
  pub ends : s.start < k.stop

Any-left : (P : Span → Type 0) (xs ys : List Span) → Any P xs → Any P (xs ++ ys)
Any-left P [] ys a = absurd a
Any-left P (x ∷ xs) ys (inl p) = inl p
Any-left P (x ∷ xs) ys (inr a) = inr (Any-left P xs ys a)

Any-right : (P : Span → Type 0) (xs ys : List Span) → Any P ys → Any P (xs ++ ys)
Any-right P [] ys a = a
Any-right P (x ∷ xs) ys a = inr (Any-right P xs ys a)

Any-between :
    (P : Span → Type 0) (xs : List Span) (z : Span) (ys : List Span)
    → Any P (xs ++ ys)
    → Any P ((xs ++ z ∷ []) ++ ys)
Any-between P [] z ys a = inr a
Any-between P (x ∷ xs) z ys (inl p) = inl p
Any-between P (x ∷ xs) z ys (inr a) = inr (Any-between P xs z ys a)

passed-remaining : (start : ℕ) (kept : List Span) → passed start kept ++ remaining start kept ≡ kept
unfolding passed remaining
passed-remaining start [] = refl
passed-remaining start (k ∷ kept) = elim (Bool-cases (leb k.stop start)) [
  | inl over ↦ rw over (ap (λ ks. k ∷ ks) (passed-remaining start kept))
  | inr stays ↦ rw stays refl
]

advance :
    (P : Span → Type 0) (start : ℕ) (merged kept : List Span)
    → Any P (merged ++ kept)
    → Any P ((merged ++ passed start kept) ++ remaining start kept)
advance P start merged kept a =
    subst (Any P)
      (ap (λ ks. merged ++ ks) (sym (passed-remaining start kept))
        ∙ sym (append_assoc merged (passed start kept) (remaining start kept)))
      a

-- Whatever is merged or kept survives the rest of the loop.
merge_from-keeps :
    (P : Span → Type 0) (merged kept incoming : List Span)
    → Any P (merged ++ kept)
    → Any P (merge_from merged kept incoming)
unfolding merge_from
merge_from-keeps P merged kept [] a = a
merge_from-keeps P merged kept (span ∷ incoming) a =
    let merged' = merged ++ passed span.start kept in
    let kept' = remaining span.start kept in
    let a' = advance P span.start merged kept a in
    elim (Bool-cases (starts_before span.stop kept' || ends_after span.start merged')) [
      | inl drops ↦ rw drops (merge_from-keeps P merged' kept' incoming a')
      | inr keeps ↦ rw keeps (
          merge_from-keeps P (merged' ++ span ∷ []) kept' incoming
            (Any-between P merged' span kept' a'))
    ]

-- In order of their starts, none before `lo`.
abbrev pub Rising : ℕ → List Span → Type 0
Rising lo [] = Unit
Rising lo (s ∷ ss) = (lo ≤ s.start) × Rising s.start ss

abbrev StartsBy : ℕ → List Span → Type 0
StartsBy n = All (λ s. s.start ≤ n)

StartsBy-weaken : (m n : ℕ) (ss : List Span) → m ≤ n → StartsBy m ss → StartsBy n ss
StartsBy-weaken m n [] l b = tt
StartsBy-weaken m n (s ∷ ss) l b = (omega arith, StartsBy-weaken m n ss l b.1)

passed-StartsBy :
    (start : ℕ) (kept : List Span) → All IsProper kept → StartsBy start (passed start kept)
unfolding passed
passed-StartsBy start [] p = tt
passed-StartsBy start (k ∷ kept) p = ground (arith, passed-StartsBy start kept p.1)

remaining-IsProper :
    (start : ℕ) (kept : List Span) → All IsProper kept → All IsProper (remaining start kept)
unfolding remaining
remaining-IsProper start [] p = tt
remaining-IsProper start (k ∷ kept) p = ground (arith, remaining-IsProper start kept p.1)

starts_before-Overlaps :
    (s : Span) (kept : List Span)
    → starts_before s.stop (remaining s.start kept) ≡ true
    → Any (Overlaps s) (remaining s.start kept)
unfolding remaining
starts_before-Overlaps s [] h = cc
starts_before-Overlaps s (k ∷ kept) h = elim (Bool-cases (leb k.stop s.start)) [
  | inl over ↦ rw over (starts_before-Overlaps s kept (ground arith))
  | inr stays ↦ rw stays (inl (record { starts = ground arith; ends = ground arith }))
]

ends_after-Overlaps :
    (s : Span) (merged : List Span)
    → IsProper s
    → StartsBy s.start merged
    → ends_after s.start merged ≡ true
    → Any (Overlaps s) merged
ends_after-Overlaps s [] p b h = cc
ends_after-Overlaps s (m ∷ []) p b h = inl (record { starts = omega arith; ends = ground arith })
ends_after-Overlaps s (m ∷ m' ∷ merged) p b h = inr (ends_after-Overlaps s (m' ∷ merged) p b.1 h)

or_true : (a b : Bool) → (a || b) ≡ true → (a ≡ true) ⊎ (b ≡ true)
or_true true b h = inl refl
or_true false b h = inr h

dropped-Overlaps :
    (s : Span) (merged kept : List Span)
    → IsProper s
    → StartsBy s.start merged
    → starts_before s.stop (remaining s.start kept) || ends_after s.start merged ≡ true
    → Any (Overlaps s) (merged ++ remaining s.start kept)
dropped-Overlaps s merged kept p b drops =
    elim (or_true (starts_before s.stop (remaining s.start kept)) (ends_after s.start merged)
      drops) [
        | inl later ↦ Any-right (Overlaps s) merged _ (starts_before-Overlaps s kept later)
        | inr earlier ↦ Any-left (Overlaps s) merged _ (ends_after-Overlaps s merged p b earlier)
      ]

-- What is merged after one round of the loop.
abbrev merged_by : Bool → Span → List Span → List Span
merged_by drops span merged = if drops then merged else merged ++ span ∷ []

merge_from-round :
    (span : Span) (merged kept incoming : List Span) (drops : Bool)
    → let merged' = merged ++ passed span.start kept in
      let kept' = remaining span.start kept in
      starts_before span.stop kept' || ends_after span.start merged' ≡ drops
      → merge_from (merged_by drops span merged') kept' incoming
        ≡ merge_from merged kept (span ∷ incoming)
unfolding merge_from
merge_from-round span merged kept incoming drops h = rw h refl

covered_round :
    (span : Span) (merged kept : List Span) (drops : Bool)
    → IsProper span
    → StartsBy span.start merged
    → starts_before span.stop (remaining span.start kept) || ends_after span.start merged ≡ drops
    → Any (Overlaps span) (merged_by drops span merged ++ remaining span.start kept)
      × StartsBy span.start (merged_by drops span merged)
covered_round span merged kept true p b h = (dropped-Overlaps span merged kept p b h, b)
covered_round span merged kept false p b h = (
  Any-left (Overlaps span) (merged ++ span ∷ []) _
      (Any-right (Overlaps span) merged (span ∷ []) (inl (record { starts = p; ends = p }))),
  All-append _ merged (span ∷ []) b (omega arith, tt),
)

merge_from-Overlaps :
    (lo : ℕ) (merged kept incoming : List Span)
    → StartsBy lo merged
    → All IsProper kept
    → All IsProper incoming
    → Rising lo incoming
    → All (λ s. Any (Overlaps s) (merge_from merged kept incoming)) incoming
merge_from-Overlaps lo merged kept [] b k p r = tt
merge_from-Overlaps lo merged kept (span ∷ incoming) b k p r =
    let merged' = merged ++ passed span.start kept in
    let kept' = remaining span.start kept in
    let drops = starts_before span.stop kept' || ends_after span.start merged' in
    let b' : StartsBy span.start merged' =
      All-append _ merged (passed span.start kept) (StartsBy-weaken lo span.start merged r.0 b)
        (passed-StartsBy span.start kept k) in
    let (covered, bounded) = covered_round span merged' kept drops p.0 b' refl in
    subst (λ out. All (λ s. Any (Overlaps s) out) (span ∷ incoming))
      (merge_from-round span merged kept incoming drops refl)
      (
        merge_from-keeps (Overlaps span) (merged_by drops span merged') kept' incoming covered,
        merge_from-Overlaps span.start (merged_by drops span merged') kept' incoming bounded
            (remaining-IsProper span.start kept k) p.1 r.1,
      )

pub merge-keeps :
    (P : Span → Type 0) (kept incoming : List Span) → Any P kept → Any P (merge kept incoming)
unfolding merge
merge-keeps P kept incoming a = merge_from-keeps P [] kept incoming a

pub merge-Overlaps :
    (kept incoming : List Span)
    → All IsProper kept
    → All IsProper incoming
    → Rising 0 incoming
    → All (λ s. Any (Overlaps s) (merge kept incoming)) incoming
unfolding merge
merge-Overlaps kept incoming k p r = merge_from-Overlaps 0 [] kept incoming tt k p r
