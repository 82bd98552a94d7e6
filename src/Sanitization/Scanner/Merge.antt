-- ===== src/Sanitization/Scanner/Merge.antt =====
-- The spans that `_merge` and `resolve` of scanner.py keep: their order.
use hermes_memory.Base.{
  ℕ, ◌≤◌, ◌<◌, ◌≡◌, Bool, false, ◌||◌, List, [], ◌∷◌, ◌++◌, leb, All, arith, Bool-cases, inl, inr,
}
use hermes_memory.Sanitization.Scanner.{
  Span, passed, remaining, starts_before, ends_after, merge_from, merge, sort_spans, of_precedence,
  precedences, insert_span, merge_all, resolve,
}

-- In order and disjoint, with no empty span, from `lo` to `hi`.
abbrev pub Between : ℕ → List Span → ℕ → Type 0
Between lo [] hi = lo ≤ hi
Between lo (s ∷ ss) hi = (lo ≤ s.start) × (s.start < s.stop) × Between s.stop ss hi

abbrev pub IsProper : Span → Type 0
IsProper s = s.start < s.stop

Between-append :
    (lo mid hi : ℕ) (xs ys : List Span)
    → Between lo xs mid
    → Between mid ys hi
    → Between lo (xs ++ ys) hi
Between-append lo mid hi [] [] p q = omega arith
Between-append lo mid hi [] (y ∷ ys) p q = (omega arith, q.1, q.2)
Between-append lo mid hi (x ∷ xs) ys p q = (p.0, p.1, Between-append x.stop mid hi xs ys p.2 q)

-- Where the last of the merged spans ends.
abbrev last_stop : ℕ → List Span → ℕ
last_stop lo [] = lo
last_stop lo (s ∷ ss) = last_stop s.stop ss

ends_after-last :
    (start lo : ℕ) (m : List Span)
    → ends_after start m ≡ false
    → lo ≤ start
    → last_stop lo m ≤ start
ends_after-last start lo [] h l = l
ends_after-last start lo (m ∷ []) h l = ground arith
ends_after-last start lo (m ∷ m' ∷ ms) h l = ends_after-last start start (m' ∷ ms) h (omega arith)

Between-last :
    (lo hi : ℕ) (m : List Span)
    → Between lo m hi
    → Between lo m (last_stop lo m) × (last_stop lo m ≤ hi)
Between-last lo hi [] p = (omega arith, p)
Between-last lo hi (s ∷ ss) p =
    let (inner, le) = Between-last s.stop hi ss p.2 in ((p.0, p.1, inner), le)

Between-weaken : (lo hi hi' : ℕ) (m : List Span) → Between lo m hi → hi ≤ hi' → Between lo m hi'
Between-weaken lo hi hi' [] p l = omega arith
Between-weaken lo hi hi' (s ∷ ss) p l = (p.0, p.1, Between-weaken s.stop hi hi' ss p.2 l)

-- Passing over kept spans keeps both halves in order, around some point.
split_kept :
    (start lo hi : ℕ) (kept : List Span)
    → Between lo kept hi
    → (mid : ℕ) × Between lo (passed start kept) mid × Between mid (remaining start kept) hi
unfolding passed remaining
split_kept start lo hi [] p = (lo, omega arith, p)
split_kept start lo hi (k ∷ kept) p =
    let (mid, left, right) = split_kept start k.stop hi kept p.2 in
    elim (Bool-cases (leb k.stop start)) [
      | inl over ↦ (mid, rw over (p.0, p.1, left), rw over right)
      | inr stays ↦ (lo, rw stays (omega arith), rw stays p)
    ]

kept_after :
    (stop mid hi : ℕ) (kept : List Span)
    → starts_before stop kept ≡ false
    → stop ≤ hi
    → Between mid kept hi
    → Between stop kept hi
kept_after stop mid hi [] h l p = l
kept_after stop mid hi (k ∷ kept) h l p = (ground arith, p.1, p.2)

-- Spans that can be emitted: not empty, and within the text.
abbrev pub Fits : ℕ → List Span → Type 0
Fits hi = All (λ s. IsProper s × (s.stop ≤ hi))

or_false : (a b : Bool) → (a || b) ≡ false → (a ≡ false) × (b ≡ false)
or_false a b h = ground arith

merge_from-Between :
    (merged kept incoming : List Span) (mid hi : ℕ)
    → Between 0 merged mid
    → Between mid kept hi
    → Fits hi incoming
    → Between 0 (merge_from merged kept incoming) hi
unfolding merge_from
merge_from-Between merged kept [] mid hi m k f = Between-append 0 mid hi merged kept m k
merge_from-Between merged kept (span ∷ incoming) mid hi m k f =
    let (mid', left, right) = split_kept span.start mid hi kept k in
    let merged' = merged ++ passed span.start kept in
    let kept' = remaining span.start kept in
    let so_far = Between-append 0 mid mid' merged (passed span.start kept) m left in
    elim (Bool-cases (starts_before span.stop kept' || ends_after span.start merged')) [
      | inl drops ↦ rw drops (merge_from-Between merged' kept' incoming mid' hi so_far right f.1)
      | inr keeps ↦
          let (clear, free) =
            or_false (starts_before span.stop kept') (ends_after span.start merged') keeps in
          let (tight, _) = Between-last 0 mid' merged' so_far in
          let behind = ends_after-last span.start 0 merged' free (omega arith) in
          let one : Between (last_stop 0 merged') (span ∷ []) span.stop =
            (behind, f.0.0, omega arith) in
          rw keeps (
            merge_from-Between (merged' ++ span ∷ []) kept' incoming span.stop hi
              (Between-append 0 (last_stop 0 merged') span.stop merged' (span ∷ []) tight one)
              (kept_after span.stop mid' hi kept' clear f.0.1 right) f.1)
    ]

pub merge-Between :
    (hi : ℕ) (kept incoming : List Span)
    → Between 0 kept hi
    → Fits hi incoming
    → Between 0 (merge kept incoming) hi
unfolding merge
merge-Between hi kept incoming k f = merge_from-Between [] kept incoming 0 hi (omega arith) k f

insert_span-Fits :
    (hi : ℕ) (s : Span) (ss : List Span)
    → IsProper s × (s.stop ≤ hi)
    → Fits hi ss
    → Fits hi (insert_span s ss)
unfolding insert_span
insert_span-Fits hi s [] p f = (p, tt)
insert_span-Fits hi s (t ∷ ts) p f = ground (arith, insert_span-Fits hi s ts p f.1)

pub sort_spans-Fits : (hi : ℕ) (ss : List Span) → Fits hi ss → Fits hi (sort_spans ss)
unfolding sort_spans
sort_spans-Fits hi [] f = tt
sort_spans-Fits hi (s ∷ ss) f =
    insert_span-Fits hi s (sort_spans ss) f.0 (sort_spans-Fits hi ss f.1)

pub of_precedence-Fits : (hi p : ℕ) (ss : List Span) → Fits hi ss → Fits hi (of_precedence p ss)
unfolding of_precedence
of_precedence-Fits hi p [] f = tt
of_precedence-Fits hi p (s ∷ ss) f = ground (arith, of_precedence-Fits hi p ss f.1)

merge_all-Between :
    (hi : ℕ) (spans kept : List Span) (ps : List ℕ)
    → Fits hi spans
    → Between 0 kept hi
    → Between 0 (merge_all spans kept ps) hi
unfolding merge_all
merge_all-Between hi spans kept [] f k = k
merge_all-Between hi spans kept (p ∷ ps) f k =
    merge_all-Between hi spans (merge kept (sort_spans (of_precedence p spans))) ps f (
      merge-Between hi kept (sort_spans (of_precedence p spans)) k
        (sort_spans-Fits hi _ (of_precedence-Fits hi p spans f)))

-- From spans that are not empty and end within the text, in any order and however they overlap,
-- `resolve` leaves spans that are in order and pairwise disjoint, none of them empty and none
-- past the end of the text.
pub resolve-Between : (hi : ℕ) (spans : List Span) → Fits hi spans → Between 0 (resolve spans) hi
unfolding resolve
resolve-Between hi spans f = merge_all-Between hi spans [] (precedences spans) f (omega arith)
