-- ===== src/Sanitization/Scanner/Coverage.antt =====
-- The spans that `resolve` of scanner.py keeps, beside those that were found.
use hermes_memory.Base.{
  ℕ, ◌≤◌, ◌≡◌, Bool, true, false, List, [], ◌∷◌, ◌==◌, any, All, if◌then◌else◌, arith, Bool-cases,
  inl, inr,
}
use hermes_memory.Sanitization.Scanner.{
  Span, merge, insert_span, sort_spans, of_precedence, insert_precedence, precedences, merge_all,
  resolve,
}
use hermes_memory.Sanitization.Scanner.Merge.{
  Between, IsProper, Fits, merge-Between, sort_spans-Fits, of_precedence-Fits,
}
use hermes_memory.Sanitization.Scanner.Kept.{Any, Overlaps, Rising, merge-keeps, merge-Overlaps}

insert_span-Rising :
    (lo : ℕ) (s : Span) (ss : List Span)
    → lo ≤ s.start
    → Rising lo ss
    → Rising lo (insert_span s ss)
unfolding insert_span
insert_span-Rising lo s [] l r = (l, tt)
insert_span-Rising lo s (t ∷ ts) l r = ground (arith, insert_span-Rising t.start s ts)

sort_spans-Rising : (ss : List Span) → Rising 0 (sort_spans ss)
unfolding sort_spans
sort_spans-Rising [] = tt
sort_spans-Rising (s ∷ ss) =
    insert_span-Rising 0 s (sort_spans ss) (omega arith) (sort_spans-Rising ss)

All-insert_span :
    (Q : Span → Type 0) (s : Span) (ss : List Span) → All Q (insert_span s ss) → Q s × All Q ss
unfolding insert_span
All-insert_span Q s [] a = (a.0, tt)
All-insert_span Q s (t ∷ ts) a = ground (arith, All-insert_span Q s ts)

All-sort_spans : (Q : Span → Type 0) (ss : List Span) → All Q (sort_spans ss) → All Q ss
unfolding sort_spans
All-sort_spans Q [] a = tt
All-sort_spans Q (s ∷ ss) a =
    let (q, rest) = All-insert_span Q s (sort_spans ss) a in (q, All-sort_spans Q ss rest)

All-filtered :
    (Q : Span → Type 0) (s : Span) (ss : List Span) (b : Bool)
    → All Q (if b then s ∷ ss else ss)
    → (b ≡ true → Q s) × All Q ss
All-filtered Q s ss true a = (λ _. a.0, a.1)
All-filtered Q s ss false a = (λ h. cc, a)

All-of_precedence :
    (Q : Span → Type 0) (p : ℕ) (ss : List Span)
    → All Q (of_precedence p ss)
    → All (λ s. (s.precedence == p) ≡ true → Q s) ss
unfolding of_precedence
All-of_precedence Q p [] a = tt
All-of_precedence Q p (s ∷ ss) a =
    let (q, rest) = All-filtered Q s (of_precedence p ss) (s.precedence == p) a in
    (q, All-of_precedence Q p ss rest)

merge_all-keeps :
    (P : Span → Type 0) (spans kept : List Span) (ps : List ℕ)
    → Any P kept
    → Any P (merge_all spans kept ps)
unfolding merge_all
merge_all-keeps P spans kept [] a = a
merge_all-keeps P spans kept (p ∷ ps) a =
    merge_all-keeps P spans (merge kept (sort_spans (of_precedence p spans))) ps
      (merge-keeps P kept (sort_spans (of_precedence p spans)) a)

Between-IsProper : (lo hi : ℕ) (ss : List Span) → Between lo ss hi → All IsProper ss
Between-IsProper lo hi [] b = tt
Between-IsProper lo hi (s ∷ ss) b = (b.1, Between-IsProper s.stop hi ss b.2)

Fits-IsProper : (hi : ℕ) (ss : List Span) → Fits hi ss → All IsProper ss
Fits-IsProper hi [] f = tt
Fits-IsProper hi (s ∷ ss) f = (f.0.0, Fits-IsProper hi ss f.1)

-- The spans of the precedences that are merged are covered.
abbrev Covered : List Span → List ℕ → Span → Type 0
Covered out ps s = any (λ p. s.precedence == p) ps ≡ true → Any (Overlaps s) out

module _ (hi : ℕ) (spans : List Span) (fits : Fits hi spans) where
  one_pattern :
      (p : ℕ) (kept : List Span)
      → Between 0 kept hi
      → All
          (λ s.
            (s.precedence == p) ≡ true
            → Any (Overlaps s) (merge kept (sort_spans (of_precedence p spans))))
          spans
  one_pattern p kept k =
      let incoming = sort_spans (of_precedence p spans) in
      let proper =
        Fits-IsProper hi incoming (sort_spans-Fits hi _ (of_precedence-Fits hi p spans fits)) in
      All-of_precedence (λ s. Any (Overlaps s) (merge kept incoming)) p spans
        (All-sort_spans _ (of_precedence p spans) (
          merge-Overlaps kept incoming (Between-IsProper 0 hi kept k) proper
            (sort_spans-Rising (of_precedence p spans))))

  join-Covered :
      (kept : List Span) (p : ℕ) (ps : List ℕ) (ss : List Span)
      → All (λ s. (s.precedence == p) ≡ true → Any (Overlaps s) kept) ss
      → All (Covered (merge_all spans kept ps) ps) ss
      → All (Covered (merge_all spans kept ps) (p ∷ ps)) ss
  join-Covered kept p ps [] a c = tt
  join-Covered kept p ps (s ∷ ss) a c = (
    λ h. elim (Bool-cases (s.precedence == p)) [
      | inl same ↦ merge_all-keeps (Overlaps s) spans kept ps (a.0 same)
      | inr other ↦ c.0 (ground arith)
    ],
    join-Covered kept p ps ss a.1 c.1,
  )

  none-Covered : (out ss : List Span) → All (Covered out []) ss
  none-Covered out [] = tt
  none-Covered out (s ∷ ss) = (λ h. cc, none-Covered out ss)

  merge_all-Covered :
      (kept : List Span) (ps : List ℕ)
      → Between 0 kept hi
      → All (Covered (merge_all spans kept ps) ps) spans
  unfolding merge_all
  merge_all-Covered kept [] k = none-Covered kept spans
  merge_all-Covered kept (p ∷ ps) k =
      let incoming = sort_spans (of_precedence p spans) in
      let kept' = merge kept incoming in
      join-Covered kept' p ps spans (one_pattern p kept k) (
        merge_all-Covered kept' ps (
          merge-Between hi kept incoming k
            (sort_spans-Fits hi _ (of_precedence-Fits hi p spans fits))))

insert_precedence-here : (p : ℕ) (ps : List ℕ) → any (λ q. p == q) (insert_precedence p ps) ≡ true
unfolding insert_precedence
insert_precedence-here p [] = ground arith
insert_precedence-here p (q ∷ qs) = ground (arith, insert_precedence-here p qs)

insert_precedence-there :
    (n p : ℕ) (ps : List ℕ)
    → any (λ q. n == q) ps ≡ true
    → any (λ q. n == q) (insert_precedence p ps) ≡ true
unfolding insert_precedence
insert_precedence-there n p [] h = cc
insert_precedence-there n p (q ∷ qs) h = ground (arith, insert_precedence-there n p qs)

abbrev IsListed : List ℕ → Span → Type 0
IsListed ps s = any (λ q. s.precedence == q) ps ≡ true

insert_precedence-All :
    (p : ℕ) (ps : List ℕ) (ss : List Span)
    → All (IsListed ps) ss
    → All (IsListed (insert_precedence p ps)) ss
insert_precedence-All p ps [] a = tt
insert_precedence-All p ps (s ∷ ss) a =
    (insert_precedence-there s.precedence p ps a.0, insert_precedence-All p ps ss a.1)

precedences-All : (ss : List Span) → All (IsListed (precedences ss)) ss
unfolding precedences
precedences-All [] = tt
precedences-All (s ∷ ss) = (
  insert_precedence-here s.precedence (precedences ss),
  insert_precedence-All s.precedence (precedences ss) ss (precedences-All ss),
)

Covered-All :
    (out : List Span) (ps : List ℕ) (ss : List Span)
    → All (Covered out ps) ss
    → All (IsListed ps) ss
    → All (λ s. Any (Overlaps s) out) ss
Covered-All out ps [] c l = tt
Covered-All out ps (s ∷ ss) c l = (c.0 l.0, Covered-All out ps ss c.1 l.1)

-- No span is lost, however they overlap: of spans that are not empty and end within the text,
-- each has a position in common with one that `resolve` keeps.
pub resolve-Overlaps :
    (hi : ℕ) (spans : List Span) → Fits hi spans → All (λ s. Any (Overlaps s) (resolve spans)) spans
unfolding resolve
resolve-Overlaps hi spans fits =
    Covered-All (merge_all spans [] (precedences spans)) (precedences spans) spans
      (merge_all-Covered hi spans fits [] (precedences spans) (omega arith)) (precedences-All spans)
