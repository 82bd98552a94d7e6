-- ===== src/Base/Members.antt =====
-- Membership in a list, with the place; lists without repetition.
use Prim.Native.Nat.{suc, ◌≤◌}
use mathlib.Core.Path.{◌≡◌, refl, sym, subst, ap, ◌∙◌}
use mathlib.Core.Logic.{◌≢◌, ◌⊎◌, inl, inr}
use mathlib.Core.List.{List, [], ◌∷◌, ◌++◌}
use native.Mathlib.Omega.{arith}
use hermes_memory.Base.Lists.{length, All}

module _ {A : Type 0} where
  abbrev pub Member : A → List A → Type 0
  Member x [] = ⊥
  Member x (y ∷ ys) = (x ≡ y) ⊎ Member x ys

  abbrev pub Distinct : List A → Type 0
  Distinct [] = Unit
  Distinct (x ∷ xs) = (¬ Member x xs) × Distinct xs

  pub Member-left : (x : A) (xs ys : List A) → Member x xs → Member x (xs ++ ys)
  Member-left x [] ys m = absurd m
  Member-left x (y ∷ xs) ys (inl e) = inl e
  Member-left x (y ∷ xs) ys (inr m) = inr (Member-left x xs ys m)

  pub Member-right : (x : A) (xs ys : List A) → Member x ys → Member x (xs ++ ys)
  Member-right x [] ys m = m
  Member-right x (y ∷ xs) ys m = inr (Member-right x xs ys m)

  pub Member-append : (x : A) (xs ys : List A) → Member x (xs ++ ys) → Member x xs ⊎ Member x ys
  Member-append x [] ys m = inr m
  Member-append x (y ∷ xs) ys (inl e) = inl (inl e)
  Member-append x (y ∷ xs) ys (inr m) = elim (Member-append x xs ys m) [
    | inl l ↦ inl (inr l)
    | inr r ↦ inr r
  ]

  pub All-Member {κ} : (P : A → Type κ) (x : A) (xs : List A) → All P xs → Member x xs → P x
  All-Member P x [] a m = absurd m
  All-Member P x (y ∷ xs) a (inl e) = subst P (sym e) a.0
  All-Member P x (y ∷ xs) a (inr m) = All-Member P x xs a.1 m

  -- The place of a member.
  pub record Placed (x : A) (xs : List A) : Type 0 where
    pub front : List A
    pub back : List A
    pub splits : xs ≡ front ++ x ∷ back

  pub Member-Placed : (x : A) (xs : List A) → Member x xs → Placed x xs
  Member-Placed x [] m = absurd m
  Member-Placed x (y ∷ xs) (inl e) = record {
    front = [];
    back = xs;
    splits = ap (λ z. z ∷ xs) (sym e);
  }
  Member-Placed x (y ∷ xs) (inr m) =
      let p = Member-Placed x xs m in
      record { front = y ∷ p.front; back = p.back; splits = ap (λ zs. y ∷ zs) p.splits }

  length-middle :
      (front : List A) (x : A) (back : List A)
      → length (front ++ x ∷ back) ≡ suc (length (front ++ back))
  length-middle [] x back = refl
  length-middle (y ∷ front) x back = ap suc (length-middle front x back)

  without :
      (k x : A) (front back : List A)
      → k ≢ x
      → Member k (front ++ x ∷ back)
      → Member k (front ++ back)
  without k x front back ne m = elim (Member-append k front (x ∷ back) m) [
    | inl f ↦ Member-left k front back f
    | inr r ↦ later r
  ]
    where
      later : Member k (x ∷ back) → Member k (front ++ back)
      later (inl e) = absurd (ne e)
      later (inr b) = Member-right k front back b

  all_without :
      (x : A) (xs front back : List A)
      → ¬ Member x xs
      → All (λ y. Member y (front ++ x ∷ back)) xs
      → All (λ y. Member y (front ++ back)) xs
  all_without x [] front back n a = tt
  all_without x (y ∷ xs) front back n a = (
    without y x front back (λ e. n (inl (sym e))) a.0,
    all_without x xs front back (λ m. n (inr m)) a.1,
  )

  -- Members without repetition, as many as there are at all, are all there are.
  pub Distinct-covers :
      (d : Discrete A) (xs ks : List A)
      → Distinct xs
      → All (λ x. Member x ks) xs
      → length ks ≤ length xs
      → (k : A) → Member k ks
      → Member k xs
  Distinct-covers d [] [] u a l k m = absurd m
  Distinct-covers d [] (x ∷ ks) u a l k m = absurd (omega arith)
  Distinct-covers d (x ∷ xs) ks u a l k m =
      let p = Member-Placed x ks a.0 in
      let size : length ks ≡ suc (length (p.front ++ p.back)) =
        ap length p.splits ∙ length-middle p.front x p.back in
      let inside = subst (λ ks'. All (λ y. Member y ks') xs) p.splits a.1 in
      elim (d k x) [
        | yes e ↦ inl e
        | no ne ↦ inr (
            Distinct-covers d xs (p.front ++ p.back) u.1
              (all_without x xs p.front p.back u.0 inside) (omega (arith, size, l)) k
              (without k x p.front p.back ne (subst (Member k) p.splits m)))
      ]
