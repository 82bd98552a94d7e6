-- ===== src/Base/Dicts.antt =====
-- A Python `dict` as an association list in insertion order, keyed by a decided equality.
use Prim.Native.Nat.{◌+◌, ◌≤◌, suc}
use mathlib.Core.Path.{◌≡◌, refl, ap}
use mathlib.Core.Logic.{ite}
use mathlib.Core.Option.{Option, none, some}
use mathlib.Core.List.{List, [], ◌∷◌}
use native.Mathlib.Omega.{arith}
use hermes_memory.Base.Lists.{length}

abbrev pub Dict : Type 0 → Type 0 → Type 0
Dict K V = List (K × V)

module _ {K V : Type 0} (decide : Discrete K) where
  unfoldable pub lookup : K → Dict K V → Option V
  lookup key [] = none
  lookup key ((other, value) ∷ entries) = ite (decide other key) (some value) (lookup key entries)

  unfoldable pub insert : K → V → Dict K V → Dict K V
  insert key value [] = (key, value) ∷ []
  insert key value ((other, held) ∷ entries) =
      ite (decide other key) ((key, value) ∷ entries) ((other, held) ∷ insert key value entries)

  -- `dict.pop(key, None)`
  unfoldable pub remove : K → Dict K V → Dict K V
  remove key [] = []
  remove key ((other, held) ∷ entries) =
      ite (decide other key) (remove key entries) ((other, held) ∷ remove key entries)

  pub lookup-insert :
      (key other : K) (value : V) (entries : Dict K V)
      → lookup other (insert key value entries)
        ≡ ite (decide key other) (some value) (lookup other entries)
  unfolding lookup insert
  lookup-insert key other value [] = refl
  lookup-insert key other value ((first, held) ∷ entries) =
      ground (arith, lookup-insert key other value entries)

  pub lookup-remove :
      (key other : K) (entries : Dict K V)
      → lookup other (remove key entries) ≡ ite (decide key other) none (lookup other entries)
  unfolding lookup remove
  lookup-remove key other [] = ground arith
  lookup-remove key other ((first, held) ∷ entries) =
      ground (arith, lookup-remove key other entries)

  pub length-insert :
      (key : K) (value : V) (entries : Dict K V)
      → length (insert key value entries) ≤ length entries + 1
  unfolding insert
  length-insert key value [] = omega arith
  length-insert key value ((other, held) ∷ entries) =
      ground (arith, length-insert key value entries)

  -- A key that is there is overwritten in its place.
  pub length-insert_known :
      (key : K) (value held : V) (entries : Dict K V)
      → lookup key entries ≡ some held
      → length (insert key value entries) ≡ length entries
  unfolding insert lookup
  length-insert_known key value held [] h = absurd (ground arith)
  length-insert_known key value held ((other, old) ∷ entries) h =
      elim (decide other key)
          as (λ d.
            ite d (some old) (lookup key entries) ≡ some held
            → length (ite d ((key, value) ∷ entries) ((other, old) ∷ insert key value entries))
              ≡ length ((other, old) ∷ entries)) [
                | yes same ↦ λ h. refl
                | no differs ↦ λ h. ap suc (length-insert_known key value held entries h)
              ]
        h

  pub length-remove : (key : K) (entries : Dict K V) → length (remove key entries) ≤ length entries
  unfolding remove
  length-remove key [] = omega arith
  length-remove key ((other, held) ∷ entries) = ground (arith, length-remove key entries)
