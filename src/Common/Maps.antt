-- ===== src/Common/Maps.antt =====
-- Go maps with text keys as association lists. Go's iteration order over a map is unspecified;
-- where the source iterates, the model takes the order of insertion and the theorems do not rest
-- on it.
use mathlib.Core.Path.{◌≡◌, refl}
use mathlib.Core.Logic.{◌↔◌}
use mathlib.Core.Bool.{true}
use mathlib.Core.Option.{Option, none, some}
use mathlib.Core.List.{List, [], ◌∷◌}
use native.Mathlib.Omega.{arith}
use effect_golang_web.Common.Tests.{if◌then◌else◌, is_some}
use effect_golang_web.Common.Lists.{Any}
use effect_golang_web.Common.Texts.{Text, text_eq, text_eq_iff}

abbrev pub Map {ℓ} : Type ℓ → Type ℓ
Map V = List (Text × V)

module _ {ℓ} {V : Type ℓ} where
  unfoldable pub lookup : Text → Map V → Option V
  lookup k [] = none
  lookup k ((j, v) ∷ m) = if text_eq j k then some v else lookup k m

  unfoldable pub insert : Text → V → Map V → Map V
  insert k v [] = (k, v) ∷ []
  insert k v ((j, w) ∷ m) = if text_eq j k then (j, v) ∷ m else (j, w) ∷ insert k v m

  unfoldable pub delete : Text → Map V → Map V
  delete k [] = []
  delete k ((j, w) ∷ m) = if text_eq j k then delete k m else (j, w) ∷ delete k m

  pub lookup-insert :
      (k j : Text) (v : V) (m : Map V)
      → lookup j (insert k v m) ≡ (if text_eq k j then some v else lookup j m)
  unfolding lookup insert
  lookup-insert k j v [] = refl
  lookup-insert k j v ((i, w) ∷ m) =
      ground (arith, text_eq_iff k j, text_eq_iff i k, text_eq_iff i j, lookup-insert k j v m)

  pub lookup-delete :
      (k j : Text) (m : Map V) → lookup j (delete k m) ≡ (if text_eq k j then none else lookup j m)
  unfolding lookup delete
  lookup-delete k j [] = ground arith
  lookup-delete k j ((i, w) ∷ m) =
      ground (arith, text_eq_iff k j, text_eq_iff i k, text_eq_iff i j, lookup-delete k j m)

  unfoldable pub keys : Map V → List Text
  keys [] = []
  keys ((k, v) ∷ m) = k ∷ keys m

  -- The keys are those that are found.
  pub Any-keys : (k : Text) (m : Map V) → Any (λ j. j ≡ k) (keys m) ↔ (is_some (lookup k m) ≡ true)
  unfolding keys lookup
  Any-keys k [] = (λ h. elim h [ ], λ h. cc)
  Any-keys k ((j, v) ∷ m) = (
    λ h. ground (arith, text_eq_iff j k, (Any-keys k m).0),
    λ h. ground (arith, text_eq_iff j k, (Any-keys k m).1),
  )
