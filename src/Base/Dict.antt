-- ===== src/Base/Dict.antt =====
-- A table of texts: a map literal, or the cases of a switch on a text.
use Prim.Native.String.{String}
use mathlib.Core.Path.{◌≡◌, sym, subst}
use mathlib.Core.Option.{Option, none, some}
use mathlib.Core.List.{List, [], ◌∷◌}
use mathlib.Core.Logic.{inl, inr}
use native.Mathlib.Omega.{arith}
use text.Mathlib.Text.{◌==◌}
use text.Mathlib.TextEquality.{eq_iff}
use eventing_gitlab.Base.Tests.{if◌then◌else◌, Bool-cases}
use eventing_gitlab.Base.Lists.{All}

module _ {ℓ} {V : Type ℓ} where
  unfoldable pub lookup : String → List (String × V) → Option V
  lookup k [] = none
  lookup k ((j, v) ∷ m) = if k == j then some v else lookup k m

  -- What holds of every entry holds of the key and the value that are found.
  pub lookup-All {κ} :
      (P : String × V → Type κ) (k : String) (v : V) (m : List (String × V))
      → lookup k m ≡ some v
      → All P m
      → P (k, v)
  unfolding lookup
  lookup-All P k v [] e h = cc
  lookup-All P k v ((j, w) ∷ m) e h = elim (Bool-cases (k == j)) [
    | inl same ↦
        subst (λ x. P (x, v)) (sym ((eq_iff k j).0 same)) (subst (λ x. P (j, x)) (ground arith) h.0)
    | inr other ↦ lookup-All P k v m (rw (other, lookup) at e) h.1
  ]
