-- ===== src/Base/Texts.antt =====
-- Texts walked by code point. A Go string that is valid UTF-8 is read as its code points; the
-- order of `sort.Strings` (bytewise) is the order of the code points.
use Prim.Native.Char.{Char, code}
use Prim.Native.String.{String, [], ◌∷◌, ◌++◌, count}
use text.Mathlib.Text.{◌==◌}
use text.Mathlib.TextLemmas.{length-append, length-cons}
use mathlib.Core.Path.{◌≡◌, refl, ap}
use mathlib.Core.Bool.{Bool, true, false, ◌&&◌}
use mathlib.Core.Logic.{◌⊎◌, inl, inr}
use native.Mathlib.Omega.{arith}
use text.Mathlib.TextEquality.{Char-path, eq_iff}
use eventing_gitlab.Base.Tests.{if◌then◌else◌, ltb, nat_eq, Bool-cases}

-- The order of Go's `<=` on strings.
unfoldable pub leb_text : String → String → Bool
leb_text [] t = true
leb_text (c ∷ s) [] = false
leb_text (c ∷ s) (d ∷ t) =
    if ltb (code c) (code d) then true else nat_eq (code c) (code d) && leb_text s t

cons_path : (c d : Char) (s t : String) → code c ≡ code d → s ≡ t → (c ∷ s) ≡ (d ∷ t)
cons_path c d s t p q = λ i. (Char-path c d p i) ∷ (q i)

pub leb_text_refl : (s : String) → leb_text s s ≡ true
unfolding leb_text
leb_text_refl [] = refl
leb_text_refl (c ∷ s) = ground (arith, leb_text_refl s)

pub leb_text_total : (s t : String) → (leb_text s t ≡ true) ⊎ (leb_text t s ≡ true)
unfolding leb_text
leb_text_total [] t = inl refl
leb_text_total (c ∷ s) [] = inr refl
leb_text_total (c ∷ s) (d ∷ t) = ground (arith, leb_text_total s t)

pub leb_text_antisymm : (s t : String) → leb_text s t ≡ true → leb_text t s ≡ true → s ≡ t
unfolding leb_text
leb_text_antisymm [] [] h k = refl
leb_text_antisymm [] (d ∷ t) h k = cc
leb_text_antisymm (c ∷ s) [] h k = cc
leb_text_antisymm (c ∷ s) (d ∷ t) h k =
    cons_path c d s t (ground arith) (leb_text_antisymm s t (ground arith) (ground arith))

pub leb_text_trans :
    (s t u : String) → leb_text s t ≡ true → leb_text t u ≡ true → leb_text s u ≡ true
unfolding leb_text
leb_text_trans [] t u h k = refl
leb_text_trans (c ∷ s) [] u h k = cc
leb_text_trans (c ∷ s) (d ∷ t) [] h k = cc
leb_text_trans (c ∷ s) (d ∷ t) (e ∷ u) h k = ground (arith, leb_text_trans s t u)

-- A text is not a suffix of it that is shorter.
pub longer_ne : (c : Char) (s t : String) → ((c ∷ (s ++ t)) == t) ≡ false
longer_ne c s t = elim (Bool-cases ((c ∷ (s ++ t)) == t)) [
  | inl same ↦ absurd (
      omega (
        arith,
        ap count ((eq_iff (c ∷ (s ++ t)) t).0 same),
        length-cons c (s ++ t),
        length-append s t,
      ))
  | inr other ↦ other
]
