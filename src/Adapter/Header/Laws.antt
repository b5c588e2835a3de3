-- ===== src/Adapter/Header/Laws.antt =====
-- The event type that the adapter makes of an `X-Gitlab-Event` header.
use Prim.Native.Char.{Char, code}
use Prim.Native.String.{String, [], ◌∷◌, ◌++◌}
use text.Mathlib.TextLemmas.{nil-append, cons-append, cons≢nil}
use eventing_gitlab.Base.{
  ℕ, ◌≤◌, ◌<◌, ◌≡◌, refl, ap, ◌∙◌, ◌≢◌, ◌↔◌, ◌⊎◌, inl, inr, List, none, some, arith, ◌==◌, eq_iff,
  eq_refl, All, nat_eq, ltb, Bool-cases, Option-cases,
}
use native.Mathlib.Decide.{dec_lt}
use eventing_gitlab.Base.Texts.{longer_ne}
use eventing_gitlab.Adapter.Header.Ascii.{letters, lower_by, lower_ascii}
use eventing_gitlab.Adapter.Header.{
  cut_suffix, replace_spaces, lower_char, to_lower, gitlab_event_header_to_event_type,
}

cut_suffix-append : (suffix r : String) → cut_suffix suffix (r ++ suffix) ≡ some r
unfolding cut_suffix
cut_suffix-append [] [] = refl
cut_suffix-append (c ∷ s) [] = rw nil-append (rw (eq_refl (c ∷ s)))
cut_suffix-append suffix (c ∷ r) =
    rw cons-append (rw (longer_ne c r suffix, cut_suffix-append suffix r))

append-cut_suffix : (suffix s r : String) → cut_suffix suffix s ≡ some r → s ≡ r ++ suffix
unfolding cut_suffix
append-cut_suffix suffix [] r e = elim (Bool-cases ([] == suffix)) [
  | inl same ↦
      let empty : [] ≡ r = ground arith in rw (← empty) (rw nil-append ((eq_iff [] suffix).0 same))
  | inr other ↦ cc (rw other at e)
]
append-cut_suffix suffix (c ∷ s) r e = elim (Bool-cases ((c ∷ s) == suffix)) [
  | inl same ↦
      let empty : [] ≡ r = ground arith in
      rw (← empty) (rw nil-append ((eq_iff (c ∷ s) suffix).0 same))
  | inr other ↦ elim (Option-cases (cut_suffix suffix s)) [
    | inl missing ↦ cc (rw (other, missing) at e)
    | inr (r', found) ↦
        let shape : (c ∷ r') ≡ r = ground arith in
        rw (← shape) (rw cons-append (ap (λ t. c ∷ t) (append-cut_suffix suffix s r' found)))
  ]
]

-- Neither a space nor an upper case letter of ASCII.
abbrev pub IsPlain : Char → Type 0
IsPlain c = (code c ≢ b' ') × ((code c < b'A') ⊎ (b'Z' < code c))

abbrev pub AllChars : (Char → Type 0) → String → Type 0
AllChars P [] = Unit
AllChars P (c ∷ s) = P c × AllChars P s

lower_by_cases :
    (P : Char → Type 0) (table : List (Char × Char)) (c : Char)
    → All (λ entry. P entry.1) table
    → (All (λ entry. code c ≢ code entry.0) table → P c)
    → P (lower_by table c)
unfolding lower_by
lower_by_cases P List.[] c h k = k tt
lower_by_cases P (List.◌∷◌ (upper, lower) table) c h k =
    elim (Bool-cases (nat_eq (code c) (code upper))) [
      | inl same ↦ rw same h.0
      | inr other ↦ rw other (lower_by_cases P table c h.1 (λ a. k (ground arith, a)))
    ]

letters_cover :
    (n : ℕ) → All (λ (entry : Char × Char). n ≢ code entry.0) letters → (n < b'A') ⊎ (b'Z' < n)
letters_cover n a = elim (dec_lt n b'A') [
  | yes p ↦ inl p
  | no p ↦ elim (dec_lt b'Z' n) [ yes q ↦ inr q | no q ↦ absurd (omega arith) ]
]

lower_ascii-IsPlain : (c : Char) → code c ≢ b' ' → IsPlain (lower_ascii c)
unfolding lower_ascii
lower_ascii-IsPlain c h =
    lower_by_cases IsPlain letters c (omega arith) (λ a. (h, letters_cover (code c) a))

replace_spaces-AllChars : (s : String) → AllChars (λ c. code c ≢ b' ') (replace_spaces s)
unfolding replace_spaces
replace_spaces-AllChars [] = tt
replace_spaces-AllChars (c ∷ s) = elim (Bool-cases (nat_eq (code c) b' ')) [
  | inl space ↦ rw space (omega arith, replace_spaces-AllChars s)
  | inr other ↦ rw other (ground arith, replace_spaces-AllChars s)
]

module _ (unicode_lower : Char → Char) where
  abbrev pub event_type : String → String
  event_type = gitlab_event_header_to_event_type unicode_lower

  to_lower-ne-nil : (s : String) → s ≢ "" → to_lower unicode_lower (replace_spaces s) ≢ ""
  unfolding to_lower replace_spaces
  to_lower-ne-nil [] h e = h refl
  to_lower-ne-nil (c ∷ s) h e = cons≢nil e

  event_type_of_stem :
      (stem : String) → event_type (stem ++ " Hook") ≡ to_lower unicode_lower (replace_spaces stem)
  unfolding gitlab_event_header_to_event_type
  event_type_of_stem stem = rw (cut_suffix-append " Hook" stem, gitlab_event_header_to_event_type)

  event_type_without : (header : String) → cut_suffix " Hook" header ≡ none → event_type header ≡ ""
  unfolding gitlab_event_header_to_event_type
  event_type_without header missing = rw (missing, gitlab_event_header_to_event_type)

  nothing : to_lower unicode_lower (replace_spaces "") ≡ ""
  unfolding to_lower replace_spaces
  nothing = refl

  -- A header gives an event type, one that is not empty, exactly when it is a stem followed by
  -- " Hook", where the stem is not empty.
  pub event_type-ne-nil_iff :
      (header : String)
      → (event_type header ≢ "") ↔ ((stem : String) × (stem ≢ "") × (header ≡ stem ++ " Hook"))
  event_type-ne-nil_iff header =
      (to, λ (stem, ne, e). rw (e, event_type_of_stem stem) (to_lower-ne-nil stem ne))
    where
      to : event_type header ≢ "" → (stem : String) × (stem ≢ "") × (header ≡ stem ++ " Hook")
      to h = elim (Option-cases (cut_suffix " Hook" header)) [
        | inl missing ↦ absurd (h (event_type_without header missing))
        | inr (stem, found) ↦
            let shape : header ≡ stem ++ " Hook" = append-cut_suffix " Hook" header stem found in
            (
              stem,
              λ empty. h (
                  ap event_type shape
                  ∙ event_type_of_stem stem
                  ∙ ap (λ s. to_lower unicode_lower (replace_spaces s)) empty
                  ∙ nothing),
              shape,
            )
      ]

  module _ (plain : (c : Char) → 128 ≤ code c → IsPlain (unicode_lower c)) where
    to_lower-AllChars :
        (s : String) → AllChars (λ c. code c ≢ b' ') s → AllChars IsPlain (to_lower unicode_lower s)
    unfolding to_lower lower_char
    to_lower-AllChars [] h = tt
    to_lower-AllChars (c ∷ s) h = elim (Bool-cases (ltb (code c) 128)) [
      | inl ascii ↦ rw ascii (lower_ascii-IsPlain c h.0, to_lower-AllChars s h.1)
      | inr other ↦ rw other (plain c (ground arith), to_lower-AllChars s h.1)
    ]

    -- No event type holds a space or an upper case letter of ASCII, where the lower case of a
    -- character outside ASCII is neither.
    pub event_type-AllChars : (header : String) → AllChars IsPlain (event_type header)
    event_type-AllChars header = elim (Option-cases (cut_suffix " Hook" header)) [
      | inl missing ↦ rw (event_type_without header missing) tt
      | inr (stem, found) ↦
          rw (append-cut_suffix " Hook" header stem found, event_type_of_stem stem)
            (to_lower-AllChars (replace_spaces stem) (replace_spaces-AllChars stem))
    ]
