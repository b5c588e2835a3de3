-- ===== src/Adapter/Header.antt =====
-- `gitlabEventHeaderToEventType` of pkg/adapter/receive_adapter.go, over the code points of the
-- header. `unicode.ToLower` is written out for ASCII; for other characters it is a parameter.
pub mod Laws
mod Ascii
use Prim.Native.Char.{Char, code}
use Prim.Native.String.{String, [], ◌∷◌}
use mathlib.Core.Option
use eventing_gitlab.Base.{Option, none, some, ◌==◌, if◌then◌else◌, ltb, nat_eq}
use Ascii.{lower_ascii}

abbrev header_suffix : String
header_suffix = " Hook"

-- `header[:len(header)-len(headerSuffix)]`, if the header has the suffix.
pub cut_suffix : String → String → Option String
cut_suffix suffix [] = if [] == suffix then some [] else none
cut_suffix suffix (c ∷ s) =
    let rest = cut_suffix suffix s in
    if (c ∷ s) == suffix then some [] else Option.map (λ r. c ∷ r) rest

-- `strings.ReplaceAll(s, " ", "_")`
pub replace_spaces : String → String
replace_spaces [] = []
replace_spaces (c ∷ s) = (if nat_eq (code c) b' ' then "_" else c) ∷ replace_spaces s

module _ (unicode_lower : Char → Char) where
  -- `unicode.ToLower`
  pub lower_char : Char → Char
  unfolding lower_ascii
  lower_char c = if ltb (code c) 128 then lower_ascii c else unicode_lower c

  -- `strings.ToLower`
  pub to_lower : String → String
  unfolding lower_char
  to_lower [] = []
  to_lower (c ∷ s) = lower_char c ∷ to_lower s

  -- `gitlabEventHeaderToEventType`: "" for a header without the suffix.
  unfoldable pub gitlab_event_header_to_event_type : String → String
  unfolding cut_suffix to_lower replace_spaces
  gitlab_event_header_to_event_type header = elim (cut_suffix header_suffix header) [
    | none ↦ []
    | some stem ↦ to_lower (replace_spaces stem)
  ]
