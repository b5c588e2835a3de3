-- ===== src/Adapter/Header/Ascii.antt =====
-- The lower case of an ASCII character, as `unicode.ToLower` gives it.
use Prim.Native.Char.{Char, code}
use eventing_gitlab.Base.{List, [], ◌∷◌, if◌then◌else◌, nat_eq}

abbrev pub letters : List (Char × Char)
letters =
    ("A", "a")
    ∷ ("B", "b")
    ∷ ("C", "c")
    ∷ ("D", "d")
    ∷ ("E", "e")
    ∷ ("F", "f")
    ∷ ("G", "g")
    ∷ ("H", "h")
    ∷ ("I", "i")
    ∷ ("J", "j")
    ∷ ("K", "k")
    ∷ ("L", "l")
    ∷ ("M", "m")
    ∷ ("N", "n")
    ∷ ("O", "o")
    ∷ ("P", "p")
    ∷ ("Q", "q")
    ∷ ("R", "r")
    ∷ ("S", "s")
    ∷ ("T", "t")
    ∷ ("U", "u")
    ∷ ("V", "v")
    ∷ ("W", "w")
    ∷ ("X", "x")
    ∷ ("Y", "y")
    ∷ ("Z", "z")
    ∷ []

-- The character that a table pairs with this one, or the character itself.
unfoldable pub lower_by : List (Char × Char) → Char → Char
lower_by [] c = c
lower_by ((upper, lower) ∷ table) c =
    if nat_eq (code c) (code upper) then lower else lower_by table c

unfoldable pub lower_ascii : Char → Char
unfolding lower_by
lower_ascii = lower_by letters
