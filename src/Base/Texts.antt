-- ===== src/Base/Texts.antt =====
-- What the source uses of Go's `strings` package, over the native texts. A separator or a
-- character to replace is given by its code.
use Prim.Native.Nat.{ℕ, ◌+◌}
use Prim.Native.Char.{Char, code}
use Prim.Native.String.{String, ◌++◌}
use mathlib.Core.Path.{◌≡◌, refl}
use mathlib.Core.Bool.{Bool, true, false, ◌&&◌}
use mathlib.Core.Option.{none, some}
use mathlib.Core.List.{List, [], ◌∷◌, map}
use text.Mathlib.Text.{◌==◌, find?}
use elastic_env_operator.Base.Tests.{nat_eq, leb, if◌then◌else◌}

-- strings.Contains
abbrev pub contains : String → String → Bool
contains s t = elim (find? s t) [ none ↦ false | some _ ↦ true ]

-- s != ""
abbrev pub is_empty : String → Bool
is_empty s = s == ""

abbrev pub prepend : Char → String × List String → String × List String
prepend c (w, ws) = (String.◌∷◌ c w, ws)

abbrev pub start_piece : String × List String → String × List String
start_piece (w, ws) = ("", w ∷ ws)

-- strings.Split by a separator of one character: the first piece, which is always there, and the
-- other pieces.
unfoldable pub split : ℕ → String → String × List String
split sep String.[] = ("", [])
split sep (String.◌∷◌ c s) =
    let rest = split sep s in if nat_eq (code c) sep then start_piece rest else prepend c rest

abbrev pub pieces : String × List String → List String
pieces (w, ws) = w ∷ ws

-- strings.ReplaceAll of a text of one character.
unfoldable pub replace_all : String → ℕ → String → String
replace_all String.[] old new = ""
replace_all (String.◌∷◌ c s) old new =
    let rest = replace_all s old new in
    if nat_eq (code c) old then new ++ rest else String.◌∷◌ c rest

-- The code points of a text.
abbrev pub codes : String → List ℕ
codes String.[] = []
codes (String.◌∷◌ c s) = code c ∷ codes s

lower_code : ℕ → ℕ
lower_code c = if leb b'A' c && leb c b'Z' then c + 32 else c

abbrev same_codes : List ℕ → List ℕ → Bool
same_codes [] [] = true
same_codes (a ∷ as') (b ∷ bs) = nat_eq a b && same_codes as' bs
same_codes _ _ = false

-- strings.ToLower(s) == t, over the ASCII letters.
unfoldable pub lower_is : String → String → Bool
unfolding lower_code
lower_is s t = same_codes (map lower_code (codes s)) (codes t)

replaces_star : replace_all "*.beta.iwosai.com" b'*' "test" ≡ "test.beta.iwosai.com"
unfolding replace_all
replaces_star = refl

splits_at_dots : split b'.' "a.b..c" ≡ ("a", "b" ∷ "" ∷ "c" ∷ [])
unfolding split
splits_at_dots = refl

lowers : lower_is "MySQL" "mysql" ≡ true
unfolding lower_is
lowers = refl
