-- ===== src/Base/Strings.antt =====
-- The test of equality of strings, and strings cut and joined.
use Prim.Native.String.{String}
use Prim.Native.Char.{Char}
use mathlib.Core.Path.{◌≡◌}
use mathlib.Core.Logic.{◌≢◌, inl, inr}
use mathlib.Core.Bool.{Bool, true, false, ◌||◌}
use mathlib.Core.List.{List, [], ◌∷◌}
use text.Mathlib.Text.{◌==◌ as str_eq}
use text.Mathlib.TextEquality.{eq_iff}
use tigris.Base.Tests.{Bool-cases, if◌then◌else◌}

pub str_eq-false : (a b : String) → a ≢ b → str_eq a b ≡ false
str_eq-false a b different = elim (Bool-cases (str_eq a b)) [
  | inl e ↦ absurd (different ((eq_iff a b).0 e))
  | inr e ↦ e
]

-- a + b
abbrev pub concat : String → String → String
concat String.[] b = b
concat (String.◌∷◌ c a) b = String.◌∷◌ c (concat a b)

abbrev starts : String → String → Bool
starts String.[] s = true
starts (String.◌∷◌ c p) String.[] = false
starts (String.◌∷◌ c p) (String.◌∷◌ d s) =
    let rest = starts p s in
    if str_eq (String.◌∷◌ c String.[]) (String.◌∷◌ d String.[]) then rest else false

-- strings.Contains
abbrev pub contains : String → String → Bool
contains part String.[] = starts part String.[]
contains part (String.◌∷◌ c s) = starts part (String.◌∷◌ c s) || contains part s

abbrev before_head : Char → List String → List String
before_head c [] = String.◌∷◌ c String.[] ∷ []
before_head c (s ∷ rest) = String.◌∷◌ c s ∷ rest

-- strings.Split(s, ".")
abbrev pub split_dots : String → List String
split_dots String.[] = "" ∷ []
split_dots (String.◌∷◌ c s) =
    if str_eq (String.◌∷◌ c String.[]) "." then "" ∷ split_dots s else before_head c (split_dots s)
