-- ===== src/Json/Text.antt =====
-- The characters of a text, as a list.
use Prim.Native.Char.{Char}
use Prim.Native.String.{◌∷◌}
use package.text.Mathlib.TextBridge.{of_list}
use ticketer.Base.{String, ◌≡◌, refl, ap, List}

abbrev pub follow : Char → List Char → List Char
follow c s = List.◌∷◌ c s

unfoldable pub chars : String → List Char
chars String.[] = List.[]
chars (c ∷ s) = follow c (chars s)

pub of_list-chars : (s : String) → of_list (chars s) ≡ s
unfolding chars
of_list-chars String.[] = refl
of_list-chars (c ∷ s) = ap (λ t. c ∷ t) (of_list-chars s)

pub chars-of_list : (s : List Char) → chars (of_list s) ≡ s
unfolding chars
chars-of_list List.[] = refl
chars-of_list (List.◌∷◌ c s) = ap (follow c) (chars-of_list s)
