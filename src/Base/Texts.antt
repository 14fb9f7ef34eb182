-- ===== src/Base/Texts.antt =====
-- The first letter of a text.
use Prim.Native.Nat.{ℕ}
use Prim.Native.Char.{Char, code}
use Prim.Native.String.{String, ◌∷◌, ◌++◌}
use text.Mathlib.TextLemmas.{cons-append}
use mathlib.Core.Path.{◌≡◌, ap}

abbrev pub initial : String → ℕ
initial String.[] = 0
initial (c ∷ s) = code c

pub initial-append : (c : Char) (s t : String) → initial ((c ∷ s) ++ t) ≡ code c
initial-append c s t = ap initial (cons-append c s t)
