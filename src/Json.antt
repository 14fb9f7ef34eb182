-- ===== src/Json.antt =====
-- Go's encoding/json, as far as the program uses it for an OrderEvent: the texts of strings and the
-- tokens of a document.
pub mod Strings
pub mod Parser
pub mod Event
pub mod Lexer
pub mod Documents
pub mod RoundTrip
pub mod Words
pub mod Text
pub mod Numbers
use Prim.Native.Nat.{Ordering, compare}
use Prim.Native.Char.{Char, char, code, IsLt, IsScalar}
use ticketer.Base.{
  ℕ, zero, suc, ◌+◌, ◌-◌, ◌*◌, ◌/◌, ◌%◌, Bool, true, false, ◌&&◌, ◌||◌, Option, none, some, List,
  [], ◌∷◌, ◌++◌, eqb, ltb, leb, if◌then◌else◌,
}

-- The tests of IsScalar as one value.
abbrev Both : Ordering → Ordering → Type 0
Both Ordering.lt o = IsLt o
Both Ordering.eq _ = ⊥
Both Ordering.gt _ = ⊥

abbrev pub Scalar : Ordering → Ordering → Ordering → Type 0
Scalar Ordering.lt _ _ = Unit
Scalar Ordering.eq o p = Both o p
Scalar Ordering.gt o p = Both o p

abbrev decide_lt : (o : Ordering) → Option (IsLt o)
decide_lt Ordering.lt = some tt
decide_lt Ordering.eq = none
decide_lt Ordering.gt = none

abbrev decide_both : (o p : Ordering) → Option (Both o p)
decide_both Ordering.lt p = decide_lt p
decide_both Ordering.eq p = none
decide_both Ordering.gt p = none

abbrev pub decide_scalar : (o p q : Ordering) → Option (Scalar o p q)
decide_scalar Ordering.lt p q = some tt
decide_scalar Ordering.eq p q = decide_both p q
decide_scalar Ordering.gt p q = decide_both p q

abbrev pub with_proof : (n : ℕ) → Option (IsScalar n) → Option Char
with_proof n none = none
with_proof n (some p) = some (char n p)

-- The character of a code point, if there is one.
unfoldable pub char_of : ℕ → Option Char
char_of n = with_proof n (decide_scalar (compare n 55296) (compare 57343 n) (compare n 1114112))

-- The digit of a number below 16, and the number of a digit in either case.
abbrev pub hex_digit : ℕ → Char
hex_digit zero = "0"
hex_digit (suc zero) = "1"
hex_digit (suc (suc zero)) = "2"
hex_digit (suc (suc (suc zero))) = "3"
hex_digit (suc (suc (suc (suc zero)))) = "4"
hex_digit (suc (suc (suc (suc (suc zero))))) = "5"
hex_digit (suc (suc (suc (suc (suc (suc zero)))))) = "6"
hex_digit (suc (suc (suc (suc (suc (suc (suc zero))))))) = "7"
hex_digit (suc (suc (suc (suc (suc (suc (suc (suc zero)))))))) = "8"
hex_digit (suc (suc (suc (suc (suc (suc (suc (suc (suc zero))))))))) = "9"
hex_digit (suc (suc (suc (suc (suc (suc (suc (suc (suc (suc zero)))))))))) = "a"
hex_digit (suc (suc (suc (suc (suc (suc (suc (suc (suc (suc (suc zero))))))))))) = "b"
hex_digit (suc (suc (suc (suc (suc (suc (suc (suc (suc (suc (suc (suc zero)))))))))))) = "c"
hex_digit (suc (suc (suc (suc (suc (suc (suc (suc (suc (suc (suc (suc (suc zero))))))))))))) = "d"
hex_digit (suc (suc (suc (suc (suc (suc (suc (suc (suc (suc (suc (suc (suc (suc zero)))))))))))))) =
    "e"
hex_digit
      (suc (suc (suc (suc (suc (suc (suc (suc (suc (suc (suc (suc (suc (suc (suc n))))))))))))))) =
    "f"

unfoldable pub hex_value : Char → Option ℕ
hex_value c =
    let n = code c in
    if leb b'0' n && leb n b'9'
    then some (n - b'0')
    else if leb b'a' n && leb n b'f'
    then some (n - b'a' + 10)
    else if leb b'A' n && leb n b'F'
    then some (n - b'A' + 10)
    else none

-- The code points with a short escape, each with the letter behind the backslash.
abbrev pub shorthands : List (ℕ × Char)
shorthands =
    (b'"', "\"") ∷ (92, "\\") ∷ (8, "b") ∷ (12, "f") ∷ (10, "n") ∷ (13, "r") ∷ (9, "t") ∷ []

unfoldable pub letter : List (ℕ × Char) → ℕ → Option Char
letter [] n = none
letter ((m, d) ∷ table) n = if eqb n m then some d else letter table n

-- The other control characters, `<`, `>`, `&`, and the two line separators of JavaScript.
abbrev pub is_hexed : ℕ → Bool
is_hexed n = ltb n 32 || eqb n b'<' || eqb n b'>' || eqb n b'&' || eqb n 0x2028 || eqb n 0x2029

-- The four digits of a code point.
abbrev pub digits_of : ℕ → List Char
digits_of n =
    hex_digit (n / 4096)
    ∷ hex_digit (n / 256 % 16)
    ∷ hex_digit (n / 16 % 16)
    ∷ hex_digit (n % 16)
    ∷ []

-- One character of a string, as Marshal writes it.
unfoldable pub escape : Char → List Char
escape c = elim (letter shorthands (code c)) [
  | some d ↦ "\\" ∷ d ∷ []
  | none ↦ if is_hexed (code c) then "\\" ∷ "u" ∷ digits_of (code c) else c ∷ []
]

unfoldable pub escapes : List Char → List Char
escapes [] = []
escapes (c ∷ s) = escape c ++ escapes s

-- The character that a letter behind a backslash stands for.
unfoldable pub unescape : Char → Option Char
unescape c =
    let n = code c in
    if eqb n b'"'
    then some "\""
    else if eqb n 92
    then some "\\"
    else if eqb n b'/'
    then some "/"
    else if eqb n b'b'
    then char_of 8
    else if eqb n b'f'
    then char_of 12
    else if eqb n b'n'
    then char_of 10
    else if eqb n b'r'
    then char_of 13
    else if eqb n b't'
    then char_of 9
    else none
