-- ===== src/Json/Lexer.antt =====
-- The tokens of a JSON document, read one character at a time.
use Prim.Native.Char.{Char, char, code}
use text.Mathlib.TextBridge.{of_list}
use ticketer.Base.{
  ℕ, zero, suc, ◌+◌, ◌-◌, ◌*◌, Bool, true, false, ◌&&◌, ◌||◌, ◌==◌, Option, none, some, List, [],
  ◌∷◌, ◌++◌, eqb, ltb, leb, if◌then◌else◌,
}
use ticketer.Json.{char_of, hex_value, unescape}

-- A string keeps the text between its quotes next to its value.
pub data Token : Type 0 where
  lbrace rbrace lbrack rbrack colon comma null : Token
  bool : Bool → Token
  num : List Char → Token
  str : (raw value : List Char) → Token

-- Where the reader stands: between tokens, in a number or a word, in a string, behind a backslash, or
-- in the digits of \u, with the digits to come. A string may have a high surrogate that waits for its
-- second half.
pub data State : Type 0 where
  idle : State
  word : List Char → State
  string escaped : (raw value : List Char) → Option ℕ → State
  hexed : (raw value : List Char) → Option ℕ → ℕ → ℕ → State

-- The grammar of a number, by the part that was read last.
pub data Part : Type 0 where
  start sign zero_digit digits point fraction exponent exponent_sign exponent_digits : Part

abbrev pub is_digit : ℕ → Bool
is_digit n = leb b'0' n && leb n b'9'

abbrev is_e : ℕ → Bool
is_e n = eqb n b'e' || eqb n b'E'

abbrev pub behind_integer : ℕ → Option Part
behind_integer n = if eqb n b'.' then some point else if is_e n then some exponent else none

unfoldable pub part : Part → ℕ → Option Part
part start n =
    if eqb n b'-'
    then some sign
    else if eqb n b'0'
    then some zero_digit
    else if is_digit n
    then some digits
    else none
part sign n = if eqb n b'0' then some zero_digit else if is_digit n then some digits else none
part zero_digit n = behind_integer n
part digits n = if is_digit n then some digits else behind_integer n
part point n = if is_digit n then some fraction else none
part fraction n = if is_digit n then some fraction else if is_e n then some exponent else none
part exponent n =
    if eqb n b'+' || eqb n b'-'
    then some exponent_sign
    else if is_digit n
    then some exponent_digits
    else none
part exponent_sign n = if is_digit n then some exponent_digits else none
part exponent_digits n = if is_digit n then some exponent_digits else none

abbrev pub accepts : Part → Bool
accepts zero_digit = true
accepts digits = true
accepts fraction = true
accepts exponent_digits = true
accepts _ = false

unfoldable pub numeric : Part → List Char → Bool
numeric p [] = accepts p
numeric p (c ∷ s) = elim (part p (code c)) [ none ↦ false | some q ↦ numeric q s ]

-- The token of a word.
unfoldable pub token_of : List Char → Option Token
token_of w =
    let t = of_list w in
    if numeric start w
    then some (num w)
    else if t == "null"
    then some null
    else if t == "true"
    then some (bool true)
    else if t == "false"
    then some (bool false)
    else none

abbrev replacement : Char
replacement = char 65533 tt

-- A high surrogate that stays alone reads as the replacement character.
abbrev pub flush : Option ℕ → List Char
flush none = []
flush (some h) = replacement ∷ []

abbrev pub is_high : ℕ → Bool
is_high n = leb 0xd800 n && leb n 0xdbff

abbrev is_low : ℕ → Bool
is_low n = leb 0xdc00 n && leb n 0xdfff

abbrev pair : ℕ → ℕ → ℕ
pair h n = 0x10000 + ((h - 0xd800) * 0x400 + (n - 0xdc00))

abbrev or_replacement : Option Char → List Char
or_replacement none = replacement ∷ []
or_replacement (some c) = c ∷ []

-- A unit behind what was read, when no half of a pair waits.
abbrev alone : List Char → List Char → ℕ → State
alone raw value n =
    if is_high n
    then string raw value (some n)
    else string raw (value ++ or_replacement (char_of n)) none

-- The unit that \u and four digits spell.
abbrev pub unit : List Char → List Char → Option ℕ → ℕ → State
unit raw value none n = alone raw value n
unit raw value (some h) n =
    if is_low n
    then string raw (value ++ or_replacement (char_of (pair h n))) none
    else alone raw (value ++ replacement ∷ []) n

abbrev pub digit_read : List Char → List Char → Option ℕ → ℕ → ℕ → State
digit_read raw value hi zero n = unit raw value hi n
digit_read raw value hi (suc k) n = hexed raw value hi k n

abbrev is_space : ℕ → Bool
is_space n = eqb n 32 || eqb n 9 || eqb n 10 || eqb n 13

unfoldable pub punctuation : ℕ → Option Token
punctuation n =
    if eqb n 123
    then some lbrace
    else if eqb n 125
    then some rbrace
    else if eqb n b'['
    then some lbrack
    else if eqb n b']'
    then some rbrack
    else if eqb n b':'
    then some colon
    else if eqb n b','
    then some comma
    else none

-- One character between tokens.
unfoldable pub open_token : Char → List Token × State
open_token c = elim (punctuation (code c)) [
  | some t ↦ (t ∷ [], idle)
  | none ↦
      if is_space (code c)
      then ([], idle)
      else if eqb (code c) b'"'
      then ([], string [] [] none)
      else ([], word (c ∷ []))
]

abbrev pub ends_word : Char → Bool
ends_word c = elim (punctuation (code c)) [
  | some t ↦ true
  | none ↦ is_space (code c) || eqb (code c) b'"'
]

abbrev pub after_word : Option Token → List Token × State → Option (List Token × State)
after_word none next = none
after_word (some t) (tokens, s) = some (t ∷ tokens, s)

abbrev escaped_by :
    Char → List Char → List Char → Option ℕ → Option Char → Option (List Token × State)
escaped_by c raw value hi (some d) =
    some ([], string (raw ++ c ∷ []) ((value ++ flush hi) ++ d ∷ []) none)
escaped_by c raw value hi none =
    if eqb (code c) b'u' then some ([], hexed (raw ++ c ∷ []) value hi 3 0) else none

unfoldable pub step : State → Char → Option (List Token × State)
step idle c = some (open_token c)
step (word w) c =
    if ends_word c then after_word (token_of w) (open_token c) else some ([], word (w ++ c ∷ []))
step (string raw value hi) c =
    if eqb (code c) b'"'
    then some (str raw (value ++ flush hi) ∷ [], idle)
    else if eqb (code c) 92
    then some ([], escaped (raw ++ c ∷ []) value hi)
    else if ltb (code c) 32
    then none
    else some ([], string (raw ++ c ∷ []) ((value ++ flush hi) ++ c ∷ []) none)
step (escaped raw value hi) c = escaped_by c raw value hi (unescape c)
step (hexed raw value hi k n) c = elim (hex_value c) [
  | none ↦ none
  | some d ↦ some ([], digit_read (raw ++ c ∷ []) value hi k (n * 16 + d))
]

-- The end of the document.
abbrev close : State → Option (List Token)
close idle = some []
close (word w) = elim (token_of w) [ none ↦ none | some t ↦ some (t ∷ []) ]
close _ = none

abbrev pub behind : List Token → Option (List Token) → Option (List Token)
behind tokens none = none
behind tokens (some rest) = some (tokens ++ rest)

unfoldable pub tokens : State → List Char → Option (List Token)
tokens s [] = close s
tokens s (c ∷ text) = elim (step s c) [ none ↦ none | some (out, s') ↦ behind out (tokens s' text) ]
