-- ===== src/Strconv.antt =====
-- Go's strconv.Atoi and strconv.Itoa at a 64-bit `int`, of which the program uses the first in
-- shared/config/config.go and gatekeeper.go, and the second under the verb %d.
pub mod RoundTrip
use Prim.Native.Char.{Char, code}
use Prim.Native.String.{◌∷◌}
use Prim.Native.String
use ticketer.Base.{
  ℕ, zero, suc, ◌+◌, ◌-◌, ◌*◌, ◌/◌, ◌%◌, ◌^◌, String, Bool, ◌&&◌, Option, none, some, ℤ, pos,
  negsuc, pos_part, neg_part, Result, ok, err, ltb, leb, if◌then◌else◌,
}

-- The decimal digit of a number below ten.
abbrev pub digit : ℕ → Char
digit zero = "0"
digit (suc zero) = "1"
digit (suc (suc zero)) = "2"
digit (suc (suc (suc zero))) = "3"
digit (suc (suc (suc (suc zero)))) = "4"
digit (suc (suc (suc (suc (suc zero))))) = "5"
digit (suc (suc (suc (suc (suc (suc zero)))))) = "6"
digit (suc (suc (suc (suc (suc (suc (suc zero))))))) = "7"
digit (suc (suc (suc (suc (suc (suc (suc (suc zero)))))))) = "8"
digit (suc (suc (suc (suc (suc (suc (suc (suc (suc n))))))))) = "9"

-- The digits of n in front of a text; each round takes off the last digit.
unfoldable pub decimal : ℕ → ℕ → String → String
decimal zero n out = out
decimal (suc f) n out =
    let more = decimal f (n / 10) (digit (n % 10) ∷ out) in
    if ltb n 10 then digit (n % 10) ∷ out else more

unfoldable pub itoa : ℤ → String
unfolding decimal
itoa (pos n) = decimal (suc n) n ""
itoa (negsuc n) = "-" ∷ decimal (suc (suc n)) (suc n) ""

is_digit : Char → Bool
is_digit c = leb b'0' (code c) && leb (code c) b'9'

-- The number that the digits of a text spell behind n.
scan : String → ℕ → Option ℕ
unfolding is_digit
scan String.[] n = some n
scan (c ∷ s) n = if is_digit c then scan s (n * 10 + (code c - b'0')) else none

abbrev unsigned : String → Option ℕ
unsigned String.[] = none
unsigned (c ∷ s) = scan (c ∷ s) 0

abbrev invalid_syntax : {A : Type 0} → Result A
invalid_syntax = err "invalid syntax"

abbrev out_of_range : {A : Type 0} → Result A
out_of_range = err "value out of range"

abbrev positive : Option ℕ → Result ℤ
positive none = invalid_syntax
positive (some n) = if ltb n (2 ^ 63) then ok (pos n) else out_of_range

abbrev negated : ℕ → ℤ
negated zero = pos 0
negated (suc n) = negsuc n

abbrev negative : Option ℕ → Result ℤ
negative none = invalid_syntax
negative (some n) = if leb n (2 ^ 63) then ok (negated n) else out_of_range

-- An optional sign, and one or more digits.
unfoldable pub atoi : String → Result ℤ
unfolding scan
atoi String.[] = invalid_syntax
atoi (c ∷ s) =
    if leb (code c) b'-' && leb b'-' (code c)
    then negative (unsigned s)
    else if leb (code c) b'+' && leb b'+' (code c)
    then positive (unsigned s)
    else positive (unsigned (c ∷ s))

-- The number that digits spell behind n, up to the first that takes it past 64 bits; none if another
-- character comes before that.
scan_kept : String → ℕ → Option ℕ
unfolding is_digit
scan_kept String.[] n = some n
scan_kept (c ∷ s) n =
    let n' = n * 10 + (code c - b'0') in
    let rest = scan_kept s n' in
    if is_digit c then (if ltb n' (2 ^ 64) then rest else some (2 ^ 64)) else none

abbrev unsigned_kept : String → Option ℕ
unsigned_kept String.[] = none
unsigned_kept (c ∷ s) = scan_kept (c ∷ s) 0

abbrev positive_kept : Option ℕ → ℤ
positive_kept none = pos 0
positive_kept (some n) = if ltb n (2 ^ 63) then pos n else pos (2 ^ 63 - 1)

abbrev negative_kept : Option ℕ → ℤ
negative_kept none = pos 0
negative_kept (some n) = if leb n (2 ^ 63) then negated n else negated (2 ^ 63)

-- The number that Atoi returns beside its error, or without one: 0 for a text that is no number, the
-- nearest 64-bit number for one that is too large or too small.
unfoldable pub atoi_kept : String → ℤ
unfolding scan_kept
atoi_kept String.[] = pos 0
atoi_kept (c ∷ s) =
    if leb (code c) b'-' && leb b'-' (code c)
    then negative_kept (unsigned_kept s)
    else if leb (code c) b'+' && leb b'+' (code c)
    then positive_kept (unsigned_kept s)
    else positive_kept (unsigned_kept (c ∷ s))
