-- ===== src/Json/Numbers.antt =====
-- The reader gives a printed number back.
use Prim.Native.Char.{Char, code}
use Prim.Native.String.{◌∷◌}
use ticketer.Json.Text.{chars, follow}
use ticketer.Base.{
  ℕ, zero, suc, ◌/◌, ◌%◌, ◌<◌, String, true, false, some, ◌≡◌, refl, ◌∙◌, inl, inr, arith, List,
  ltb, Bool-cases, All, ℤ, pos, negsuc,
}
use ticketer.Strconv.{digit, decimal, itoa}
use ticketer.Strconv.RoundTrip.{code-digit}
use ticketer.Json.Lexer.{Part, start, sign, digits, part, numeric, ends_word, punctuation}

-- A digit inside a number, and one that is no zero at its beginning.
part-digit : (k : ℕ) → k < 10 → part digits (code (digit k)) ≡ some digits
unfolding part
part-digit k h = ground (arith, code-digit k h)

-- At the beginning of a number, or behind its sign.
Leads : Part → Type 0
Leads start = Unit
Leads sign = Unit
Leads _ = ⊥

part-first : (p : Part) (k : ℕ) → Leads p → 0 < k → k < 10 → part p (code (digit k)) ≡ some digits
unfolding part Leads
part-first start k q l h = ground (arith, code-digit k h)
part-first sign k q l h = ground (arith, code-digit k h)
part-first _ k q l h = absurd q

numeric_more :
    (k : ℕ) (out : List Char) → k < 10 → numeric digits (follow (digit k) out) ≡ numeric digits out
unfolding numeric
numeric_more k out h = rw (numeric, part-digit k h) refl

numeric_first :
    (p : Part) (k : ℕ) (out : List Char)
    → Leads p
    → 0 < k
    → k < 10
    → numeric p (follow (digit k) out) ≡ numeric digits out
unfolding numeric
numeric_first p k out q l h = rw (numeric, part-first p k q l h) refl

numeric_digits :
    (f n : ℕ) (out : String) (p : Part)
    → 0 < n
    → n < f
    → Leads p
    → numeric p (chars (decimal f n out)) ≡ numeric digits (chars out)
unfolding decimal numeric chars
numeric_digits zero n out p l h q = absurd (omega arith)
numeric_digits (suc f) n out p l h q = elim (Bool-cases (ltb n 10)) [
  | inl b ↦ rw (b) (numeric_first p (n % 10) (chars out) q (ground arith) (omega arith))
  | inr b ↦ rw (b) (
      numeric_digits f (n / 10) (digit (n % 10) ∷ out) p (ground arith) (omega arith) q
      ∙ numeric_more (n % 10) (chars out) (omega arith))
]

unfoldable pub InWord : Char → Type 0
InWord c = ends_word c ≡ false

digit-InWord : (k : ℕ) → k < 10 → InWord (digit k)
unfolding InWord punctuation
digit-InWord k h = ground (arith, code-digit k h)

decimal-InWord :
    (f n : ℕ) (out : String) → All InWord (chars out) → All InWord (chars (decimal f n out))
unfolding decimal chars
decimal-InWord zero n out h = h
decimal-InWord (suc f) n out h =
    let more : All InWord (chars (digit (n % 10) ∷ out)) =
      (digit-InWord (n % 10) (omega arith), h) in
    elim (Bool-cases (ltb n 10)) [
      | inl b ↦ rw (b) more
      | inr b ↦ rw (b) (decimal-InWord f (n / 10) (digit (n % 10) ∷ out) more)
    ]

-- The print of an `int` is a number of the grammar.
pub itoa-numeric : (n : ℤ) → numeric start (chars (itoa n)) ≡ true
unfolding itoa chars numeric Leads part
itoa-numeric (pos zero) = refl
itoa-numeric (pos (suc n)) =
    numeric_digits (suc (suc n)) (suc n) "" start (omega arith) (omega arith) tt
itoa-numeric (negsuc n) =
    numeric_digits (suc (suc n)) (suc n) "" sign (omega arith) (omega arith) tt

pub itoa-InWord : (n : ℤ) → All InWord (chars (itoa n))
unfolding itoa chars InWord punctuation
itoa-InWord (pos n) = decimal-InWord (suc n) n "" tt
itoa-InWord (negsuc n) = (refl, decimal-InWord (suc (suc n)) (suc n) "" tt)
