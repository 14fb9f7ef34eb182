-- ===== src/Strconv/RoundTrip.antt =====
-- Atoi reads back what %d prints.
use Prim.Native.Char.{code}
use Prim.Native.String.{◌∷◌}
use ticketer.Base.{
  ℕ, zero, suc, ◌+◌, ◌*◌, ◌/◌, ◌%◌, ◌^◌, ◌≤◌, ◌<◌, String, some, ◌≡◌, refl, arith, ℤ, pos, negsuc,
  IsInt64, ok,
}
use ticketer.Strconv.{digit, decimal, itoa, scan, atoi}

pub code-digit : (d : ℕ) → d < 10 → code (digit d) ≡ b'0' + d
code-digit zero h = refl
code-digit (suc zero) h = refl
code-digit (suc (suc zero)) h = refl
code-digit (suc (suc (suc zero))) h = refl
code-digit (suc (suc (suc (suc zero)))) h = refl
code-digit (suc (suc (suc (suc (suc zero))))) h = refl
code-digit (suc (suc (suc (suc (suc (suc zero)))))) h = refl
code-digit (suc (suc (suc (suc (suc (suc (suc zero))))))) h = refl
code-digit (suc (suc (suc (suc (suc (suc (suc (suc zero)))))))) h = refl
code-digit (suc (suc (suc (suc (suc (suc (suc (suc (suc zero))))))))) h = refl
code-digit (suc (suc (suc (suc (suc (suc (suc (suc (suc (suc d)))))))))) h = absurd (omega arith)

scan-digit : (d n : ℕ) (s : String) → d < 10 → scan (digit d ∷ s) n ≡ scan s (n * 10 + d)
unfolding scan
scan-digit d n s h = ground (arith, code-digit d)

scan-decimal : (f n : ℕ) (out : String) → n < f → scan (decimal f n out) 0 ≡ scan out n
unfolding decimal
scan-decimal zero n out h = absurd (omega arith)
scan-decimal (suc f) n out h = ground (
  arith,
  scan-digit (n % 10) 0 out,
  scan-digit (n % 10) (n / 10) out,
  scan-decimal f (n / 10) (digit (n % 10) ∷ out),
)

-- The text that `decimal` makes begins with a digit.
IsNumeric : String → Type 0
IsNumeric String.[] = ⊥
IsNumeric (c ∷ s) = (b'0' ≤ code c) × (code c ≤ b'9')

decimal-IsNumeric : (f n : ℕ) (out : String) → n < f → IsNumeric (decimal f n out)
unfolding decimal IsNumeric
decimal-IsNumeric zero n out h = absurd (omega arith)
decimal-IsNumeric (suc f) n out h =
    ground (arith, code-digit (n % 10), decimal-IsNumeric f (n / 10) (digit (n % 10) ∷ out))

atoi-positive :
    (s : String) (n : ℕ) → IsNumeric s → scan s 0 ≡ some n → n < 2 ^ 63 → atoi s ≡ ok (pos n)
unfolding atoi IsNumeric
atoi-positive String.[] n d e h = absurd d
atoi-positive (c ∷ s) n d e h = ground arith

atoi-negative :
    (s : String) (n : ℕ)
    → IsNumeric s
    → scan s 0 ≡ some (suc n)
    → n < 2 ^ 63
    → atoi ("-" ∷ s) ≡ ok (negsuc n)
unfolding atoi IsNumeric
atoi-negative String.[] n d e h = absurd d
atoi-negative (c ∷ s) n d e h = ground arith

-- Every 64-bit `int` is read back from its decimal print.
pub atoi-itoa : (n : ℤ) → IsInt64 n → atoi (itoa n) ≡ ok n
unfolding itoa scan
atoi-itoa (pos n) h =
    atoi-positive (decimal (suc n) n "") n (decimal-IsNumeric (suc n) n "" (omega arith))
      (scan-decimal (suc n) n "" (omega arith)) (omega arith)
atoi-itoa (negsuc n) h =
    atoi-negative (decimal (suc (suc n)) (suc n) "") n
      (decimal-IsNumeric (suc (suc n)) (suc n) "" (omega arith))
      (scan-decimal (suc (suc n)) (suc n) "" (omega arith)) (omega arith)
