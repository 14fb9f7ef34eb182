-- ===== src/Json/Strings.antt =====
-- The reader gives a printed string back.
use Prim.Native.Nat.{Ordering, compare}
use Prim.Native.Char.{Char, char, code}
use ticketer.Base.{
  ℕ, zero, suc, ◌+◌, ◌*◌, ◌/◌, ◌%◌, ◌<◌, true, false, Option, none, some, ◌≡◌, refl, ap, ◌∙◌, inl,
  inr, arith, List, [], ◌∷◌, ◌++◌, append_assoc, append-nil, eqb, Bool-cases, Option-cases, All,
}
use ticketer.Json.{
  Scalar, decide_scalar, with_proof, char_of, hex_digit, hex_value, digits_of, shorthands, letter,
  is_hexed, escape, escapes, unescape,
}
use ticketer.Json.Lexer.{
  Token, str, State, idle, string, escaped, hexed, behind, is_high, unit, digit_read, punctuation,
  open_token, step, tokens,
}

decide_scalar-some : (o p q : Ordering) (x : Scalar o p q) → decide_scalar o p q ≡ some x
decide_scalar-some Ordering.lt p q x = refl
decide_scalar-some Ordering.eq Ordering.lt Ordering.lt x = refl
decide_scalar-some Ordering.eq Ordering.lt Ordering.eq x = absurd x
decide_scalar-some Ordering.eq Ordering.lt Ordering.gt x = absurd x
decide_scalar-some Ordering.eq Ordering.eq q x = absurd x
decide_scalar-some Ordering.eq Ordering.gt q x = absurd x
decide_scalar-some Ordering.gt Ordering.lt Ordering.lt x = refl
decide_scalar-some Ordering.gt Ordering.lt Ordering.eq x = absurd x
decide_scalar-some Ordering.gt Ordering.lt Ordering.gt x = absurd x
decide_scalar-some Ordering.gt Ordering.eq q x = absurd x
decide_scalar-some Ordering.gt Ordering.gt q x = absurd x

char_of-code : (c : Char) → char_of (code c) ≡ some c
unfolding char_of
char_of-code (char n p) =
    ap (with_proof n) (decide_scalar-some (compare n 55296) (compare 57343 n) (compare n 1114112) p)

char_of-eqb : (m : ℕ) (c : Char) → eqb (code c) m ≡ true → char_of m ≡ some c
char_of-eqb m c h = let p : code c ≡ m = ground arith in rw (← p) (char_of-code c)

some_inj : {A : Type 0} {a b : A} → some a ≡ some b → a ≡ b
some_inj h = cc

-- A short escape stands for its character.
unescape-letter :
    (table : List (ℕ × Char)) (c d : Char)
    → All (λ (m, a). unescape a ≡ char_of m) table
    → letter table (code c) ≡ some d
    → unescape d ≡ some c
unfolding letter
unescape-letter [] c d known h = cc
unescape-letter ((m, a) ∷ table) c d known h = elim (Bool-cases (eqb (code c) m)) [
  | inl q ↦ rw (← some_inj (rw q at h)) (known.0 ∙ char_of-eqb m c q)
  | inr q ↦ unescape-letter table c d known.1 (rw q at h)
]

unescape-shorthands : All (λ (m, a). unescape a ≡ char_of m) shorthands
unfolding unescape char_of
unescape-shorthands = (refl, (refl, (refl, (refl, (refl, (refl, (refl, tt)))))))

hex_value-hex_digit : (k : ℕ) → k < 16 → hex_value (hex_digit k) ≡ some k
unfolding hex_value
hex_value-hex_digit zero h = refl
hex_value-hex_digit (suc zero) h = refl
hex_value-hex_digit (suc (suc zero)) h = refl
hex_value-hex_digit (suc (suc (suc zero))) h = refl
hex_value-hex_digit (suc (suc (suc (suc zero)))) h = refl
hex_value-hex_digit (suc (suc (suc (suc (suc zero))))) h = refl
hex_value-hex_digit (suc (suc (suc (suc (suc (suc zero)))))) h = refl
hex_value-hex_digit (suc (suc (suc (suc (suc (suc (suc zero))))))) h = refl
hex_value-hex_digit (suc (suc (suc (suc (suc (suc (suc (suc zero)))))))) h = refl
hex_value-hex_digit (suc (suc (suc (suc (suc (suc (suc (suc (suc zero))))))))) h = refl
hex_value-hex_digit (suc (suc (suc (suc (suc (suc (suc (suc (suc (suc zero)))))))))) h = refl
hex_value-hex_digit (suc (suc (suc (suc (suc (suc (suc (suc (suc (suc (suc zero))))))))))) h = refl
hex_value-hex_digit (suc (suc (suc (suc (suc (suc (suc (suc (suc (suc (suc (suc zero)))))))))))) h =
    refl
hex_value-hex_digit
      (suc (suc (suc (suc (suc (suc (suc (suc (suc (suc (suc (suc (suc zero))))))))))))) h =
    refl
hex_value-hex_digit
      (suc (suc (suc (suc (suc (suc (suc (suc (suc (suc (suc (suc (suc (suc zero)))))))))))))) h =
    refl
hex_value-hex_digit
      (suc (suc (suc (suc (suc (suc (suc (suc (suc (suc (suc (suc (suc (suc (suc zero)))))))))))))))
      h =
    refl
hex_value-hex_digit
      (suc
        (suc (suc (suc (suc (suc (suc (suc (suc (suc (suc (suc (suc (suc (suc (suc k))))))))))))))))
      h =
    absurd (omega arith)

behind-nil : (o : Option (List Token)) → behind [] o ≡ o
behind-nil none = refl
behind-nil (some ts) = refl

-- A character that gives no token.
pub tokens_quiet :
    (s s' : State) (c : Char) (t : List Char)
    → step s c ≡ some ([], s')
    → tokens s (c ∷ t) ≡ tokens s' t
unfolding tokens
tokens_quiet s s' c t h = rw (tokens, h) (behind-nil (tokens s' t))

-- An escape with a letter.
tokens_short :
    (c d : Char) (raw value rest : List Char)
    → letter shorthands (code c) ≡ some d
    → tokens (string raw value none) ("\\" ∷ d ∷ rest)
      ≡ tokens (string (raw ++ "\\" ∷ d ∷ []) (value ++ c ∷ []) none) rest
unfolding step
tokens_short c d raw value rest h =
    let known : unescape d ≡ some c = unescape-letter shorthands c d unescape-shorthands h in
    tokens_quiet _ (escaped (raw ++ "\\" ∷ []) value none) "\\" (d ∷ rest) refl
    ∙ tokens_quiet (escaped (raw ++ "\\" ∷ []) value none)
        (string ((raw ++ "\\" ∷ []) ++ d ∷ []) ((value ++ []) ++ c ∷ []) none) d rest
        (rw known refl)
    ∙ rw (append_assoc raw ("\\" ∷ []) (d ∷ []), append-nil value) refl

-- One of the four digits.
tokens_digit :
    (raw value rest : List Char) (k n d : ℕ)
    → d < 16
    → tokens (hexed raw value none k n) (hex_digit d ∷ rest)
      ≡ tokens (digit_read (raw ++ hex_digit d ∷ []) value none k (n * 16 + d)) rest
unfolding step
tokens_digit raw value rest k n d h =
    tokens_quiet (hexed raw value none k n) _ (hex_digit d) rest
      (rw (step, hex_value-hex_digit d h) refl)

four_digits :
    (n : ℕ)
    → n < 65536
    → (((0 * 16 + n / 4096) * 16 + n / 256 % 16) * 16 + n / 16 % 16) * 16 + n % 16 ≡ n
four_digits n h = omega arith

unit-code :
    (c : Char) (raw value : List Char)
    → is_high (code c) ≡ false
    → unit raw value none (code c) ≡ string raw (value ++ c ∷ []) none
unit-code c raw value k = rw (k, char_of-code c) refl

appended_six :
    (raw : List Char) (a b c d e f : Char)
    → (((((raw ++ a ∷ []) ++ b ∷ []) ++ c ∷ []) ++ d ∷ []) ++ e ∷ []) ++ f ∷ []
      ≡ raw ++ a ∷ b ∷ c ∷ d ∷ e ∷ f ∷ []
appended_six [] a b c d e f = refl
appended_six (x ∷ raw) a b c d e f = ap (λ t. x ∷ t) (appended_six raw a b c d e f)

-- An escape with four digits.
tokens_hexed :
    (c : Char) (raw value rest : List Char)
    → (code c < 65536)
    → is_high (code c) ≡ false
    → tokens (string raw value none) (("\\" ∷ "u" ∷ digits_of (code c)) ++ rest)
      ≡ tokens (string (raw ++ ("\\" ∷ "u" ∷ digits_of (code c))) (value ++ c ∷ []) none) rest
unfolding step unescape
tokens_hexed c raw value rest h k =
    let n = code c in
    let raw₂ : List Char = (raw ++ "\\" ∷ []) ++ "u" ∷ [] in
    let raw₃ : List Char = raw₂ ++ hex_digit (n / 4096) ∷ [] in
    let raw₄ : List Char = raw₃ ++ hex_digit (n / 256 % 16) ∷ [] in
    let raw₅ : List Char = raw₄ ++ hex_digit (n / 16 % 16) ∷ [] in
    tokens_quiet _ (escaped (raw ++ "\\" ∷ []) value none) "\\" _ refl
    ∙ tokens_quiet (escaped (raw ++ "\\" ∷ []) value none) (hexed raw₂ value none 3 0) "u" _ refl
    ∙ tokens_digit raw₂ value _ 3 0 (n / 4096) (omega arith)
    ∙ tokens_digit raw₃ value _ 2 _ (n / 256 % 16) (omega arith)
    ∙ tokens_digit raw₄ value _ 1 _ (n / 16 % 16) (omega arith)
    ∙ tokens_digit raw₅ value _ 0 _ (n % 16) (omega arith)
    ∙ rw (four_digits n h, unit-code c _ value k, appended_six raw _ _ _ _ _ _) refl

-- A character that stands for itself.
tokens_plain :
    (c : Char) (raw value rest : List Char)
    → letter shorthands (code c) ≡ none
    → is_hexed (code c) ≡ false
    → tokens (string raw value none) (c ∷ rest)
      ≡ tokens (string (raw ++ c ∷ []) (value ++ c ∷ []) none) rest
unfolding step letter
tokens_plain c raw value rest h k =
    tokens_quiet _ (string (raw ++ c ∷ []) ((value ++ []) ++ c ∷ []) none) c rest (ground arith)
    ∙ rw (append-nil value) refl

hexed_small : (n : ℕ) → is_hexed n ≡ true → (n < 65536) × (is_high n ≡ false)
hexed_small n h = ground arith

tokens-escape :
    (c : Char) (raw value rest : List Char)
    → tokens (string raw value none) (escape c ++ rest)
      ≡ tokens (string (raw ++ escape c) (value ++ c ∷ []) none) rest
unfolding escape
tokens-escape c raw value rest = elim (Option-cases (letter shorthands (code c))) [
  | inr (d, h) ↦ rw (escape, h) (tokens_short c d raw value rest h)
  | inl h ↦ elim (Bool-cases (is_hexed (code c))) [
    | inl k ↦
        let small = hexed_small (code c) k in
        rw (escape, h) (rw k (tokens_hexed c raw value rest small.0 small.1))
    | inr k ↦ rw (escape, h) (rw k (tokens_plain c raw value rest h k))
  ]
]

tokens-escapes :
    (s raw value rest : List Char)
    → tokens (string raw value none) (escapes s ++ rest)
      ≡ tokens (string (raw ++ escapes s) (value ++ s) none) rest
unfolding escapes
tokens-escapes [] raw value rest = rw (append-nil raw, append-nil value) refl
tokens-escapes (c ∷ s) raw value rest = rw (append_assoc (escape c) (escapes s) rest) (
    tokens-escape c raw value (escapes s ++ rest)
    ∙ tokens-escapes s (raw ++ escape c) (value ++ c ∷ []) rest
    ∙ rw (append_assoc raw (escape c) (escapes s), append_assoc value (c ∷ []) s) refl)

-- A printed string is read as one token, with its value and with the text between the quotes.
pub tokens_quoted :
    (s rest : List Char)
    → tokens idle ("\"" ∷ ((escapes s ++ "\"" ∷ []) ++ rest))
      ≡ behind (str (escapes s) s ∷ []) (tokens idle rest)
unfolding step open_token punctuation tokens
tokens_quoted s rest = rw (append_assoc (escapes s) ("\"" ∷ []) rest) (
    tokens_quiet idle (string [] [] none) "\"" (escapes s ++ "\"" ∷ rest) refl
    ∙ tokens-escapes s [] [] ("\"" ∷ rest)
    ∙ rw (append-nil s) refl)
