-- ===== src/Json/Words.antt =====
-- The reader takes a word up to the mark behind it.
use Prim.Native.Char.{Char}
use ticketer.Base.{
  some, ◌≡◌, refl, ◌∙◌, arith, List, [], ◌∷◌, ◌++◌, append_assoc, append-nil, All, ℤ,
}
use ticketer.Strconv.{itoa}
use ticketer.Json.Text.{chars}
use ticketer.Json.Strings.{tokens_quiet}
use ticketer.Json.Numbers.{InWord, itoa-numeric, itoa-InWord}
use ticketer.Json.Lexer.{
  Token, num, comma, idle, word, numeric, token_of, punctuation, open_token, step, tokens, behind,
}

-- The characters of a word are kept until its end.
tokens_inside :
    (w pre rest : List Char)
    → All InWord w
    → tokens (word pre) (w ++ rest) ≡ tokens (word (pre ++ w)) rest
unfolding InWord step
tokens_inside [] pre rest h = rw (append-nil pre) refl
tokens_inside (c ∷ w) pre rest h =
    tokens_quiet (word pre) (word (pre ++ c ∷ [])) c (w ++ rest) (rw (step, h.0) refl)
    ∙ tokens_inside w (pre ++ c ∷ []) rest h.1
    ∙ rw (append_assoc pre (c ∷ []) w) refl

tokens_begin :
    (c : Char) (t : List Char) → InWord c → tokens idle (c ∷ t) ≡ tokens (word (c ∷ [])) t
unfolding InWord step open_token
tokens_begin c t h = tokens_quiet idle (word (c ∷ [])) c t (ground arith)

tokens_word :
    (w rest : List Char) (t : Token)
    → All InWord w
    → token_of w ≡ some t
    → tokens idle (w ++ "," ∷ rest) ≡ behind (t ∷ comma ∷ []) (tokens idle rest)
unfolding token_of numeric tokens step open_token punctuation
tokens_word [] rest t h e = cc
tokens_word (c ∷ w) rest t h e =
    tokens_begin c (w ++ "," ∷ rest) h.0
    ∙ tokens_inside w (c ∷ []) ("," ∷ rest) h.1
    ∙ rw (tokens, step, e) refl

-- The print of an `int`, in front of a comma.
pub tokens-itoa :
    (n : ℤ) (rest : List Char)
    → tokens idle (chars (itoa n) ++ "," ∷ rest)
      ≡ behind (num (chars (itoa n)) ∷ comma ∷ []) (tokens idle rest)
unfolding token_of
tokens-itoa n rest =
    tokens_word (chars (itoa n)) rest (num (chars (itoa n))) (itoa-InWord n)
      (rw (token_of, itoa-numeric n) refl)
