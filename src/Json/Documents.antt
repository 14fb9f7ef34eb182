-- ===== src/Json/Documents.antt =====
-- The tokens of a printed OrderEvent.
use Prim.Native.Char.{Char}
use ticketer.Base.{String, some, ◌≡◌, refl, ◌∙◌, List, [], ◌∷◌, ◌++◌, append_assoc, ℤ}
use ticketer.Strconv.{itoa}
use ticketer.Shared.Events.{OrderEvent}
use ticketer.Json.{escape, escapes, letter}
use ticketer.Json.Text.{chars}
use ticketer.Json.Strings.{tokens_quoted}
use ticketer.Json.Words.{tokens-itoa}
use ticketer.Json.Lexer.{
  Token, lbrace, rbrace, colon, comma, num, str, idle, open_token, punctuation, step, tokens,
}
use ticketer.Json.Event.{quoted, text, member, document_of}

-- A text in which nothing is escaped.
abbrev pub IsPlain : List Char → Type 0
IsPlain s = escapes s ≡ s

-- A string in front of what gives the tokens `ts`.
tokens_string :
    (s rest : List Char) (ts : List Token)
    → tokens idle rest ≡ some ts
    → tokens idle (quoted (escapes s) ++ rest) ≡ some (str (escapes s) s ∷ ts)
tokens_string s rest ts h = tokens_quoted s rest ∙ rw (h) refl

tokens_plain :
    (s rest : List Char) (ts : List Token)
    → IsPlain s
    → tokens idle rest ≡ some ts
    → tokens idle (quoted s ++ rest) ≡ some (str s s ∷ ts)
tokens_plain s rest ts p h = rw p at (tokens_string s rest ts h)

abbrev field : String → List Token → List Token
field name rest = str (chars name) (chars name) ∷ colon ∷ rest

-- A mark in front of what gives the tokens `ts`.
tokens_mark :
    (c : Char) (t : Token) (rest : List Char) (ts : List Token)
    → open_token c ≡ (t ∷ [], idle)
    → tokens idle rest ≡ some ts
    → tokens idle (c ∷ rest) ≡ some (t ∷ ts)
unfolding tokens step
tokens_mark c t rest ts m h = rw (tokens, step, m) (rw (h) refl)

tokens_comma :
    (rest : List Char) (ts : List Token)
    → tokens idle rest ≡ some ts
    → tokens idle ("," ∷ rest) ≡ some (comma ∷ ts)
unfolding open_token punctuation
tokens_comma rest ts h = tokens_mark "," comma rest ts refl h

tokens-member :
    (name : String) (v rest : List Char) (ts : List Token)
    → IsPlain (chars name)
    → tokens idle (v ++ rest) ≡ some ts
    → tokens idle (member name v ++ rest) ≡ some (field name ts)
unfolding open_token punctuation
tokens-member name v rest ts p h = rw (append_assoc (chars name ++ "\"" ∷ []) (":" ∷ v) rest) (
    tokens_plain (chars name) (":" ∷ (v ++ rest)) (colon ∷ ts) p
      (tokens_mark ":" colon (v ++ rest) ts refl h))

tokens-text :
    (name s : String) (rest : List Char) (ts : List Token)
    → IsPlain (chars name)
    → tokens idle rest ≡ some ts
    → tokens idle (member name (text s) ++ "," ∷ rest)
      ≡ some (field name (str (escapes (chars s)) (chars s) ∷ comma ∷ ts))
tokens-text name s rest ts p h =
    tokens-member name (text s) _ _ p (tokens_string (chars s) _ _ (tokens_comma rest ts h))

tokens_int :
    (name : String) (n : ℤ) (rest : List Char) (ts : List Token)
    → IsPlain (chars name)
    → tokens idle rest ≡ some ts
    → tokens idle (member name (chars (itoa n)) ++ "," ∷ rest)
      ≡ some (field name (num (chars (itoa n)) ∷ comma ∷ ts))
tokens_int name n rest ts p h =
    tokens-member name (chars (itoa n)) _ _ p (tokens-itoa n rest ∙ rw (h) refl)

abbrev value : String → Token
value s = str (escapes (chars s)) (chars s)

abbrev pub event_tokens : OrderEvent → List Char → List Token
event_tokens v time =
    lbrace
    ∷ field "event_type" (
        value v.event_type
        ∷ comma
        ∷ field "order_id" (
            value v.order_id
            ∷ comma
            ∷ field "user_id" (
                value v.user_id
                ∷ comma
                ∷ field "event_id" (
                    value v.event_id
                    ∷ comma
                    ∷ field "idempotency_key" (
                        value v.idempotency_key
                        ∷ comma
                        ∷ field "retry_count" (
                            num (chars (itoa v.retry_count))
                            ∷ comma
                            ∷ field "timestamp" (
                                str time time
                                ∷ comma
                                ∷ field "trace_id" (value v.trace_id ∷ rbrace ∷ []))))))))

tokens_open :
    (rest : List Char) (ts : List Token)
    → tokens idle rest ≡ some ts
    → tokens idle ("{" ∷ rest) ≡ some (lbrace ∷ ts)
unfolding open_token punctuation
tokens_open rest ts h = tokens_mark "{" lbrace rest ts refl h

tokens_end : tokens idle ("}" ∷ []) ≡ some (rbrace ∷ [])
unfolding tokens step open_token punctuation
tokens_end = refl

pub tokens-document_of :
    (v : OrderEvent) (time : List Char)
    → IsPlain time
    → tokens idle (document_of v time) ≡ some (event_tokens v time)
unfolding escapes escape letter chars
tokens-document_of v time p = tokens_open _ _ (
    tokens-text "event_type" v.event_type _ _ refl (
      tokens-text "order_id" v.order_id _ _ refl (
        tokens-text "user_id" v.user_id _ _ refl (
          tokens-text "event_id" v.event_id _ _ refl (
            tokens-text "idempotency_key" v.idempotency_key _ _ refl (
              tokens_int "retry_count" v.retry_count _ _ refl (
                tokens-member "timestamp" (quoted time) _ _ refl (
                  tokens_plain time _ _ p (
                    tokens_comma _ _ (
                      tokens-member "trace_id" (text v.trace_id) _ _ refl
                        (tokens_string (chars v.trace_id) _ _ tokens_end)))))))))))
