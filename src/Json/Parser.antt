-- ===== src/Json/Parser.antt =====
-- The grammar of a JSON document over its tokens, with the members of the outermost object.
use Prim.Native.Char.{Char}
use ticketer.Base.{ℕ, Bool, Option, none, some, List, [], ◌∷◌, ◌++◌, leb, length, if◌then◌else◌}
use ticketer.Json.Lexer.{
  Token, lbrace, rbrace, lbrack, rbrack, colon, comma, null, bool, num, str, idle, tokens,
}

-- A value, as far as a field of the program's structs looks at it: null, an object or an array without
-- its content, or a scalar.
pub data Value : Type 0 where
  nothing mapping sequence : Value
  truth : Bool → Value
  number : List Char → Value
  literal : (raw value : List Char) → Value

pub data Bracket : Type 0 where
  object array : Bracket

pub data Expect : Type 0 where
  want_value want_value_or_close want_key want_key_or_close want_colon want_comma_or_close : Expect
  finished : Expect

-- The brackets that are open, what may come next, the key read last, the members of the outermost
-- object so far, and whether the document is that object.
pub record Parse : Type 0 where
  pub stack : List Bracket
  pub expect : Expect
  pub current : List Char
  pub members : List (List Char × Value)
  pub top : Value

-- Behind a value.
abbrev pub after_value : List Bracket → Expect
after_value [] = finished
after_value (b ∷ stack) = want_comma_or_close

-- A value is kept if it is a member of the outermost object.
abbrev pub note :
    List Bracket → List Char → Value → List (List Char × Value) → List (List Char × Value)
note (object ∷ []) current v members = members ++ (current, v) ∷ []
note _ current v members = members

-- The first value is that of the document.
abbrev pub outermost : List Bracket → Value → Value → Value
outermost [] v top = v
outermost (b ∷ stack) v top = top

abbrev pub scalar : Value → Parse → Parse
scalar v p = record p {
  expect = after_value p.stack;
  members = note p.stack p.current v p.members;
  top = outermost p.stack v p.top;
}

abbrev max_nesting_depth : ℕ
max_nesting_depth = 10000

abbrev push : Bracket → Expect → Value → Parse → Option Parse
push b next v p =
    if leb (length (b ∷ p.stack)) max_nesting_depth
    then some (record p {
      stack = b ∷ p.stack;
      expect = next;
      members = note p.stack p.current v p.members;
      top = outermost p.stack v p.top;
    })
    else none

abbrev pop : Bracket → List Bracket → Parse → Option Parse
pop object (object ∷ stack) p = some (record p { stack = stack; expect = after_value stack })
pop array (array ∷ stack) p = some (record p { stack = stack; expect = after_value stack })
pop _ _ p = none

abbrev a_value : Token → Parse → Option Parse
a_value lbrace p = push object want_key_or_close mapping p
a_value lbrack p = push array want_value_or_close sequence p
a_value null p = some (scalar nothing p)
a_value (bool b) p = some (scalar (truth b) p)
a_value (num t) p = some (scalar (number t) p)
a_value (str raw v) p = some (scalar (literal raw v) p)
a_value _ p = none

abbrev keyed : List Bracket → List Char → List Char → List Char
keyed (object ∷ []) key current = key
keyed _ key current = current

abbrev a_key : Token → Parse → Option Parse
a_key (str raw key) p =
    some (record p { expect = want_colon; current = keyed p.stack key p.current })
a_key _ p = none

abbrev next_item : List Bracket → Option Expect
next_item (object ∷ _) = some want_key
next_item (array ∷ _) = some want_value
next_item [] = none

abbrev expecting : Option Expect → Parse → Option Parse
expecting none p = none
expecting (some x) p = some (record p { expect = x })

unfoldable pub shift : Expect → Token → Parse → Option Parse
shift want_value t p = a_value t p
shift want_value_or_close rbrack p = pop array p.stack p
shift want_value_or_close t p = a_value t p
shift want_key t p = a_key t p
shift want_key_or_close rbrace p = pop object p.stack p
shift want_key_or_close t p = a_key t p
shift want_colon colon p = some (record p { expect = want_value })
shift want_colon _ p = none
shift want_comma_or_close comma p = expecting (next_item p.stack) p
shift want_comma_or_close rbrace p = pop object p.stack p
shift want_comma_or_close rbrack p = pop array p.stack p
shift want_comma_or_close _ p = none
shift finished _ p = none

abbrev complete : Expect → Parse → Option Parse
complete finished p = some p
complete _ p = none

unfoldable pub parse : List Token → Parse → Option Parse
parse [] p = complete p.expect p
parse (t ∷ ts) p = elim (shift p.expect t p) [ none ↦ none | some q ↦ parse ts q ]

abbrev pub document : Parse
document = record { stack = []; expect = want_value; current = []; members = []; top = nothing }

-- A valid document, or nothing.
unfoldable pub read : List Char → Option Parse
read text = elim (tokens idle text) [ none ↦ none | some ts ↦ parse ts document ]
