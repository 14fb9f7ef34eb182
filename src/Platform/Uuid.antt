-- ===== src/Platform/Uuid.antt =====
-- The texts that PostgreSQL reads as a value of the type UUID, of the columns `id` and `event_id` in
-- infra/postgres/init.sql: it takes upper-case digits, braces around them, and hyphens left out or added.
use Prim.Native.Char.{Char, code}
use Prim.Native.String.{◌∷◌}
use ticketer.Base.{String, Bool, ◌||◌, ◌==◌, eqb, if◌then◌else◌}

-- A hexadecimal digit in lower case.
unfoldable pub lower_digit : Char → Char
lower_digit c =
    if eqb (code c) b'A'
    then "a"
    else if eqb (code c) b'B'
    then "b"
    else if eqb (code c) b'C'
    then "c"
    else if eqb (code c) b'D'
    then "d"
    else if eqb (code c) b'E'
    then "e"
    else if eqb (code c) b'F'
    then "f"
    else c

abbrev is_mark : Char → Bool
is_mark c = eqb (code c) b'-' || eqb (code c) b'{' || eqb (code c) b'}'

-- The digits that are compared.
unfoldable pub uuid_digits : String → String
uuid_digits String.[] = ""
uuid_digits (c ∷ s) = if is_mark c then uuid_digits s else lower_digit c ∷ uuid_digits s

-- Do two texts spell one UUID?
abbrev pub same_uuid : String → String → Bool
same_uuid a b = uuid_digits a == uuid_digits b
