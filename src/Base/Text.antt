-- ===== src/Base/Text.antt =====
-- Texts as characters: prefixes and the decimal print of a number, as `strings` and `fmt` have them.
use Prim.Native.Nat.{ℕ, zero, suc, ◌/◌, ◌%◌, ◌-◌}
use mathlib.Core.Bool.{◌&&◌}
use mathlib.Core.Option.{Option, none, some}
use Prim.Native.Char.{Char, code}
use Prim.Native.String.{String, ◌++◌}
use mathlib.Core.Path.{◌≡◌, refl}
use vulpes_core.Base.Tests.{eqb, leb, ltb, if◌then◌else◌}
use vulpes_core.Base.Int.{ℤ, pos, negsuc}

nth_char : Char → ℕ → String → Char
nth_char other n String.[] = other
nth_char other zero (String.◌∷◌ c s) = c
nth_char other (suc n) (String.◌∷◌ c s) = nth_char other n s

-- The character at an index, as a text; the empty text behind the end.
unfoldable pub text_at : ℕ → String → String
text_at n String.[] = ""
text_at zero (String.◌∷◌ c s) = String.◌∷◌ c String.[]
text_at (suc n) (String.◌∷◌ c s) = text_at n s

abbrev pub digit : ℕ → String
digit n = text_at n "0123456789"

-- One digit for each unit of fuel at most; a number below 10 ^ k has k digits or fewer, so a fuel
-- of n + 1 never runs out.
unfoldable pub digits : ℕ → ℕ → String
digits zero n = ""
digits (suc fuel) n =
    let rest = digits fuel (n / 10) ++ digit (n % 10) in if ltb n 10 then digit n else rest

-- `fmt.Sprint(n)` of a number that is not negative
unfoldable pub sprint : ℕ → String
unfolding digits text_at
sprint n = digits (suc n) n

-- `fmt.Sprint(n)`
unfoldable pub sprint_int : ℤ → String
unfolding sprint
sprint_int (pos n) = sprint n
sprint_int (negsuc n) = "-" ++ sprint (suc n)

sprint_1203 : sprint 1203 ≡ "1203"
unfolding sprint
sprint_1203 = refl

-- One character as `strconv.Quote` writes it. Characters that are not printable, other than the
-- seven with an escape of one letter, are left as they are here.
quote_char : Char → String
quote_char c =
    let n = code c in
    if eqb n 34
    then "\\\""
    else if eqb n 92
    then "\\\\"
    else if eqb n 7
    then "\\a"
    else if eqb n 8
    then "\\b"
    else if eqb n 12
    then "\\f"
    else if eqb n 10
    then "\\n"
    else if eqb n 13
    then "\\r"
    else if eqb n 9
    then "\\t"
    else if eqb n 11
    then "\\v"
    else String.◌∷◌ c String.[]

quote_rest : String → String
quote_rest String.[] = "\""
quote_rest (String.◌∷◌ c s) = quote_char c ++ quote_rest s

-- `fmt.Sprintf("%q", s)`
unfoldable pub quote : String → String
unfolding quote_char quote_rest
quote s = "\"" ++ quote_rest s

quote_escapes : quote "a\"b" ≡ "\"a\\\"b\""
unfolding quote
quote_escapes = refl

lower_char : Char → Char
lower_char c =
    if leb b'A' (code c) && leb (code c) b'Z'
    then nth_char c (code c - b'A') "abcdefghijklmnopqrstuvwxyz"
    else c

-- `strings.ToLower` of an ASCII text, such as the name of an HTTP header.
unfoldable pub to_lower : String → String
unfolding lower_char nth_char
to_lower String.[] = String.[]
to_lower (String.◌∷◌ c s) = String.◌∷◌ (lower_char c) (to_lower s)

-- The rest of a text behind a prefix that it has.
unfoldable pub strip_prefix : String → String → Option String
strip_prefix String.[] s = some s
strip_prefix (String.◌∷◌ p prefix) String.[] = none
strip_prefix (String.◌∷◌ p prefix) (String.◌∷◌ c s) =
    if eqb (code p) (code c) then strip_prefix prefix s else none

strip_lowered : strip_prefix "x-a-" (to_lower "X-A-Team") ≡ some "team"
unfolding to_lower strip_prefix
strip_lowered = refl
