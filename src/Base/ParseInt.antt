-- ===== src/Base/ParseInt.antt =====
-- `strconv.ParseInt` with base 10 and 64 bits, and what it makes of a printed integer.
use text.Mathlib.TextLemmas
use Prim.Native.Nat.{ℕ, zero, suc, ◌+◌, ◌-◌, ◌*◌, ◌/◌, ◌%◌, ◌^◌, ◌<◌}
use Prim.Native.Char.{Char, code}
use Prim.Native.String.{String, ◌++◌ as ◌<>◌}
use mathlib.Core.Path.{◌≡◌, refl, sym, ap, ◌∙◌}
use mathlib.Core.Logic.{inl, inr}
use mathlib.Core.Bool.{Bool, true, false, ◌&&◌}
use native.Mathlib.Omega.{arith}
use vulpes_core.Base.Tests.{eqb, leb, ltb, if◌then◌else◌, Bool-cases}
use vulpes_core.Base.Fallible.{Result, ok, err}
use vulpes_core.Base.Int.{ℤ, pos, negsuc}
use vulpes_core.Base.Text.{sprint, sprint_int, digit, digits, text_at}

-- Why a text is no integer of 64 bits.
pub data NumError : Type 0 where
  syntax : NumError
  range : NumError

abbrev pub is_digit : Char → Bool
is_digit c = leb b'0' (code c) && leb (code c) b'9'

-- The loop of ParseUint behind the digits whose number is `n`.
unfoldable pub parse_digits : ℕ → String → Result NumError ℕ
parse_digits n String.[] = ok n
parse_digits n (String.◌∷◌ c s) =
    let n' = n * 10 + (code c - b'0') in
    let rest = parse_digits n' s in
    if is_digit c then (if leb (2 ^ 64) n' then err range else rest) else err syntax

-- `strconv.ParseUint`
unfoldable pub parse_uint : String → Result NumError ℕ
unfolding parse_digits
parse_uint String.[] = err syntax
parse_uint (String.◌∷◌ c s) = parse_digits 0 (String.◌∷◌ c s)

-- The signed number: 2 ^ 63 is a negative number only.
abbrev pub signed : Bool → Result NumError ℕ → Result NumError ℤ
signed negative (err e) = err e
signed false (ok n) = if leb (2 ^ 63) n then err range else ok (pos n)
signed true (ok zero) = ok (pos 0)
signed true (ok (suc n)) = if leb (2 ^ 63) n then err range else ok (negsuc n)

-- `strconv.ParseInt(s, 10, 64)`
unfoldable pub parse_int : String → Result NumError ℤ
unfolding parse_uint
parse_int String.[] = err syntax
parse_int (String.◌∷◌ c s) =
    if eqb (code c) b'-'
    then signed true (parse_uint s)
    else if eqb (code c) b'+'
    then signed false (parse_uint s)
    else signed false (parse_uint (String.◌∷◌ c s))

parses : parse_int "-9223372036854775808" ≡ ok (negsuc 9223372036854775807)
unfolding parse_int
parses = refl

out_of_range : parse_int "9223372036854775808" ≡ err range
unfolding parse_int
out_of_range = refl

empty_sign : parse_int "+" ≡ err syntax
unfolding parse_int
empty_sign = refl

digit-char :
    (d : ℕ) → d < 10 → (c : Char) × (digit d ≡ String.◌∷◌ c String.[]) × (code c ≡ d + b'0')
unfolding text_at
digit-char zero h = (_, refl, refl)
digit-char (suc zero) h = (_, refl, refl)
digit-char (suc (suc zero)) h = (_, refl, refl)
digit-char (suc (suc (suc zero))) h = (_, refl, refl)
digit-char (suc (suc (suc (suc zero)))) h = (_, refl, refl)
digit-char (suc (suc (suc (suc (suc zero))))) h = (_, refl, refl)
digit-char (suc (suc (suc (suc (suc (suc zero)))))) h = (_, refl, refl)
digit-char (suc (suc (suc (suc (suc (suc (suc zero))))))) h = (_, refl, refl)
digit-char (suc (suc (suc (suc (suc (suc (suc (suc zero)))))))) h = (_, refl, refl)
digit-char (suc (suc (suc (suc (suc (suc (suc (suc (suc zero))))))))) h = (_, refl, refl)
digit-char (suc (suc (suc (suc (suc (suc (suc (suc (suc (suc d)))))))))) h =
    absurd (omega (arith, h))

parse_digits-char :
    (a d : ℕ) (c : Char) (s : String)
    → d < 10
    → code c ≡ d + b'0'
    → parse_digits a (String.◌∷◌ c s)
      ≡ (if leb (2 ^ 64) (a * 10 + d) then err range else parse_digits (a * 10 + d) s)
unfolding parse_digits
parse_digits-char a d c s h e =
    let same : a * 10 + (code c - b'0') ≡ a * 10 + d = omega (arith, e) in
    let is : is_digit c ≡ true = ground (arith, e, h) in rw (parse_digits, is, same) refl

parse_digits-digit :
    (a d : ℕ) (s : String)
    → d < 10
    → parse_digits a (digit d <> s)
      ≡ (if leb (2 ^ 64) (a * 10 + d) then err range else parse_digits (a * 10 + d) s)
parse_digits-digit a d s h =
    let (c, text, is) = digit-char d h in
    ap (λ t. parse_digits a (t <> s)) text
    ∙ ap (parse_digits a)
        (TextLemmas.cons-append c String.[] s ∙ ap (λ t. String.◌∷◌ c t) (TextLemmas.nil-append s))
    ∙ parse_digits-char a d c s h is

-- What is read behind the number `n`.
abbrev goes_on : String → ℕ → Result NumError ℕ
goes_on s n = if leb (2 ^ 64) n then err range else parse_digits n s

last_digit : (n : ℕ) (s : String) → goes_on (digit (n % 10) <> s) (n / 10) ≡ goes_on s n
last_digit n s =
    let whole : n / 10 * 10 + n % 10 ≡ n = omega arith in
    let step = parse_digits-digit (n / 10) (n % 10) s (omega arith) ∙ ap (goes_on s) whole in
    elim (Bool-cases (leb (2 ^ 64) (n / 10))) [
      | inl big ↦ ground (arith, big)
      | inr fits ↦ rw fits step
    ]

-- The digits of a number are read as the number, if it has 64 bits.
parse_digits-digits :
    (fuel n : ℕ) (s : String)
    → n < fuel
    → parse_digits 0 (digits fuel n <> s) ≡ (if leb (2 ^ 64) n then err range else parse_digits n s)
unfolding digits
parse_digits-digits zero n s h = absurd (omega (arith, h))
parse_digits-digits (suc fuel) n s h = elim (Bool-cases (ltb n 10)) [
  | inl small ↦
      let one : digits (suc fuel) n ≡ digit n = ground (arith, small) in
      ap (λ t. parse_digits 0 (t <> s)) one
      ∙ parse_digits-digit 0 n s (ground (arith, small))
      ∙ ap (goes_on s) (omega arith)
  | inr large ↦
      let more : digits (suc fuel) n ≡ digits fuel (n / 10) <> digit (n % 10) =
        ground (arith, large) in
      ap (λ t. parse_digits 0 (t <> s)) more
      ∙ ap (parse_digits 0) (TextLemmas.append_assoc (digits fuel (n / 10)) (digit (n % 10)) s)
      ∙ parse_digits-digits fuel (n / 10) (digit (n % 10) <> s) (ground (arith, large, h))
      ∙ last_digit n s
]

-- A printed number is read as itself, if it has 64 bits.
digits-sprint : (n : ℕ) → parse_digits 0 (sprint n) ≡ (if leb (2 ^ 64) n then err range else ok n)
unfolding sprint parse_digits
digits-sprint n =
    ap (parse_digits 0) (sym (TextLemmas.append-nil (sprint n)))
    ∙ parse_digits-digits (suc n) n "" (omega arith)

-- A print begins with a digit.
digits-first :
    (fuel n : ℕ)
    → n < fuel
    → (c : Char) × (s : String) × (digits fuel n ≡ String.◌∷◌ c s) × (is_digit c ≡ true)
unfolding digits
digits-first zero n h = absurd (omega (arith, h))
digits-first (suc fuel) n h = elim (Bool-cases (ltb n 10)) [
  | inl small ↦
      let (c, text, is) = digit-char n (ground (arith, small)) in
      (c, String.[], ground (arith, small, text), ground (arith, small, is))
  | inr large ↦
      let more : digits (suc fuel) n ≡ digits fuel (n / 10) <> digit (n % 10) =
        ground (arith, large) in
      let (c, s, text, is) = digits-first fuel (n / 10) (ground (arith, large, h)) in
      (
        c,
        s <> digit (n % 10),
        more ∙ ap (λ t. t <> digit (n % 10)) text ∙ TextLemmas.cons-append c s (digit (n % 10)),
        is,
      )
]

parse_uint-sprint : (n : ℕ) → parse_uint (sprint n) ≡ (if leb (2 ^ 64) n then err range else ok n)
unfolding parse_uint sprint
parse_uint-sprint n =
    let (c, s, text, is) = digits-first (suc n) n (omega arith) in
    ap parse_uint text ∙ sym (ap (parse_digits 0) text) ∙ digits-sprint n

parse_int-digit :
    (c : Char) (s : String)
    → is_digit c ≡ true
    → parse_int (String.◌∷◌ c s) ≡ signed false (parse_uint (String.◌∷◌ c s))
unfolding parse_int
parse_int-digit c s h =
    let minus : eqb (code c) b'-' ≡ false = ground (arith, h) in
    let plus : eqb (code c) b'+' ≡ false = ground (arith, h) in rw (parse_int, minus, plus) refl

parse_int-minus : (s : String) → parse_int ("-" <> s) ≡ signed true (parse_uint s)
unfolding parse_int
parse_int-minus s =
    ap parse_int (
      TextLemmas.cons-append "-" String.[] s ∙ ap (λ t. String.◌∷◌ "-" t) (TextLemmas.nil-append s))

-- The integers of 64 bits.
abbrev pub is_int64 : ℤ → Bool
is_int64 (pos n) = ltb n (2 ^ 63)
is_int64 (negsuc n) = ltb n (2 ^ 63)

-- ParseInt reads what `fmt.Sprint` printed, and refuses exactly what has no 64 bits.
pub parse_int-sprint_int :
    (z : ℤ) → parse_int (sprint_int z) ≡ (if is_int64 z then ok z else err range)
unfolding sprint_int sprint
parse_int-sprint_int (pos n) =
    let (c, s, text, is) = digits-first (suc n) n (omega arith) in
    ap parse_int text
    ∙ parse_int-digit c s is
    ∙ ap (λ t. signed false (parse_uint t)) (sym text)
    ∙ ap (signed false) (parse_uint-sprint n)
    ∙ ground arith
parse_int-sprint_int (negsuc n) =
    parse_int-minus (sprint (suc n)) ∙ ap (signed true) (parse_uint-sprint (suc n)) ∙ ground arith
