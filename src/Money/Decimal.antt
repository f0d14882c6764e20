-- ===== src/Money/Decimal.antt =====
-- libs/go/money/money.go: FormatWithExponent and ParseUnits. An exponent is a Go int, so it may be
-- negative. Texts are lists of bytes.
use ledgercore.Base.{
  ℕ, zero, suc, ◌+◌, ◌-◌, ◌*◌, ◌/◌, ◌%◌, ◌^◌, Bool, true, false, ◌&&◌, ◌||◌, not, Option, none,
  some, [], ◌∷◌, ◌++◌, Text, ℤ, pos, pos_part, neg_part, neg_ℤ, ◌+ℤ◌, ltb, leb, ◌==◌, ltb_ℤ, leb_ℤ,
  min_int64, to_bits, wrap64, length, take, drop, replicate, all, if◌then◌else◌, Result, ok, err,
  fail_if, ◌>>=◌, ◌>>◌,
}
use ledgercore.Money.{Amount, MoneyError, overflow, invalid_decimal, too_many_digits}

-- `%d` of a natural number: the last digit is written last, and each division by ten uses up fuel.
unfoldable pub decimal_fuel : ℕ → ℕ → Text
decimal_fuel zero n = []
decimal_fuel (suc fuel) n =
    let rest = decimal_fuel fuel (n / 10) in
    if ltb n 10 then (n + b'0') ∷ [] else rest ++ (n % 10 + b'0') ∷ []

unfoldable pub decimal : ℕ → Text
unfolding decimal_fuel
decimal n = decimal_fuel (suc n) n

-- `%d` of an int64.
unfoldable pub format_int : ℤ → Text
format_int u = if ltb_ℤ u (pos 0) then b'-' ∷ decimal (neg_part u) else decimal (pos_part u)

-- The uint64 magnitude of an int64, computed without negating the least one.
unfoldable pub magnitude : ℤ → ℕ
magnitude u =
    if ltb_ℤ u (pos 0)
    then (to_bits (wrap64 (neg_ℤ (wrap64 (u +ℤ pos 1)))) + 1) % 2 ^ 64
    else to_bits u

-- Left-pads the digits until one stands before the point.
abbrev pub pad_left : ℕ → Text → Text
pad_left e digits =
    if leb (length digits) e then replicate (e - length digits + 1) b'0' ++ digits else digits

abbrev pub point_at : ℕ → Text → Text
point_at cut digits = take cut digits ++ b'.' ∷ drop cut digits

unfoldable pub format_with_exponent : Amount → ℤ → Text
format_with_exponent a exp =
    let e = pos_part exp in
    let digits = pad_left e (decimal (magnitude a.units)) in
    let body = point_at (length digits - e) digits in
    if leb_ℤ exp (pos 0)
    then format_int a.units
    else if ltb_ℤ a.units (pos 0)
    then b'-' ∷ body
    else body

-- The sign that leads a text, and what follows it.
abbrev pub strip_sign : Text → Bool × Text
strip_sign [] = (false, [])
strip_sign (c ∷ s) =
    if c == b'-' then (true, s) else if c == b'+' then (false, s) else (false, c ∷ s)

-- `strings.IndexByte`.
unfoldable pub index_byte : Text → ℕ → Option ℕ
index_byte [] b = none
index_byte (c ∷ s) b =
    if c == b then some 0 else elim (index_byte s b) [ none ↦ none | some i ↦ some (suc i) ]

abbrev pub is_digit : ℕ → Bool
is_digit c = not (ltb c b'0' || ltb b'9' c)

abbrev pub is_empty : Text → Bool
is_empty [] = true
is_empty (c ∷ s) = false

abbrev pub max_units : ℕ
max_units = 2 ^ 63 - 1

-- The loop over the digits. `units` is an int64 that is never negative, so its arithmetic is that
-- of the unsigned words.
unfoldable pub parse_digits : Bool → ℕ → Text → Result MoneyError ℤ
parse_digits negative units [] = ok (if negative then neg_ℤ (pos units) else pos units)
parse_digits negative units (c ∷ s) =
    let d = c - b'0' in
    let tens = (units * 10) % 2 ^ 64 in
    let rest = parse_digits negative ((tens + d) % 2 ^ 64) s in
    if ltb (max_units / 10) units
    then err overflow
    else if ltb (max_units - d) tens
    then (if negative && tens == max_units - d + 1 && is_empty s
        then ok min_int64
        else err overflow)
    else rest

-- The parts on the two sides of the point; a second point is refused.
unfoldable pub split_point : Text → Result MoneyError (Text × Text)
unfolding index_byte
split_point s = elim (index_byte s b'.') [
  | none ↦ ok (s, [])
  | some i ↦ elim (index_byte (drop (suc i) s) b'.') [
    | none ↦ ok (take i s, drop (suc i) s)
    | some _ ↦ err invalid_decimal
  ]
]

abbrev pub or_zero : Text → Text
or_zero [] = b'0' ∷ []
or_zero (c ∷ s) = c ∷ s

abbrev pub is_point : Text → Bool
is_point [] = false
is_point (c ∷ s) = c == b'.' && is_empty s

-- What follows the split, on the two parts.
unfoldable pub parse_parts : Bool → ℕ → Text → Text → Result MoneyError ℤ
parse_parts negative e int_part frac_part = do
  fail_if (not (all is_digit int_part && all is_digit frac_part)) invalid_decimal
  fail_if (ltb e (length frac_part)) too_many_digits
  parse_digits negative 0 (int_part ++ (frac_part ++ replicate (e - length frac_part) b'0'))

unfoldable pub parse_unsigned : Bool → ℕ → Text → Result MoneyError ℤ
parse_unsigned negative e s = do
  fail_if (is_empty s || is_point s) invalid_decimal
  (int_part, frac_part) ← split_point s
  parse_parts negative e (or_zero int_part) frac_part

unfoldable pub parse_units : Text → ℤ → Result MoneyError ℤ
parse_units decimal exp = do
  fail_if (ltb_ℤ exp (pos 0)) invalid_decimal
  fail_if (is_empty decimal) invalid_decimal
  parse_unsigned (strip_sign decimal).0 (pos_part exp) (strip_sign decimal).1
