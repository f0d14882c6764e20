-- ===== src/Money/RoundTrip.antt =====
-- ParseUnits on what FormatWithExponent writes.
use ledgercore.Base.{
  ℕ, zero, suc, ◌+◌, ◌-◌, ◌<◌, ◌≡◌, ◌∙◌, ap, sym, inl, inr, true, false, ◌&&◌, [], ◌∷◌, ◌++◌, Text,
  ℤ, pos, pos_part, neg_part, IsInt64, length-append, leb_ℤ, length, all, take, drop,
  take-append-drop, all-append, length-drop, Bool-cases, arith, ok,
}
use mathlib.Core.List.{append-nil}
use ledgercore.Money.{Amount}
use ledgercore.Money.Decimal.{
  decimal, magnitude, is_digit, pad_left, point_at, format_int, format_with_exponent, parse_units,
}
use ledgercore.Money.Parsing.{digits_value, fit, signed}
use ledgercore.Money.Printing.{
  decimal-digits, decimal-value, decimal-length, pad_left-digits, pad_left-value, pad_left-length,
  magnitude_lem,
}
use ledgercore.Money.Points.{with_sign, parse_units_exact, parse_units_whole, is_negative}

fit_self : (u : ℤ) → IsInt64 u → fit (signed (is_negative u) (magnitude u)) ≡ ok u
unfolding fit
fit_self u h = rw (magnitude_lem u h) (ground arith)

parse_whole_self :
    (u : ℤ) (s : Text)
    → IsInt64 u
    → all is_digit s ≡ true
    → 0 < length s
    → digits_value 0 s ≡ magnitude u
    → parse_units (with_sign (is_negative u) s) (pos 0) ≡ ok u
parse_whole_self u [] h d nonempty v = absurd (omega arith)
parse_whole_self u (c ∷ s) h d nonempty v =
    parse_units_whole (is_negative u) 0 c s d ∙ (rw (append-nil (c ∷ s)) (rw v (fit_self u h)))

all_digits_split :
    (n : ℕ) (s : Text)
    → all is_digit s ≡ true
    → (all is_digit (take n s) ≡ true) × (all is_digit (drop n s) ≡ true)
all_digits_split n s h =
    let e : (all is_digit (take n s) && all is_digit (drop n s)) ≡ true =
      sym (all-append is_digit (take n s) (drop n s)) ∙ (rw (take-append-drop n s) h) in
    ground arith

parse_point_self :
    (u : ℤ) (e : ℕ) (s : Text)
    → IsInt64 u
    → all is_digit s ≡ true
    → e < length s
    → digits_value 0 s ≡ magnitude u
    → parse_units (with_sign (is_negative u) (point_at (length s - e) s)) (pos e) ≡ ok u
parse_point_self u e s h d long v =
    let cut : ℕ = length s - e in
    let digits = all_digits_split cut s d in
    let places : length (drop cut s) ≡ e = length-drop cut s ∙ omega arith in
    let none_left : e - length (drop cut s) ≡ 0 = omega arith in
    let whole : length (take cut s ++ drop cut s) ≡ length s =
      ap {B = ℕ} length (take-append-drop cut s) in
    parse_units_exact (is_negative u) e (take cut s) (drop cut s) digits.0 digits.1
      (omega (arith, length-append (take cut s) (drop cut s), whole)) (omega arith)
    ∙ (rw (none_left, append-nil (drop cut s)) (rw (take-append-drop cut s) (rw v (fit_self u h))))

format_whole :
    (a : Amount)
    → format_with_exponent a (pos 0)
      ≡ with_sign (is_negative a.units) (decimal (pos_part a.units + neg_part a.units))
unfolding format_with_exponent format_int
format_whole a = ground arith

some_places : (e : ℕ) → 0 < e → leb_ℤ (pos e) (pos 0) ≡ false
some_places e h = ground arith

format_point :
    (a : Amount) (e : ℕ)
    → 0 < e
    → format_with_exponent a (pos e) ≡ (
        let s = pad_left e (decimal (magnitude a.units)) in
        with_sign (is_negative a.units) (point_at (length s - e) s))
unfolding format_with_exponent
format_point a e h = elim (Bool-cases (is_negative a.units)) [
  | inl minus ↦ rw (some_places e h, minus)
  | inr plus ↦ rw (some_places e h, plus)
]

-- ParseUnits reads back every int64 amount that FormatWithExponent writes, at every exponent that
-- is not negative.
pub parse_units-format_with_exponent :
    (a : Amount) (e : ℕ)
    → IsInt64 a.units
    → parse_units (format_with_exponent a (pos e)) (pos e) ≡ ok a.units
parse_units-format_with_exponent a zero h = rw (format_whole a) (
    rw (← magnitude_lem a.units h) (
      parse_whole_self a.units (decimal (magnitude a.units)) h (decimal-digits (magnitude a.units))
        (decimal-length (magnitude a.units)) (decimal-value (magnitude a.units))))
parse_units-format_with_exponent a (suc e) h =
    let n : ℕ = magnitude a.units in
    let s : Text = pad_left (suc e) (decimal n) in
    rw (format_point a (suc e) (omega arith)) (
      parse_point_self a.units (suc e) s h (pad_left-digits (suc e) (decimal n) (decimal-digits n))
        (pad_left-length (suc e) (decimal n))
        (pad_left-value (suc e) (decimal n) ∙ decimal-value n))
