-- ===== src/Money/Examples.antt =====
-- The cases of money_test.go, and instances of the theorems.
use ledgercore.Base.{
  ◌≡◌, refl, codes, pos, negsuc, ok, err, wrap64, ◌+ℤ◌, ◌-ℤ◌, min_int64, max_int64, arith, true,
  false, ◌++◌, ◌∷◌, replicate, length, ◌-◌, text_eq, if◌then◌else◌,
}
use ledgercore.Money.{Amount, overflow, too_many_digits, asset_mismatch, add, sub}
use ledgercore.Money.Arithmetic.{checked, add_exact, sub_exact}
use ledgercore.Money.Parsing.{digits_value, signed, fit, parse_digits_exact}
use ledgercore.Money.Points.{with_sign, parse_units_exact, parse_units_whole}
use ledgercore.Money.RoundTrip.{parse_units-format_with_exponent}
use ledgercore.Money.Decimal.{
  format_with_exponent, magnitude, parse_units, parse_unsigned, split_point, parse_parts,
  parse_digits, decimal,
}

format_btc :
    format_with_exponent (record { asset = codes "BTC"; units = pos 150 }) (pos 8)
    ≡ codes "0.00000150"
unfolding format_with_exponent magnitude decimal wrap64 ◌+ℤ◌
format_btc = refl

parse_min : parse_units (codes "-92233720368547758.08") (pos 2) ≡ ok min_int64
unfolding parse_units parse_unsigned split_point parse_parts parse_digits
parse_min = refl

parse_above : parse_units (codes "92233720368547758.08") (pos 2) ≡ err overflow
unfolding parse_units parse_unsigned split_point parse_parts parse_digits
parse_above = refl

parse_fine : parse_units (codes "1.005") (pos 2) ≡ err too_many_digits
unfolding parse_units parse_unsigned split_point parse_parts parse_digits
parse_fine = refl

parse_negative : parse_units (codes "-.5") (pos 2) ≡ ok (negsuc 49)
unfolding parse_units parse_unsigned split_point parse_parts parse_digits
parse_negative = refl

abbrev most : Amount
most = record { asset = codes "USD"; units = max_int64 }

abbrev least : Amount
least = record { asset = codes "USD"; units = min_int64 }

add_exact_example : add most least ≡ (
    if text_eq most.asset least.asset
    then checked most.asset (most.units +ℤ least.units)
    else err asset_mismatch)
add_exact_example = add_exact most least (ground arith, ground arith) (ground arith, ground arith)

sub_exact_example : sub least least ≡ (
    if text_eq least.asset least.asset
    then checked least.asset (least.units -ℤ least.units)
    else err asset_mismatch)
sub_exact_example = sub_exact least least (ground arith, ground arith) (ground arith, ground arith)

parse_digits_exact_example :
    parse_digits true 0 (codes "9223372036854775808")
    ≡ fit (signed true (digits_value 0 (codes "9223372036854775808")))
parse_digits_exact_example =
    parse_digits_exact true 0 (codes "9223372036854775808") (ground arith) refl

parse_units_exact_example :
    parse_units (with_sign true (codes "12" ++ b'.' ∷ codes "5")) (pos 2)
    ≡ fit (
        signed true
          (digits_value 0 (codes "12" ++ (codes "5" ++ replicate (2 - length (codes "5")) b'0'))))
parse_units_exact_example =
    parse_units_exact true 2 (codes "12") (codes "5") refl refl (ground arith) (ground arith)

parse_units_whole_example :
    parse_units (with_sign false (b'7' ∷ codes "00")) (pos 3)
    ≡ fit (signed false (digits_value 0 ((b'7' ∷ codes "00") ++ replicate 3 b'0')))
parse_units_whole_example = parse_units_whole false 3 b'7' (codes "00") refl

parse_units-format_with_exponent_example :
    parse_units (format_with_exponent least (pos 8)) (pos 8) ≡ ok min_int64
parse_units-format_with_exponent_example =
    parse_units-format_with_exponent least 8 (ground arith, ground arith)
