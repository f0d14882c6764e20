-- ===== src/Money.antt =====
-- libs/go/money/money.go: amounts in minor units, asset codes and checked arithmetic.
-- An error value stands for each of the package's errors, its message left off.
pub mod Decimal
pub mod Parsing
pub mod Printing
pub mod Points
pub mod RoundTrip
mod Examples
pub mod Arithmetic
use ledgercore.Base.{
  ℕ, suc, ◌≤◌, Bool, true, false, ◌&&◌, ◌||◌, List, [], ◌∷◌, Text, text_eq, ℤ, pos, ◌+ℤ◌, ◌-ℤ◌,
  neg_ℤ, ltb, leb, ltb_ℤ, leb_ℤ, eqb_ℤ, min_int64, wrap64, length, all, if◌then◌else◌, ◌==◌, not,
  Result, ok, err, fail_if, ◌>>=◌, ◌>>◌,
}

pub data MoneyError : Type 0 where
  overflow asset_mismatch invalid_asset invalid_decimal too_many_digits : MoneyError

-- `units` is an int64 count of minor units.
pub record Amount : Type 0 where
  pub asset : Text
  pub units : ℤ

-- The test on one character of an asset code, which holds for no byte of a character above 127.
abbrev is_code_char : ℕ → Bool
is_code_char r = not ((ltb r b'A' || ltb b'Z' r) && (ltb r b'0' || ltb b'9' r))

unfoldable pub validate_asset_code : Text → Result MoneyError (Unit {0})
validate_asset_code code = do
  fail_if (length code == 0 || ltb 12 (length code)) invalid_asset
  fail_if (not (all is_code_char code)) invalid_asset

unfoldable pub new : Text → ℤ → Result MoneyError Amount
unfolding validate_asset_code
new asset units = do validate_asset_code asset; ok (record { asset = asset; units = units })

unfoldable pub add : Amount → Amount → Result MoneyError Amount
add a b =
    let sum = wrap64 (a.units +ℤ b.units) in
    if not (text_eq a.asset b.asset)
    then err asset_mismatch
    else if (ltb_ℤ (pos 0) a.units && ltb_ℤ (pos 0) b.units && ltb_ℤ sum (pos 0))
        || (ltb_ℤ a.units (pos 0) && ltb_ℤ b.units (pos 0) && leb_ℤ (pos 0) sum)
    then err overflow
    else ok (record { asset = a.asset; units = sum })

-- Whatever `add` fails with, `sub` reports an overflow.
abbrev overflow_of : Result MoneyError Amount → Result MoneyError Amount
overflow_of (ok a) = ok a
overflow_of (err _) = err overflow

unfoldable pub sub : Amount → Amount → Result MoneyError Amount
unfolding add
sub a b =
    if not (text_eq a.asset b.asset)
    then err asset_mismatch
    else if eqb_ℤ b.units min_int64
    then (if leb_ℤ (pos 0) a.units
        then err overflow
        else ok (record { asset = a.asset; units = wrap64 (a.units -ℤ b.units) }))
    else overflow_of (add a (record { asset = b.asset; units = wrap64 (neg_ℤ b.units) }))

unfoldable pub neg : Amount → Result MoneyError Amount
neg a =
    if eqb_ℤ a.units min_int64
    then err overflow
    else ok (record { asset = a.asset; units = wrap64 (neg_ℤ a.units) })

unfoldable pub is_zero : Amount → Bool
is_zero a = eqb_ℤ a.units (pos 0)
