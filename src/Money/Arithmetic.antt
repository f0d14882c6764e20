-- ===== src/Money/Arithmetic.antt =====
-- Checked addition, subtraction and negation against exact integers.
use ledgercore.Base.{
  ◌≡◌, Text, text_eq, ℤ, ◌+ℤ◌, ◌-ℤ◌, neg_ℤ, IsInt64, is_int64, wrap64, arith, if◌then◌else◌, Result,
  ok, err,
}
use ledgercore.Money.{Amount, MoneyError, overflow, asset_mismatch, add, sub, neg}

-- The exact result when it fits an int64, and an overflow otherwise.
abbrev pub checked : Text → ℤ → Result MoneyError Amount
checked asset n = if is_int64 n then ok (record { asset = asset; units = n }) else err overflow

-- `a + b` on int64 units is the exact sum when both codes agree and the sum fits an int64, an
-- overflow when it does not fit, and an asset mismatch when the codes differ.
pub add_exact :
    (a b : Amount)
    → IsInt64 a.units
    → IsInt64 b.units
    → add a b ≡ (
        if text_eq a.asset b.asset
        then checked a.asset (a.units +ℤ b.units)
        else err asset_mismatch)
unfolding add ◌+ℤ◌ wrap64
add_exact a b ha hb = ground arith

-- `a - b` on int64 units is the exact difference when both codes agree and the difference fits an
-- int64, an overflow when it does not fit, and an asset mismatch when the codes differ; the least
-- int64 as `b`, whose negation does not exist, included.
pub sub_exact :
    (a b : Amount)
    → IsInt64 a.units
    → IsInt64 b.units
    → sub a b ≡ (
        if text_eq a.asset b.asset
        then checked a.asset (a.units -ℤ b.units)
        else err asset_mismatch)
unfolding sub ◌+ℤ◌ ◌-ℤ◌ wrap64
sub_exact a b ha hb = ground arith

-- `neg` is the exact negation of int64 units, or an overflow when that does not fit an int64.
pub neg_exact : (a : Amount) → IsInt64 a.units → neg a ≡ checked a.asset (neg_ℤ a.units)
unfolding neg wrap64
neg_exact a h = ground arith
