-- ===== src/Domain/Balanced.antt =====
-- What it means that a set of postings balances, for ValidateBalanced of
-- services/ledger-core/internal/domain/domain.go.
pub mod Loop
pub mod Verdict
use ledgercore.Base.{
  ℕ, zero, suc, ◌+◌, ◌≤◌, ◌<◌, ◌≡◌, refl, ◌∙◌, sym, ap, ◌≢◌, ◌⊎◌, inl, inr, ◌↔◌, Bool, true, false,
  not, ◌&&◌, List, [], ◌∷◌, Option, none, some, Text, text_eq, text_eq_iff, text_eq_self,
  text_eq→eq, ℤ, pos, pos_part, neg_part, ◌+ℤ◌, ◌≤ℤ◌, ◌<ℤ◌, leb_ℤ, eqb_ℤ, eqb_ℤ_iff, IsInt64,
  is_int64, max_int64, min_int64, length, all, ltb, leb, All, if◌then◌else◌, Result, ok, err,
  ok-injective, err-ne-ok, ◌>>=◌, ◌>>◌, >>=-ok, fail_if, Bool-cases, Option-cases, int_laws, arith,
  subst,
}
use ledgercore.Money.{Amount, MoneyError, validate_asset_code}
use ledgercore.Domain.{
  Posting, Direction, debit, credit, other_direction, DomainError, non_positive_amount,
  valid_direction,
}
use ledgercore.Domain.Postings.{
  AmountMap, Sides, lookup, current, lift, accumulate, add_side, add_posting, sum_sides,
  check_sides, validate_balanced, debit_is_matched, credit_is_matched,
}
use ledgercore.Domain.Sums.{
  IsSums, units_at, units_at_range, lookup-IsSums, matched_all, all_matched, Grown, Grown-zero,
  accumulate-Grown, accumulate_total,
}

-- What a direction puts on the debit side and on the credit side.
abbrev pub debit_of : Direction → ℤ → ℤ
debit_of debit n = n
debit_of credit n = pos 0
debit_of (other_direction t) n = pos 0

abbrev pub credit_of : Direction → ℤ → ℤ
credit_of debit n = pos 0
credit_of credit n = n
credit_of (other_direction t) n = pos 0

-- The sums of one side under an asset code, over the exact integers.
unfoldable pub debits_in : Text → List Posting → ℤ
debits_in a [] = pos 0
debits_in a (p ∷ ps) =
    (if text_eq p.amount.asset a then debit_of p.direction p.amount.units else pos 0)
    +ℤ debits_in a ps

unfoldable pub credits_in : Text → List Posting → ℤ
credits_in a [] = pos 0
credits_in a (p ∷ ps) =
    (if text_eq p.amount.asset a then credit_of p.direction p.amount.units else pos 0)
    +ℤ credits_in a ps

-- A posting that passes the tests made on it alone.
abbrev pub IsPosting : Posting → Type 0
IsPosting p =
    (validate_asset_code p.amount.asset ≡ ok tt)
    × (pos 0 <ℤ p.amount.units)
    × (valid_direction p.direction ≡ true)

abbrev pub FitsInt64 : Posting → Type 0
FitsInt64 p = p.amount.units ≤ℤ max_int64

pub record IsBalanced (ps : List Posting) : Type 0 where
  pub enough : 2 ≤ length ps
  pub valid : All IsPosting ps
  pub fits : (a : Text) → debits_in a ps ≤ℤ max_int64
  pub balanced : (a : Text) → debits_in a ps ≡ credits_in a ps
