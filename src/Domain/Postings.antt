-- ===== src/Domain/Postings.antt =====
-- services/ledger-core/internal/domain/domain.go: ValidateBalanced. A Go map from asset codes to
-- amounts is an association list, and the errors are values without their messages, so the random
-- order in which Go ranges over a map does not show.
use ledgercore.Base.{
  Bool, true, false, not, List, [], ◌∷◌, Option, none, some, Text, text_eq, pos, leb_ℤ, eqb_ℤ, ltb,
  length, all, if◌then◌else◌, Result, ok, err, fail_if, ◌>>=◌, ◌>>◌,
}
use ledgercore.Money.{Amount, MoneyError, add, validate_asset_code}
use ledgercore.Domain.{
  Posting, Direction, debit, credit, other_direction, DomainError, too_few_postings,
  non_positive_amount, invalid_direction, unbalanced, money,
}

abbrev pub AmountMap : Type 0
AmountMap = List (Text × Amount)

unfoldable pub lookup : Text → AmountMap → Option Amount
lookup k [] = none
lookup k ((j, a) ∷ m) = if text_eq j k then some a else lookup k m

unfoldable pub insert : Text → Amount → AmountMap → AmountMap
insert k a [] = (k, a) ∷ []
insert k a ((j, b) ∷ m) = if text_eq j k then (j, a) ∷ m else (j, b) ∷ insert k a m

-- An error of the money package, wrapped.
abbrev pub lift {ℓ} : {A : Type ℓ} → Result MoneyError A → Result DomainError A
lift (ok a) = ok a
lift (err e) = err (money e)

-- The amount that a map holds, an amount of zero where it holds none.
unfoldable pub current : AmountMap → Text → Amount
current side asset = elim (lookup asset side) [
  | none ↦ record { asset = asset; units = pos 0 }
  | some a ↦ a
]

unfoldable pub accumulate : AmountMap → Amount → Result DomainError AmountMap
accumulate side amount = do
  sum ← lift (add (current side amount.asset) amount)
  ok (insert amount.asset sum side)

abbrev pub Sides : Type 0
Sides = AmountMap × AmountMap

-- The `switch` on the direction, with the debits first.
unfoldable pub add_side : Direction → Amount → Sides → Result DomainError Sides
add_side debit amount (debits, credits) = do side ← accumulate debits amount; ok (side, credits)
add_side credit amount (debits, credits) = do side ← accumulate credits amount; ok (debits, side)
add_side (other_direction t) amount sides = err invalid_direction

-- The body of the first loop.
unfoldable pub add_posting : Posting → Sides → Result DomainError Sides
add_posting p sides = do
  lift (validate_asset_code p.amount.asset)
  fail_if (leb_ℤ p.amount.units (pos 0)) non_positive_amount
  add_side p.direction p.amount sides

unfoldable pub sum_sides : List Posting → Sides → Result DomainError Sides
sum_sides [] sides = ok sides
sum_sides (p ∷ ps) sides = do next ← add_posting p sides; sum_sides ps next

-- The tests of the second and the third loop.
abbrev pub debit_is_matched : AmountMap → Text × Amount → Bool
debit_is_matched credits (asset, d) = elim (lookup asset credits) [
  | none ↦ false
  | some c ↦ eqb_ℤ c.units d.units
]

abbrev pub credit_is_matched : AmountMap → Text × Amount → Bool
credit_is_matched debits (asset, c) = elim (lookup asset debits) [ none ↦ false | some _ ↦ true ]

unfoldable pub check_sides : Sides → Result DomainError (Unit {0})
check_sides (debits, credits) = do
  fail_if (not (all (debit_is_matched credits) debits)) unbalanced
  fail_if (not (all (credit_is_matched debits) credits)) unbalanced

unfoldable pub validate_balanced : List Posting → Result DomainError (Unit {0})
validate_balanced postings = do
  fail_if (ltb (length postings) 2) too_few_postings
  sides ← sum_sides postings ([], [])
  check_sides sides
