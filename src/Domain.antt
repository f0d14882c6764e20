-- ===== src/Domain.antt =====
-- services/ledger-core/internal/domain/domain.go: the entities of the ledger. Identifiers and
-- instants are numbers, and 0 stands for the nil uuid and for the zero time. A string type with
-- named constants is a data type with one more constructor for every other string.
pub mod Postings
pub mod Sums
pub mod Balanced
pub mod Reversal
pub mod Order
pub mod Mirror
pub mod Nets
pub mod Assets
mod Examples
use ledgercore.Base.{
  ℕ, ◌≡◌, Bool, true, false, ◌||◌, List, [], ◌∷◌, Option, Text, ℤ, text_eq, if◌then◌else◌,
}
use ledgercore.Money.{Amount, MoneyError}

pub data AccountType : Type 0 where
  asset liability equity revenue expense : AccountType
  other_type : Text → AccountType

unfoldable pub valid_account_type : AccountType → Bool
valid_account_type asset = true
valid_account_type liability = true
valid_account_type equity = true
valid_account_type revenue = true
valid_account_type expense = true
valid_account_type (other_type t) = false

pub data NormalBalance : Type 0 where
  normal_debit normal_credit : NormalBalance
  other_balance : Text → NormalBalance

unfoldable pub valid_normal_balance : NormalBalance → Bool
valid_normal_balance normal_debit = true
valid_normal_balance normal_credit = true
valid_normal_balance (other_balance t) = false

pub data Direction : Type 0 where
  debit credit : Direction
  other_direction : Text → Direction

unfoldable pub valid_direction : Direction → Bool
valid_direction debit = true
valid_direction credit = true
valid_direction (other_direction t) = false

-- Everything that is no debit mirrors to a debit.
abbrev pub opposite : Direction → Direction
opposite debit = credit
opposite credit = debit
opposite (other_direction t) = debit

pub data TransactionStatus : Type 0 where
  draft posted reversed : TransactionStatus
  other_status : Text → TransactionStatus

pub data HoldStatus : Type 0 where
  active captured released expired : HoldStatus
  other_hold_status : Text → HoldStatus

abbrev pub Metadata : Type 0
Metadata = List (Text × Text)

pub record Ledger : Type 0 where
  pub id : ℕ
  pub tenant_id : ℕ
  pub name : Text
  pub description : Text
  pub environment : Text
  pub metadata : Metadata
  pub created_at : ℕ

pub record Account : Type 0 where
  pub id : ℕ
  pub tenant_id : ℕ
  pub ledger_id : ℕ
  pub name : Text
  pub path : Text
  pub type : AccountType
  pub normal_balance : NormalBalance
  pub status : Text
  pub metadata : Metadata
  pub created_at : ℕ

pub record Posting : Type 0 where
  pub id : ℕ
  pub account_id : ℕ
  pub direction : Direction
  pub amount : Amount

pub record Transaction : Type 0 where
  pub id : ℕ
  pub tenant_id : ℕ
  pub ledger_id : ℕ
  pub reference : Text
  pub description : Text
  pub idempotency_key : Text
  pub status : TransactionStatus
  pub effective_at : ℕ
  pub effective_at_provided : Bool
  pub posted_at : Option ℕ
  pub reversed_by_id : Option ℕ
  pub reverses_id : Option ℕ
  pub metadata : Metadata
  pub postings : List Posting
  pub created_at : ℕ

pub record Hold : Type 0 where
  pub id : ℕ
  pub tenant_id : ℕ
  pub ledger_id : ℕ
  pub account_id : ℕ
  pub idempotency_key : Text
  pub amount : Amount
  pub status : HoldStatus
  pub expires_at : ℕ
  pub expires_at_provided : Bool
  pub captured_transaction_id : Option ℕ
  pub metadata : Metadata
  pub created_at : ℕ

pub record Balance : Type 0 where
  pub asset : Text
  pub posted_debits : ℤ
  pub posted_credits : ℤ
  pub pending_debits : ℤ
  pub pending_credits : ℤ
  pub held : ℤ
  pub version : ℤ

-- The violations of a rule of the domain; `money` wraps an error of the money package.
pub data DomainError : Type 0 where
  too_few_postings non_positive_amount invalid_direction unbalanced not_posted already_reversed
        generate_id :
      DomainError
  money : MoneyError → DomainError
