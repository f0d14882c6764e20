-- ===== src/Store/Examples/Verifier.antt =====
-- The theorems on VerifyBalances, on the ledger of Store.Examples with one draft.
use ledgercore.Base.{◌≡◌, refl, codes, ok, some, [], true}
use ledgercore.Store.Reports.{in_ledger, verify_balances}
use ledgercore.Store.Rows.{find_ledger}
use ledgercore.Store.Examples.{books, after_create, after_create-IsConsistent}
use ledgercore.Store.Verifier.{verify_balances-empty}
use ledgercore.Store.VerifierSound.{IsVerified, verify_balances-IsVerified}
use ledgercore.Store.Transactions.{
  create_transaction, with_idempotency, write_transaction, apply_created,
}
use ledgercore.Store.Rows.{
  lookup_idempotent, check_accounts_in_ledger, check_ids, account_ids, insert_transaction,
  insert_transaction_row, insert_posting, insert_postings, find_transaction,
  store_idempotent_response, check_transaction_balance,
}
use ledgercore.Store.Balances.{apply_balances, upsert_pending_balance, upsert_balance}
use ledgercore.Domain.{valid_direction}

books_stand : find_ledger 1 after_create ≡ some books
unfolding after_create create_transaction with_idempotency write_transaction lookup_idempotent
    check_accounts_in_ledger check_ids account_ids insert_transaction insert_transaction_row
    insert_posting insert_postings find_transaction apply_created apply_balances
    upsert_pending_balance upsert_balance store_idempotent_response check_transaction_balance
    valid_direction
books_stand = refl

cash_stands : in_ledger 1 after_create 10 ≡ true
unfolding after_create create_transaction with_idempotency write_transaction lookup_idempotent
    check_accounts_in_ledger check_ids account_ids insert_transaction insert_transaction_row
    insert_posting insert_postings find_transaction apply_created apply_balances
    upsert_pending_balance upsert_balance store_idempotent_response check_transaction_balance
    valid_direction
cash_stands = refl

verify_balances-empty_example : verify_balances 1 1 after_create ≡ (ok [], after_create)
verify_balances-empty_example =
    verify_balances-empty 1 1 after_create books after_create-IsConsistent refl books_stand

verify_balances-IsVerified_example : IsVerified after_create 1 10 (codes "USD")
verify_balances-IsVerified_example =
    verify_balances-IsVerified 1 1 after_create after_create 10 (codes "USD") cash_stands
      (verify_balances-empty 1 1 after_create books after_create-IsConsistent refl books_stand)
