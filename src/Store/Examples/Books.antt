-- ===== src/Store/Examples/Books.antt =====
-- The trial balance of the ledger of Store.Examples after a payment.
use ledgercore.Base.{
  ◌≡◌, refl, sym, ap, subst, codes, pos, ok, some, none, some_injective, [], true, err, ◌∙◌, wrap64,
  text_lt, All-mem, All, map, text_eq, ◌+ℤ◌, sort_by, insert_sorted,
}
use mathlib.Core.List.{Memᴰ}
use ledgercore.Domain.{Transaction, valid_direction}
use ledgercore.Domain.Balanced.{debits_in, credits_in}
use ledgercore.Store.{PostingRow, with_tenant_tx}
use ledgercore.Store.Rows.{
  row_of, lookup_idempotent, check_accounts_in_ledger, check_ids, account_ids, insert_transaction,
  insert_transaction_row, insert_posting, insert_postings, find_transaction,
  store_idempotent_response, check_transaction_balance,
}
use ledgercore.Store.Statuses.{find_in}
use ledgercore.Store.Balances.{
  apply_balances, upsert_pending_balance, upsert_posted_balance, upsert_balance,
}
use ledgercore.Store.Transactions.{
  create_transaction, with_idempotency, write_transaction, apply_created, posted_event,
}
use ledgercore.Store.Invariant.{IsConsistent}
use ledgercore.Store.Consistency.{create_transaction-IsConsistent}
use ledgercore.Store.DoubleEntry.{IsDoubleEntry, stored_postings, create_transaction-IsDoubleEntry}
use ledgercore.Store.Reports.{in_ledger}
use ledgercore.Store.TrialBalance.{
  TrialBalance, TrialBalanceTotal, balance_key, trial_balance, current_rows, add_row, add_rows,
}
use ledgercore.Store.TrialBalance.Totals.{find_total}
use ledgercore.Store.TrialBalance.Balanced.{IsBooked}
use ledgercore.Store.TrialBalance.Current.{DistinctKeys}
use ledgercore.Store.TrialBalance.Report.{trial_balance-IsBalanced}
use ledgercore.Store.Examples.{
  empty, empty-IsConsistent, alone, hash_transaction, paid_at_once, after_paid, paid_run,
}

after_paid-IsConsistent : IsConsistent after_paid
after_paid-IsConsistent =
    create_transaction-IsConsistent hash_transaction alone paid_at_once empty after_paid refl
      empty-IsConsistent empty-IsConsistent paid_run

the_payment :
    All
      (λ (r : PostingRow).
        find_in r.transaction_id after_paid.transactions ≡ some (row_of paid_at_once))
      after_paid.postings
unfolding after_paid create_transaction with_idempotency write_transaction lookup_idempotent
    check_accounts_in_ledger check_ids account_ids insert_transaction insert_transaction_row
    insert_posting insert_postings find_transaction apply_created apply_balances
    upsert_pending_balance upsert_balance store_idempotent_response check_transaction_balance
    valid_direction upsert_posted_balance posted_event debits_in credits_in text_eq ◌+ℤ◌
the_payment = (refl, (refl, tt))

in_books : All (λ (r : PostingRow). in_ledger 1 after_paid r.account_id ≡ true) after_paid.postings
unfolding after_paid create_transaction with_idempotency write_transaction lookup_idempotent
    check_accounts_in_ledger check_ids account_ids insert_transaction insert_transaction_row
    insert_posting insert_postings find_transaction apply_created apply_balances
    upsert_pending_balance upsert_balance store_idempotent_response check_transaction_balance
    valid_direction upsert_posted_balance posted_event debits_in credits_in text_eq ◌+ℤ◌
in_books = (refl, (refl, tt))

after_paid-IsBooked : IsBooked after_paid
unfolding after_paid create_transaction with_idempotency write_transaction lookup_idempotent
    check_accounts_in_ledger check_ids account_ids insert_transaction insert_transaction_row
    insert_posting insert_postings find_transaction apply_created apply_balances
    upsert_pending_balance upsert_balance store_idempotent_response check_transaction_balance
    valid_direction upsert_posted_balance posted_event debits_in credits_in text_eq ◌+ℤ◌
after_paid-IsBooked = record {
  distinct = (tt, tt);
  owned = (refl, (refl, tt));
  at_home = λ t r found m.
      subst (λ l. in_ledger l after_paid r.account_id ≡ true)
        (ap (λ (x : Transaction). x.ledger_id)
          (some_injective (
            sym (
              All-mem
                (λ (r : PostingRow).
                  find_in r.transaction_id after_paid.transactions ≡ some (row_of paid_at_once))
                after_paid.postings the_payment m)
            ∙ found)))
        (All-mem (λ (r : PostingRow). in_ledger 1 after_paid r.account_id ≡ true)
          after_paid.postings in_books m);
  entries = λ t m firm. elim m [
    | Memᴰ.head e ↦
        subst (λ (x : Transaction). IsDoubleEntry (stored_postings x.id after_paid)) (sym e)
          (create_transaction-IsDoubleEntry hash_transaction alone paid_at_once empty after_paid
            refl paid_run)
    | Memᴰ.tail later ↦ elim later [ ]
  ];
}

two_rows : DistinctKeys (map balance_key after_paid.balances)
unfolding after_paid create_transaction with_idempotency write_transaction lookup_idempotent
    check_accounts_in_ledger check_ids account_ids insert_transaction insert_transaction_row
    insert_posting insert_postings find_transaction apply_created apply_balances
    upsert_pending_balance upsert_balance store_idempotent_response check_transaction_balance
    valid_direction upsert_posted_balance posted_event debits_in credits_in text_eq ◌+ℤ◌
two_rows = (refl, (refl, tt))

abbrev report : TrialBalance
unfolding after_paid create_transaction with_idempotency write_transaction lookup_idempotent
    check_accounts_in_ledger check_ids account_ids insert_transaction insert_transaction_row
    insert_posting insert_postings find_transaction apply_created apply_balances
    upsert_pending_balance upsert_balance store_idempotent_response check_transaction_balance
    valid_direction upsert_posted_balance posted_event debits_in credits_in text_eq ◌+ℤ◌
    trial_balance with_tenant_tx current_rows sort_by insert_sorted add_row add_rows
report = elim (trial_balance 9 1 1 none after_paid).0 [
  | ok r ↦ r
  | err e ↦ record { ledger_id = 0; as_of = 0; rows = []; totals = [] }
]

abbrev dollars : TrialBalanceTotal
dollars = record { asset = codes "USD"; debits = pos 500; credits = pos 500; balanced = true }

reported : trial_balance 9 1 1 none after_paid ≡ (ok report, after_paid)
unfolding after_paid create_transaction with_idempotency write_transaction lookup_idempotent
    check_accounts_in_ledger check_ids account_ids insert_transaction insert_transaction_row
    insert_posting insert_postings find_transaction apply_created apply_balances
    upsert_pending_balance upsert_balance store_idempotent_response check_transaction_balance
    valid_direction upsert_posted_balance posted_event debits_in credits_in text_eq ◌+ℤ◌
    trial_balance with_tenant_tx current_rows sort_by insert_sorted add_row add_rows report
reported = refl

dollars_reported : find_total (codes "USD") report.totals ≡ some dollars
unfolding after_paid create_transaction with_idempotency write_transaction lookup_idempotent
    check_accounts_in_ledger check_ids account_ids insert_transaction insert_transaction_row
    insert_posting insert_postings find_transaction apply_created apply_balances
    upsert_pending_balance upsert_balance store_idempotent_response check_transaction_balance
    valid_direction upsert_posted_balance posted_event debits_in credits_in text_eq ◌+ℤ◌
    trial_balance with_tenant_tx current_rows sort_by insert_sorted add_row add_rows report wrap64
    text_lt
dollars_reported = refl

trial_balance-IsBalanced_example : (dollars.debits ≡ dollars.credits) × (dollars.balanced ≡ true)
trial_balance-IsBalanced_example =
    trial_balance-IsBalanced 9 1 1 none after_paid after_paid report (codes "USD") dollars
      after_paid-IsBooked after_paid-IsConsistent two_rows reported dollars_reported
