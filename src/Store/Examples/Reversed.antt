-- ===== src/Store/Examples/Reversed.antt =====
-- The reversal of the payment of Store.Examples.
use ledgercore.Base.{
  to_micros, ℕ, ◌+◌, ◌≡◌, refl, codes, pos, ok, none, some, Option, [], ◌∷◌, Text, false, ◌+ℤ◌,
  ◌-ℤ◌, sort_by, insert_sorted, text_eq,
}
use ledgercore.Domain.{Transaction, debit, credit, posted, valid_direction}
use ledgercore.Domain.Balanced.{debits_in, credits_in}
use ledgercore.Domain.Reversal.{reverse, mirror}
use ledgercore.Store.{Db, with_tenant_tx}
use ledgercore.Store.Rows.{
  find_transaction, load_postings, load_transaction, insert_transaction_row, insert_posting,
  insert_postings, insert_transaction, transactions_guard, update_rows, update_transaction,
  check_transaction_balance, lookup_idempotent, store_idempotent_response, account_ids, check_ids,
  check_accounts_in_ledger,
}
use ledgercore.Store.Balances.{
  update_balance, upsert_balance, add_posted, upsert_posted_balance, upsert_pending_balance,
  promote, move_pending_to_posted, apply_balances,
}
use ledgercore.Store.Transactions.{
  posted_event, apply_created, write_transaction, with_idempotency, create_transaction, post_draft,
  post_loaded, post_body, post_transaction, write_built, write_reversal, reverse_transaction,
}
use ledgercore.Store.Invariant.{IsConsistent}
use ledgercore.Store.Consistency.Updates.{reverse_transaction-IsConsistent}
use ledgercore.Store.Examples.{
  alone, hash_reversal, after_create, after_post, after_post-IsConsistent,
}

abbrev uuid_string : ℕ → Text
uuid_string n = codes "u"

abbrev fresh : ℕ → Option ℕ
fresh i = some (i + 200)

abbrev reversal : Transaction
reversal = record {
  id = 200;
  tenant_id = 1;
  ledger_id = 1;
  reference = codes "reversal-of:u";
  description = codes "Reversal of k";
  idempotency_key = codes "reversal-of:u";
  status = posted;
  effective_at = 11;
  effective_at_provided = false;
  posted_at = some 11;
  reversed_by_id = none;
  reverses_id = some 100;
  metadata = [];
  postings =
      record {
        id = 201;
        account_id = 10;
        direction = credit;
        amount = record { asset = codes "USD"; units = pos 500 };
      }
      ∷ record {
        id = 202;
        account_id = 20;
        direction = debit;
        amount = record { asset = codes "USD"; units = pos 500 };
      }
      ∷ [];
  created_at = 11;
}

abbrev after_reverse : Db
unfolding after_create after_post create_transaction with_idempotency write_transaction
    lookup_idempotent check_accounts_in_ledger check_ids account_ids insert_transaction
    insert_transaction_row insert_posting insert_postings find_transaction apply_created
    apply_balances upsert_pending_balance upsert_balance store_idempotent_response
    check_transaction_balance valid_direction post_transaction with_tenant_tx post_body post_loaded
    post_draft load_transaction load_postings sort_by insert_sorted update_transaction update_rows
    transactions_guard to_micros move_pending_to_posted update_balance promote posted_event text_eq
    ◌+ℤ◌ ◌-ℤ◌ debits_in credits_in reverse_transaction write_reversal write_built reverse mirror
    upsert_posted_balance add_posted
after_reverse =
    (reverse_transaction uuid_string hash_reversal alone fresh 1 100 [] [] 11 after_post).1

reversed_run :
    reverse_transaction uuid_string hash_reversal alone fresh 1 100 [] [] 11 after_post
    ≡ (ok (reversal, false), after_reverse)
unfolding after_create after_post after_reverse create_transaction with_idempotency
    write_transaction lookup_idempotent check_accounts_in_ledger check_ids account_ids
    insert_transaction insert_transaction_row insert_posting insert_postings find_transaction
    apply_created apply_balances upsert_pending_balance upsert_balance store_idempotent_response
    check_transaction_balance valid_direction post_transaction with_tenant_tx post_body post_loaded
    post_draft load_transaction load_postings sort_by insert_sorted update_transaction update_rows
    transactions_guard to_micros move_pending_to_posted update_balance promote posted_event text_eq
    ◌+ℤ◌ ◌-ℤ◌ debits_in credits_in reverse_transaction write_reversal write_built reverse mirror
    upsert_posted_balance add_posted
reversed_run = refl

reverse_transaction-IsConsistent_example : IsConsistent after_reverse
reverse_transaction-IsConsistent_example =
    reverse_transaction-IsConsistent uuid_string hash_reversal alone fresh 1 100 11 [] [] after_post
      after_reverse after_post-IsConsistent after_post-IsConsistent reversed_run
