-- ===== src/Store/Examples.antt =====
-- One ledger with two accounts, and instances of the theorems of the store.
use ledgercore.Base.{
  to_micros, ℕ, ◌+◌, ◌≡◌, refl, codes, pos, ok, err, none, some, Option, [], ◌∷◌, Text, arith, true,
  false, ◌+ℤ◌, ◌-ℤ◌, wrap64, sort_by, insert_sorted, text_eq, Bool-cases, inl, inr, ◌==◌, ◌&&◌,
  IsInt64, ◌≤ℤ◌,
}
use ledgercore.Domain.{
  Ledger, Account, Transaction, Hold, asset, liability, normal_debit, normal_credit, debit, credit,
  draft, posted, active, captured, released, valid_direction,
}
use ledgercore.Domain.Balanced.{debits_in, credits_in}
use ledgercore.Domain.Reversal.{reverse, mirror}
use ledgercore.Domain.Nets.{available, posted_net}
use ledgercore.Store.{invalid_state, Db, with_tenant_tx}
use ledgercore.Store.Rows.{
  find_transaction, load_postings, load_transaction, insert_transaction_row, insert_posting,
  insert_postings, insert_transaction, transactions_guard, update_rows, update_transaction,
  check_transaction_balance, lookup_idempotent, store_idempotent_response, account_ids, check_ids,
  check_accounts_in_ledger,
}
use ledgercore.Store.Balances.{
  balance_of, update_balance, upsert_balance, add_posted, upsert_posted_balance,
  upsert_pending_balance, promote, move_pending_to_posted, add_held, upsert_held, sub_held,
  release_held, apply_balances,
}
use ledgercore.Store.Balances.Columns.{debits_at, credits_at}
use ledgercore.Store.Transactions.{
  CanonicalTransaction, CanonicalReversal, posted_event, apply_created, write_transaction,
  with_idempotency, create_transaction, post_draft, post_loaded, post_body, post_transaction,
  write_built, write_reversal, reverse_transaction,
}
use ledgercore.Store.Holds.{
  CanonicalHold, lookup_hold, find_hold, get_hold_tx, insert_hold, reserve, write_hold, create_hold,
  update_holds, update_hold, captured_amount, finish_hold, capture_body, capture_hold, release_body,
  release_hold,
}
use ledgercore.Store.Invariant.{IsConsistent}
use ledgercore.Store.Consistency.{create_transaction-IsConsistent}
use ledgercore.Store.Consistency.Promotion.{post_transaction-IsConsistent}
use ledgercore.Store.Consistency.Updates.{reverse_transaction-IsConsistent}
use ledgercore.Store.Accounts.{
  create_ledger, insert_ledger, get_ledger, create_account, create_account_tx, insert_account,
  get_account, get_account-create_account,
}
use ledgercore.Domain.{valid_account_type, valid_normal_balance}
use ledgercore.Domain.Reversal.{is_set}
use ledgercore.Store.Rows.{find_ledger}
use ledgercore.Store.DoubleEntry.{IsDoubleEntry, stored_postings, create_transaction-IsDoubleEntry}
use ledgercore.Store.Replay.{answer, create_transaction-again}
use ledgercore.Store.Race.{create_transaction-race}
use ledgercore.Store.Reserved.{HoldsAgree}
use ledgercore.Store.Reservations.{its_balance, net_on, create_hold-HoldsAgree, create_hold-covered}
use ledgercore.Store.HoldEnds.{
  capture_hold-HoldsAgree, release_hold-HoldsAgree, capture_hold-once, release_hold-once,
}
mod Verifier
mod Holds
mod Reversed
mod Books

abbrev pub books : Ledger
books = record {
  id = 1;
  tenant_id = 1;
  name = codes "b";
  description = [];
  environment = codes "test";
  metadata = [];
  created_at = 1;
}

abbrev pub cash : Account
cash = record {
  id = 10;
  tenant_id = 1;
  ledger_id = 1;
  name = codes "c";
  path = codes "c";
  type = asset;
  normal_balance = normal_debit;
  status = codes "active";
  metadata = [];
  created_at = 1;
}

abbrev deposits : Account
deposits = record {
  id = 20;
  tenant_id = 1;
  ledger_id = 1;
  name = codes "d";
  path = codes "d";
  type = liability;
  normal_balance = normal_credit;
  status = codes "active";
  metadata = [];
  created_at = 1;
}

abbrev pub empty : Db
empty = record {
  ledgers = books ∷ [];
  accounts = cash ∷ deposits ∷ [];
  transactions = [];
  postings = [];
  balances = [];
  holds = [];
  keys = [];
  outbox = [];
}

abbrev payment : Transaction
payment = record {
  id = 100;
  tenant_id = 1;
  ledger_id = 1;
  reference = codes "r";
  description = [];
  idempotency_key = codes "k";
  status = draft;
  effective_at = 7_000;
  effective_at_provided = true;
  posted_at = none;
  reversed_by_id = none;
  reverses_id = none;
  metadata = [];
  postings =
      record {
        id = 1;
        account_id = 10;
        direction = debit;
        amount = record { asset = codes "USD"; units = pos 500 };
      }
      ∷ record {
        id = 2;
        account_id = 20;
        direction = credit;
        amount = record { asset = codes "USD"; units = pos 500 };
      }
      ∷ [];
  created_at = 7_000;
}

abbrev pub alone : Db → Db
alone db = db

abbrev pub hash_transaction : CanonicalTransaction → Text
hash_transaction c = codes "t"

abbrev pub hash_reversal : CanonicalReversal → Text
hash_reversal c = codes "r"

abbrev pub hash_hold : CanonicalHold → Text
hash_hold c = codes "h"

pub empty-IsConsistent : IsConsistent empty
unfolding balance_of debits_at credits_at debits_in credits_in
empty-IsConsistent = record {
  owned = tt;
  directed = tt;
  rowed = tt;
  posted = λ account c. refl;
  pending = λ account c. refl;
}

empty-HoldsAgree : HoldsAgree empty
unfolding balance_of
empty-HoldsAgree = record { distinct = tt; held = λ account c. refl }

-- The tables after the draft is created.
abbrev pub after_create : Db
unfolding create_transaction with_idempotency write_transaction lookup_idempotent
    check_accounts_in_ledger check_ids account_ids insert_transaction insert_transaction_row
    insert_posting insert_postings find_transaction apply_created apply_balances
    upsert_pending_balance upsert_balance store_idempotent_response check_transaction_balance
    valid_direction
after_create = (create_transaction hash_transaction alone payment empty).1

created :
    create_transaction hash_transaction alone payment empty ≡ (ok (payment, false), after_create)
unfolding after_create create_transaction with_idempotency write_transaction lookup_idempotent
    check_accounts_in_ledger check_ids account_ids insert_transaction insert_transaction_row
    insert_posting insert_postings find_transaction apply_created apply_balances
    upsert_pending_balance upsert_balance store_idempotent_response check_transaction_balance
    valid_direction
created = refl

pub after_create-IsConsistent : IsConsistent after_create
after_create-IsConsistent =
    create_transaction-IsConsistent hash_transaction alone payment empty after_create refl
      empty-IsConsistent empty-IsConsistent created

create_transaction-IsConsistent_example : IsConsistent after_create
create_transaction-IsConsistent_example =
    create_transaction-IsConsistent hash_transaction alone payment empty after_create refl
      empty-IsConsistent empty-IsConsistent created

-- The tables after the draft is posted.
abbrev pub after_post : Db
unfolding after_create create_transaction with_idempotency write_transaction lookup_idempotent
    check_accounts_in_ledger check_ids account_ids insert_transaction insert_transaction_row
    insert_posting insert_postings find_transaction apply_created apply_balances
    upsert_pending_balance upsert_balance store_idempotent_response check_transaction_balance
    valid_direction post_transaction with_tenant_tx post_body post_loaded post_draft
    load_transaction load_postings sort_by insert_sorted update_transaction update_rows
    transactions_guard to_micros move_pending_to_posted update_balance promote posted_event text_eq
    ◌+ℤ◌ ◌-ℤ◌ debits_in credits_in
after_post = (post_transaction 1 100 9_000 after_create).1

abbrev paid : Transaction
paid = record payment { status = posted; posted_at = some 9_000; effective_at_provided = false }

posted_run : post_transaction 1 100 9_000 after_create ≡ (ok paid, after_post)
unfolding after_create after_post create_transaction with_idempotency write_transaction
    lookup_idempotent check_accounts_in_ledger check_ids account_ids insert_transaction
    insert_transaction_row insert_posting insert_postings find_transaction apply_created
    apply_balances upsert_pending_balance upsert_balance store_idempotent_response
    check_transaction_balance valid_direction post_transaction with_tenant_tx post_body post_loaded
    post_draft load_transaction load_postings sort_by insert_sorted update_transaction update_rows
    transactions_guard to_micros move_pending_to_posted update_balance promote posted_event text_eq
    ◌+ℤ◌ ◌-ℤ◌ debits_in credits_in
posted_run = refl

post_transaction-IsConsistent_example : IsConsistent after_post
post_transaction-IsConsistent_example =
    post_transaction-IsConsistent 1 100 9_000 after_create after_post after_create-IsConsistent
      posted_run

pub after_post-IsConsistent : IsConsistent after_post
after_post-IsConsistent =
    post_transaction-IsConsistent 1 100 9_000 after_create after_post after_create-IsConsistent
      posted_run

create_transaction-again_example :
    create_transaction hash_transaction alone (record payment { id = 101 }) after_create
    ≡ (answer payment (codes "t") (codes "t"), after_create)
create_transaction-again_example =
    create_transaction-again hash_transaction alone alone payment (record payment { id = 101 })
      empty after_create (ground arith) created refl refl

empty-lookup : lookup_idempotent (codes "k") empty ≡ none
unfolding lookup_idempotent
empty-lookup = refl

create_transaction-race_example :
    create_transaction hash_transaction (λ _. after_create) (record payment { id = 101 }) empty
    ≡ (answer payment (codes "t") (codes "t"), after_create)
create_transaction-race_example =
    create_transaction-race hash_transaction alone (λ _. after_create) payment
      (record payment { id = 101 }) empty empty after_create (ground arith) created empty-lookup
      refl refl refl refl refl refl

-- A payment that is posted at once.
abbrev pub paid_at_once : Transaction
paid_at_once = record payment { status = posted; posted_at = some 7_000 }

abbrev pub after_paid : Db
unfolding create_transaction with_idempotency write_transaction lookup_idempotent
    check_accounts_in_ledger check_ids account_ids insert_transaction insert_transaction_row
    insert_posting insert_postings find_transaction apply_created apply_balances
    upsert_pending_balance upsert_balance store_idempotent_response check_transaction_balance
    valid_direction upsert_posted_balance posted_event debits_in credits_in text_eq ◌+ℤ◌
after_paid = (create_transaction hash_transaction alone paid_at_once empty).1

pub paid_run :
    create_transaction hash_transaction alone paid_at_once empty
    ≡ (ok (paid_at_once, false), after_paid)
unfolding after_paid create_transaction with_idempotency write_transaction lookup_idempotent
    check_accounts_in_ledger check_ids account_ids insert_transaction insert_transaction_row
    insert_posting insert_postings find_transaction apply_created apply_balances
    upsert_pending_balance upsert_balance store_idempotent_response check_transaction_balance
    valid_direction upsert_posted_balance posted_event debits_in credits_in text_eq ◌+ℤ◌
paid_run = refl

create_transaction-IsDoubleEntry_example : IsDoubleEntry (stored_postings 100 after_paid)
create_transaction-IsDoubleEntry_example =
    create_transaction-IsDoubleEntry hash_transaction alone paid_at_once empty after_paid refl
      paid_run

abbrev savings : Account
savings = record cash { id = 30; name = codes "s"; path = codes "s"; created_at = 1_500 }

abbrev with_savings : Db
with_savings = record empty {
  accounts = cash ∷ deposits ∷ record savings { created_at = 1_000 } ∷ [];
}

savings_run : create_account savings empty ≡ (ok tt, with_savings)
unfolding create_account create_account_tx insert_account with_tenant_tx valid_account_type
    valid_normal_balance text_eq to_micros
savings_run = refl

get_account-create_account_example :
    (get_account 1 30 with_savings
      ≡ (ok (record savings { created_at = to_micros savings.created_at }), with_savings))
    × (is_set (find_ledger 1 empty) ≡ true)
get_account-create_account_example =
    get_account-create_account savings empty with_savings savings_run
