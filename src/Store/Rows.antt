-- ===== src/Store/Rows.antt =====
-- services/ledger-core/internal/adapters/postgres/store.go: the queries and the insertions that the
-- methods share, with the constraints and the triggers of the migrations.
use ledgercore.Base.{
  ℕ, ◌==◌, Bool, true, false, not, ◌&&◌, ◌||◌, List, [], ◌∷◌, ◌++◌, map, Option, none, some, Text,
  text_eq, to_micros, map_micros, pos, leb_ℤ, eqb_ℤ, ltb, length, any, all, find?, select, Result,
  ok, err, if◌then◌else◌, sort_by,
}
use ledgercore.Domain.{
  Ledger, Account, Posting, Transaction, TransactionStatus, draft, posted, reversed, other_status,
  valid_direction,
}
use ledgercore.Domain.Balanced.{debits_in, credits_in}
use ledgercore.Domain.Reversal.{is_set}
use ledgercore.Store.{
  StoreError, not_found, validation, unique_violation, foreign_key_violation, check_violation,
  bad_value, refused_update, PostingRow, KeyRow, Db, Tx, Event, ◌>>=◌, ◌>>◌, pure, raise_if, gets,
  or_raise,
}

-- SELECT by primary key.
abbrev pub find_ledger : ℕ → Db → Option Ledger
find_ledger id db = find? (λ l. l.id == id) db.ledgers

abbrev pub find_account : ℕ → Db → Option Account
find_account id db = find? (λ a. a.id == id) db.accounts

unfoldable pub find_transaction : ℕ → Db → Option Transaction
find_transaction id db = find? (λ t. t.id == id) db.transactions

-- A posting as its row holds it.
abbrev pub posting_of : PostingRow → Posting
posting_of r = record {
  id = r.id;
  account_id = r.account_id;
  direction = r.direction;
  amount = record { asset = r.asset; units = r.amount };
}

-- ORDER BY created_at, id.
abbrev pub row_before : PostingRow → PostingRow → Bool
row_before r s = ltb r.created_at s.created_at || (r.created_at == s.created_at && ltb r.id s.id)

abbrev pub rows_of : ℕ → Db → List PostingRow
rows_of id db = select (λ r. r.transaction_id == id) db.postings

-- loadPostings, for one transaction.
unfoldable pub load_postings : ℕ → Db → List Posting
load_postings id db = map posting_of (sort_by row_before (rows_of id db))

-- loadTransactionTx: a lock on the row makes no difference inside one transaction.
unfoldable pub load_transaction : ℕ → Tx Transaction
load_transaction id = do
  t ← or_raise (← gets (find_transaction id)) not_found
  postings ← gets (load_postings id)
  pure (record t { postings = postings })

abbrev pub known_status : TransactionStatus → Bool
known_status (other_status s) = false
known_status s = true

abbrev references_known : Option ℕ → Db → Bool
references_known none db = true
references_known (some id) db = is_set (find_transaction id db)

-- The row of a transaction: the postings have rows of their own, and a flag is not stored.
abbrev pub row_of : Transaction → Transaction
row_of t = record t {
  postings = [];
  effective_at_provided = false;
  effective_at = to_micros t.effective_at;
  posted_at = map_micros t.posted_at;
  created_at = to_micros t.created_at;
}

-- INSERT INTO transactions.
unfoldable pub insert_transaction_row : Transaction → Tx (Unit {0})
insert_transaction_row t db =
    if not (known_status t.status)
    then err check_violation
    else if any (λ r. r.id == t.id || text_eq r.idempotency_key t.idempotency_key) db.transactions
    then err unique_violation
    else if not (is_set (find_ledger t.ledger_id db))
        || not (references_known t.reversed_by_id db)
        || not (references_known t.reverses_id db)
    then err foreign_key_violation
    else ok (tt, record db { transactions = db.transactions ++ row_of t ∷ [] })

abbrev pub posting_row : Transaction → Posting → PostingRow
posting_row t p = record {
  id = p.id;
  transaction_id = t.id;
  account_id = p.account_id;
  direction = p.direction;
  asset = p.amount.asset;
  amount = p.amount.units;
  created_at = to_micros t.created_at;
}

-- INSERT INTO postings.
unfoldable pub insert_posting : Transaction → Posting → Tx (Unit {0})
insert_posting t p db =
    if ltb 12 (length p.amount.asset)
    then err bad_value
    else if not (valid_direction p.direction) || leb_ℤ p.amount.units (pos 0)
    then err check_violation
    else if any (λ r. r.id == p.id) db.postings
    then err unique_violation
    else if not (is_set (find_transaction t.id db)) || not (is_set (find_account p.account_id db))
    then err foreign_key_violation
    else ok (tt, record db { postings = db.postings ++ posting_row t p ∷ [] })

unfoldable pub insert_postings : Transaction → List Posting → Tx (Unit {0})
insert_postings t [] = pure tt
insert_postings t (p ∷ ps) = do insert_posting t p; insert_postings t ps

unfoldable pub insert_transaction : Transaction → Tx (Unit {0})
insert_transaction t = do insert_transaction_row t; insert_postings t t.postings

-- Two nullable columns that are not distinct.
abbrev same_column : Option ℕ → Option ℕ → Bool
same_column none none = true
same_column none (some b) = false
same_column (some a) none = false
same_column (some a) (some b) = a == b

abbrev pub guard_allows : TransactionStatus → TransactionStatus → Transaction → Transaction → Bool
guard_allows draft posted old new =
    not (is_set old.posted_at)
    && is_set new.posted_at
    && same_column new.reversed_by_id old.reversed_by_id
guard_allows posted reversed old new =
    not (is_set old.reversed_by_id)
    && is_set new.reversed_by_id
    && same_column new.posted_at old.posted_at
guard_allows s t old new = false

-- transactions_guard of migration 0001, on the columns that an update of the store can change.
unfoldable pub transactions_guard : Transaction → Transaction → Bool
transactions_guard old new = guard_allows old.status new.status old new

-- UPDATE transactions SET ... WHERE id = ..., row by row.
unfoldable pub update_rows :
    ℕ → (Transaction → Transaction) → List Transaction → Result StoreError (List Transaction)
update_rows id f [] = ok []
update_rows id f (t ∷ ts) =
    let rest : Result StoreError (List Transaction) = elim (update_rows id f ts) [
      | ok us ↦ ok ((if t.id == id then f t else t) ∷ us)
      | err e ↦ err e
    ] in
    if t.id == id && not (transactions_guard t (f t)) then err refused_update else rest

unfoldable pub update_transaction : ℕ → (Transaction → Transaction) → Tx (Unit {0})
update_transaction id f db = elim (update_rows id f db.transactions) [
  | ok ts ↦ ok (tt, record db { transactions = ts })
  | err e ↦ err e
]

-- check_transaction_balance of migration 0003, which runs at COMMIT for each transaction that was
-- touched: two postings at least, and under each asset code of its postings equal sums.
abbrev pub is_effective : TransactionStatus → Bool
is_effective posted = true
is_effective reversed = true
is_effective s = false

abbrev pub balanced_under : List Posting → Text → Bool
balanced_under ps a = eqb_ℤ (debits_in a ps) (credits_in a ps)

unfoldable pub check_transaction_balance : ℕ → Tx (Unit {0})
check_transaction_balance id db =
    let ps = map posting_of (rows_of id db) in
    elim (find_transaction id db) [
      | none ↦ ok (tt, db)
      | some t ↦
          if not (is_effective t.status)
          then ok (tt, db)
          else if ltb (length ps) 2
          then err check_violation
          else if not (all (λ p. balanced_under ps p.amount.asset) ps)
          then err check_violation
          else ok (tt, db)
    ]

-- INSERT INTO outbox.
abbrev pub insert_outbox : Event → Tx (Unit {0})
insert_outbox event db = ok (tt, record db { outbox = db.outbox ++ event ∷ [] })

-- lookupIdempotentTx.
unfoldable pub lookup_idempotent : Text → Db → Option KeyRow
lookup_idempotent key db = find? (λ k. text_eq k.key key) db.keys

-- storeIdempotentResponse; the flag is no part of the JSON of a transaction.
unfoldable pub store_idempotent_response : Text → ℕ → Transaction → Text → Tx (Unit {0})
store_idempotent_response key status_code t hash db =
    if any (λ k. text_eq k.key key) db.keys
    then err unique_violation
    else ok (
      tt,
      record db {
        keys =
            db.keys
            ++ record {
              key = key;
              status_code = status_code;
              response = record t { effective_at_provided = false };
              request_hash = some hash;
            }
              ∷ [];
      },
    )

-- The accounts of the postings, each once, in order of appearance.
unfoldable pub account_ids : List ℕ → List Posting → List ℕ
account_ids seen [] = []
account_ids seen (p ∷ ps) =
    let rest = account_ids seen ps in
    let more = account_ids (p.account_id ∷ seen) ps in
    if any (λ i. i == p.account_id) seen then rest else p.account_id ∷ more

unfoldable pub check_ids : ℕ → List ℕ → Tx (Unit {0})
check_ids ledger_id [] = pure tt
check_ids ledger_id (id ∷ ids) = do
  a ← or_raise (← gets (find_account id)) not_found
  raise_if (not (a.ledger_id == ledger_id)) validation
  check_ids ledger_id ids

-- checkAccountsInLedger.
unfoldable pub check_accounts_in_ledger : ℕ → List Posting → Tx (Unit {0})
check_accounts_in_ledger ledger_id postings = check_ids ledger_id (account_ids [] postings)
