-- ===== src/Store/Steps.antt =====
-- What each query and each insertion that has succeeded leaves in the tables.
use ledgercore.Base.{
  ℕ, ◌==◌, ◌≡◌, refl, ◌∙◌, sym, ap, true, false, ◌||◌, List, [], ◌∷◌, ◌++◌, map, none, some, Text,
  text_eq, find?, any, All, Bool-cases, Option-cases, inl, inr, arith, ok, ok-injective, err-ne-ok,
}
use ledgercore.Domain.{Posting, Transaction, valid_direction}
use ledgercore.Store.{PostingRow, KeyRow, Db, tx-ok}
use ledgercore.Store.Rows.{
  posting_row, row_of, known_status, find_account, find_transaction, load_postings,
  load_transaction, insert_transaction_row, insert_posting, insert_postings, insert_transaction,
  update_rows, update_transaction, check_transaction_balance, store_idempotent_response,
  lookup_idempotent, check_ids, check_accounts_in_ledger,
}
use ledgercore.Store.Statuses.{find_in}

find_absent :
    (t : Transaction) (ts : List Transaction)
    → any (λ r. r.id == t.id || text_eq r.idempotency_key t.idempotency_key) ts ≡ false
    → find_in t.id ts ≡ none
find_absent t [] h = refl
find_absent t (u ∷ us) h = ground (arith, find_absent t us)

pub insert_transaction_row-ok :
    (t : Transaction) (db db' : Db)
    → insert_transaction_row t db ≡ ok (tt, db')
    → (db' ≡ record db { transactions = db.transactions ++ row_of t ∷ [] })
      × (find_in t.id db.transactions ≡ none)
unfolding insert_transaction_row
insert_transaction_row-ok t db db' e =
    elim (Bool-cases
      (any (λ r. r.id == t.id || text_eq r.idempotency_key t.idempotency_key) db.transactions)) [
        | inl taken ↦ elim (Bool-cases (known_status t.status)) [
          | inl known ↦ absurd (err-ne-ok (rw (known, taken, insert_transaction_row) at e))
          | inr unknown ↦ absurd (err-ne-ok (rw (unknown, insert_transaction_row) at e))
        ]
        | inr free ↦ (ground arith, find_absent t db.transactions free)
      ]

pub insert_posting-ok :
    (t : Transaction) (p : Posting) (db db' : Db)
    → insert_posting t p db ≡ ok (tt, db')
    → (db' ≡ record db { postings = db.postings ++ posting_row t p ∷ [] })
      × (valid_direction p.direction ≡ true)
unfolding insert_posting
insert_posting-ok t p db db' e = (ground arith, ground arith)

append_assoc {ℓ} : {A : Type ℓ} (xs ys zs : List A) → (xs ++ ys) ++ zs ≡ xs ++ (ys ++ zs)
append_assoc [] ys zs = refl
append_assoc (x ∷ xs) ys zs = ap (λ l. x ∷ l) (append_assoc xs ys zs)

append_nil {ℓ} : {A : Type ℓ} (xs : List A) → xs ++ [] ≡ xs
append_nil [] = refl
append_nil (x ∷ xs) = ap (λ l. x ∷ l) (append_nil xs)

pub insert_postings-ok :
    (t : Transaction) (ps : List Posting) (db db' : Db)
    → insert_postings t ps db ≡ ok (tt, db')
    → (db' ≡ record db { postings = db.postings ++ map (posting_row t) ps })
      × All (λ p. valid_direction p.direction ≡ true) ps
unfolding insert_postings
insert_postings-ok t [] db db' e = (
  sym (ap (λ (r : (Unit {0}) × Db). r.1) (ok-injective e))
      ∙ ap {A = List PostingRow} {B = Db} (λ rows. record db { postings = rows })
          (sym (append_nil db.postings)),
  tt,
)
insert_postings-ok t (p ∷ ps) db db' e =
    let (db1, one, more) = tx-ok {B = Unit {0}} (insert_posting t p) (insert_postings t ps) db e in
    let (first, valid) = insert_posting-ok t p db db1 one in
    let (rest, valids) = insert_postings-ok t ps db1 db' more in
    (
      rest
          ∙ ap {A = Db} {B = Db} (λ d. record d { postings = d.postings ++ map (posting_row t) ps })
              first
          ∙ ap {A = List PostingRow} {B = Db} (λ rows. record db { postings = rows })
              (append_assoc db.postings (posting_row t p ∷ []) (map (posting_row t) ps)),
      (valid, valids),
    )

pub insert_transaction-ok :
    (t : Transaction) (db db' : Db)
    → insert_transaction t db ≡ ok (tt, db')
    → (db' ≡ record db {
      transactions = db.transactions ++ row_of t ∷ [];
      postings = db.postings ++ map (posting_row t) t.postings;
    })
      × (find_in t.id db.transactions ≡ none)
      × All (λ p. valid_direction p.direction ≡ true) t.postings
unfolding insert_transaction
insert_transaction-ok t db db' e =
    let (db1, row, rows) =
      tx-ok {B = Unit {0}} (insert_transaction_row t) (insert_postings t t.postings) db e in
    let (first, fresh) = insert_transaction_row-ok t db db1 row in
    let (rest, valids) = insert_postings-ok t t.postings db1 db' rows in
    (
      rest
          ∙ ap {A = Db} {B = Db}
              (λ d. record d { postings = d.postings ++ map (posting_row t) t.postings }) first,
      fresh,
      valids,
    )

pub check_transaction_balance-ok :
    (id : ℕ) (db db' : Db) → check_transaction_balance id db ≡ ok (tt, db') → db' ≡ db
unfolding check_transaction_balance
check_transaction_balance-ok id db db' e = ground arith

pub check_ids-ok :
    (ledger_id : ℕ) (ids : List ℕ) (db db' : Db)
    → check_ids ledger_id ids db ≡ ok (tt, db')
    → db' ≡ db
unfolding check_ids
check_ids-ok ledger_id [] db db' e = sym (ap (λ (r : (Unit {0}) × Db). r.1) (ok-injective e))
check_ids-ok ledger_id (id ∷ ids) db db' e = elim (Option-cases (find_account id db)) [
  | inl missing ↦ absurd (err-ne-ok (rw (missing, check_ids) at e))
  | inr (a, found) ↦ elim (Bool-cases (a.ledger_id == ledger_id)) [
    | inl own ↦ check_ids-ok ledger_id ids db db' (rw (found, own, check_ids) at e)
    | inr foreign ↦ absurd (err-ne-ok (rw (found, foreign, check_ids) at e))
  ]
]

pub check_accounts_in_ledger-ok :
    (ledger_id : ℕ) (ps : List Posting) (db db' : Db)
    → check_accounts_in_ledger ledger_id ps db ≡ ok (tt, db')
    → db' ≡ db
unfolding check_accounts_in_ledger
check_accounts_in_ledger-ok ledger_id ps db db' e = check_ids-ok ledger_id _ db db' e

no_key :
    (key : Text) (ks : List KeyRow)
    → any (λ k. text_eq k.key key) ks ≡ false
    → find? (λ (k : KeyRow). text_eq k.key key) ks ≡ none
no_key key [] h = refl
no_key key (k ∷ ks) h = ground (arith, no_key key ks)

pub store_idempotent_response-ok :
    (key : Text) (code : ℕ) (t : Transaction) (hash : Text) (db db' : Db)
    → store_idempotent_response key code t hash db ≡ ok (tt, db')
    → (db' ≡ record db {
      keys =
          db.keys
          ++ record {
            key = key;
            status_code = code;
            response = record t { effective_at_provided = false };
            request_hash = some hash;
          }
            ∷ [];
    })
      × (lookup_idempotent key db ≡ none)
unfolding store_idempotent_response lookup_idempotent
store_idempotent_response-ok key code t hash db db' e =
    elim (Bool-cases (any (λ k. text_eq k.key key) db.keys)) [
      | inl taken ↦ absurd (err-ne-ok (rw (taken, store_idempotent_response) at e))
      | inr free ↦ (ground arith, no_key key db.keys free)
    ]

pub load_transaction-ok :
    (id : ℕ) (t : Transaction) (db db' : Db)
    → load_transaction id db ≡ ok (t, db')
    → (db' ≡ db)
      × ((row : Transaction) × (find_in id db.transactions ≡ some row)
          × (t ≡ record row { postings = load_postings id db }))
unfolding load_transaction find_transaction
load_transaction-ok id t db db' e = elim (Option-cases (find_in id db.transactions)) [
  | inl missing ↦ ground arith
  | inr (row, found) ↦ (ground arith, (row, found, ground arith))
]

pub update_transaction-ok :
    (id : ℕ) (f : Transaction → Transaction) (db db' : Db)
    → update_transaction id f db ≡ ok (tt, db')
    → (db' ≡ record db { transactions = db'.transactions })
      × (update_rows id f db.transactions ≡ ok db'.transactions)
unfolding update_transaction
update_transaction-ok id f db db' e = (ground arith, ground arith)
