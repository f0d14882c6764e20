-- ===== src/Store/Accounts.antt =====
-- services/ledger-core/internal/adapters/postgres/store.go: ledgers and accounts as they are created
-- and read, the balances of an account, and GetTransaction.
use ledgercore.Base.{
  to_micros, ℕ, ◌==◌, ◌≡◌, refl, ◌∙◌, ap, Bool, true, false, not, ◌&&◌, ◌||◌, List, [], ◌∷◌, ◌++◌,
  map, none, some, Text, text_eq, text_lt, codes, any, select, find?, find?-append_none, sort_by,
  ok, err, err-ne-ok, if◌then◌else◌, Bool-cases, Option-cases, inl, inr, arith,
}
use ledgercore.Domain.{
  Ledger, Account, Transaction, Balance, valid_account_type, valid_normal_balance,
}
use ledgercore.Domain.Reversal.{is_set}
use ledgercore.Store.{
  not_found, unique_violation, foreign_key_violation, check_violation, Db, Tx, Method,
  with_tenant_tx, map_result, ◌>>=◌, pure, gets, or_raise,
}
use ledgercore.Store.Rows.{find_ledger, find_account, load_transaction}
use ledgercore.Store.Settlement.{method-ok}

abbrev valid_environment : Text → Bool
valid_environment e = text_eq e (codes "sandbox") || text_eq e (codes "live")

-- A row as the table keeps it.
abbrev pub ledger_row : Ledger → Ledger
ledger_row l = record l { created_at = to_micros l.created_at }

-- INSERT INTO ledgers.
unfoldable pub insert_ledger : Ledger → Tx (Unit {0})
insert_ledger l db =
    if not (valid_environment l.environment)
    then err check_violation
    else if any (λ r. r.id == l.id || text_eq r.name l.name) db.ledgers
    then err unique_violation
    else ok (tt, record db { ledgers = db.ledgers ++ ledger_row l ∷ [] })

-- CreateLedger.
unfoldable pub create_ledger : Ledger → Method (Unit {0})
create_ledger l db = map_result (with_tenant_tx l.tenant_id (insert_ledger l) db)

unfoldable pub get_ledger_tx : ℕ → Tx Ledger
get_ledger_tx id = do or_raise (← gets (find_ledger id)) not_found

-- GetLedger.
unfoldable pub get_ledger : ℕ → ℕ → Method Ledger
get_ledger tenant id = with_tenant_tx tenant (get_ledger_tx id)

abbrev valid_account_status : Text → Bool
valid_account_status s =
    text_eq s (codes "active") || (text_eq s (codes "frozen") || text_eq s (codes "closed"))

abbrev pub account_row : Account → Account
account_row a = record a { created_at = to_micros a.created_at }

-- INSERT INTO accounts.
unfoldable pub insert_account : Account → Tx (Unit {0})
insert_account a db =
    if not (valid_account_type a.type)
      || not (valid_normal_balance a.normal_balance)
      || not (valid_account_status a.status)
    then err check_violation
    else if any (λ r. r.id == a.id || (r.ledger_id == a.ledger_id && text_eq r.path a.path))
        db.accounts
    then err unique_violation
    else if not (is_set (find_ledger a.ledger_id db))
    then err foreign_key_violation
    else ok (tt, record db { accounts = db.accounts ++ account_row a ∷ [] })

unfoldable pub create_account_tx : Account → Tx (Unit {0})
create_account_tx a = do l ← or_raise (← gets (find_ledger a.ledger_id)) not_found; insert_account a

-- CreateAccount.
unfoldable pub create_account : Account → Method (Unit {0})
create_account a db = map_result (with_tenant_tx a.tenant_id (create_account_tx a) db)

-- getAccountTx.
unfoldable pub get_account_tx : ℕ → Tx Account
get_account_tx id = do or_raise (← gets (find_account id)) not_found

-- GetAccount.
unfoldable pub get_account : ℕ → ℕ → Method Account
get_account tenant id = with_tenant_tx tenant (get_account_tx id)

-- The rows of an account, by asset code.
abbrev balances_of_account : ℕ → Db → List Balance
balances_of_account id db =
    sort_by (λ b c. text_lt b.asset c.asset)
      (map (λ r. r.balance) (select (λ r. r.account_id == id) db.balances))

unfoldable pub get_balances_tx : ℕ → Tx (Account × List Balance)
get_balances_tx id = do a ← get_account_tx id; rows ← gets (balances_of_account id); pure (a, rows)

-- GetBalances.
unfoldable pub get_balances : ℕ → ℕ → Method (Account × List Balance)
get_balances tenant id = with_tenant_tx tenant (get_balances_tx id)

-- GetTransaction.
unfoldable pub get_transaction : ℕ → ℕ → Method Transaction
get_transaction tenant id = with_tenant_tx tenant (load_transaction id)

no_account :
    (a : Account) (accounts : List Account)
    → any (λ r. r.id == a.id || (r.ledger_id == a.ledger_id && text_eq r.path a.path)) accounts
      ≡ false
    → find? (λ (r : Account). r.id == a.id) accounts ≡ none
no_account a [] h = refl
no_account a (r ∷ rs) h = ground (arith, no_account a rs)

insert_account-ok :
    (a : Account) (db db' : Db)
    → insert_account a db ≡ ok (tt, db')
    → find_account a.id db' ≡ some (account_row a)
unfolding insert_account
insert_account-ok a db db' e =
    elim (Bool-cases (
      any (λ r. r.id == a.id || (r.ledger_id == a.ledger_id && text_eq r.path a.path))
        db.accounts)) [
          | inl taken ↦ ground arith
          | inr free ↦
              let added : db' ≡ record db { accounts = db.accounts ++ account_row a ∷ [] } =
                ground arith in
              let own : find? (λ (r : Account). r.id == a.id) (account_row a ∷ [])
                  ≡ some (account_row a) =
                ground arith in
              ap (find_account a.id) added
              ∙ (find?-append_none (λ (r : Account). r.id == a.id) db.accounts (account_row a ∷ [])
                    (no_account a db.accounts free)
                  ∙ own)
        ]

-- After CreateAccount has succeeded, GetAccount finds the account with all its fields, the instant of
-- its creation cut to the microsecond as the column keeps it, and the account's ledger exists.
pub get_account-create_account :
    (a : Account) (db db' : Db)
    → create_account a db ≡ (ok tt, db')
    → (get_account a.tenant_id a.id db'
        ≡ (ok (record a { created_at = to_micros a.created_at }), db'))
      × (is_set (find_ledger a.ledger_id db) ≡ true)
unfolding create_account create_account_tx get_account get_account_tx with_tenant_tx
get_account-create_account a db db' e =
    let (tenanted, done) = method-ok a.tenant_id (create_account_tx a) db db' e in
    elim (Option-cases (find_ledger a.ledger_id db)) [
      | inl missing ↦ absurd (err-ne-ok (rw (missing, create_account_tx) at done))
      | inr (l, owner) ↦
          let found = insert_account-ok a db db' (rw (owner, create_account_tx) at done) in
          (rw tenanted (rw found refl), ap is_set owner)
    ]
