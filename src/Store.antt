-- ===== src/Store.antt =====
-- services/ledger-core/internal/adapters/postgres: the tables as one tenant sees them, and database
-- transactions on them. Every method of the store runs in a transaction whose row-level security
-- shows the rows of one tenant only, so the state is that tenant's rows, and the uniqueness of a
-- key is uniqueness among them.
pub mod Rows
pub mod Balances
pub mod Transactions
pub mod Sums
pub mod Statuses
pub mod Steps
pub mod Invariant
pub mod Consistency
pub mod Replay
pub mod Race
pub mod Holds
pub mod Reserved
pub mod Reserving
pub mod Reservations
pub mod Ending
pub mod Settlement
pub mod HoldEnds
pub mod DoubleEntry
pub mod Accounts
pub mod Reports
pub mod Verifier
pub mod ReportKeys
pub mod VerifierSound
pub mod TrialBalance
mod Examples
use ledgercore.Base.{
  ℕ, ◌==◌, ◌≡◌, Bool, true, false, List, [], ◌∷◌, Option, none, some, Text, ℤ, Result, ok, err,
  refl, ap, err-ne-ok, if◌then◌else◌,
}
use ledgercore.Domain.{Ledger, Account, Transaction, Hold, Balance, Direction, Posting, Metadata}

-- The sentinels of app/errors.go, the error classes of PostgreSQL that mapErr tells apart, and other
-- failures: a number or a text that does not fit its column, an update that a trigger refuses, a
-- balance row that is missing, a uuid that could not be generated, and the nil tenant.
pub data StoreError : Type 0 where
  not_found conflict invalid_state insufficient_funds validation idempotency_conflict : StoreError
  unique_violation foreign_key_violation check_violation : StoreError
  bad_value refused_update balance_row_missing generate_id nil_tenant : StoreError

pub record PostingRow : Type 0 where
  pub id : ℕ
  pub transaction_id : ℕ
  pub account_id : ℕ
  pub direction : Direction
  pub asset : Text
  pub amount : ℤ
  pub created_at : ℕ

pub record BalanceRow : Type 0 where
  pub account_id : ℕ
  pub balance : Balance

-- A hash that is `none` is NULL, as in rows older than the column.
pub record HoldRow : Type 0 where
  pub hold : Hold
  pub request_hash : Option Text

pub record KeyRow : Type 0 where
  pub key : Text
  pub status_code : ℕ
  pub response : Transaction
  pub request_hash : Option Text

-- app/events.go: the payloads of the outbox. The amounts are decimal texts.
pub record EventMoney : Type 0 where
  pub asset : Text
  pub amount : Text

pub record EventPosting : Type 0 where
  pub account_id : ℕ
  pub direction : Direction
  pub amount : EventMoney

pub record TransactionPostedEvent : Type 0 where
  pub transaction_id : ℕ
  pub ledger_id : ℕ
  pub idempotency_key : Text
  pub description : Text
  pub postings : List EventPosting
  pub metadata : Metadata
  pub posted_at : ℕ

pub record TransactionReversedEvent : Type 0 where
  pub transaction_id : ℕ
  pub reversal_transaction_id : ℕ
  pub ledger_id : ℕ
  pub reason : Text
  pub reversed_at : ℕ

pub record HoldCreatedEvent : Type 0 where
  pub hold_id : ℕ
  pub ledger_id : ℕ
  pub account_id : ℕ
  pub idempotency_key : Text
  pub amount : EventMoney
  pub expires_at : ℕ
  pub created_at : ℕ

pub record HoldCapturedEvent : Type 0 where
  pub hold_id : ℕ
  pub ledger_id : ℕ
  pub account_id : ℕ
  pub captured_amount : EventMoney
  pub released_amount : Option EventMoney
  pub transaction_id : Option ℕ
  pub captured_at : ℕ

pub record HoldReleasedEvent : Type 0 where
  pub hold_id : ℕ
  pub ledger_id : ℕ
  pub account_id : ℕ
  pub amount : EventMoney
  pub reason : Text
  pub released_at : ℕ

-- An event under its topic.
pub data Event : Type 0 where
  transaction_posted : TransactionPostedEvent → Event
  transaction_reversed : TransactionReversedEvent → Event
  hold_created : HoldCreatedEvent → Event
  hold_captured : HoldCapturedEvent → Event
  hold_released : HoldReleasedEvent → Event

pub record Db : Type 0 where
  pub ledgers : List Ledger
  pub accounts : List Account
  pub transactions : List Transaction
  pub postings : List PostingRow
  pub balances : List BalanceRow
  pub holds : List HoldRow
  pub keys : List KeyRow
  pub outbox : List Event

-- The body of a database transaction: a value and the tables that it leaves, or an error.
abbrev pub Tx : Type 0 → Type 0
Tx A = Db → Result StoreError (A × Db)

infixl 5 ◌>>=◌ ◌>>◌
abbrev pub ◌>>=◌ : {A B : Type 0} → Tx A → (A → Tx B) → Tx B
◌>>=◌ m f db = elim (m db) [ ok (a, db') ↦ f a db' | err e ↦ err e ]

abbrev pub ◌>>◌ : {B : Type 0} → Tx (Unit {0}) → Tx B → Tx B
m >> k = m >>= λ _. k

abbrev pub pure : {A : Type 0} → A → Tx A
pure a db = ok (a, db)

abbrev pub raise : {A : Type 0} → StoreError → Tx A
raise e db = err e

abbrev pub raise_if : Bool → StoreError → Tx (Unit {0})
raise_if c e db = if c then err e else ok (tt, db)

abbrev pub gets : {A : Type 0} → (Db → A) → Tx A
gets f db = ok (f db, db)

abbrev pub or_raise : {A : Type 0} → Option A → StoreError → Tx A
or_raise none e db = err e
or_raise (some a) e db = ok (a, db)

-- What a method returns, and the tables after it.
abbrev pub Method : Type 0 → Type 0
Method A = Db → Result StoreError A × Db

-- pgxutil.WithTenantTx: the tables change only on success, and the nil tenant is refused.
unfoldable pub with_tenant_tx : {A : Type 0} → ℕ → Tx A → Method A
with_tenant_tx tenant body db =
    if tenant == 0
    then (err nil_tenant, db)
    else elim (body db) [ ok (a, db') ↦ (ok a, db') | err e ↦ (err e, db) ]

-- mapErr: the error classes become sentinels.
unfoldable pub map_err : StoreError → StoreError
map_err unique_violation = conflict
map_err foreign_key_violation = not_found
map_err check_violation = validation
map_err e = e

abbrev pub map_result : {A : Type 0} → Result StoreError A × Db → Result StoreError A × Db
map_result (ok a, db) = (ok a, db)
map_result (err e, db) = (err (map_err e), db)

-- The parts of a body that has succeeded.
pub next-ok :
    {A B : Type 0} (r : Result StoreError (A × Db)) (k : A → Tx B) {v : B × Db}
    → ◌≡◌ {A = Result StoreError (B × Db)} (elim r [ ok (a, db') ↦ k a db' | err e ↦ err e ]) (ok v)
    → (a : A) × (db1 : Db) × (r ≡ ok (a, db1)) × (k a db1 ≡ ok v)
next-ok (ok (a, db1)) k e = (a, db1, refl, e)
next-ok (err x) k e = absurd (err-ne-ok e)

pub bind-ok :
    {A B : Type 0} (m : Tx A) (k : A → Tx B) (db : Db) {v : B × Db}
    → (m >>= k) db ≡ ok v
    → (a : A) × (db1 : Db) × (m db ≡ ok (a, db1)) × (k a db1 ≡ ok v)
bind-ok m k db e = next-ok (m db) k e

pub tx-ok :
    {B : Type 0} (m : Tx (Unit {0})) (k : Tx B) (db : Db) {v : B × Db}
    → (m >> k) db ≡ ok v
    → (db1 : Db) × (m db ≡ ok (tt, db1)) × (k db1 ≡ ok v)
tx-ok m k db e = let (u, db1, found, rest) = next-ok (m db) (λ _. k) e in (db1, found, rest)

-- A body step by step, from what its first statement does.
pub tx-next :
    {B : Type 0} (m : Tx (Unit {0})) (k : Tx B) (db db1 : Db)
    → m db ≡ ok (tt, db1)
    → (m >> k) db ≡ k db1
tx-next {B} m k db db1 h =
    ap (λ r. elim r as (λ _. Result StoreError (B × Db)) [ ok (a, db') ↦ k db' | err e ↦ err e ]) h

pub tx-err :
    {B : Type 0} (m : Tx (Unit {0})) (k : Tx B) (db : Db) (x : StoreError)
    → m db ≡ err x
    → (m >> k) db ≡ err x
tx-err {B} m k db x h =
    ap (λ r. elim r as (λ _. Result StoreError (B × Db)) [ ok (a, db') ↦ k db' | err e ↦ err e ]) h

pub bind-next :
    {A B : Type 0} (m : Tx A) (k : A → Tx B) (db db1 : Db) (a : A)
    → m db ≡ ok (a, db1)
    → (m >>= k) db ≡ k a db1
bind-next {A} {B} m k db db1 a h =
    ap (λ r. elim r as (λ _. Result StoreError (B × Db)) [ ok (a, db') ↦ k a db' | err e ↦ err e ])
      h
