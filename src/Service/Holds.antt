-- ===== src/Service/Holds.antt =====
-- services/ledger-core/internal/app/service.go: reversals, holds, ledgers and accounts. Instants are
-- counted in nanoseconds.
use ledgercore.Base.{
  ℕ, ◌+◌, ◌*◌, ◌^◌, ◌==◌, ◌≡◌, refl, ◌∙◌, sym, ap, Bool, false, not, ◌||◌, Option, none, some, Text,
  codes, pos, leb_ℤ, leb, ltb, length, Result, ok, err, fail_if, ◌>>=◌, ◌>>◌, Result-cases, inl,
  inr, >>=-ok, ok-injective, subst, if◌then◌else◌,
}
use ledgercore.Money.{Amount, MoneyError, validate_asset_code}
use ledgercore.Domain.{
  Ledger, Account, Transaction, Hold, AccountType, NormalBalance, valid_account_type,
  valid_normal_balance, active, Metadata,
}
use ledgercore.Store.{StoreError, Db}
use ledgercore.Store.Transactions.{CanonicalReversal, reverse_transaction}
use ledgercore.Store.Holds.{CanonicalHold, create_hold, capture_hold}
use ledgercore.Store.Accounts.{create_ledger, create_account}
use ledgercore.Store.Reserved.{HoldsAgree}
use ledgercore.Store.Reservations.{create_hold-HoldsAgree}
use ledgercore.Service.{
  ServiceError, invalid, bad_key, with_id, instant_or, provided, from_store, from_store-tables,
}

-- ReverseTransaction of the service.
unfoldable pub service_reverse_transaction :
    (ℕ → Text)
    → (CanonicalReversal → Text)
    → (Db → Db)
    → (ℕ → Option ℕ)
    → ℕ
    → ℕ
    → ℕ
    → Text
    → Text
    → Db
    → Result ServiceError (Transaction × Bool) × Db
service_reverse_transaction uuid_string hash_reversal others fresh now tenant id key reason db =
    if ltb 255 (length key)
    then (err invalid, db)
    else if ltb 1024 (length reason)
    then (err invalid, db)
    else from_store
        (reverse_transaction uuid_string hash_reversal others fresh tenant id key reason now db)

pub record CreateHoldInput : Type 0 where
  pub account_id : ℕ
  pub ledger_id : ℕ
  pub idempotency_key : Text
  pub amount : Amount
  pub expires_at : Option ℕ
  pub metadata : Metadata

-- DefaultHoldTTL: seven days.
abbrev pub default_hold_ttl : ℕ
default_hold_ttl = 7 * 24 * 3600 * 10 ^ 9

abbrev pub from_money : Result MoneyError (Unit {0}) → Result ServiceError (Unit {0})
from_money (ok u) = ok u
from_money (err e) = err invalid

abbrev expires_too_early : Option ℕ → ℕ → Bool
expires_too_early none now = false
expires_too_early (some t) now = leb t now

-- The hold that is passed to the store.
abbrev pub hold_of : ℕ → CreateHoldInput → ℕ → ℕ → Hold
hold_of tenant input id now = record {
  id = id;
  tenant_id = tenant;
  ledger_id = input.ledger_id;
  account_id = input.account_id;
  idempotency_key = input.idempotency_key;
  amount = input.amount;
  status = active;
  expires_at = instant_or input.expires_at (now + default_hold_ttl);
  expires_at_provided = provided input.expires_at;
  captured_transaction_id = none;
  metadata = input.metadata;
  created_at = now;
}

-- What CreateHold does before it calls the store.
unfoldable pub prepare_hold : Option ℕ → ℕ → ℕ → CreateHoldInput → Result ServiceError Hold
prepare_hold fresh now tenant input = do
  fail_if (bad_key input.idempotency_key) invalid
  fail_if (input.account_id == 0) invalid
  from_money (validate_asset_code input.amount.asset)
  fail_if (leb_ℤ input.amount.units (pos 0)) invalid
  fail_if (expires_too_early input.expires_at now) invalid
  id ← with_id fresh
  ok (hold_of tenant input id now)

-- CreateHold of the service.
unfoldable pub service_create_hold :
    (CanonicalHold → Text)
    → (Db → Db)
    → Option ℕ
    → ℕ
    → ℕ
    → CreateHoldInput
    → Db
    → Result ServiceError (Hold × Bool) × Db
service_create_hold hash_hold others fresh now tenant input db =
    elim (prepare_hold fresh now tenant input) [
      | ok h ↦ from_store (create_hold hash_hold others h db)
      | err e ↦ (err e, db)
    ]

-- The test on the amount that is captured.
unfoldable pub check_capture : Option Amount → Result ServiceError (Unit {0})
check_capture none = ok tt
check_capture (some a) = do
  from_money (validate_asset_code a.asset)
  fail_if (leb_ℤ a.units (pos 0)) invalid

-- CaptureHold of the service.
unfoldable pub service_capture_hold :
    ℕ → ℕ → ℕ → Option Amount → Option ℕ → Db → Result ServiceError Hold × Db
service_capture_hold now tenant id amount transaction_id db = elim (check_capture amount) [
  | ok u ↦ from_store (capture_hold tenant id amount transaction_id now db)
  | err e ↦ (err e, db)
]

-- What has been created, where the store accepts it.
abbrev pub returning :
    {A : Type 0} → A → Result StoreError (Unit {0}) × Db → Result StoreError A × Db
returning a (ok u, db) = (ok a, db)
returning a (err e, db) = (err e, db)

-- A name of 1 to 255 bytes, which is the same test as that on a key.
unfoldable pub service_create_ledger :
    Option ℕ → ℕ → ℕ → Text → Text → Text → Metadata → Db → Result ServiceError Ledger × Db
service_create_ledger fresh now tenant name description environment metadata db =
    if bad_key name then (err invalid, db) else elim (with_id fresh) [
      | err e ↦ (err e, db)
      | ok id ↦
          let l : Ledger = record {
            id = id;
            tenant_id = tenant;
            name = name;
            description = description;
            environment = environment;
            metadata = metadata;
            created_at = now;
          } in
          from_store (returning l (create_ledger l db))
    ]

unfoldable pub service_create_account :
    Option ℕ
    → ℕ
    → ℕ
    → ℕ
    → Text
    → AccountType
    → NormalBalance
    → Metadata
    → Db
    → Result ServiceError Account × Db
service_create_account fresh now tenant ledger_id name type normal_balance metadata db =
    if bad_key name
      || not (valid_account_type type)
      || not (valid_normal_balance normal_balance)
      || (ledger_id == 0)
    then (err invalid, db)
    else elim (with_id fresh) [
      | err e ↦ (err e, db)
      | ok id ↦
          let a : Account = record {
            id = id;
            tenant_id = tenant;
            ledger_id = ledger_id;
            name = name;
            path = name;
            type = type;
            normal_balance = normal_balance;
            status = codes "active";
            metadata = metadata;
            created_at = now;
          } in
          from_store (returning a (create_account a db))
    ]

prepare_hold-ok :
    (fresh : Option ℕ) (now tenant : ℕ) (input : CreateHoldInput) {h : Hold}
    → prepare_hold fresh now tenant input ≡ ok h
    → h.status ≡ active
unfolding prepare_hold
prepare_hold-ok fresh now tenant input {h} e =
    let k6 : Result ServiceError Hold = with_id fresh >>= λ id. ok (hold_of tenant input id now) in
    let k5 : Result ServiceError Hold =
      fail_if (expires_too_early input.expires_at now) invalid >> k6 in
    let k4 : Result ServiceError Hold = fail_if (leb_ℤ input.amount.units (pos 0)) invalid >> k5 in
    let k3 : Result ServiceError Hold = from_money (validate_asset_code input.amount.asset) >> k4 in
    let k2 : Result ServiceError Hold = fail_if (input.account_id == 0) invalid >> k3 in
    let (_, _, e2) = >>=-ok (fail_if (bad_key input.idempotency_key) invalid) (λ _. k2) e in
    let (_, _, e3) = >>=-ok (fail_if (input.account_id == 0) invalid) (λ _. k3) e2 in
    let (_, _, e4) = >>=-ok (from_money (validate_asset_code input.amount.asset)) (λ _. k4) e3 in
    let (_, _, e5) = >>=-ok (fail_if (leb_ℤ input.amount.units (pos 0)) invalid) (λ _. k5) e4 in
    let (_, _, e6) =
      >>=-ok (fail_if (expires_too_early input.expires_at now) invalid) (λ _. k6) e5 in
    let (id, _, e7) = >>=-ok (with_id fresh) (λ id. ok (hold_of tenant input id now)) e6 in
    sym (ap (λ (x : Hold). x.status) (ok-injective e7))

-- CreateHold of the service, on every input, leaves the ids of the holds distinct and every held
-- column equal to the sum of the active holds, if they were so before it and after what others
-- committed during it, whatever it returns.
pub service_create_hold-HoldsAgree :
    (hash_hold : CanonicalHold → Text) (others : Db → Db) (fresh : Option ℕ) (now tenant : ℕ)
    (input : CreateHoldInput) (db db' : Db) {r : Result ServiceError (Hold × Bool)}
    → HoldsAgree db
    → HoldsAgree (others db)
    → service_create_hold hash_hold others fresh now tenant input db ≡ (r, db')
    → HoldsAgree db'
unfolding service_create_hold
service_create_hold-HoldsAgree hash_hold others fresh now tenant input db db' {r} before between e =
    elim (Result-cases (prepare_hold fresh now tenant input)) [
      | inl (h, prepared) ↦
          let done =
            ap (λ (q : Result ServiceError (Hold × Bool) × Db). q.1)
              (rw (prepared, service_create_hold) at e) in
          subst HoldsAgree (sym (from_store-tables (create_hold hash_hold others h db)) ∙ done) (
            create_hold-HoldsAgree hash_hold others h db (create_hold hash_hold others h db).1
              (prepare_hold-ok fresh now tenant input prepared) before between refl)
      | inr (x, refused) ↦
          subst HoldsAgree
            (ap (λ (q : Result ServiceError (Hold × Bool) × Db). q.1)
              (rw (refused, service_create_hold) at e))
            before
    ]
