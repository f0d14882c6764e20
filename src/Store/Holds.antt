-- ===== src/Store/Holds.antt =====
-- services/ledger-core/internal/adapters/postgres/store.go: CreateHold, CaptureHold, ReleaseHold and
-- GetHold. What others commit between the lookup and the writes of CreateHold is its argument
-- `others`, and the fingerprint, SHA-256 of the JSON of a request, is an argument too.
use ledgercore.Base.{
  to_micros, ℕ, ◌==◌, Bool, true, false, not, ◌&&◌, ◌||◌, List, [], ◌∷◌, ◌++◌, Option, none, some,
  Text, text_eq, codes, ℤ, pos, ◌-ℤ◌, ltb_ℤ, leb_ℤ, ltb, length, any, find?, wrap64, Result, ok,
  err, if◌then◌else◌,
}
use ledgercore.Money.{Amount}
use ledgercore.Domain.{Hold, HoldStatus, active, captured, released, other_hold_status, Metadata}
use ledgercore.Domain.Nets.{available}
use ledgercore.Domain.Reversal.{is_set}
use ledgercore.Store.{
  StoreError, not_found, invalid_state, insufficient_funds, validation, idempotency_conflict,
  unique_violation, foreign_key_violation, check_violation, bad_value, nil_tenant, HoldRow,
  EventMoney, Event, hold_created, hold_captured, hold_released, Db, Tx, Method, with_tenant_tx,
  map_err, map_result, ◌>>=◌, ◌>>◌, pure, raise, raise_if, gets, or_raise,
}
use ledgercore.Store.Rows.{find_ledger, find_account, find_transaction, insert_outbox}
use ledgercore.Store.Balances.{balance_of, upsert_held, release_held}
use ledgercore.Store.Transactions.{event_money, hash_differs}

-- The canonical view of a hold that is hashed.
pub record CanonicalHold : Type 0 where
  pub account_id : ℕ
  pub asset : Text
  pub units : ℤ
  pub expires_at : Option ℕ
  pub metadata : Metadata

-- holdFingerprint, before the hash.
unfoldable pub canonical_hold : Hold → CanonicalHold
canonical_hold h = record {
  account_id = h.account_id;
  asset = h.amount.asset;
  units = h.amount.units;
  expires_at = if h.expires_at_provided then some h.expires_at else none;
  metadata = h.metadata;
}

-- lookupHoldTx.
unfoldable pub lookup_hold : Text → Db → Option HoldRow
lookup_hold key db = find? (λ r. text_eq r.hold.idempotency_key key) db.holds

-- getHoldTx.
unfoldable pub find_hold : ℕ → Db → Option HoldRow
find_hold id db = find? (λ r. r.hold.id == id) db.holds

unfoldable pub get_hold_tx : ℕ → Tx Hold
get_hold_tx id = do r ← or_raise (← gets (find_hold id)) not_found; pure r.hold

abbrev pub known_hold_status : HoldStatus → Bool
known_hold_status (other_hold_status t) = false
known_hold_status s = true

-- A hold as its row holds it: the flag is not stored.
abbrev pub hold_row : Hold → Text → HoldRow
hold_row h hash = record {
  hold = record h {
    expires_at_provided = false;
    captured_transaction_id = none;
    expires_at = to_micros h.expires_at;
    created_at = to_micros h.created_at;
  };
  request_hash = some hash;
}

-- INSERT INTO holds.
unfoldable pub insert_hold : Hold → Text → Tx (Unit {0})
insert_hold h hash db =
    if ltb 12 (length h.amount.asset)
    then err bad_value
    else if not (known_hold_status h.status) || leb_ℤ h.amount.units (pos 0)
    then err check_violation
    else if any (λ r. r.hold.id == h.id || text_eq r.hold.idempotency_key h.idempotency_key)
        db.holds
    then err unique_violation
    else if not (is_set (find_ledger h.ledger_id db)) || not (is_set (find_account h.account_id db))
    then err foreign_key_violation
    else ok (tt, record db { holds = db.holds ++ hold_row h hash ∷ [] })

-- The insertions of CreateHold.
unfoldable pub reserve : Hold → Text → Tx (Hold × Bool)
reserve h hash = do
  insert_hold h hash
  upsert_held h.account_id h.amount.asset h.amount.units
  insert_outbox (
      hold_created (record {
        hold_id = h.id;
        ledger_id = h.ledger_id;
        account_id = h.account_id;
        idempotency_key = h.idempotency_key;
        amount = event_money h.amount;
        expires_at = h.expires_at;
        created_at = h.created_at;
      }))
  pure (h, false)

-- What CreateHold does when the key is free.
unfoldable pub write_hold : Hold → Text → Tx (Hold × Bool)
write_hold h hash = do
  a ← or_raise (← gets (find_account h.account_id)) not_found
  raise_if (not (h.ledger_id == 0) && not (h.ledger_id == a.ledger_id)) validation
  b ← gets (λ db. balance_of h.account_id h.amount.asset db.balances)
  raise_if (ltb_ℤ (available b a.normal_balance) h.amount.units) insufficient_funds
  reserve (record h { ledger_id = a.ledger_id }) hash

unfoldable pub replay_hold : HoldRow → Text → Result StoreError (Hold × Bool)
replay_hold r hash =
    if hash_differs r.request_hash hash then err idempotency_conflict else ok (r.hold, true)

-- The lookup after a unique violation; its own result replaces the error only if it finds a hold.
unfoldable pub after_hold_failure : StoreError → Text → Text → Db → Result StoreError (Hold × Bool)
after_hold_failure unique_violation key hash db = elim (lookup_hold key db) [
  | some r ↦ replay_hold r hash
  | none ↦ err (map_err unique_violation)
]
after_hold_failure e key hash db = err (map_err e)

abbrev pub settle_hold :
    Text → Text → Db → Result StoreError ((Hold × Bool) × Db) → Result StoreError (Hold × Bool) × Db
settle_hold key hash db (ok (r, db')) = (ok r, db')
settle_hold key hash db (err e) = (after_hold_failure e key hash db, db)

module _ (hash_hold : CanonicalHold → Text) where
  unfoldable pub create_hold : (Db → Db) → Hold → Method (Hold × Bool)
  create_hold others h db =
      let hash = hash_hold (canonical_hold h) in
      if h.tenant_id == 0 then (err nil_tenant, db) else elim (lookup_hold h.idempotency_key db) [
        | some r ↦ elim (replay_hold r hash) [ ok v ↦ (ok v, db) | err e ↦ (err (map_err e), db) ]
        | none ↦ settle_hold h.idempotency_key hash (others db) (write_hold h hash (others db))
      ]

-- UPDATE holds SET ... WHERE id = ....
unfoldable pub update_holds : ℕ → (Hold → Hold) → List HoldRow → List HoldRow
update_holds id f [] = []
update_holds id f (r ∷ rs) =
    (if r.hold.id == id then record r { hold = f r.hold } else r) ∷ update_holds id f rs

unfoldable pub update_hold : ℕ → (Hold → Hold) → Tx (Unit {0})
update_hold id f db = ok (tt, record db { holds = update_holds id f db.holds })

abbrev pub is_active : HoldStatus → Bool
is_active active = true
is_active s = false

-- What is captured: all of the hold, or an amount that is given, in the same asset and no larger.
unfoldable pub captured_amount : Amount → Option Amount → Result StoreError Amount
captured_amount held none = ok held
captured_amount held (some a) =
    if not (text_eq a.asset held.asset)
    then err validation
    else if ltb_ℤ held.units a.units
    then err validation
    else ok a

abbrev pub lift_result : {A : Type 0} → Result StoreError A → Tx A
lift_result (ok a) = pure a
lift_result (err e) = raise e

-- The transaction that is named must exist.
abbrev pub known_transaction : Option ℕ → Tx (Unit {0})
known_transaction none = pure tt
known_transaction (some id) = do t ← or_raise (← gets (find_transaction id)) not_found; pure tt

abbrev remainder : Amount → Amount → Option EventMoney
remainder held taken =
    if ltb_ℤ taken.units held.units
    then some
        (event_money (record { asset = held.asset; units = wrap64 (held.units -ℤ taken.units) }))
    else none

-- The change of a hold's row, the balance and the event.
unfoldable pub finish_hold : ℕ → (Hold → Hold) → Hold → Event → Tx Hold
finish_hold id f h event = do update_hold id f; release_held h; insert_outbox event; pure (f h)

abbrev pub mark_captured : Option ℕ → Hold → Hold
mark_captured transaction_id h = record h {
  status = captured;
  captured_transaction_id = transaction_id;
}

abbrev pub mark_released : Hold → Hold
mark_released h = record h { status = released }

abbrev pub captured_event : Hold → Amount → Option ℕ → ℕ → Event
captured_event h taken transaction_id now = hold_captured (record {
  hold_id = h.id;
  ledger_id = h.ledger_id;
  account_id = h.account_id;
  captured_amount = event_money taken;
  released_amount = remainder h.amount taken;
  transaction_id = transaction_id;
  captured_at = now;
})

unfoldable pub capture_body : ℕ → Option Amount → Option ℕ → ℕ → Tx Hold
capture_body id amount transaction_id now = do
  h ← get_hold_tx id
  raise_if (not (is_active h.status)) invalid_state
  taken ← lift_result (captured_amount h.amount amount)
  known_transaction transaction_id
  finish_hold id (mark_captured transaction_id) h (captured_event h taken transaction_id now)

unfoldable pub capture_hold : ℕ → ℕ → Option Amount → Option ℕ → ℕ → Method Hold
capture_hold tenant id amount transaction_id now db =
    map_result (with_tenant_tx tenant (capture_body id amount transaction_id now) db)

abbrev pub released_event : Hold → ℕ → Event
released_event h now = hold_released (record {
  hold_id = h.id;
  ledger_id = h.ledger_id;
  account_id = h.account_id;
  amount = event_money h.amount;
  reason = codes "released";
  released_at = now;
})

unfoldable pub release_body : ℕ → ℕ → Tx Hold
release_body id now = do
  h ← get_hold_tx id
  raise_if (not (is_active h.status)) invalid_state
  finish_hold id mark_released h (released_event h now)

unfoldable pub release_hold : ℕ → ℕ → ℕ → Method Hold
release_hold tenant id now db = map_result (with_tenant_tx tenant (release_body id now) db)

-- GetHold.
unfoldable pub get_hold : ℕ → ℕ → Method Hold
get_hold tenant id = with_tenant_tx tenant (get_hold_tx id)
