-- ===== src/Store/Transactions.antt =====
-- services/ledger-core/internal/adapters/postgres/store.go: CreateTransaction, PostTransaction and
-- ReverseTransaction. What other database transactions commit between the idempotency lookup and
-- the writes of a method is its argument `others`. The fingerprints are arguments too: SHA-256 of
-- the JSON of a request.
use ledgercore.Base.{
  to_micros, ℕ, suc, ◌==◌, Bool, true, false, not, ◌&&◌, List, [], ◌∷◌, ◌++◌, map, Option, none,
  some, Text, text_eq, text_lt, codes, ℤ, ltb_ℤ, ltb, length, Result, ok, err, if◌then◌else◌,
  sort_by,
}
use ledgercore.Money.{Amount}
use ledgercore.Money.Decimal.{format_int}
use ledgercore.Domain.{
  Posting, Transaction, TransactionStatus, Direction, posted, reversed, debit, credit,
  other_direction, Metadata, DomainError, not_posted, already_reversed,
}
use ledgercore.Domain.Reversal.{reverse, reversal_reference_prefix, is_posted}
use ledgercore.Store.{
  StoreError, not_found, invalid_state, idempotency_conflict, unique_violation, generate_id,
  nil_tenant, KeyRow, EventMoney, Event, transaction_posted, transaction_reversed, Db, Tx, Method,
  with_tenant_tx, map_err, map_result, ◌>>=◌, ◌>>◌, pure, raise, gets, or_raise,
}
use ledgercore.Store.Rows.{
  find_ledger, load_transaction, insert_transaction, update_transaction, check_transaction_balance,
  insert_outbox, lookup_idempotent, store_idempotent_response, check_accounts_in_ledger,
}
use ledgercore.Store.Balances.{
  upsert_posted_balance, upsert_pending_balance, move_pending_to_posted, apply_balances,
}

-- The canonical view of a request that is hashed. An account is its uuid, which is ordered as its text.
pub record CanonicalPosting : Type 0 where
  pub account_id : ℕ
  pub direction : Text
  pub asset : Text
  pub units : ℤ

pub record CanonicalTransaction : Type 0 where
  pub ledger_id : ℕ
  pub reference : Text
  pub description : Text
  pub status : TransactionStatus
  pub effective_at : Option ℕ
  pub metadata : Metadata
  pub postings : List CanonicalPosting

pub record CanonicalReversal : Type 0 where
  pub reverses_id : ℕ
  pub reason : Text

abbrev pub direction_text : Direction → Text
direction_text debit = codes "DEBIT"
direction_text credit = codes "CREDIT"
direction_text (other_direction t) = t

abbrev pub canonical_posting : Posting → CanonicalPosting
canonical_posting p = record {
  account_id = p.account_id;
  direction = direction_text p.direction;
  asset = p.amount.asset;
  units = p.amount.units;
}

abbrev canonical_before : CanonicalPosting → CanonicalPosting → Bool
canonical_before p q =
    if not (p.account_id == q.account_id)
    then ltb p.account_id q.account_id
    else if not (text_eq p.direction q.direction)
    then text_lt p.direction q.direction
    else if not (text_eq p.asset q.asset)
    then text_lt p.asset q.asset
    else ltb_ℤ p.units q.units

-- transactionFingerprint, before the hash.
unfoldable pub canonical_transaction : Transaction → CanonicalTransaction
canonical_transaction t = record {
  ledger_id = t.ledger_id;
  reference = t.reference;
  description = t.description;
  status = t.status;
  effective_at = if t.effective_at_provided then some t.effective_at else none;
  metadata = t.metadata;
  postings = sort_by canonical_before (map canonical_posting t.postings);
}

-- NewEventMoney and NewTransactionPostedEvent.
abbrev pub event_money : Amount → EventMoney
event_money a = record { asset = a.asset; amount = format_int a.units }

unfoldable pub posted_event : Transaction → ℕ → Event
posted_event t posted_at = transaction_posted (record {
  transaction_id = t.id;
  ledger_id = t.ledger_id;
  idempotency_key = t.idempotency_key;
  description = t.description;
  postings =
      map
        (λ p. record {
          account_id = p.account_id;
          direction = p.direction;
          amount = event_money p.amount;
        })
        t.postings;
  metadata = t.metadata;
  posted_at = posted_at;
})

abbrev pub get_or : Option ℕ → ℕ → ℕ
get_or none d = d
get_or (some a) d = a

-- A stored hash that is not NULL and not empty tells another request from this one.
abbrev pub hash_differs : Option Text → Text → Bool
hash_differs none hash = false
hash_differs (some h) hash = not (length h == 0) && not (text_eq h hash)

-- The stored response under a key, or a conflict; the flag reports a replay.
unfoldable pub replay : KeyRow → Text → Result StoreError (Transaction × Bool)
replay k hash =
    if hash_differs k.request_hash hash then err idempotency_conflict else ok (k.response, true)

-- Step 4 of CreateTransaction.
unfoldable pub apply_created : Transaction → Tx (Unit {0})
apply_created t =
    if is_posted t.status
    then (do
      apply_balances upsert_posted_balance t.postings
      insert_outbox (posted_event t (get_or t.posted_at t.created_at)))
    else apply_balances upsert_pending_balance t.postings

-- Steps 2 to 5, and the checks of COMMIT.
unfoldable pub write_transaction : Transaction → Text → Tx (Transaction × Bool)
write_transaction t hash = do
  _ ← or_raise (← gets (find_ledger t.ledger_id)) not_found
  check_accounts_in_ledger t.ledger_id t.postings
  insert_transaction t
  apply_created t
  store_idempotent_response t.idempotency_key 201 t hash
  check_transaction_balance t.id
  pure (t, false)

-- The lookup after a unique violation: a concurrent request with the same key may have won.
unfoldable pub after_failure :
    StoreError → Text → Text → Db → Result StoreError (Transaction × Bool)
after_failure unique_violation key hash db = elim (lookup_idempotent key db) [
  | some k ↦ replay k hash
  | none ↦ err (map_err unique_violation)
]
after_failure e key hash db = err (map_err e)

-- A write that fails is rolled back.
abbrev pub settle :
    Text
    → Text
    → Db
    → Result StoreError ((Transaction × Bool) × Db)
    → Result StoreError (Transaction × Bool) × Db
settle key hash db (ok (r, db')) = (ok r, db')
settle key hash db (err e) = (after_failure e key hash db, db)

-- The lookup, then the writes on what the others have left.
unfoldable pub with_idempotency :
    ℕ → Text → Text → (Db → Db) → Tx (Transaction × Bool) → Method (Transaction × Bool)
with_idempotency tenant key hash others write db =
    if tenant == 0 then (err nil_tenant, db) else elim (lookup_idempotent key db) [
      | some k ↦ (replay k hash, db)
      | none ↦ settle key hash (others db) (write (others db))
    ]

module _ (hash_transaction : CanonicalTransaction → Text) where
  unfoldable pub create_transaction : (Db → Db) → Transaction → Method (Transaction × Bool)
  create_transaction others t =
      let hash = hash_transaction (canonical_transaction t) in
      with_idempotency t.tenant_id t.idempotency_key hash others (write_transaction t hash)

-- What PostTransaction does with a transaction that it has loaded.
unfoldable pub post_draft : ℕ → Transaction → ℕ → Tx Transaction
post_draft id t now = do
  update_transaction id (λ r. record r { status = posted; posted_at = some (to_micros now) })
  apply_balances move_pending_to_posted t.postings
  insert_outbox (posted_event (record t { status = posted; posted_at = some now }) now)
  check_transaction_balance id
  pure (record t { status = posted; posted_at = some now })

unfoldable pub post_loaded : TransactionStatus → ℕ → Transaction → ℕ → Tx Transaction
post_loaded posted id t now = pure t
post_loaded reversed id t now = raise invalid_state
post_loaded s id t now = post_draft id t now

unfoldable pub post_body : ℕ → ℕ → Tx Transaction
post_body id now = do t ← load_transaction id; post_loaded t.status id t now

unfoldable pub post_transaction : ℕ → ℕ → ℕ → Method Transaction
post_transaction tenant id now db = map_result (with_tenant_tx tenant (post_body id now) db)

abbrev non_empty : Text → Bool
non_empty [] = false
non_empty (c ∷ s) = true

-- The errors of Reverse, as ReverseTransaction reports them.
abbrev pub lift_domain : Result DomainError Transaction → Tx Transaction
lift_domain (ok t) = pure t
lift_domain (err already_reversed) = raise invalid_state
lift_domain (err not_posted) = raise invalid_state
lift_domain (err e) = raise generate_id

module _ (uuid_string : ℕ → Text) where
  abbrev pub effective_key : ℕ → Text → Text
  effective_key id key = if non_empty key then key else reversal_reference_prefix ++ uuid_string id

  -- The reversal with its key and its description.
  abbrev pub named_reversal : Transaction → Transaction → Text → Text → Transaction
  named_reversal original rev key reason = record rev {
    idempotency_key = if non_empty key then key else rev.idempotency_key;
    description =
        codes "Reversal of "
        ++ (original.idempotency_key ++ (if non_empty reason then codes ": " ++ reason else []));
  }

  -- What ReverseTransaction writes for the reversal that Reverse has built.
  unfoldable pub write_built :
      ℕ → Transaction → Transaction → Text → Text → Text → ℕ → Tx (Transaction × Bool)
  write_built id original built key reason hash now = do
    let rev = named_reversal original built key reason
    insert_transaction rev
    apply_balances upsert_posted_balance rev.postings
    update_transaction id (λ r. record r { status = reversed; reversed_by_id = some rev.id })
    store_idempotent_response rev.idempotency_key 201 rev hash
    insert_outbox (
        transaction_reversed (record {
          transaction_id = original.id;
          reversal_transaction_id = rev.id;
          ledger_id = original.ledger_id;
          reason = reason;
          reversed_at = now;
        }))
    check_transaction_balance rev.id
    check_transaction_balance id
    pure (rev, false)

  unfoldable pub write_reversal :
      (ℕ → Option ℕ) → ℕ → Text → Text → Text → ℕ → Tx (Transaction × Bool)
  write_reversal fresh id key reason hash now = do
    original ← load_transaction id
    rev_id ← or_raise (fresh 0) generate_id
    built ← lift_domain (reverse uuid_string (λ i. fresh (suc i)) original rev_id now)
    write_built id original built key reason hash now

  -- `fresh i` is the i-th uuid that the method generates.
  module _ (hash_reversal : CanonicalReversal → Text) where
    unfoldable pub reverse_transaction :
        (Db → Db) → (ℕ → Option ℕ) → ℕ → ℕ → Text → Text → ℕ → Method (Transaction × Bool)
    reverse_transaction others fresh tenant id key reason now =
        let hash = hash_reversal (record { reverses_id = id; reason = reason }) in
        with_idempotency tenant (effective_key id key) hash others
          (write_reversal fresh id key reason hash now)
