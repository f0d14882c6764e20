-- ===== src/Service.antt =====
-- services/ledger-core/internal/app/service.go: what the application service checks and completes
-- before it calls the store. The clock and the new uuids are arguments: `fresh i` is the i-th uuid
-- that a call generates.
pub mod Holds
mod Examples
use ledgercore.Base.{
  ℕ, suc, ◌+◌, ◌*◌, ◌==◌, ◌≡◌, refl, ◌∙◌, sym, ap, Bool, true, false, not, ◌&&◌, ◌||◌, List, [],
  ◌∷◌, Option, none, some, Text, ℤ, pos, leb_ℤ, ltb, length, Result, ok, err, fail_if, ◌>>=◌, ◌>>◌,
  if◌then◌else◌, Bool-cases, Result-cases, Option-cases, inl, inr, arith, >>=-ok, ok-injective,
  err-ne-ok, subst,
}
use ledgercore.Money.{Amount, MoneyError, validate_asset_code}
use ledgercore.Domain.{
  Posting, Transaction, Hold, Direction, TransactionStatus, draft, posted, reversed, other_status,
  active, Metadata, DomainError,
}
use ledgercore.Domain.Postings.{validate_balanced}
use ledgercore.Domain.Reversal.{is_posted}
use ledgercore.Store.{StoreError, validation, generate_id, Db, Method}
use ledgercore.Store.Transactions.{
  CanonicalTransaction, CanonicalReversal, create_transaction, reverse_transaction,
}
use ledgercore.Store.Holds.{CanonicalHold, create_hold, capture_hold}
use ledgercore.Store.Invariant.{IsConsistent, is_draft}
use ledgercore.Store.Consistency.{create_transaction-IsConsistent}

-- An error of the store or of the service itself, or a violation of a rule of the domain.
pub data ServiceError : Type 0 where
  store_error : StoreError → ServiceError
  domain_error : DomainError → ServiceError

pub record PostingInput : Type 0 where
  pub account_id : ℕ
  pub direction : Direction
  pub amount : Amount

pub record CreateTransactionInput : Type 0 where
  pub ledger_id : ℕ
  pub idempotency_key : Text
  pub reference : Text
  pub description : Text
  pub status : TransactionStatus
  pub effective_at : Option ℕ
  pub metadata : Metadata
  pub postings : List PostingInput

abbrev pub invalid : ServiceError
invalid = store_error validation

-- A key of 1 to 255 bytes.
abbrev pub bad_key : Text → Bool
bad_key key = (length key == 0) || ltb 255 (length key)

-- An empty status is posted.
unfoldable pub default_status : TransactionStatus → TransactionStatus
default_status (other_status []) = posted
default_status (other_status (c ∷ s)) = other_status (c ∷ s)
default_status draft = draft
default_status posted = posted
default_status reversed = reversed

abbrev pub with_id : Option ℕ → Result ServiceError ℕ
with_id none = err (store_error generate_id)
with_id (some id) = ok id

-- The loop over the postings, from index `i` on.
unfoldable pub number_postings :
    (ℕ → Option ℕ) → ℕ → List PostingInput → Result ServiceError (List Posting)
number_postings fresh i [] = ok []
number_postings fresh i (p ∷ ps) =
    let rest = number_postings fresh (suc i) ps in
    with_id (fresh i) >>= λ id. rest >>= λ qs.
    ok (
      record { id = id; account_id = p.account_id; direction = p.direction; amount = p.amount }
      ∷ qs)

abbrev from_domain : Result DomainError (Unit {0}) → Result ServiceError (Unit {0})
from_domain (ok u) = ok u
from_domain (err e) = err (domain_error e)

abbrev pub instant_or : Option ℕ → ℕ → ℕ
instant_or none now = now
instant_or (some t) now = t

abbrev pub provided : Option ℕ → Bool
provided none = false
provided (some t) = true

-- The transaction that is passed to the store.
abbrev pub transaction_of :
    ℕ → CreateTransactionInput → TransactionStatus → ℕ → ℕ → List Posting → Transaction
transaction_of tenant input status id now postings = record {
  id = id;
  tenant_id = tenant;
  ledger_id = input.ledger_id;
  reference = input.reference;
  description = input.description;
  idempotency_key = input.idempotency_key;
  status = status;
  effective_at = instant_or input.effective_at now;
  effective_at_provided = provided input.effective_at;
  posted_at = if is_posted status then some now else none;
  reversed_by_id = none;
  reverses_id = none;
  metadata = input.metadata;
  postings = postings;
  created_at = now;
}

-- What CreateTransaction does before it calls the store.
unfoldable pub prepare_transaction :
    (ℕ → Option ℕ) → ℕ → ℕ → CreateTransactionInput → Result ServiceError Transaction
prepare_transaction fresh now tenant input = do
  fail_if (bad_key input.idempotency_key) invalid
  fail_if (input.ledger_id == 0) invalid
  fail_if (not (is_posted (default_status input.status) || is_draft (default_status input.status)))
      invalid
  fail_if (ltb 1000 (length input.postings)) invalid
  id ← with_id (fresh 0)
  postings ← number_postings fresh 1 input.postings
  from_domain (validate_balanced postings)
  ok (transaction_of tenant input (default_status input.status) id now postings)

abbrev pub from_store : {A : Type 0} → Result StoreError A × Db → Result ServiceError A × Db
from_store (ok a, db) = (ok a, db)
from_store (err e, db) = (err (store_error e), db)

-- CreateTransaction of the service.
unfoldable pub service_create_transaction :
    (CanonicalTransaction → Text)
    → (Db → Db)
    → (ℕ → Option ℕ)
    → ℕ
    → ℕ
    → CreateTransactionInput
    → Db
    → Result ServiceError (Transaction × Bool) × Db
service_create_transaction hash_transaction others fresh now tenant input db =
    elim (prepare_transaction fresh now tenant input) [
      | ok t ↦ from_store (create_transaction hash_transaction others t db)
      | err e ↦ (err e, db)
    ]

pub fail_if-ok : {E : Type 0} (b : Bool) (e : E) {u : Unit {0}} → fail_if b e ≡ ok u → b ≡ false
fail_if-ok true e h = absurd (err-ne-ok h)
fail_if-ok false e h = refl

from_domain-ok :
    (r : Result DomainError (Unit {0})) {u : Unit {0}} → from_domain r ≡ ok u → r ≡ ok tt
from_domain-ok (ok tt) h = refl
from_domain-ok (err e) h = absurd (err-ne-ok h)

-- What a prepared transaction satisfies.
prepare_transaction-ok :
    (fresh : ℕ → Option ℕ) (now tenant : ℕ) (input : CreateTransactionInput) {t : Transaction}
    → prepare_transaction fresh now tenant input ≡ ok t
    → ((is_posted t.status || is_draft t.status) ≡ true) × (validate_balanced t.postings ≡ ok tt)
unfolding prepare_transaction
prepare_transaction-ok fresh now tenant input {t} e =
    let status = default_status input.status in
    let known = is_posted status || is_draft status in
    let k7 : ℕ → List Posting → Result ServiceError Transaction = λ id ps.
      from_domain (validate_balanced ps) >> ok (transaction_of tenant input status id now ps) in
    let k6 : ℕ → Result ServiceError Transaction =
      λ id. number_postings fresh 1 input.postings >>= k7 id in
    let k5 : Result ServiceError Transaction = with_id (fresh 0) >>= k6 in
    let k4 : Result ServiceError Transaction =
      fail_if (ltb 1000 (length input.postings)) invalid >> k5 in
    let k3 : Result ServiceError Transaction = fail_if (not known) invalid >> k4 in
    let k2 : Result ServiceError Transaction = fail_if (input.ledger_id == 0) invalid >> k3 in
    let (_, _, e2) = >>=-ok (fail_if (bad_key input.idempotency_key) invalid) (λ _. k2) e in
    let (_, _, e3) = >>=-ok (fail_if (input.ledger_id == 0) invalid) (λ _. k3) e2 in
    let (_, status_known, e4) = >>=-ok (fail_if (not known) invalid) (λ _. k4) e3 in
    let (_, _, e5) = >>=-ok (fail_if (ltb 1000 (length input.postings)) invalid) (λ _. k5) e4 in
    let (id, _, e6) = >>=-ok (with_id (fresh 0)) k6 e5 in
    let (ps, _, e7) = >>=-ok (number_postings fresh 1 input.postings) (k7 id) e6 in
    let (_, balanced, e8) =
      >>=-ok (from_domain (validate_balanced ps))
        (λ _. ok (transaction_of tenant input status id now ps)) e7 in
    let made : transaction_of tenant input status id now ps ≡ t = ok-injective e8 in
    let firm : (not known) ≡ false = fail_if-ok (not known) invalid status_known in
    (
      ap (λ (x : Transaction). is_posted x.status || is_draft x.status) (sym made) ∙ ground arith,
      ap (λ (x : Transaction). validate_balanced x.postings) (sym made)
          ∙ from_domain-ok (validate_balanced ps) balanced,
    )

pub from_store-tables : {A : Type 0} (q : Result StoreError A × Db) → (from_store q).1 ≡ q.1
from_store-tables (ok a, db) = refl
from_store-tables (err e, db) = refl

-- CreateTransaction of the service, on every input, leaves the postings in agreement with the rest
-- of the tables, if they were before it and after what others committed during it, whatever it
-- returns: every posting has its transaction, a direction and a balance row, the posted columns of
-- every account under every asset code are the sums of the postings of posted and reversed
-- transactions, and the pending columns those of drafts.
pub service_create_transaction-IsConsistent :
    (hash_transaction : CanonicalTransaction → Text) (others : Db → Db) (fresh : ℕ → Option ℕ)
    (now tenant : ℕ) (input : CreateTransactionInput) (db db' : Db)
    {r : Result ServiceError (Transaction × Bool)}
    → IsConsistent db
    → IsConsistent (others db)
    → service_create_transaction hash_transaction others fresh now tenant input db ≡ (r, db')
    → IsConsistent db'
unfolding service_create_transaction
service_create_transaction-IsConsistent hash_transaction others fresh now tenant input db db' {r}
      before between e =
    elim (Result-cases (prepare_transaction fresh now tenant input)) [
      | inl (t, prepared) ↦
          let done =
            ap (λ (q : Result ServiceError (Transaction × Bool) × Db). q.1)
              (rw (prepared, service_create_transaction) at e) in
          subst IsConsistent
            (sym (from_store-tables (create_transaction hash_transaction others t db)) ∙ done)
            (create_transaction-IsConsistent hash_transaction others t db
              (create_transaction hash_transaction others t db).1
              (prepare_transaction-ok fresh now tenant input prepared).0 before between refl)
      | inr (x, refused) ↦
          subst IsConsistent
            (ap (λ (q : Result ServiceError (Transaction × Bool) × Db). q.1)
              (rw (refused, service_create_transaction) at e))
            before
    ]
