-- ===== src/Domain/Reversal.antt =====
-- services/ledger-core/internal/domain/domain.go: Reverse. The new uuids are arguments: `fresh i` is
-- what the i-th call of uuid.NewV7 returns, and `uuid_string` is the String method of a uuid; both
-- belong to a package that the source imports.
use ledgercore.Base.{
  ℕ, suc, Bool, true, false, List, [], ◌∷◌, ◌++◌, Option, none, some, Text, codes, ◌||◌, not,
  Result, ok, err, ◌>>=◌, ◌>>◌, fail_if,
}
use ledgercore.Domain.{
  Posting, Transaction, TransactionStatus, posted, reversed, DomainError, not_posted,
  already_reversed, generate_id, opposite,
}

abbrev pub reversal_reference_prefix : Text
reversal_reference_prefix = codes "reversal-of:"

abbrev pub is_set {ℓ} : {A : Type ℓ} → Option A → Bool
is_set none = false
is_set (some a) = true

abbrev pub is_reversed : TransactionStatus → Bool
is_reversed reversed = true
is_reversed s = false

abbrev pub is_posted : TransactionStatus → Bool
is_posted posted = true
is_posted s = false

-- The loop over the postings, from index `i` on.
unfoldable pub mirror : (ℕ → Option ℕ) → ℕ → List Posting → Result DomainError (List Posting)
mirror fresh i [] = ok []
mirror fresh i (p ∷ ps) =
    let rest = mirror fresh (suc i) ps in
    elim (fresh i) [
      | none ↦ err generate_id
      | some id ↦ rest >>= λ qs. ok (
          record {
            id = id;
            account_id = p.account_id;
            direction = opposite p.direction;
            amount = p.amount;
          }
          ∷ qs)
    ]

module _ (uuid_string : ℕ → Text) where
  -- The transaction that is returned, around its postings.
  abbrev pub reversal_of : Transaction → ℕ → ℕ → List Posting → Transaction
  reversal_of original reversal_id now postings = record {
    id = reversal_id;
    tenant_id = original.tenant_id;
    ledger_id = original.ledger_id;
    reference = reversal_reference_prefix ++ uuid_string original.id;
    description = [];
    idempotency_key = reversal_reference_prefix ++ uuid_string original.id;
    status = posted;
    effective_at = now;
    effective_at_provided = false;
    posted_at = some now;
    reversed_by_id = none;
    reverses_id = some original.id;
    metadata = [];
    postings = postings;
    created_at = now;
  }

  unfoldable pub reverse : (ℕ → Option ℕ) → Transaction → ℕ → ℕ → Result DomainError Transaction
  reverse fresh original reversal_id now = do
    fail_if (is_set original.reversed_by_id || is_reversed original.status) already_reversed
    fail_if (not (is_posted original.status)) not_posted
    postings ← mirror fresh 0 original.postings
    ok (reversal_of original reversal_id now postings)
