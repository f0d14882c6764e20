-- ===== src/Store/Reports.antt =====
-- services/ledger-core/internal/adapters/postgres/store.go: VerifyBalances, with the function
-- verify_account_balances of migration 0006.
use ledgercore.Base.{
  ℕ, ◌==◌, Bool, true, false, not, ◌&&◌, ◌||◌, List, [], ◌∷◌, ◌++◌, map, Option, none, some, Text,
  text_eq, text_lt, ℤ, pos, ◌+ℤ◌, eqb_ℤ, ltb, any, all, is_int64, find?, select, if◌then◌else◌,
  sort_by,
}
use ledgercore.Domain.{
  Account, Transaction, TransactionStatus, draft, Direction, debit, credit, other_direction,
  Balance,
}
use ledgercore.Store.{
  not_found, bad_value, PostingRow, BalanceRow, Db, ◌>>=◌, ◌>>◌, pure, raise_if, gets, or_raise,
  Method, with_tenant_tx,
}
use ledgercore.Store.Rows.{find_ledger, find_account, find_transaction, is_effective}
use ledgercore.Store.Balances.{is_row}

-- domain.BalanceDiscrepancy
pub record BalanceDiscrepancy : Type 0 where
  pub account_id : ℕ
  pub asset : Text
  pub computed_posted_debits : ℤ
  pub stored_posted_debits : ℤ
  pub computed_posted_credits : ℤ
  pub stored_posted_credits : ℤ
  pub computed_pending_debits : ℤ
  pub stored_pending_debits : ℤ
  pub computed_pending_credits : ℤ
  pub stored_pending_credits : ℤ

abbrev pub is_debit : Direction → Bool
is_debit debit = true
is_debit credit = false
is_debit (other_direction t) = false

abbrev pub is_credit : Direction → Bool
is_credit debit = false
is_credit credit = true
is_credit (other_direction t) = false

abbrev pub is_draft_status : TransactionStatus → Bool
is_draft_status draft = true
is_draft_status s = false

-- JOIN accounts ... WHERE ledger_id = p_ledger.
abbrev pub account_of_ledger : ℕ → Option Account → Bool
account_of_ledger ledger none = false
account_of_ledger ledger (some a) = a.ledger_id == ledger

abbrev pub in_ledger : ℕ → Db → ℕ → Bool
in_ledger ledger db account = account_of_ledger ledger (find_account account db)

-- JOIN transactions, and a condition on the status.
abbrev pub status_passes : (TransactionStatus → Bool) → Option Transaction → Bool
status_passes f none = false
status_passes f (some t) = f t.status

-- SUM(amount) FILTER (WHERE ...)
unfoldable pub sum_where : (PostingRow → Bool) → List PostingRow → ℤ
sum_where p [] = pos 0
sum_where p (r ∷ rs) = if p r then r.amount +ℤ sum_where p rs else sum_where p rs

abbrev pub of_key : ℕ → Text → PostingRow → Bool
of_key account asset r = r.account_id == account && text_eq r.asset asset

abbrev pub recomputed : (TransactionStatus → Bool) → (Direction → Bool) → ℕ → Text → Db → ℤ
recomputed f side account asset db =
    sum_where
      (λ (r : PostingRow).
        of_key account asset r
        && side r.direction
        && status_passes f (find_transaction r.transaction_id db))
      db.postings

-- COALESCE of a column of the row that is joined.
abbrev pub stored : (Balance → ℤ) → Option BalanceRow → ℤ
stored column none = pos 0
stored column (some r) = column r.balance

abbrev pub stored_row : ℕ → Text → Db → Option BalanceRow
stored_row account asset db = find? (is_row account asset) db.balances

-- The row of the FULL OUTER JOIN at a key.
unfoldable pub compare_key : Db → ℕ × Text → BalanceDiscrepancy
compare_key db key =
    let row = stored_row key.0 key.1 db in
    record {
      account_id = key.0;
      asset = key.1;
      computed_posted_debits = recomputed is_effective is_debit key.0 key.1 db;
      stored_posted_debits = stored (λ b. b.posted_debits) row;
      computed_posted_credits = recomputed is_effective is_credit key.0 key.1 db;
      stored_posted_credits = stored (λ b. b.posted_credits) row;
      computed_pending_debits = recomputed is_draft_status is_debit key.0 key.1 db;
      stored_pending_debits = stored (λ b. b.pending_debits) row;
      computed_pending_credits = recomputed is_draft_status is_credit key.0 key.1 db;
      stored_pending_credits = stored (λ b. b.pending_credits) row;
    }

abbrev pub differs : BalanceDiscrepancy → Bool
differs d =
    not (eqb_ℤ d.computed_posted_debits d.stored_posted_debits)
    || not (eqb_ℤ d.computed_posted_credits d.stored_posted_credits)
    || not (eqb_ℤ d.computed_pending_debits d.stored_pending_debits)
    || not (eqb_ℤ d.computed_pending_credits d.stored_pending_credits)

-- The keys on the two sides of the join, each once.
abbrev pub same_key : ℕ × Text → ℕ × Text → Bool
same_key k l = k.0 == l.0 && text_eq k.1 l.1

unfoldable pub once : List (ℕ × Text) → List (ℕ × Text)
once [] = []
once (k ∷ ks) = if any (same_key k) ks then once ks else k ∷ once ks

abbrev pub is_joined : ℕ → Db → PostingRow → Bool
is_joined ledger db r =
    in_ledger ledger db r.account_id
    && status_passes (λ s. true) (find_transaction r.transaction_id db)

unfoldable pub keys : ℕ → Db → List (ℕ × Text)
keys ledger db = once (
    map (λ (r : PostingRow). (r.account_id, r.asset)) (select (is_joined ledger db) db.postings)
    ++ map (λ (b : BalanceRow). (b.account_id, b.balance.asset))
        (select (λ (b : BalanceRow). in_ledger ledger db b.account_id) db.balances))

abbrev pub key_before : ℕ × Text → ℕ × Text → Bool
key_before k l = ltb k.0 l.0 || (k.0 == l.0 && text_lt k.1 l.1)

-- verify_account_balances
unfoldable pub verify_account_balances : ℕ → Db → List BalanceDiscrepancy
verify_account_balances ledger db =
    select differs (map (compare_key db) (sort_by key_before (keys ledger db)))

-- The columns of the function are BIGINT, so a sum of a reported row that is none cannot be returned.
abbrev pub fits_bigint : BalanceDiscrepancy → Bool
fits_bigint d =
    (is_int64 d.computed_posted_debits && is_int64 d.computed_posted_credits)
    && (is_int64 d.computed_pending_debits && is_int64 d.computed_pending_credits)

-- VerifyBalances
unfoldable pub verify_balances : ℕ → ℕ → Method (List BalanceDiscrepancy)
verify_balances tenant ledger = with_tenant_tx tenant (
    gets (find_ledger ledger) >>= λ row. or_raise row not_found >>= λ found.
    gets (verify_account_balances ledger) >>= λ ds.
    raise_if (not (all fits_bigint ds)) bad_value >> pure ds)
