-- ===== src/Store/Verifier.antt =====
-- services/ledger-core/internal/adapters/postgres/store.go: VerifyBalances on tables that agree.
use ledgercore.Base.{
  ℕ, ◌==◌, ◌≡◌, refl, sym, ap, ◌∙◌, Bool, true, false, not, ◌&&◌, List, [], ◌∷◌, map, Option, none,
  some, Text, ℤ, pos, ◌+ℤ◌, eqb_ℤ, eqb_ℤ_iff, select, sort_by, if◌then◌else◌, Bool-cases, inl, inr,
  zero-+ℤ, ok,
}
use ledgercore.Domain.{
  Ledger, Transaction, TransactionStatus, draft, posted, reversed, other_status, Direction, debit,
  credit, other_direction, Balance,
}
use ledgercore.Domain.Balanced.{debit_of, credit_of}
use ledgercore.Store.{PostingRow, BalanceRow, Db, with_tenant_tx}
use ledgercore.Store.Rows.{find_ledger, find_transaction, is_effective, posting_of}
use ledgercore.Store.Balances.{balance_of, empty_balance}
use ledgercore.Store.Balances.Columns.{
  debits_at, credits_at, debits_at-cons, credits_at-cons, debits_at-nil, credits_at-nil,
}
use ledgercore.Store.Invariant.{is_draft, IsConsistent}
use ledgercore.Store.Statuses.{find_in, in_status, counted}
use ledgercore.Store.Reports.{
  is_debit, is_credit, is_draft_status, status_passes, sum_where, of_key, recomputed, stored,
  stored_row, compare_key, differs, keys, key_before, verify_account_balances, verify_balances,
}

-- A sum of the report and a sum of the invariant, over the rows that a test passes.
abbrev keyed : (Direction → Bool) → (PostingRow → Bool) → ℕ → Text → PostingRow → Bool
keyed side q account asset r = of_key account asset r && side r.direction && q r

uncounted : (b : Bool) (n s : ℤ) → (if b && false then n else s) ≡ s
uncounted true n s = refl
uncounted false n s = refl

debit_term :
    (d : Direction) (own : Bool) (n s : ℤ)
    → (if own && is_debit d && true then n +ℤ s else s) ≡ (if own then debit_of d n else pos 0) +ℤ s
debit_term d false n s = sym (zero-+ℤ s)
debit_term debit true n s = refl
debit_term credit true n s = sym (zero-+ℤ s)
debit_term (other_direction t) true n s = sym (zero-+ℤ s)

sum-debits :
    (q : PostingRow → Bool) (account : ℕ) (asset : Text) (rows : List PostingRow)
    → sum_where (keyed is_debit q account asset) rows
      ≡ debits_at account asset (map posting_of (select q rows))
unfolding sum_where
sum-debits q account asset [] = sym (debits_at-nil account asset)
sum-debits q account asset (r ∷ rs) =
    let rest = sum-debits q account asset rs in
    elim (Bool-cases (q r)) [
      | inl counts ↦
          rw
            (
              counts,
              debits_at-cons account asset (posting_of r) (map posting_of (select q rs)),
              ← rest,
            )
            (debit_term r.direction (of_key account asset r) r.amount
              (sum_where (keyed is_debit q account asset) rs))
      | inr other ↦ rw other (uncounted (of_key account asset r && is_debit r.direction) _ _ ∙ rest)
    ]

credit_term :
    (d : Direction) (own : Bool) (n s : ℤ)
    → (if own && is_credit d && true then n +ℤ s else s)
      ≡ (if own then credit_of d n else pos 0) +ℤ s
credit_term d false n s = sym (zero-+ℤ s)
credit_term debit true n s = sym (zero-+ℤ s)
credit_term credit true n s = refl
credit_term (other_direction t) true n s = sym (zero-+ℤ s)

sum-credits :
    (q : PostingRow → Bool) (account : ℕ) (asset : Text) (rows : List PostingRow)
    → sum_where (keyed is_credit q account asset) rows
      ≡ credits_at account asset (map posting_of (select q rows))
unfolding sum_where
sum-credits q account asset [] = sym (credits_at-nil account asset)
sum-credits q account asset (r ∷ rs) =
    let rest = sum-credits q account asset rs in
    elim (Bool-cases (q r)) [
      | inl counts ↦
          rw
            (
              counts,
              credits_at-cons account asset (posting_of r) (map posting_of (select q rs)),
              ← rest,
            )
            (credit_term r.direction (of_key account asset r) r.amount
              (sum_where (keyed is_credit q account asset) rs))
      | inr other ↦
          rw other (uncounted (of_key account asset r && is_credit r.direction) _ _ ∙ rest)
    ]

-- The join with the transactions is the status of the row's transaction.
joined-status :
    (f : TransactionStatus → Bool) (db : Db) (r : PostingRow)
    → status_passes f (find_transaction r.transaction_id db) ≡ in_status f db.transactions r
unfolding find_transaction
joined-status f db r = passes (find_in r.transaction_id db.transactions)
  where
    passes :
        (o : Option Transaction)
        → status_passes f o ≡ elim o as (λ _. Bool) [ none ↦ false | some t ↦ f t.status ]
    passes none = refl
    passes (some t) = refl

draft-status : (s : TransactionStatus) → is_draft_status s ≡ is_draft s
draft-status draft = refl
draft-status posted = refl
draft-status reversed = refl
draft-status (other_status t) = refl

recomputed-debits :
    (f : TransactionStatus → Bool) (account : ℕ) (asset : Text) (db : Db)
    → recomputed f is_debit account asset db
      ≡ debits_at account asset (counted f db.transactions db.postings)
recomputed-debits f account asset db =
    ap (λ (q : PostingRow → Bool). sum_where (keyed is_debit q account asset) db.postings)
      (λ i r. joined-status f db r i)
    ∙ sum-debits (in_status f db.transactions) account asset db.postings

recomputed-credits :
    (f : TransactionStatus → Bool) (account : ℕ) (asset : Text) (db : Db)
    → recomputed f is_credit account asset db
      ≡ credits_at account asset (counted f db.transactions db.postings)
recomputed-credits f account asset db =
    ap (λ (q : PostingRow → Bool). sum_where (keyed is_credit q account asset) db.postings)
      (λ i r. joined-status f db r i)
    ∙ sum-credits (in_status f db.transactions) account asset db.postings

stored-balance :
    (column : Balance → ℤ) (account : ℕ) (asset : Text) (db : Db)
    → column (empty_balance asset) ≡ pos 0
    → stored column (stored_row account asset db) ≡ column (balance_of account asset db.balances)
unfolding balance_of
stored-balance column account asset db zero_column = at (stored_row account asset db)
  where
    at :
        (o : Option BalanceRow)
        → stored column o
          ≡ column (elim o as (λ _. Balance) [ none ↦ empty_balance asset | some r ↦ r.balance ])
    at none = sym zero_column
    at (some r) = refl

same_columns : (a b : ℤ) → a ≡ b → not (eqb_ℤ a b) ≡ false
same_columns a b e = ap not ((eqb_ℤ_iff a b).1 e)

-- No key of consistent tables is reported.
module _ (db : Db) (agree : IsConsistent db) (account : ℕ) (asset : Text) where
  pub posted_debits_agree :
      recomputed is_effective is_debit account asset db
      ≡ stored (λ b. b.posted_debits) (stored_row account asset db)
  posted_debits_agree =
      recomputed-debits is_effective account asset db
      ∙ (sym (ap (λ t. t.0) (agree.posted account asset))
          ∙ sym (stored-balance (λ b. b.posted_debits) account asset db refl))

  pub posted_credits_agree :
      recomputed is_effective is_credit account asset db
      ≡ stored (λ b. b.posted_credits) (stored_row account asset db)
  posted_credits_agree =
      recomputed-credits is_effective account asset db
      ∙ (sym (ap (λ t. t.1) (agree.posted account asset))
          ∙ sym (stored-balance (λ b. b.posted_credits) account asset db refl))

  pending_debits_agree :
      recomputed is_draft_status is_debit account asset db
      ≡ stored (λ b. b.pending_debits) (stored_row account asset db)
  pending_debits_agree =
      ap (λ f. recomputed f is_debit account asset db) (λ i s. draft-status s i)
      ∙ (recomputed-debits is_draft account asset db
          ∙ (sym (ap (λ t. t.0) (agree.pending account asset))
              ∙ sym (stored-balance (λ b. b.pending_debits) account asset db refl)))

  pending_credits_agree :
      recomputed is_draft_status is_credit account asset db
      ≡ stored (λ b. b.pending_credits) (stored_row account asset db)
  pending_credits_agree =
      ap (λ f. recomputed f is_credit account asset db) (λ i s. draft-status s i)
      ∙ (recomputed-credits is_draft account asset db
          ∙ (sym (ap (λ t. t.1) (agree.pending account asset))
              ∙ sym (stored-balance (λ b. b.pending_credits) account asset db refl)))

  agrees : differs (compare_key db (account, asset)) ≡ false
  unfolding compare_key
  agrees =
      rw
        (
          same_columns _ _ posted_debits_agree,
          same_columns _ _ posted_credits_agree,
          same_columns _ _ pending_debits_agree,
          same_columns _ _ pending_credits_agree,
        )
        refl

none_differ :
    (db : Db) (ks : List (ℕ × Text))
    → IsConsistent db
    → select differs (map (compare_key db) ks) ≡ []
none_differ db [] agree = refl
none_differ db ((account, asset) ∷ ks) agree =
    rw (agrees db agree account asset) (none_differ db ks agree)

nothing_reported : (ledger : ℕ) (db : Db) → IsConsistent db → verify_account_balances ledger db ≡ []
unfolding verify_account_balances
nothing_reported ledger db agree = none_differ db (sort_by key_before (keys ledger db)) agree

-- On consistent tables VerifyBalances reports no discrepancy, for every tenant but the nil one and
-- every ledger that exists: what it recomputes from the postings is what account_balances holds.
pub verify_balances-empty :
    (tenant ledger : ℕ) (db : Db) (l : Ledger)
    → IsConsistent db
    → (tenant == 0) ≡ false
    → find_ledger ledger db ≡ some l
    → verify_balances tenant ledger db ≡ (ok [], db)
unfolding verify_balances with_tenant_tx
verify_balances-empty tenant ledger db l agree some_tenant found =
    let nothing = nothing_reported ledger db agree in
    rw (some_tenant, found, nothing) (ap (λ ds. (ok ds, db)) nothing)
