-- ===== src/Store/DoubleEntry.antt =====
-- The check of the double entry at COMMIT, check_transaction_balance of migration 0003.
use ledgercore.Base.{
  ℕ, ◌≤◌, ◌==◌, ◌≡◌, refl, ◌∙◌, sym, ap, subst, Bool, true, false, List, [], ◌∷◌, map, some, Text,
  text_eq, text_eq→eq, pos, eqb_ℤ_iff, ltb, length, any, all, find?, Bool-cases, inl, inr, arith,
  ok, err-ne-ok, zero-+ℤ,
}
use ledgercore.Domain.{Posting, Transaction, posted}
use ledgercore.Domain.Balanced.{debits_in, credits_in}
use ledgercore.Store.{Db}
use ledgercore.Store.Rows.{
  posting_of, rows_of, row_of, find_transaction, is_effective, balanced_under,
  check_transaction_balance,
}
use ledgercore.Store.Invariant.{find_added}
use ledgercore.Store.Steps.{insert_transaction-ok}
use ledgercore.Store.Consistency.{write_transaction-Written}
use ledgercore.Store.Race.{Written-frame}
use ledgercore.Store.Replay.{with_idempotency-write}
use ledgercore.Store.Transactions.{
  CanonicalTransaction, canonical_transaction, create_transaction, write_transaction,
}

-- The postings of a transaction in the tables.
abbrev pub stored_postings : ℕ → Db → List Posting
stored_postings id db = map posting_of (rows_of id db)

-- Two postings at least, and equal sums under every asset code.
abbrev pub IsDoubleEntry : List Posting → Type 0
IsDoubleEntry ps = (2 ≤ length ps) × ((c : Text) → debits_in c ps ≡ credits_in c ps)

abbrev has_code : Text → List Posting → Bool
has_code c ps = any (λ p. text_eq p.amount.asset c) ps

under_code :
    (ps qs : List Posting) (c : Text)
    → all (λ p. balanced_under ps p.amount.asset) qs ≡ true
    → has_code c qs ≡ true
    → debits_in c ps ≡ credits_in c ps
under_code ps [] c h k = cc
under_code ps (q ∷ qs) c h k = elim (Bool-cases (text_eq q.amount.asset c)) [
  | inl own ↦
      let same : q.amount.asset ≡ c = text_eq→eq q.amount.asset c own in
      let here : balanced_under ps q.amount.asset ≡ true = ground arith in
      subst (λ a. debits_in a ps ≡ credits_in a ps) same
        ((eqb_ℤ_iff (debits_in q.amount.asset ps) (credits_in q.amount.asset ps)).0 here)
  | inr other ↦ under_code ps qs c (ground arith) (rw other at k)
]

without_code :
    (ps : List Posting) (c : Text)
    → has_code c ps ≡ false
    → (debits_in c ps ≡ pos 0) × (credits_in c ps ≡ pos 0)
unfolding debits_in credits_in
without_code [] c h = (refl, refl)
without_code (p ∷ ps) c h =
    let other : text_eq p.amount.asset c ≡ false = ground arith in
    let rest = without_code ps c (ground arith) in
    (rw other (zero-+ℤ (debits_in c ps) ∙ rest.0), rw other (zero-+ℤ (credits_in c ps) ∙ rest.1))

every_code :
    (ps : List Posting)
    → all (λ p. balanced_under ps p.amount.asset) ps ≡ true
    → (c : Text) → debits_in c ps ≡ credits_in c ps
every_code ps h c = elim (Bool-cases (has_code c ps)) [
  | inl there ↦ under_code ps ps c h there
  | inr absent ↦ let none_there = without_code ps c absent in none_there.0 ∙ sym none_there.1
]

-- What the check lets pass.
pub check_transaction_balance-IsDoubleEntry :
    (id : ℕ) (t : Transaction) (db db' : Db)
    → find_transaction id db ≡ some t
    → is_effective t.status ≡ true
    → check_transaction_balance id db ≡ ok (tt, db')
    → IsDoubleEntry (stored_postings id db)
unfolding check_transaction_balance
check_transaction_balance-IsDoubleEntry id t db db' found firm e =
    elim (Bool-cases (ltb (length (stored_postings id db)) 2)) [
      | inl few ↦ absurd (err-ne-ok (rw (found, firm, few, check_transaction_balance) at e))
      | inr enough ↦
          elim (Bool-cases (
            all (λ p. balanced_under (stored_postings id db) p.amount.asset)
              (stored_postings id db))) [
                | inl each ↦ (ground arith, every_code (stored_postings id db) each)
                | inr unequal ↦
                    absurd (
                      err-ne-ok (rw (found, firm, enough, unequal, check_transaction_balance) at e))
              ]
    ]

-- A posted transaction that CreateTransaction reports as new stands in the tables with two postings
-- at least, and with equal sums of debits and credits under every asset code, over the exact
-- integers.
pub create_transaction-IsDoubleEntry :
    (hash_transaction : CanonicalTransaction → Text) (others : Db → Db) (t : Transaction)
    (db db' : Db) {v : Transaction}
    → t.status ≡ posted
    → create_transaction hash_transaction others t db ≡ (ok (v, false), db')
    → IsDoubleEntry (stored_postings t.id db')
unfolding create_transaction find_transaction
create_transaction-IsDoubleEntry hash_transaction others t db db' st e =
    let hash = hash_transaction (canonical_transaction t) in
    let (wrote, _) =
      with_idempotency-write t.tenant_id t.idempotency_key hash others (write_transaction t hash) db
        db' e in
    let (w, _) = write_transaction-Written t hash (others db) db' wrote in
    let (_, rows) = Written-frame t hash (others db) db' w in
    let (_, fresh, _) = insert_transaction-ok t (others db) w.middle w.inserted in
    check_transaction_balance-IsDoubleEntry t.id (row_of t) db' db'
      (ap (λ ts. find? (λ (r : Transaction). r.id == t.id) ts) rows
        ∙ find_added (others db).transactions t fresh)
      (ap is_effective st) w.checked
