-- ===== src/Store/TrialBalance/Balanced.antt =====
-- TrialBalance of services/ledger-core/internal/adapters/postgres/store.go: why the totals of a ledger
-- balance.
use ledgercore.Base.{
  ℕ, ◌==◌, ◌≡◌, refl, sym, ◌∙◌, Bool, true, false, ◌&&◌, List, [], ◌∷◌, map, Option, none, some,
  Text, text_eq, ℤ, pos, ◌+ℤ◌, zero-+ℤ, All-of_mem, All-mem, Distinct, select, total, total-ext,
  one_counts, total-swap, if◌then◌else◌, Bool-cases, Option-cases, inl, inr, arith,
}
use mathlib.Core.List.{Memᴰ}
use ledgercore.Domain.{Account, Posting, Transaction, Direction, debit, credit, other_direction}
use ledgercore.Domain.Balanced.{debits_in, credits_in, debit_of, credit_of}
use ledgercore.Domain.Reversal.{is_set}
use ledgercore.Store.{PostingRow, Db}
use ledgercore.Store.Rows.{posting_of, find_account, find_transaction, is_effective}
use ledgercore.Store.Statuses.{Owned, find_in}
use ledgercore.Store.DoubleEntry.{IsDoubleEntry, stored_postings}
use ledgercore.Store.Reports.{is_debit, is_credit, account_of_ledger, in_ledger}
use ledgercore.Store.TrialBalance.Grouped.{amount_in}

-- Transactions have distinct ids, every posting has its transaction and stands on an account of its
-- ledger, and the postings of every posted or reversed transaction are a double entry.
pub record IsBooked (db : Db) : Type 0 where
  pub distinct : Distinct (map (λ (t : Transaction). t.id) db.transactions)
  pub owned : Owned db.transactions db.postings
  pub at_home :
      (t : Transaction) (r : PostingRow)
      → find_in r.transaction_id db.transactions ≡ some t
      → Memᴰ r db.postings
      → in_ledger t.ledger_id db r.account_id ≡ true
  pub entries :
      (t : Transaction)
      → Memᴰ t db.transactions
      → is_effective t.status ≡ true
      → IsDoubleEntry (stored_postings t.id db)

same_ledger :
    (l m : ℕ) (o : Option Account) → account_of_ledger l o ≡ true → account_of_ledger m o ≡ (l == m)
same_ledger l m none h = cc
same_ledger l m (some a) h = ground (arith, h)

-- The postings of one transaction, on one side.
module _ (c : Text) (side : Direction → Bool) (side_of : Direction → ℤ → ℤ)
    (side-of : (d : Direction) (n : ℤ) → (if side d then n else pos 0) ≡ side_of d n)
    (sums : List Posting → ℤ) (sums-nil : sums [] ≡ pos 0)
    (sums-cons : (p : Posting) (ps : List Posting)
      → sums (p ∷ ps)
        ≡ (if text_eq p.amount.asset c then side_of p.direction p.amount.units else pos 0)
          +ℤ sums ps)
    (counts : Bool) (id : ℕ) where
  abbrev part : PostingRow → ℤ
  part r =
      if id == r.transaction_id
      then (if counts && (text_eq r.asset c && side r.direction) then r.amount else pos 0)
      else pos 0

  abbrev whole : List PostingRow → ℤ
  whole rows =
      if counts then sums (map posting_of (select (λ r. r.transaction_id == id) rows)) else pos 0

  part-own :
      (r : PostingRow)
      → (if text_eq r.asset c && side r.direction then r.amount else pos 0)
        ≡ (if text_eq r.asset c then side_of r.direction r.amount else pos 0)
  part-own r = elim (Bool-cases (text_eq r.asset c)) [
    | inl e ↦ rw e (side-of r.direction r.amount)
    | inr e ↦ rw e refl
  ]

  pub part-total : (rows : List PostingRow) → total part rows ≡ whole rows
  unfolding total
  part-total [] = elim (Bool-cases counts) [ inl k ↦ rw k (sym sums-nil) | inr k ↦ rw k refl ]
  part-total (r ∷ rs) = elim (Bool-cases (id == r.transaction_id)) [
    | inl own ↦
        let own' : (r.transaction_id == id) ≡ true = ground (arith, own) in
        elim (Bool-cases counts) [
          | inl k ↦
              let rest : total part rs
                  ≡ sums (map posting_of (select (λ r. r.transaction_id == id) rs)) =
                part-total rs ∙ rw k refl in
              rw (own, own', k) ((λ i. part-own r i +ℤ rest i) ∙ sym (sums-cons (posting_of r) _))
          | inr k ↦ rw (own, own', k) (zero-+ℤ (total part rs) ∙ part-total rs ∙ rw k refl)
        ]
    | inr other ↦
        let other' : (r.transaction_id == id) ≡ false = ground (arith, other) in
        rw (other, other') (zero-+ℤ (total part rs) ∙ part-total rs)
  ]

debit-of : (d : Direction) (n : ℤ) → (if is_debit d then n else pos 0) ≡ debit_of d n
debit-of debit n = refl
debit-of credit n = refl
debit-of (other_direction t) n = refl

credit-of : (d : Direction) (n : ℤ) → (if is_credit d then n else pos 0) ≡ credit_of d n
credit-of debit n = refl
credit-of credit n = refl
credit-of (other_direction t) n = refl

-- The postings of the transactions that pass a test, which only posted and reversed ones pass.
module _ (db : Db) (booked : IsBooked db) (ledger : ℕ) (c : Text) (test : Transaction → Bool)
    (passes : Option Transaction → Bool)
    (passes-some : (t : Transaction) → passes (some t) ≡ test t)
    (firm : (t : Transaction) → test t ≡ true → is_effective t.status ≡ true) where
  abbrev counts_in : Transaction → Bool
  counts_in t = (t.ledger_id == ledger) && test t

  -- What a transaction counts under the asset code, on one side.
  abbrev share : (Direction → Bool) → Transaction → PostingRow → ℤ
  share side t r =
      if counts_in t && (text_eq r.asset c && side r.direction) then r.amount else pos 0

  abbrev pub is_counted : PostingRow → Bool
  is_counted r = in_ledger ledger db r.account_id && passes (find_transaction r.transaction_id db)

  debits-part :
      (t : Transaction)
      → total
          (λ (r : PostingRow). if t.id == r.transaction_id then share is_debit t r else pos 0)
          db.postings
        ≡ (if counts_in t then debits_in c (stored_postings t.id db) else pos 0)
  unfolding debits_in
  debits-part t =
      part-total c is_debit debit_of debit-of (debits_in c) refl (λ p ps. refl) (counts_in t) t.id
        db.postings

  credits-part :
      (t : Transaction)
      → total
          (λ (r : PostingRow). if t.id == r.transaction_id then share is_credit t r else pos 0)
          db.postings
        ≡ (if counts_in t then credits_in c (stored_postings t.id db) else pos 0)
  unfolding credits_in
  credits-part t =
      part-total c is_credit credit_of credit-of (credits_in c) refl (λ p ps. refl) (counts_in t)
        t.id db.postings

  -- Each posting counts in the share of its transaction, and in no other.
  posting-share :
      (side : Direction → Bool) (r : PostingRow)
      → Memᴰ r db.postings
      → amount_in is_counted side c r
        ≡ total
            (λ (t : Transaction). if t.id == r.transaction_id then share side t r else pos 0)
            db.transactions
  unfolding find_transaction
  posting-share side r m = elim (Option-cases (find_in r.transaction_id db.transactions)) [
    | inl missing ↦
        let has : is_set (find_in r.transaction_id db.transactions) ≡ true =
          All-mem (λ (r : PostingRow). is_set (find_in r.transaction_id db.transactions) ≡ true)
            db.postings booked.owned m in
        absurd (ground (arith, has, missing))
    | inr (t, found) ↦
        let here : in_ledger ledger db r.account_id ≡ (t.ledger_id == ledger) =
          same_ledger t.ledger_id ledger (find_account r.account_id db)
            (booked.at_home t r found m) in
        rw (here, found, passes-some t) refl
        ∙ sym (
            one_counts (λ (t : Transaction). t.id) (λ t. share side t r) r.transaction_id
              db.transactions {y = t} found booked.distinct)
  ]

  shares :
      (side : Direction → Bool)
      → total (amount_in is_counted side c) db.postings
        ≡ total
            (λ (t : Transaction).
              total
                (λ (r : PostingRow). if t.id == r.transaction_id then share side t r else pos 0)
                db.postings)
            db.transactions
  shares side =
      total-ext (amount_in is_counted side c) _ db.postings
        (All-of_mem _ db.postings (λ r m. posting-share side r m))
      ∙ sym (
          total-swap
            (λ (t : Transaction) (r : PostingRow).
              if t.id == r.transaction_id then share side t r else pos 0)
            db.transactions db.postings)

  even_share :
      (t : Transaction)
      → Memᴰ t db.transactions
      → (if counts_in t then debits_in c (stored_postings t.id db) else pos 0)
        ≡ (if counts_in t then credits_in c (stored_postings t.id db) else pos 0)
  even_share t m = elim (Bool-cases (counts_in t)) [
    | inl e ↦ rw e ((booked.entries t m (firm t (ground (arith, e)))).1 c)
    | inr e ↦ rw e refl
  ]

  pub even_postings :
      total (amount_in is_counted is_debit c) db.postings
      ≡ total (amount_in is_counted is_credit c) db.postings
  even_postings =
      shares is_debit
      ∙ total-ext _ _ db.transactions (
          All-of_mem _ db.transactions
            (λ t m. debits-part t ∙ even_share t m ∙ sym (credits-part t)))
      ∙ sym (shares is_credit)
