-- ===== src/Store/TrialBalance/Current.antt =====
-- TrialBalance of services/ledger-core/internal/adapters/postgres/store.go: the rows from
-- account_balances have the sums of the postings.
use ledgercore.Base.{
  ℕ, ==_iff, ==_self, ◌≡◌, refl, sym, ap, ◌∙◌, subst, Bool, true, false, ◌&&◌, List, [], ◌∷◌, map,
  some, Text, text_eq, text_eq→eq, text_eq_self, ℤ, pos, ◌+ℤ◌, zero-+ℤ, any, find?, All-of_mem,
  All-mem, mem-map, select, total, total-ext, total-map, total-perm, if◌then◌else◌, Bool-cases, inl,
  inr, arith, sort_by, sort_by-perm,
}
use mathlib.Core.List.{Memᴰ}
use ledgercore.Domain.{Balance, Direction}
use ledgercore.Store.{PostingRow, BalanceRow, Db}
use ledgercore.Store.Rows.{find_transaction, is_effective}
use ledgercore.Store.Balances.{is_row}
use ledgercore.Store.Invariant.{IsConsistent}
use ledgercore.Store.Reports.{
  is_debit, is_credit, in_ledger, status_passes, sum_where, of_key, recomputed, stored, stored_row,
  same_key, once,
}
use ledgercore.Store.Verifier.{posted_debits_agree, posted_credits_agree}
use ledgercore.Store.TrialBalance.{
  TrialBalanceRow, posting_key, balance_key, by_path, current_row, current_rows,
}
use ledgercore.Store.TrialBalance.Totals.{under}
use ledgercore.Store.TrialBalance.Grouped.{any-mem, amount_in, group, listed-total}
use ledgercore.Store.TrialBalance.Balanced.{IsBooked, even_postings}

-- The primary key of account_balances.
abbrev pub DistinctKeys : List (ℕ × Text) → Type 0
DistinctKeys [] = Unit
DistinctKeys (k ∷ ks) = (any (same_key k) ks ≡ false) × DistinctKeys ks

once_distinct : (ks : List (ℕ × Text)) → DistinctKeys ks → once ks ≡ ks
unfolding once
once_distinct [] d = refl
once_distinct (k ∷ ks) d = rw (d.0) (ap (λ l. k ∷ l) (once_distinct ks d.1))

row-key : (k : ℕ × Text) (b : BalanceRow) → is_row k.0 k.1 b ≡ true → k ≡ balance_key b
row-key k b h =
    let number : b.account_id ≡ k.0 = (==_iff b.account_id k.0).0 (ground (arith, h)) in
    let code : b.balance.asset ≡ k.1 = text_eq→eq b.balance.asset k.1 (ground (arith, h)) in
    λ i. (sym number i, sym code i)

self_row : (b : BalanceRow) → is_row b.account_id b.balance.asset b ≡ true
self_row b = ground (arith, ==_self b.account_id, text_eq_self b.balance.asset)

-- Under the primary key, the row of a key is found.
own_row :
    (b : BalanceRow) (bs : List BalanceRow)
    → DistinctKeys (map balance_key bs)
    → Memᴰ b bs
    → find? (is_row b.account_id b.balance.asset) bs ≡ some b
own_row b [] d m = elim m [ ]
own_row b (x ∷ bs) d (Memᴰ.head e) =
    subst (λ y. find? (is_row b.account_id b.balance.asset) (y ∷ bs) ≡ some b) e
      (rw (self_row b) refl)
own_row b (x ∷ bs) d (Memᴰ.tail m) = elim (Bool-cases (is_row b.account_id b.balance.asset x)) [
  | inl e ↦
      let listed : any (same_key (balance_key b)) (map balance_key bs) ≡ true =
        any-mem (balance_key b) (map balance_key bs) (mem-map balance_key bs m) in
      let again : any (same_key (balance_key x)) (map balance_key bs) ≡ true =
        ap (λ k. any (same_key k) (map balance_key bs)) (sym (row-key (balance_key b) x e))
        ∙ listed in
      absurd (ground (arith, again, d.0))
  | inr e ↦ rw e (own_row b bs d.1 m)
]

listed_row :
    (k : ℕ × Text) (bs : List BalanceRow)
    → any (is_row k.0 k.1) bs ≡ true
    → any (same_key k) (map balance_key bs) ≡ true
listed_row k [] h = h
listed_row k (b ∷ bs) h = elim (Bool-cases (is_row k.0 k.1 b)) [
  | inl e ↦
      let same : same_key k (balance_key b) ≡ true =
        subst (λ l. same_key k l ≡ true) (row-key k b e)
          (ground (arith, ==_self k.0, text_eq_self k.1)) in
      ground (arith, same)
  | inr e ↦ ground (arith, e, h, listed_row k bs)
]

total-select :
    {A : Type 0} (f : A → ℤ) (q : A → Bool) (xs : List A)
    → total f (select q xs) ≡ total (λ x. if q x then f x else pos 0) xs
unfolding total
total-select f q [] = refl
total-select f q (x ∷ xs) = elim (Bool-cases (q x)) [
  | inl e ↦ rw e (ap (λ n. f x +ℤ n) (total-select f q xs))
  | inr e ↦ rw e (total-select f q xs ∙ sym (zero-+ℤ (total (λ x. if q x then f x else pos 0) xs)))
]

module _ (db : Db) (ledger : ℕ) (side : Direction → Bool) where
  abbrev pub is_posted : PostingRow → Bool
  is_posted r =
      in_ledger ledger db r.account_id
      && status_passes is_effective (find_transaction r.transaction_id db)

  -- The group of an account of the ledger is what the verifier recomputes.
  ledger_group :
      (account : ℕ) (asset : Text) (rows : List PostingRow)
      → sum_where (λ r. is_posted r && of_key account asset r && side r.direction) rows ≡ (
          if in_ledger ledger db account
          then sum_where
              (λ (r : PostingRow).
                of_key account asset r
                && side r.direction
                && status_passes is_effective (find_transaction r.transaction_id db))
              rows
          else pos 0)
  unfolding sum_where
  ledger_group account asset [] = ground arith
  ledger_group account asset (r ∷ rs) = elim (Bool-cases (of_key account asset r)) [
    | inl e ↦
        let number : r.account_id ≡ account = (==_iff r.account_id account).0 (ground (arith, e)) in
        let here : in_ledger ledger db r.account_id ≡ in_ledger ledger db account =
          ap (in_ledger ledger db) number in
        ground (arith, e, here, ledger_group account asset rs)
    | inr e ↦ ground (arith, e, ledger_group account asset rs)
  ]

  -- What the rows of the ledger have in a column that agrees with the postings.
  column_sum :
      (c : Text) (col : Balance → ℤ)
      → DistinctKeys (map balance_key db.balances)
      → ((account : ℕ) (asset : Text)
          → recomputed is_effective side account asset db
            ≡ stored col (stored_row account asset db))
      → total
          (λ (b : BalanceRow).
            if in_ledger ledger db b.account_id
            then (if text_eq b.balance.asset c then col b.balance else pos 0)
            else pos 0)
          db.balances
        ≡ total (λ (b : BalanceRow). group is_posted side c db.postings (balance_key b)) db.balances
  column_sum c col distinct agrees = total-ext _ _ db.balances (
      All-of_mem _ db.balances λ b m.
        let row : stored_row b.account_id b.balance.asset db ≡ some b =
          own_row b db.balances distinct m in
        let value : recomputed is_effective side b.account_id b.balance.asset db ≡ col b.balance =
          agrees b.account_id b.balance.asset ∙ ap (stored col) row in
        let grouped = ledger_group b.account_id b.balance.asset db.postings in
        elim (Bool-cases (text_eq b.balance.asset c)) [
          | inl e ↦ rw (e, grouped, value) refl
          | inr e ↦ elim (Bool-cases (in_ledger ledger db b.account_id)) [
            | inl f ↦ rw (e, f) refl
            | inr f ↦ rw (e, f) refl
          ]
        ])

  pub current-total :
      (c : Text) (d : TrialBalanceRow → ℤ) (col : Balance → ℤ)
      → ((b : BalanceRow) → d (current_row db b) ≡ col b.balance)
      → IsConsistent db
      → DistinctKeys (map balance_key db.balances)
      → ((account : ℕ) (asset : Text)
          → recomputed is_effective side account asset db
            ≡ stored col (stored_row account asset db))
      → total (under c d) (current_rows ledger db) ≡ total (amount_in is_posted side c) db.postings
  unfolding current_rows
  current-total c d col d-row agree distinct agrees =
      let own : BalanceRow → Bool = λ b. in_ledger ledger db b.account_id in
      let before : BalanceRow → BalanceRow → Bool =
        λ b e. by_path db (balance_key b) (balance_key e) in
      let value : BalanceRow → ℤ =
        λ b. if text_eq b.balance.asset c then col b.balance else pos 0 in
      total-map (under c d) (current_row db) (sort_by before (select own db.balances))
      ∙ ap (λ f. total f (sort_by before (select own db.balances)))
          (λ i b. if text_eq b.balance.asset c then d-row b i else pos 0)
      ∙ sym (total-perm value (sort_by-perm before (select own db.balances)))
      ∙ total-select value own db.balances
      ∙ column_sum c col distinct agrees
      ∙ sym (total-map (group is_posted side c db.postings) balance_key db.balances)
      ∙ ap (total (group is_posted side c db.postings))
          (sym (once_distinct (map balance_key db.balances) distinct))
      ∙ listed-total is_posted side c db.postings (map balance_key db.balances) (λ r m passes.
        listed_row (posting_key r) db.balances (
          All-mem (λ (r : PostingRow). any (is_row r.account_id r.asset) db.balances ≡ true)
            db.postings agree.rowed m))

-- The two sides of the rows under an asset code have the same sum.
pub current-even :
    (db : Db) (ledger : ℕ) (c : Text)
    → IsBooked db
    → IsConsistent db
    → DistinctKeys (map balance_key db.balances)
    → total (under c (λ r. r.debits)) (current_rows ledger db)
      ≡ total (under c (λ r. r.credits)) (current_rows ledger db)
current-even db ledger c booked agree distinct =
    current-total db ledger is_debit c (λ r. r.debits) (λ b. b.posted_debits) (λ b. refl) agree
      distinct (posted_debits_agree db agree)
    ∙ even_postings db booked ledger c (λ t. is_effective t.status) (status_passes is_effective)
        (λ t. refl) (λ t h. h)
    ∙ sym (
        current-total db ledger is_credit c (λ r. r.credits) (λ b. b.posted_credits) (λ b. refl)
          agree distinct (posted_credits_agree db agree))
