-- ===== src/Store/Invariant/Updates.antt =====
-- The invariant under a change of the status of a transaction.
use ledgercore.Base.{
  map-perm, All-perm, ℕ, ◌==◌, ◌≡◌, refl, ◌∙◌, sym, ap, Bool, true, false, ◌&&◌, List, [], ◌∷◌, map,
  none, some, ℤ, pos, ◌+ℤ◌, ◌-ℤ◌, any, All, select, Bool-cases, inl, inr, arith, int_laws, ok,
  sort_by, sort_by-perm,
}
use ledgercore.Domain.{
  Posting, Transaction, TransactionStatus, draft, posted, reversed, valid_direction,
}
use ledgercore.Store.{PostingRow, BalanceRow, Db}
use ledgercore.Store.Rows.{posting_of, row_before, is_effective}
use ledgercore.Store.Balances.{balance_of, is_row, move_pending_to_posted, apply_balances}
use ledgercore.Store.Balances.Columns.{promoted, SameTables}
use ledgercore.Store.Balances.Statements.{move_pending-IsStatement}
use ledgercore.Store.Balances.Apply.{apply_balances-SumShift, apply_balances-keeps}
use ledgercore.Store.Sums.{Sides, ◌+ₛ◌, sums, sums-sorted, sums-split}
use ledgercore.Store.Statuses.{
  find_in, in_status, counted, changed, Owned-changed, in_status-changed,
}
use ledgercore.Store.Invariant.{
  Agree, is_draft, pending_sides, posted_shift, pending_shift, Rowed-kept,
}

abbrev pub of_transaction : ℕ → List PostingRow → List PostingRow
of_transaction id = select (λ r. r.transaction_id == id)

-- The postings of one transaction, as they are loaded.
abbrev pub loaded : ℕ → List PostingRow → List Posting
loaded id rows = map posting_of (sort_by row_before (of_transaction id rows))

All-selected {κ} :
    (P : Posting → Type κ) (f : PostingRow → Bool) (rows : List PostingRow)
    → All (λ r. P (posting_of r)) rows
    → All P (map posting_of (select f rows))
All-selected P f [] h = tt
All-selected P f (r ∷ rs) h = elim (Bool-cases (f r)) [
  | inl own ↦ rw own (h.0, All-selected P f rs h.1)
  | inr other ↦ rw other (All-selected P f rs h.1)
]

All-loaded {κ} :
    (P : Posting → Type κ) (id : ℕ) (rows : List PostingRow)
    → All (λ r. P (posting_of r)) rows
    → All P (loaded id rows)
All-loaded P id rows h =
    All-perm P (map-perm posting_of (sort_by-perm row_before (of_transaction id rows)))
      (All-selected P (λ r. r.transaction_id == id) rows h)

back : (x d : ℤ) → (x +ℤ d) +ℤ (pos 0 -ℤ d) ≡ x
back x d = omega int_laws

cancel : (a x d : ℤ) → a ≡ x +ℤ d → a +ℤ (pos 0 -ℤ d) ≡ x
cancel a x d e = ap (λ t. t +ℤ (pos 0 -ℤ d)) e ∙ back x d

cancel_sides : (s x d : Sides) → s ≡ x +ₛ d → s +ₛ (pos 0 -ℤ d.0, pos 0 -ℤ d.1) ≡ x
cancel_sides s x d e = λ i. (
  cancel s.0 x.0 d.0 (ap (λ (t : Sides). t.0) e) i,
  cancel s.1 x.1 d.1 (ap (λ (t : Sides). t.1) e) i,
)

counted_step :
    (ts us : List Transaction) (g : TransactionStatus → Bool) (r : PostingRow)
    (rs : List PostingRow)
    → in_status g us r ≡ in_status g ts r
    → counted g us rs ≡ counted g ts rs
    → counted g us (r ∷ rs) ≡ counted g ts (r ∷ rs)
counted_step ts us g r rs same rest = elim (Bool-cases (in_status g ts r)) [
  | inl counts ↦
      let counts' : in_status g us r ≡ true = same ∙ counts in
      rw (counts, counts') (ap (λ l. posting_of r ∷ l) rest)
  | inr other ↦ let other' : in_status g us r ≡ false = same ∙ other in rw (other, other') rest
]

module _ (id : ℕ) (f : Transaction → Transaction) (ts us : List Transaction)
    (rows : List PostingRow) (row : Transaction) (found : find_in id ts ≡ some row)
    (found' : (other : ℕ) → find_in other us ≡ changed id f other (find_in other ts)) where
  -- PostTransaction: a draft becomes posted, and its postings move from one pair of columns to the other.
  pub promoted-Agree :
      (db db' : Db)
      → Agree ts rows db.balances
      → row.status ≡ draft
      → (f row).status ≡ posted
      → apply_balances move_pending_to_posted (loaded id rows) db ≡ ok (tt, db')
      → Agree us rows db'.balances
  promoted-Agree db db' a was is e =
      let valid = All-loaded (λ p. valid_direction p.direction ≡ true) id rows a.directed in
      let there =
        All-loaded (λ p. any (is_row p.account_id p.amount.asset) db.balances ≡ true) id rows
          a.rowed in
      let (same, moved) =
        apply_balances-SumShift promoted move_pending-IsStatement (loaded id rows) db db' valid
          there e in
      let own = λ (r : PostingRow). r.transaction_id == id in
      let before : (g : TransactionStatus → Bool) (r : PostingRow)
          → own r ≡ true
          → in_status g ts r ≡ g row.status =
        λ g r mine.
          let who : r.transaction_id ≡ id = ground arith in
          ap (λ o. elim o as (λ _. Bool) [ none ↦ false | some t ↦ g t.status ])
            (ap (λ n. find_in n ts) who ∙ found) in
      let after = λ (g : TransactionStatus → Bool) (r : PostingRow).
        in_status-changed g id f ts us r row found' found in
      record {
        owned = Owned-changed id f ts us rows found' a.owned;
        directed = a.directed;
        rowed =
            Rowed-kept db.balances db'.balances rows
              (apply_balances-keeps promoted move_pending-IsStatement (loaded id rows) db db' e)
              a.rowed;
        posted = λ account c.
            posted_shift (moved account c)
            ∙ (λ i. a.posted account c i +ₛ sums-sorted account c (of_transaction id rows) i)
            ∙ sym (
                sums-split account c (in_status is_effective us) (in_status is_effective ts) own
                  rows
                  (λ r. elim (Bool-cases (own r)) [
                    | inl mine ↦ after is_effective r ∙ rw (mine, is) (ground arith)
                    | inr other ↦ after is_effective r ∙ rw other (ground arith)
                  ])
                  (λ r. elim (Bool-cases (own r)) [
                    | inl mine ↦ rw mine (rw (before is_effective r mine) (rw was refl))
                    | inr other ↦ rw other (ground arith)
                  ]));
        pending = λ account c.
            pending_shift (moved account c)
            ∙ cancel_sides (pending_sides (balance_of account c db.balances))
                (sums account c (counted is_draft us rows)) (sums account c (loaded id rows))
                (a.pending account c
                  ∙ sums-split account c (in_status is_draft ts) (in_status is_draft us) own rows
                      (λ r. elim (Bool-cases (own r)) [
                        | inl mine ↦ rw mine (before is_draft r mine ∙ rw was (ground arith))
                        | inr other ↦
                            rw other (sym (after is_draft r ∙ rw other refl) ∙ ground arith)
                      ])
                      (λ r. elim (Bool-cases (own r)) [
                        | inl mine ↦
                            let o : in_status is_draft us r ≡ false =
                              after is_draft r ∙ rw (mine, is) refl in
                            rw mine (ap (λ x. x && true) o)
                        | inr other ↦ rw other (ground arith)
                      ])
                  ∙ ap (λ s. sums account c (counted is_draft us rows) +ₛ s)
                      (sym (sums-sorted account c (of_transaction id rows))));
      }

  counted_same :
      (g : TransactionStatus → Bool)
      → g (f row).status ≡ g row.status
      → (l : List PostingRow) → counted g us l ≡ counted g ts l
  counted_same g kept [] = refl
  counted_same g kept (r ∷ rs) = elim (Bool-cases (r.transaction_id == id)) [
    | inl mine ↦
        let who : r.transaction_id ≡ id = ground arith in
        let old : in_status g ts r ≡ g row.status =
          ap (λ o. elim o as (λ _. Bool) [ none ↦ false | some t ↦ g t.status ])
            (ap (λ n. find_in n ts) who ∙ found) in
        let same : in_status g us r ≡ in_status g ts r =
          in_status-changed g id f ts us r row found' found ∙ rw mine (kept ∙ sym old) in
        counted_step ts us g r rs same (counted_same g kept rs)
    | inr other ↦
        let same : in_status g us r ≡ in_status g ts r =
          in_status-changed g id f ts us r row found' found ∙ rw other refl in
        counted_step ts us g r rs same (counted_same g kept rs)
  ]

  -- ReverseTransaction: a posted transaction becomes reversed, and its postings count as before.
  pub reversed-Agree :
      (balances : List BalanceRow)
      → Agree ts rows balances
      → row.status ≡ posted
      → (f row).status ≡ reversed
      → Agree us rows balances
  reversed-Agree balances a was is = record {
    owned = Owned-changed id f ts us rows found' a.owned;
    directed = a.directed;
    rowed = a.rowed;
    posted = λ account c.
        a.posted account c
        ∙ ap (sums account c)
            (sym (counted_same is_effective (ap is_effective is ∙ sym (ap is_effective was)) rows));
    pending = λ account c.
        a.pending account c
        ∙ ap (sums account c)
            (sym (counted_same is_draft (ap is_draft is ∙ sym (ap is_draft was)) rows));
  }

pub promoted-frame :
    {ts : List Transaction} {rows : List PostingRow} (id : ℕ) (db db' : Db)
    → Agree ts rows db.balances
    → apply_balances move_pending_to_posted (loaded id rows) db ≡ ok (tt, db')
    → SameTables db db'
promoted-frame {ts} {rows} id db db' a e =
    let valid = All-loaded (λ p. valid_direction p.direction ≡ true) id rows a.directed in
    let there =
      All-loaded (λ p. any (is_row p.account_id p.amount.asset) db.balances ≡ true) id rows
        a.rowed in
    (apply_balances-SumShift promoted move_pending-IsStatement (loaded id rows) db db' valid there
      e).0
