-- ===== src/Store/Invariant.antt =====
-- The invariant that ties account_balances to the postings, and new transactions against it.
pub mod Updates
use ledgercore.Base.{
  map-perm, All-perm, ℕ, ◌==◌, ◌≡◌, refl, ◌∙◌, sym, ap, subst, Bool, true, false, not, ◌&&◌, ◌||◌,
  List, [], ◌∷◌, ◌++◌, map, Option, none, some, Text, text_eq, ℤ, pos, ◌+ℤ◌, ◌-ℤ◌, find?, any, All,
  All-append, select, if◌then◌else◌, Bool-cases, inl, inr, arith, int_laws, Result, ok, err,
  sort_by, sort_by-perm,
}
use ledgercore.Domain.{
  Posting, Transaction, TransactionStatus, Balance, draft, posted, reversed, other_status,
  valid_direction,
}
use ledgercore.Domain.Reversal.{is_set}
use ledgercore.Store.{PostingRow, BalanceRow, Db}
use ledgercore.Store.Rows.{posting_of, posting_row, row_of, row_before, is_effective, update_rows}
use ledgercore.Store.Balances.{
  balance_of, is_row, upsert_posted_balance, upsert_pending_balance, move_pending_to_posted,
  apply_balances,
}
use ledgercore.Store.Balances.Effects.{Shift}
use ledgercore.Store.Balances.Columns.{to_posted, to_pending, promoted}
use ledgercore.Store.Balances.Statements.{
  upsert_posted-IsStatement, upsert_pending-IsStatement, move_pending-IsStatement,
}
use ledgercore.Store.Balances.Apply.{
  apply_balances-SumShift, apply_balances-keeps, apply_balances-rows,
}
use ledgercore.Store.Sums.{
  Sides, ◌+ₛ◌, no_sides, +ₛ_zero, sums, sums-nil, sums-append, sums-sorted, sums-split,
}
use ledgercore.Store.Statuses.{
  find_in, in_status, Owned, counted, find_kept, Owned-append, counted-new_transactions,
  counted-new_postings, changed, Owned-changed, in_status-changed,
}

abbrev pub is_draft : TransactionStatus → Bool
is_draft draft = true
is_draft s = false

abbrev pub posted_sides : Balance → Sides
posted_sides b = (b.posted_debits, b.posted_credits)

abbrev pub pending_sides : Balance → Sides
pending_sides b = (b.pending_debits, b.pending_credits)

abbrev pub Rowed : List BalanceRow → List PostingRow → Type 0
Rowed balances rows = All (λ r. any (is_row r.account_id r.asset) balances ≡ true) rows

-- Every posting belongs to a transaction, has a direction and a balance row; the posted columns of
-- each account under each asset code are the sums of the postings of the posted and the reversed
-- transactions, and the pending columns are those of the drafts.
pub record Agree (ts : List Transaction) (rows : List PostingRow) (balances : List BalanceRow)
    : Type 0 where
  pub owned : Owned ts rows
  pub directed : All (λ r. valid_direction r.direction ≡ true) rows
  pub rowed : Rowed balances rows
  pub posted :
      (account : ℕ) (c : Text)
      → posted_sides (balance_of account c balances) ≡ sums account c (counted is_effective ts rows)
  pub pending :
      (account : ℕ) (c : Text)
      → pending_sides (balance_of account c balances) ≡ sums account c (counted is_draft ts rows)

abbrev pub IsConsistent : Db → Type 0
IsConsistent db = Agree db.transactions db.postings db.balances

counted_created :
    (f : TransactionStatus → Bool) (ts : List Transaction) (rows : List PostingRow)
    (t : Transaction) (ps : List Posting) (account : ℕ) (c : Text)
    → Owned ts rows
    → find_in t.id (ts ++ row_of t ∷ []) ≡ some (row_of t)
    → sums account c (counted f (ts ++ row_of t ∷ []) (rows ++ map (posting_row t) ps))
      ≡ sums account c (counted f ts rows) +ₛ sums account c (if f t.status then ps else [])
counted_created f ts rows t ps account c owned found =
    ap (sums account c) (counted-new_postings f (ts ++ row_of t ∷ []) rows t (row_of t) ps found)
    ∙ ap (λ l. sums account c (l ++ (if f t.status then ps else [])))
        (counted-new_transactions f ts (row_of t ∷ []) rows owned)
    ∙ sums-append account c (counted f ts rows) (if f t.status then ps else [])

pub find_added :
    (ts : List Transaction) (t : Transaction)
    → find_in t.id ts ≡ none
    → find_in t.id (ts ++ row_of t ∷ []) ≡ some (row_of t)
find_added [] t h = let own : (t.id == t.id) ≡ true = ground arith in rw own
find_added (u ∷ us) t h = ground (arith, find_added us t)

rows-Owned :
    (ts : List Transaction) (t : Transaction) (ps : List Posting)
    → find_in t.id ts ≡ some (row_of t)
    → Owned ts (map (posting_row t) ps)
rows-Owned ts t [] found = tt
rows-Owned ts t (p ∷ ps) found = (ap is_set found, rows-Owned ts t ps found)

rows_directed :
    (t : Transaction) (ps : List Posting)
    → All (λ p. valid_direction p.direction ≡ true) ps
    → All (λ r. valid_direction r.direction ≡ true) (map (posting_row t) ps)
rows_directed t [] h = tt
rows_directed t (p ∷ ps) h = (h.0, rows_directed t ps h.1)

rows-Rowed :
    (bs : List BalanceRow) (t : Transaction) (ps : List Posting)
    → All (λ p. any (is_row p.account_id p.amount.asset) bs ≡ true) ps
    → Rowed bs (map (posting_row t) ps)
rows-Rowed bs t [] h = tt
rows-Rowed bs t (p ∷ ps) h = (h.0, rows-Rowed bs t ps h.1)

pub Rowed-kept :
    (bs bs' : List BalanceRow) (rows : List PostingRow)
    → ((account : ℕ) (a : Text)
        → any (is_row account a) bs ≡ true
        → any (is_row account a) bs' ≡ true)
    → Rowed bs rows
    → Rowed bs' rows
Rowed-kept bs bs' [] keeps h = tt
Rowed-kept bs bs' (r ∷ rs) keeps h =
    (keeps r.account_id r.asset h.0, Rowed-kept bs bs' rs keeps h.1)

pub trivially {κ} : (P : Posting → Type κ) (ps : List Posting) → ((p : Posting) → P p) → All P ps
trivially P [] h = tt
trivially P (p ∷ ps) h = (h p, trivially P ps h)

module _ {pd pc nd nc h : ℤ} {b b' : Balance} (s : Shift pd pc nd nc h b b') where
  pub posted_shift : posted_sides b' ≡ posted_sides b +ₛ (pd, pc)
  posted_shift = λ i. (s.posted_debits i, s.posted_credits i)

  pub pending_shift : pending_sides b' ≡ pending_sides b +ₛ (nd, nc)
  pending_shift = λ i. (s.pending_debits i, s.pending_credits i)

-- A new posted transaction with its postings, applied to the posted columns.
pub posted-Agree :
    (t : Transaction) (ps : List Posting) (ts : List Transaction) (rows : List PostingRow)
    (db db' : Db)
    → Agree ts rows db.balances
    → find_in t.id ts ≡ none
    → t.status ≡ posted
    → All (λ p. valid_direction p.direction ≡ true) ps
    → apply_balances upsert_posted_balance ps db ≡ ok (tt, db')
    → Agree (ts ++ row_of t ∷ []) (rows ++ map (posting_row t) ps) db'.balances
posted-Agree t ps ts rows db db' a fresh st valid e =
    let found = find_added ts t fresh in
    let none_needed = trivially (λ p. Unit) ps (λ p. tt) in
    let (same, moved) =
      apply_balances-SumShift to_posted upsert_posted-IsStatement ps db db' valid none_needed e in
    record {
      owned =
          All-append _ rows (map (posting_row t) ps) (Owned-append ts (row_of t ∷ []) rows a.owned)
            (rows-Owned (ts ++ row_of t ∷ []) t ps found);
      directed = All-append _ rows (map (posting_row t) ps) a.directed (rows_directed t ps valid);
      rowed =
          All-append _ rows (map (posting_row t) ps)
            (Rowed-kept db.balances db'.balances rows
              (apply_balances-keeps to_posted upsert_posted-IsStatement ps db db' e) a.rowed)
            (rows-Rowed db'.balances t ps
              (apply_balances-rows to_posted upsert_posted-IsStatement ps db db' none_needed e));
      posted = λ account c.
          posted_shift (moved account c)
          ∙ ap (λ s. s +ₛ sums account c ps) (a.posted account c)
          ∙ sym (counted_created is_effective ts rows t ps account c a.owned found ∙ rw st);
      pending = λ account c.
          pending_shift (moved account c)
          ∙ ap (λ s. s +ₛ no_sides) (a.pending account c)
          ∙ sym (
              counted_created is_draft ts rows t ps account c a.owned found
              ∙ rw st
                  (ap (λ s. sums account c (counted is_draft ts rows) +ₛ s) (sums-nil account c)));
    }

-- A new draft with its postings, applied to the pending columns.
pub draft-Agree :
    (t : Transaction) (ps : List Posting) (ts : List Transaction) (rows : List PostingRow)
    (db db' : Db)
    → Agree ts rows db.balances
    → find_in t.id ts ≡ none
    → t.status ≡ draft
    → All (λ p. valid_direction p.direction ≡ true) ps
    → apply_balances upsert_pending_balance ps db ≡ ok (tt, db')
    → Agree (ts ++ row_of t ∷ []) (rows ++ map (posting_row t) ps) db'.balances
draft-Agree t ps ts rows db db' a fresh st valid e =
    let found = find_added ts t fresh in
    let none_needed = trivially (λ p. Unit) ps (λ p. tt) in
    let (same, moved) =
      apply_balances-SumShift to_pending upsert_pending-IsStatement ps db db' valid none_needed e in
    record {
      owned =
          All-append _ rows (map (posting_row t) ps) (Owned-append ts (row_of t ∷ []) rows a.owned)
            (rows-Owned (ts ++ row_of t ∷ []) t ps found);
      directed = All-append _ rows (map (posting_row t) ps) a.directed (rows_directed t ps valid);
      rowed =
          All-append _ rows (map (posting_row t) ps)
            (Rowed-kept db.balances db'.balances rows
              (apply_balances-keeps to_pending upsert_pending-IsStatement ps db db' e) a.rowed)
            (rows-Rowed db'.balances t ps
              (apply_balances-rows to_pending upsert_pending-IsStatement ps db db' none_needed e));
      posted = λ account c.
          posted_shift (moved account c)
          ∙ ap (λ s. s +ₛ no_sides) (a.posted account c)
          ∙ sym (
              counted_created is_effective ts rows t ps account c a.owned found
              ∙ rw st (
                  ap (λ s. sums account c (counted is_effective ts rows) +ₛ s)
                    (sums-nil account c)));
      pending = λ account c.
          pending_shift (moved account c)
          ∙ ap (λ s. s +ₛ sums account c ps) (a.pending account c)
          ∙ sym (counted_created is_draft ts rows t ps account c a.owned found ∙ rw st);
    }
