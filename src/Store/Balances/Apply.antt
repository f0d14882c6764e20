-- ===== src/Store/Balances/Apply.antt =====
-- What applyBalances and promoteBalances do to every balance, against the sums of the postings.
use ledgercore.Base.{
  ℕ, ◌≡◌, refl, ◌∙◌, sym, ap, true, List, [], ◌∷◌, Text, text_eq→eq, ℤ, pos, ◌+ℤ◌, ◌-ℤ◌, any, All,
  ok, ok-injective, if◌then◌else◌, Bool-cases, inl, inr, int_laws, arith, +ℤ_zero, +ℤ_assoc,
}
use ledgercore.Domain.{Posting, Balance, Direction, debit, credit, other_direction, valid_direction}
use ledgercore.Domain.Balanced.{debit_of, credit_of}
use ledgercore.Store.{Db, tx-ok}
use ledgercore.Store.Balances.{
  is_row, balance_of, Statement, apply_balances, debit_credit, debit_credit_of,
}
use ledgercore.Store.Balances.Columns.{
  matches, debits_at, credits_at, debits_at-cons, credits_at-cons, debits_at-nil, credits_at-nil,
  Columns, on_posted, on_pending, ColumnShift, SameTables, HasRow, IsStatement, no_change,
  to_posted, to_pending, promoted,
}

-- The sums that a list of postings puts on an account under an asset code.
abbrev pub SumShift : Columns → ℕ → Text → List Posting → Balance → Balance → Type 0
SumShift k account c ps = ColumnShift k (debits_at account c ps) (credits_at account c ps)

-- debitCredit against the sides of a valid direction.
debit_credit_sides :
    (d : Direction) (n : ℤ)
    → valid_direction d ≡ true
    → ((debit_credit_of d n).0 ≡ debit_of d n) × ((debit_credit_of d n).1 ≡ credit_of d n)
unfolding valid_direction
debit_credit_sides debit n h = (refl, refl)
debit_credit_sides credit n h = (refl, refl)
debit_credit_sides (other_direction t) n h = cc

minus_zero : pos 0 -ℤ pos 0 ≡ pos 0
minus_zero = omega int_laws

no_shift : (k : Columns) (b : Balance) → ColumnShift k (pos 0) (pos 0) b b
no_shift to_posted b = ground (
  arith,
  +ℤ_zero b.posted_debits,
  +ℤ_zero b.posted_credits,
  +ℤ_zero b.pending_debits,
  +ℤ_zero b.pending_credits,
  +ℤ_zero b.held,
)
no_shift to_pending b = ground (
  arith,
  +ℤ_zero b.posted_debits,
  +ℤ_zero b.posted_credits,
  +ℤ_zero b.pending_debits,
  +ℤ_zero b.pending_credits,
  +ℤ_zero b.held,
)
no_shift promoted b = ground (
  arith,
  +ℤ_zero b.posted_debits,
  +ℤ_zero b.posted_credits,
  +ℤ_zero b.held,
  minus_zero,
  +ℤ_zero b.pending_debits,
  +ℤ_zero b.pending_credits,
)

add_right : (a b c x y : ℤ) → b ≡ a +ℤ x → c ≡ b +ℤ y → c ≡ a +ℤ (x +ℤ y)
add_right a b c x y e f = f ∙ (ap (λ t. t +ℤ y) e ∙ +ℤ_assoc a x y)

on_columns_add :
    (k : Columns) (m n : ℤ)
    → (on_posted k m +ℤ on_posted k n ≡ on_posted k (m +ℤ n))
      × (on_pending k m +ℤ on_pending k n ≡ on_pending k (m +ℤ n))
on_columns_add to_posted m n = (refl, sym no_change)
on_columns_add to_pending m n = (sym no_change, refl)
on_columns_add promoted m n = (refl, omega int_laws)

shift_add :
    (k : Columns) (d c d' c' : ℤ) (b b1 b2 : Balance)
    → ColumnShift k d c b b1
    → ColumnShift k d' c' b1 b2
    → ColumnShift k (d +ℤ d') (c +ℤ c') b b2
shift_add k d c d' c' b b1 b2 s t = record {
  asset = t.asset ∙ s.asset;
  posted_debits = rw (← (on_columns_add k d d').0) (
      add_right b.posted_debits b1.posted_debits b2.posted_debits (on_posted k d) (on_posted k d')
        s.posted_debits t.posted_debits);
  posted_credits = rw (← (on_columns_add k c c').0) (
      add_right b.posted_credits b1.posted_credits b2.posted_credits (on_posted k c)
        (on_posted k c') s.posted_credits t.posted_credits);
  pending_debits = rw (← (on_columns_add k d d').1) (
      add_right b.pending_debits b1.pending_debits b2.pending_debits (on_pending k d)
        (on_pending k d') s.pending_debits t.pending_debits);
  pending_credits = rw (← (on_columns_add k c c').1) (
      add_right b.pending_credits b1.pending_credits b2.pending_credits (on_pending k c)
        (on_pending k c') s.pending_credits t.pending_credits);
  held = t.held ∙ (+ℤ_zero b1.held ∙ s.held);
}

-- A valid posting, as the statement's two arguments: debits and credits.
posting_step :
    (k : Columns) {stmt : Statement} (st : IsStatement k stmt) (p : Posting) (db db' : Db)
    → valid_direction p.direction ≡ true
    → HasRow k p.account_id p.amount.asset db.balances
    → stmt p.account_id p.amount.asset (debit_credit p).0 (debit_credit p).1 db ≡ ok (tt, db')
    → SameTables db db'
      × ((account : ℕ) (c : Text)
          → ColumnShift k
              (if matches account c p then debit_of p.direction p.amount.units else pos 0)
              (if matches account c p then credit_of p.direction p.amount.units else pos 0)
              (balance_of account c db.balances)
              (balance_of account c db'.balances))
posting_step k st p db db' v row e =
    let (same, moved) =
      st.step p.account_id p.amount.asset (debit_credit p).0 (debit_credit p).1 db db' row e in
    let sides = debit_credit_sides p.direction p.amount.units v in
    (
      same,
      λ account c. elim (Bool-cases (matches account c p)) [
        | inl own ↦
            let who : p.account_id ≡ account = ground arith in
            let what : p.amount.asset ≡ c = text_eq→eq p.amount.asset c (ground arith) in
            rw own (rw (← sides.0, ← sides.1) (rw (← who) (rw (← what) moved.0)))
        | inr other ↦
            rw other (rw (moved.1 account c other) (no_shift k (balance_of account c db.balances)))
      ],
    )

-- The rows that a batch needs stay.
row_kept :
    (k : Columns) {stmt : Statement} (st : IsStatement k stmt) (account : ℕ) (a : Text) (d c : ℤ)
    (db db' : Db)
    → stmt account a d c db ≡ ok (tt, db')
    → (other : ℕ) (b : Text) → HasRow k other b db.balances
    → HasRow k other b db'.balances
row_kept to_posted st account a d c db db' e other b h = tt
row_kept to_pending st account a d c db db' e other b h = tt
row_kept promoted st account a d c db db' e other b h = st.present account a d c db db' e other b h

rows_kept :
    (k : Columns) {stmt : Statement} (st : IsStatement k stmt) (account : ℕ) (a : Text) (d c : ℤ)
    (ps : List Posting) (db db' : Db)
    → stmt account a d c db ≡ ok (tt, db')
    → All (λ q. HasRow k q.account_id q.amount.asset db.balances) ps
    → All (λ q. HasRow k q.account_id q.amount.asset db'.balances) ps
rows_kept k st account a d c [] db db' e h = tt
rows_kept k st account a d c (q ∷ qs) db db' e h = (
  row_kept k st account a d c db db' e q.account_id q.amount.asset h.0,
  rows_kept k st account a d c qs db db' e h.1,
)

SameTables-trans : (db db1 db2 : Db) → SameTables db db1 → SameTables db1 db2 → SameTables db db2
SameTables-trans db db1 db2 e f =
    f ∙ ap {A = Db} {B = Db} (λ d. record d { balances = db2.balances }) e

-- The whole batch moves every balance by the sums of the postings, and no other table.
pub apply_balances-SumShift :
    (k : Columns) {stmt : Statement} (st : IsStatement k stmt) (ps : List Posting) (db db' : Db)
    → All (λ p. valid_direction p.direction ≡ true) ps
    → All (λ p. HasRow k p.account_id p.amount.asset db.balances) ps
    → apply_balances stmt ps db ≡ ok (tt, db')
    → SameTables db db'
      × ((account : ℕ) (c : Text)
          → SumShift k account c ps
              (balance_of account c db.balances)
              (balance_of account c db'.balances))
unfolding apply_balances
apply_balances-SumShift k st [] db db' v rows e =
    let same : db ≡ db' = ap (λ (r : (Unit {0}) × Db). r.1) (ok-injective e) in
    (
      rw (← same),
      λ account c. rw (← same) (
          rw (debits_at-nil account c, credits_at-nil account c)
            (no_shift k (balance_of account c db.balances))),
    )
apply_balances-SumShift k {stmt} st (p ∷ ps) db db' v rows e =
    let (db1, one, more) =
      tx-ok {B = Unit {0}} (stmt p.account_id p.amount.asset (debit_credit p).0 (debit_credit p).1)
        (apply_balances stmt ps) db e in
    let first = posting_step k st p db db1 v.0 rows.0 one in
    let rest =
      apply_balances-SumShift k st ps db1 db' v.1
        (rows_kept k st p.account_id p.amount.asset (debit_credit p).0 (debit_credit p).1 ps db db1
          one rows.1)
        more in
    (
      SameTables-trans db db1 db' first.0 rest.0,
      λ account c.
          rw (debits_at-cons account c p ps, credits_at-cons account c p ps)
            (shift_add k
              (if matches account c p then debit_of p.direction p.amount.units else pos 0)
              (if matches account c p then credit_of p.direction p.amount.units else pos 0)
              (debits_at account c ps) (credits_at account c ps) (balance_of account c db.balances)
              (balance_of account c db1.balances) (balance_of account c db'.balances)
              (first.1 account c) (rest.1 account c)),
    )

-- The whole batch keeps every row.
pub apply_balances-keeps :
    (k : Columns) {stmt : Statement} (st : IsStatement k stmt) (ps : List Posting) (db db' : Db)
    → apply_balances stmt ps db ≡ ok (tt, db')
    → (other : ℕ) (b : Text) → any (is_row other b) db.balances ≡ true
    → any (is_row other b) db'.balances ≡ true
unfolding apply_balances
apply_balances-keeps k st [] db db' e other b h =
    let same : db ≡ db' = ap (λ (r : (Unit {0}) × Db). r.1) (ok-injective e) in rw (← same) h
apply_balances-keeps k {stmt} st (p ∷ ps) db db' e other b h =
    let (db1, one, more) =
      tx-ok {B = Unit {0}} (stmt p.account_id p.amount.asset (debit_credit p).0 (debit_credit p).1)
        (apply_balances stmt ps) db e in
    apply_balances-keeps k st ps db1 db' more other b (
      st.present p.account_id p.amount.asset (debit_credit p).0 (debit_credit p).1 db db1 one other
        b h)

-- It leaves a row for every posting.
pub apply_balances-rows :
    (k : Columns) {stmt : Statement} (st : IsStatement k stmt) (ps : List Posting) (db db' : Db)
    → All (λ p. HasRow k p.account_id p.amount.asset db.balances) ps
    → apply_balances stmt ps db ≡ ok (tt, db')
    → All (λ p. any (is_row p.account_id p.amount.asset) db'.balances ≡ true) ps
unfolding apply_balances
apply_balances-rows k st [] db db' rows e = tt
apply_balances-rows k {stmt} st (p ∷ ps) db db' rows e =
    let (db1, one, more) =
      tx-ok {B = Unit {0}} (stmt p.account_id p.amount.asset (debit_credit p).0 (debit_credit p).1)
        (apply_balances stmt ps) db e in
    (
      apply_balances-keeps k st ps db1 db' more p.account_id p.amount.asset (
          st.own p.account_id p.amount.asset (debit_credit p).0 (debit_credit p).1 db db1 rows.0
            one),
      apply_balances-rows k st ps db1 db'
          (rows_kept k st p.account_id p.amount.asset (debit_credit p).0 (debit_credit p).1 ps db
            db1 one rows.1)
          more,
    )
