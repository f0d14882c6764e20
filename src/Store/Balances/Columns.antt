-- ===== src/Store/Balances/Columns.antt =====
-- The columns that a statement on account_balances moves, and rows that stay.
use ledgercore.Base.{
  ℕ, ◌==◌, ◌≡◌, refl, sym, Bool, true, ◌&&◌, List, [], ◌∷◌, Text, text_eq, ℤ, pos, ◌+ℤ◌, ◌-ℤ◌, any,
  Result, ok, ok-injective, if◌then◌else◌, Bool-cases, inl, inr, arith, zero-+ℤ,
}
use ledgercore.Domain.{Posting, Balance}
use ledgercore.Domain.Balanced.{debit_of, credit_of, debits_in, credits_in}
use ledgercore.Domain.Mirror.{of_account}
use ledgercore.Store.{StoreError, BalanceRow, Db}
use ledgercore.Store.Balances.{is_row, update_balance, Statement, on_balances}
use ledgercore.Store.Balances.Effects.{Shift, Moves, then_bind-ok}

-- What a posting adds to one side of an account under an asset code.
abbrev pub matches : ℕ → Text → Posting → Bool
matches account c p = (p.account_id == account) && text_eq p.amount.asset c

unfoldable pub debits_at : ℕ → Text → List Posting → ℤ
debits_at account c ps = debits_in c (of_account account ps)

unfoldable pub credits_at : ℕ → Text → List Posting → ℤ
credits_at account c ps = credits_in c (of_account account ps)

pub debits_at-cons :
    (account : ℕ) (c : Text) (p : Posting) (ps : List Posting)
    → debits_at account c (p ∷ ps)
      ≡ (if matches account c p then debit_of p.direction p.amount.units else pos 0)
        +ℤ debits_at account c ps
unfolding debits_at debits_in
debits_at-cons account c p ps = elim (Bool-cases (p.account_id == account)) [
  | inl own ↦ rw own
  | inr other ↦ rw other (sym (zero-+ℤ (debits_in c (of_account account ps))))
]

pub credits_at-cons :
    (account : ℕ) (c : Text) (p : Posting) (ps : List Posting)
    → credits_at account c (p ∷ ps)
      ≡ (if matches account c p then credit_of p.direction p.amount.units else pos 0)
        +ℤ credits_at account c ps
unfolding credits_at credits_in
credits_at-cons account c p ps = elim (Bool-cases (p.account_id == account)) [
  | inl own ↦ rw own
  | inr other ↦ rw other (sym (zero-+ℤ (credits_in c (of_account account ps))))
]

pub debits_at-nil : (account : ℕ) (c : Text) → debits_at account c [] ≡ pos 0
unfolding debits_at debits_in
debits_at-nil account c = refl

pub credits_at-nil : (account : ℕ) (c : Text) → credits_at account c [] ≡ pos 0
unfolding credits_at credits_in
credits_at-nil account c = refl

-- The columns that a statement moves.
pub data Columns : Type 0 where
  to_posted to_pending promoted : Columns

abbrev pub on_posted : Columns → ℤ → ℤ
on_posted to_posted n = n
on_posted to_pending n = pos 0
on_posted promoted n = n

abbrev pub on_pending : Columns → ℤ → ℤ
on_pending to_posted n = pos 0
on_pending to_pending n = n
on_pending promoted n = pos 0 -ℤ n

abbrev pub ColumnShift : Columns → ℤ → ℤ → Balance → Balance → Type 0
ColumnShift k d c = Shift (on_posted k d) (on_posted k c) (on_pending k d) (on_pending k c) (pos 0)

-- Nothing but the balances has changed.
abbrev pub SameTables : Db → Db → Type 0
SameTables db db' = db' ≡ record db { balances = db'.balances }

abbrev pub HasRow : Columns → ℕ → Text → List BalanceRow → Type 0
HasRow promoted account a rows = any (is_row account a) rows ≡ true
HasRow k account a rows = Unit

pub on_balances-ok :
    (f : List BalanceRow → Result StoreError (List BalanceRow)) (db db' : Db)
    → on_balances f db ≡ ok (tt, db')
    → SameTables db db' × (f db.balances ≡ ok db'.balances)
on_balances-ok f db db' e = (ground arith, ground arith)

-- One statement of a kind moves the balance under its key, and leaves every row where it was.
pub record IsStatement (k : Columns) (stmt : Statement) : Type 0 where
  pub step :
      (account : ℕ) (a : Text) (d c : ℤ) (db db' : Db)
      → HasRow k account a db.balances
      → stmt account a d c db ≡ ok (tt, db')
      → SameTables db db' × Moves (ColumnShift k d c) account a db.balances db'.balances
  pub present :
      (account : ℕ) (a : Text) (d c : ℤ) (db db' : Db)
      → stmt account a d c db ≡ ok (tt, db')
      → (other : ℕ) (b : Text) → any (is_row other b) db.balances ≡ true
      → any (is_row other b) db'.balances ≡ true
  pub own :
      (account : ℕ) (a : Text) (d c : ℤ) (db db' : Db)
      → HasRow k account a db.balances
      → stmt account a d c db ≡ ok (tt, db')
      → any (is_row account a) db'.balances ≡ true

pub no_change : pos 0 ≡ pos 0 +ℤ pos 0
no_change = sym (zero-+ℤ (pos 0))

pub same_key :
    (other : ℕ) (b : Text) (r : BalanceRow) (n : Balance)
    → n.asset ≡ r.balance.asset
    → is_row other b (record r { balance = n }) ≡ is_row other b r
same_key other b r n e = rw e

-- An update leaves every row under its key.
pub update_present :
    (account : ℕ) (a : Text) (f : Balance → Result StoreError Balance)
    → ((b b' : Balance) → f b ≡ ok b' → b'.asset ≡ b.asset)
    → (other : ℕ) (b : Text) (rows rows' : List BalanceRow)
    → update_balance account a f rows ≡ ok rows'
    → any (is_row other b) rows' ≡ any (is_row other b) rows
unfolding update_balance
update_present account a f keeps other b [] rows' e = rw (← ok-injective e)
update_present account a f keeps other b (r ∷ rs) rows' e = elim (Bool-cases (is_row account a r)) [
  | inl own ↦
      let (n, changed, done) =
        then_bind-ok (f r.balance) (λ n. ok (record r { balance = n } ∷ rs))
          (rw (own, update_balance) at e) in
      rw (← ok-injective done) (rw (same_key other b r n (keeps r.balance n changed)))
  | inr others ↦
      let (us, changed, done) =
        then_bind-ok (update_balance account a f rs) (λ us. ok (r ∷ us))
          (rw (others, update_balance) at e) in
      rw (← ok-injective done) (rw (update_present account a f keeps other b rs us changed))
]
