-- ===== src/Store/Balances.antt =====
-- services/ledger-core/internal/adapters/postgres/store.go: the statements on account_balances.
pub mod Effects
pub mod Columns
pub mod Statements
pub mod Apply
use ledgercore.Base.{
  ℕ, ◌==◌, ◌≡◌, Bool, true, false, not, ◌&&◌, List, [], ◌∷◌, Option, none, some, Text, text_eq, ℤ,
  pos, ◌+ℤ◌, ◌-ℤ◌, is_int64, find?, any, Result, ok, err, if◌then◌else◌,
}
use ledgercore.Domain.{Posting, Balance, Hold, Direction, debit, credit, other_direction}
use ledgercore.Store.{
  StoreError, bad_value, balance_row_missing, BalanceRow, Db, Tx, ◌>>=◌, ◌>>◌, pure, raise_if, gets,
}

-- A BIGINT column takes the result of an addition only if it fits.
abbrev pub bigint : ℤ → Result StoreError ℤ
bigint n = if is_int64 n then ok n else err bad_value

infixl 5 ◌then_bind◌
abbrev pub ◌then_bind◌ {ℓ κ} :
    {A : Type ℓ} {B : Type κ}
    → Result StoreError A
    → (A → Result StoreError B)
    → Result StoreError B
ok a then_bind f = f a
err e then_bind f = err e

abbrev pub empty_balance : Text → Balance
empty_balance a = record {
  asset = a;
  posted_debits = pos 0;
  posted_credits = pos 0;
  pending_debits = pos 0;
  pending_credits = pos 0;
  held = pos 0;
  version = pos 0;
}

abbrev pub is_row : ℕ → Text → BalanceRow → Bool
is_row account a r = r.account_id == account && text_eq r.balance.asset a

-- The balance of an account under an asset code, all zero where it has no row.
unfoldable pub balance_of : ℕ → Text → List BalanceRow → Balance
balance_of account a rows = elim (find? (is_row account a) rows) [
  | none ↦ empty_balance a
  | some r ↦ r.balance
]

-- UPDATE account_balances ... WHERE account_id = ... AND asset = ..., and the same after a conflict.
unfoldable pub update_balance :
    ℕ
    → Text
    → (Balance → Result StoreError Balance)
    → List BalanceRow
    → Result StoreError (List BalanceRow)
update_balance account a f [] = ok []
update_balance account a f (r ∷ rs) =
    let rest = update_balance account a f rs in
    if is_row account a r
    then f r.balance then_bind (λ b. ok (record r { balance = b } ∷ rs))
    else rest then_bind (λ us. ok (r ∷ us))

-- INSERT ... ON CONFLICT (account_id, asset) DO UPDATE: the values of a new row, or the update.
unfoldable pub upsert_balance :
    ℕ
    → Text
    → Balance
    → (Balance → Result StoreError Balance)
    → List BalanceRow
    → Result StoreError (List BalanceRow)
upsert_balance account a new f [] = ok (record { account_id = account; balance = new } ∷ [])
upsert_balance account a new f (r ∷ rs) =
    let rest = upsert_balance account a new f rs in
    if is_row account a r
    then f r.balance then_bind (λ b. ok (record r { balance = b } ∷ rs))
    else rest then_bind (λ us. ok (r ∷ us))

abbrev pub on_balances : (List BalanceRow → Result StoreError (List BalanceRow)) → Tx (Unit {0})
on_balances f db = elim (f db.balances) [
  | ok rows ↦ ok (tt, record db { balances = rows })
  | err e ↦ err e
]

-- upsertPostedBalance.
unfoldable pub add_posted : ℤ → ℤ → Balance → Result StoreError Balance
add_posted d c b = bigint (b.posted_debits +ℤ d) then_bind λ debits.
    bigint (b.posted_credits +ℤ c) then_bind λ credits.
    bigint (b.version +ℤ pos 1) then_bind λ version.
    ok (record b { posted_debits = debits; posted_credits = credits; version = version })

unfoldable pub upsert_posted_balance : ℕ → Text → ℤ → ℤ → Tx (Unit {0})
upsert_posted_balance account a d c = on_balances (
    upsert_balance account a
      (record (empty_balance a) { posted_debits = d; posted_credits = c; version = pos 1 })
      (add_posted d c))

-- upsertPendingBalance.
unfoldable pub add_pending : ℤ → ℤ → Balance → Result StoreError Balance
add_pending d c b = bigint (b.pending_debits +ℤ d) then_bind λ debits.
    bigint (b.pending_credits +ℤ c) then_bind λ credits.
    bigint (b.version +ℤ pos 1) then_bind λ version.
    ok (record b { pending_debits = debits; pending_credits = credits; version = version })

unfoldable pub upsert_pending_balance : ℕ → Text → ℤ → ℤ → Tx (Unit {0})
upsert_pending_balance account a d c = on_balances (
    upsert_balance account a
      (record (empty_balance a) { pending_debits = d; pending_credits = c; version = pos 1 })
      (add_pending d c))

-- movePendingToPosted.
unfoldable pub promote : ℤ → ℤ → Balance → Result StoreError Balance
promote d c b = bigint (b.posted_debits +ℤ d) then_bind λ debits.
    bigint (b.posted_credits +ℤ c) then_bind λ credits.
    bigint (b.pending_debits -ℤ d) then_bind λ pending_d.
    bigint (b.pending_credits -ℤ c) then_bind λ pending_c.
    bigint (b.version +ℤ pos 1) then_bind λ version. ok (record b {
      posted_debits = debits;
      posted_credits = credits;
      pending_debits = pending_d;
      pending_credits = pending_c;
      version = version;
    })

unfoldable pub move_pending_to_posted : ℕ → Text → ℤ → ℤ → Tx (Unit {0})
move_pending_to_posted account a d c = on_balances (update_balance account a (promote d c))

-- The upsert of CreateHold and the update of releaseHeld.
unfoldable pub add_held : ℤ → Balance → Result StoreError Balance
add_held n b = bigint (b.held +ℤ n) then_bind λ held.
    bigint (b.version +ℤ pos 1) then_bind λ version.
    ok (record b { held = held; version = version })

unfoldable pub upsert_held : ℕ → Text → ℤ → Tx (Unit {0})
upsert_held account a n =
    on_balances (
      upsert_balance account a (record (empty_balance a) { held = n; version = pos 1 })
        (add_held n))

unfoldable pub sub_held : ℤ → Balance → Result StoreError Balance
sub_held n b = bigint (b.held -ℤ n) then_bind λ held.
    bigint (b.version +ℤ pos 1) then_bind λ version.
    ok (record b { held = held; version = version })

unfoldable pub release_held : Hold → Tx (Unit {0})
release_held h = do
  rows ← gets (λ db. db.balances)
  on_balances (update_balance h.account_id h.amount.asset (sub_held h.amount.units))
  raise_if (not (any (is_row h.account_id h.amount.asset) rows)) balance_row_missing

-- debitCredit: what is no debit counts as a credit.
abbrev pub debit_credit_of : Direction → ℤ → ℤ × ℤ
debit_credit_of debit n = (n, pos 0)
debit_credit_of d n = (pos 0, n)

abbrev pub debit_credit : Posting → ℤ × ℤ
debit_credit p = debit_credit_of p.direction p.amount.units

abbrev pub Statement : Type 0
Statement = ℕ → Text → ℤ → ℤ → Tx (Unit {0})

-- applyBalances and promoteBalances: one statement for each posting, in their order.
unfoldable pub apply_balances : Statement → List Posting → Tx (Unit {0})
apply_balances stmt [] = pure tt
apply_balances stmt (p ∷ ps) = do
  stmt p.account_id p.amount.asset (debit_credit p).0 (debit_credit p).1
  apply_balances stmt ps
