-- ===== src/Store/TrialBalance.antt =====
-- services/ledger-core/internal/adapters/postgres/store.go: TrialBalance, from account_balances and
-- from the postings up to an instant.
pub mod Totals
pub mod Grouped
pub mod Balanced
pub mod Current
pub mod Report
use ledgercore.Base.{
  ℕ, ◌==◌, Bool, true, false, not, ◌&&◌, ◌||◌, List, [], ◌∷◌, map, Option, none, some, Text,
  text_eq, text_lt, ℤ, pos, ◌+ℤ◌, eqb_ℤ, wrap64, is_int64, ltb, leb, all, find?, select,
  if◌then◌else◌, sort_by,
}
use ledgercore.Domain.{Account, AccountType, other_type, Transaction}
use ledgercore.Store.{
  not_found, bad_value, PostingRow, BalanceRow, Db, ◌>>=◌, ◌>>◌, pure, gets, or_raise, raise_if, Tx,
  Method, with_tenant_tx,
}
use ledgercore.Store.Rows.{find_ledger, find_account, find_transaction, is_effective}
use ledgercore.Store.Reports.{is_debit, is_credit, in_ledger, sum_where, of_key, once}

-- domain.TrialBalanceRow
pub record TrialBalanceRow : Type 0 where
  pub account_id : ℕ
  pub account_name : Text
  pub account_type : AccountType
  pub asset : Text
  pub debits : ℤ
  pub credits : ℤ

-- domain.TrialBalanceTotal
pub record TrialBalanceTotal : Type 0 where
  pub asset : Text
  pub debits : ℤ
  pub credits : ℤ
  pub balanced : Bool

-- domain.TrialBalance
pub record TrialBalance : Type 0 where
  pub ledger_id : ℕ
  pub as_of : ℕ
  pub rows : List TrialBalanceRow
  pub totals : List TrialBalanceTotal

-- The columns of the joined account, which is there wherever a row passes the join.
abbrev pub name_of : Option Account → Text
name_of none = []
name_of (some a) = a.name

abbrev pub type_of : Option Account → AccountType
type_of none = other_type []
type_of (some a) = a.type

abbrev pub path_of : Option Account → Text
path_of none = []
path_of (some a) = a.path

-- ORDER BY a.path, and the asset code.
abbrev pub by_path : Db → ℕ × Text → ℕ × Text → Bool
by_path db k l =
    let p = path_of (find_account k.0 db) in
    let q = path_of (find_account l.0 db) in text_lt p q || (text_eq p q && text_lt k.1 l.1)

-- The rows from account_balances.
abbrev pub balance_key : BalanceRow → ℕ × Text
balance_key b = (b.account_id, b.balance.asset)

abbrev pub current_row : Db → BalanceRow → TrialBalanceRow
current_row db b = record {
  account_id = b.account_id;
  account_name = name_of (find_account b.account_id db);
  account_type = type_of (find_account b.account_id db);
  asset = b.balance.asset;
  debits = b.balance.posted_debits;
  credits = b.balance.posted_credits;
}

unfoldable pub current_rows : ℕ → Db → List TrialBalanceRow
current_rows ledger db = map (current_row db) (
    sort_by (λ (b c : BalanceRow). by_path db (balance_key b) (balance_key c))
      (select (λ (b : BalanceRow). in_ledger ledger db b.account_id) db.balances))

-- The postings up to an instant: status IN ('posted', 'reversed') AND effective_at <= $2.
abbrev pub counts_by : ℕ → Option Transaction → Bool
counts_by as_of none = false
counts_by as_of (some t) = is_effective t.status && leb t.effective_at as_of

abbrev pub is_historic : ℕ → ℕ → Db → PostingRow → Bool
is_historic ledger as_of db r =
    in_ledger ledger db r.account_id && counts_by as_of (find_transaction r.transaction_id db)

-- The group of an account and an asset code.
abbrev pub historic_row : ℕ → ℕ → Db → ℕ × Text → TrialBalanceRow
historic_row ledger as_of db key = record {
  account_id = key.0;
  account_name = name_of (find_account key.0 db);
  account_type = type_of (find_account key.0 db);
  asset = key.1;
  debits =
      sum_where (λ r. is_historic ledger as_of db r && of_key key.0 key.1 r && is_debit r.direction)
        db.postings;
  credits =
      sum_where
        (λ r. is_historic ledger as_of db r && of_key key.0 key.1 r && is_credit r.direction)
        db.postings;
}

abbrev pub posting_key : PostingRow → ℕ × Text
posting_key r = (r.account_id, r.asset)

unfoldable pub historic_rows : ℕ → ℕ → Db → List TrialBalanceRow
historic_rows ledger as_of db = map (historic_row ledger as_of db) (
    sort_by (by_path db)
      (once (map posting_key (select (is_historic ledger as_of db) db.postings))))

-- The loop that adds the rows up under their asset codes, in int64, with the codes in the order in
-- which they come.
abbrev pub bump : TrialBalanceRow → TrialBalanceTotal → TrialBalanceTotal
bump r t = record t {
  debits = wrap64 (t.debits +ℤ r.debits);
  credits = wrap64 (t.credits +ℤ r.credits);
}

abbrev pub no_total : Text → TrialBalanceTotal
no_total asset = record { asset = asset; debits = pos 0; credits = pos 0; balanced = false }

unfoldable pub add_row : TrialBalanceRow → List TrialBalanceTotal → List TrialBalanceTotal
add_row r [] = bump r (no_total r.asset) ∷ []
add_row r (t ∷ ts) =
    let later = add_row r ts in if text_eq t.asset r.asset then bump r t ∷ ts else t ∷ later

unfoldable pub add_rows : List TrialBalanceRow → List TrialBalanceTotal → List TrialBalanceTotal
add_rows [] ts = ts
add_rows (r ∷ rs) ts = add_rows rs (add_row r ts)

abbrev pub close : TrialBalanceTotal → TrialBalanceTotal
close t = record t { balanced = eqb_ℤ t.debits t.credits }

abbrev pub balance_of_rows : ℕ → ℕ → List TrialBalanceRow → TrialBalance
balance_of_rows ledger as_of rows = record {
  ledger_id = ledger;
  as_of = as_of;
  rows = rows;
  totals = map close (add_rows rows []);
}

-- A sum of the database that is no int64 cannot be read.
abbrev pub is_readable : TrialBalanceRow → Bool
is_readable r = is_int64 r.debits && is_int64 r.credits

abbrev pub read_rows : ℕ → Option ℕ → Tx (List TrialBalanceRow)
read_rows ledger none = gets (current_rows ledger)
read_rows ledger (some as_of) = gets (historic_rows ledger as_of) >>= λ rows.
    raise_if (not (all is_readable rows)) bad_value >> pure rows

abbrev pub instant_of : ℕ → Option ℕ → ℕ
instant_of now none = now
instant_of now (some as_of) = as_of

-- TrialBalance
unfoldable pub trial_balance : ℕ → ℕ → ℕ → Option ℕ → Method TrialBalance
trial_balance now tenant ledger as_of = with_tenant_tx tenant (
    gets (find_ledger ledger) >>= λ row. or_raise row not_found >>= λ found.
    read_rows ledger as_of >>= λ rows. pure (balance_of_rows ledger (instant_of now as_of) rows))
