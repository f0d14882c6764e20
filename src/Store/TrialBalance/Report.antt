-- ===== src/Store/TrialBalance/Report.antt =====
-- TrialBalance of services/ledger-core/internal/adapters/postgres/store.go: the report, now and up to
-- an instant.
use ledgercore.Base.{
  ℕ, ◌==◌, ◌≡◌, refl, sym, ap, ◌∙◌, true, ◌&&◌, List, [], map, Option, none, some, Text, total,
  total-map, eqb_ℤ_iff, leb, all, ok, err-ne-ok, ok-injective, Bool-cases, Option-cases, inl, inr,
  arith,
}
use ledgercore.Store.{Db, with_tenant_tx}
use ledgercore.Store.Rows.{find_ledger, is_effective}
use ledgercore.Store.Invariant.{IsConsistent}
use ledgercore.Store.Reports.{is_debit, is_credit}
use ledgercore.Store.TrialBalance.{
  TrialBalance, TrialBalanceRow, TrialBalanceTotal, counts_by, is_historic, historic_row,
  historic_rows, current_rows, balance_key, by_path, add_rows, balance_of_rows, is_readable,
  instant_of, trial_balance,
}
use ledgercore.Store.TrialBalance.Totals.{find_total, under, even_totals, find_closed}
use ledgercore.Store.TrialBalance.Grouped.{grouped-total}
use ledgercore.Store.TrialBalance.Balanced.{IsBooked, even_postings}
use ledgercore.Store.TrialBalance.Current.{DistinctKeys, current-even}

historic-even :
    (db : Db) (ledger as_of : ℕ) (c : Text)
    → IsBooked db
    → total (under c (λ r. r.debits)) (historic_rows ledger as_of db)
      ≡ total (under c (λ r. r.credits)) (historic_rows ledger as_of db)
unfolding historic_rows
historic-even db ledger as_of c booked =
    total-map (under c (λ r. r.debits)) (historic_row ledger as_of db) _
    ∙ grouped-total (is_historic ledger as_of db) is_debit c (by_path db) db.postings
    ∙ even_postings db booked ledger c (λ t. is_effective t.status && leb t.effective_at as_of)
        (counts_by as_of) (λ t. refl) (λ t h. ground (arith, h))
    ∙ sym (grouped-total (is_historic ledger as_of db) is_credit c (by_path db) db.postings)
    ∙ sym (total-map (under c (λ r. r.credits)) (historic_row ledger as_of db) _)

-- The rows of a report.
abbrev rows_for : ℕ → Option ℕ → Db → List TrialBalanceRow
rows_for ledger none db = current_rows ledger db
rows_for ledger (some as_of) db = historic_rows ledger as_of db

rows-even :
    (db : Db) (ledger : ℕ) (as_of : Option ℕ) (c : Text)
    → IsBooked db
    → IsConsistent db
    → DistinctKeys (map balance_key db.balances)
    → total (under c (λ r. r.debits)) (rows_for ledger as_of db)
      ≡ total (under c (λ r. r.credits)) (rows_for ledger as_of db)
rows-even db ledger none c booked agree distinct = current-even db ledger c booked agree distinct
rows-even db ledger (some as_of) c booked agree distinct = historic-even db ledger as_of c booked

report-rows :
    (now tenant ledger : ℕ) (as_of : Option ℕ) (db after : Db) (report : TrialBalance)
    → trial_balance now tenant ledger as_of db ≡ (ok report, after)
    → report ≡ balance_of_rows ledger (instant_of now as_of) (rows_for ledger as_of db)
unfolding trial_balance with_tenant_tx
report-rows now tenant ledger as_of db after report h = elim (Bool-cases (tenant == 0)) [
  | inl nil ↦ absurd (err-ne-ok (ap (λ r. r.0) (rw nil at h)))
  | inr some_tenant ↦ elim (Option-cases (find_ledger ledger db)) [
    | inl missing ↦ absurd (err-ne-ok (ap (λ r. r.0) (rw (some_tenant, missing) at h)))
    | inr (l, found) ↦
        elim as_of
            as (λ (o : Option ℕ).
              trial_balance now tenant ledger o db ≡ (ok report, after)
              → report ≡ balance_of_rows ledger (instant_of now o) (rows_for ledger o db)) [
                | none ↦ λ h. sym (ok-injective (ap (λ r. r.0) (rw (some_tenant, found) at h)))
                | some a ↦ λ h. elim (Bool-cases (all is_readable (historic_rows ledger a db))) [
                  | inl fits ↦
                      sym (ok-injective (ap (λ r. r.0) (rw (some_tenant, found, fits) at h)))
                  | inr too_large ↦
                      absurd (err-ne-ok (ap (λ r. r.0) (rw (some_tenant, found, too_large) at h)))
                ]
              ]
          h
  ]
]

-- On consistent and booked tables with their primary keys (transactions have distinct ids, and the
-- balances distinct accounts and asset codes; every posting has its transaction and stands on an
-- account of its ledger; every posted or reversed transaction is a double entry; the posted columns
-- are the sums of the postings): when TrialBalance succeeds, from account_balances or up to an
-- instant, then the total that it reports under any asset code has equal debits and credits, in int64,
-- and is marked as balanced.
pub trial_balance-IsBalanced :
    (now tenant ledger : ℕ) (as_of : Option ℕ) (db after : Db) (report : TrialBalance) (c : Text)
    (t : TrialBalanceTotal)
    → IsBooked db
    → IsConsistent db
    → DistinctKeys (map balance_key db.balances)
    → trial_balance now tenant ledger as_of db ≡ (ok report, after)
    → find_total c report.totals ≡ some t
    → (t.debits ≡ t.credits) × (t.balanced ≡ true)
trial_balance-IsBalanced now tenant ledger as_of db after report c t booked agree distinct h found =
    let rows : List TrialBalanceRow = rows_for ledger as_of db in
    let same = report-rows now tenant ledger as_of db after report h in
    let (u, there, closed) =
      find_closed c (add_rows rows []) {t = t}
        (ap (λ (b : TrialBalance). find_total c b.totals) (sym same) ∙ found) in
    let even : u.debits ≡ u.credits =
      even_totals c rows {t = u} (rows-even db ledger as_of c booked agree distinct) there in
    (
      ap (λ (x : TrialBalanceTotal). x.debits) closed
          ∙ (even ∙ sym (ap (λ (x : TrialBalanceTotal). x.credits) closed)),
      ap (λ (x : TrialBalanceTotal). x.balanced) closed ∙ (eqb_ℤ_iff u.debits u.credits).1 even,
    )
