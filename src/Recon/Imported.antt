-- ===== src/Recon/Imported.antt =====
-- services/reconciliation: csv.go and ImportStatement, on what an import stores.
use ledgercore.Base.{
  ℕ, suc, ◌+◌, ◌≡◌, refl, sym, ap, ◌∙◌, subst, none, List, [], ◌∷◌, ◌++◌, map, to_micros, Option,
  Text, length, Result, ok, err, All, arith,
}
use mathlib.Core.List.{append-nil}
use ledgercore.Recon.{Import, processed, import_failed, ExternalTransaction, unmatched}
use ledgercore.Recon.Csv.{
  CsvError, bad_row, RowError, Item, fields, StatementRow, parse_item, parse_rows, require_columns,
  csv_columns, default_asset_exponent, parse_statement,
}
use ledgercore.Recon.Tables.{ReconDb, import_row, external_row, within}
use ledgercore.Recon.Runs.{Outside}
use ledgercore.Recon.Completion.{within-ok}
use ledgercore.Recon.Imports.{
  external_rows, status_of, count_of, error_of, rows_of, import_of, import_body, import_statement,
  import_body-rows,
}

-- An item that the parser takes.
abbrev pub Parses : (Text → Option ℕ) → List Text → Item → Type 0
Parses parse_time header item =
    (row : StatementRow) × (parse_item parse_time default_asset_exponent header item ≡ ok row)

parse_rows-bad :
    (parse_time : Text → Option ℕ) (header : List Text) (n : ℕ) (good rest : List Item) (bad : Item)
    (e : RowError)
    → All (Parses parse_time header) good
    → parse_item parse_time default_asset_exponent header bad ≡ err e
    → parse_rows parse_time default_asset_exponent header n (good ++ (bad ∷ rest))
      ≡ err (bad_row (length good + n) e)
unfolding parse_rows
parse_rows-bad parse_time header n [] rest bad e h is_bad =
    let same : n ≡ 0 + n = omega arith in
    rw is_bad (ap {A = ℕ} {B = Result CsvError (List StatementRow)} (λ k. err (bad_row k e)) same)
parse_rows-bad parse_time header n (item ∷ good) rest bad e h is_bad =
    let later : parse_rows parse_time default_asset_exponent header (suc n) (good ++ (bad ∷ rest))
        ≡ err (bad_row (length good + suc n) e) =
      parse_rows-bad parse_time header (suc n) good rest bad e h.1 is_bad in
    let same : length good + suc n ≡ suc (length good) + n = omega arith in
    rw (h.0.1, later)
      (ap {A = ℕ} {B = Result CsvError (List StatementRow)} (λ k. err (bad_row k e)) same)

parse_statement-bad :
    (parse_time : Text → Option ℕ) (header : List Text) (good rest : List Item) (bad : Item)
    (e : RowError)
    → require_columns header csv_columns ≡ ok tt
    → All (Parses parse_time header) good
    → parse_item parse_time default_asset_exponent header bad ≡ err e
    → parse_statement parse_time default_asset_exponent (fields header ∷ good ++ (bad ∷ rest))
      ≡ err (bad_row (length good + 2) e)
unfolding parse_statement
parse_statement-bad parse_time header good rest bad e columns h is_bad =
    rw columns (parse_rows-bad parse_time header 2 good rest bad e h is_bad)

statement_body :
    (o : Outside) (message : CsvError → Text) (parse_time : Text → Option ℕ) (tenant source : ℕ)
    (filename : Text) (items : List Item) (db after : ReconDb) {imp : Import}
    → import_statement o message parse_time tenant source filename items db ≡ (ok imp, after)
    → let parsed = parse_statement parse_time default_asset_exponent items in
      within tenant (import_body o (import_of o message tenant source filename parsed) parsed) db
      ≡ (ok imp, after)
unfolding import_statement
statement_body o message parse_time tenant source filename items db after h = ground arith

import_statement_tables :
    (o : Outside) (message : CsvError → Text) (parse_time : Text → Option ℕ) (tenant source : ℕ)
    (filename : Text) (items : List Item) (db after : ReconDb) (imp : Import)
    → import_statement o message parse_time tenant source filename items db ≡ (ok imp, after)
    → let parsed = parse_statement parse_time default_asset_exponent items in
      (imp ≡ import_of o message tenant source filename parsed)
      × (after ≡ record db {
        imports = db.imports ++ (import_row imp ∷ []);
        externals =
            db.externals
            ++ map external_row (external_rows o 1 tenant imp.id source (rows_of parsed));
      })
import_statement_tables o message parse_time tenant source filename items db after imp h =
    let parsed : Result CsvError (List StatementRow) =
      parse_statement parse_time default_asset_exponent items in
    let i : Import = import_of o message tenant source filename parsed in
    let (same, rows) = import_body-rows o i imp parsed db after (
      within-ok tenant (import_body o i parsed) db
        (statement_body o message parse_time tenant source filename items db after h)) in
    (
      same,
      rows
          ∙ ap
              (λ (x : Import). record db {
                imports = db.imports ++ (import_row x ∷ []);
                externals =
                    db.externals
                    ++ map external_row (external_rows o 1 tenant x.id source (rows_of parsed));
              })
              (sym same),
    )

-- A row of the statement and the transaction that is stored for it.
pub record Stores (imp : Import) (r : StatementRow) (x : ExternalTransaction) : Type 0 where
  pub reference : x.external_ref ≡ r.external_ref
  pub amount : x.amount ≡ r.amount_units
  pub asset : x.asset ≡ r.asset
  pub direction : x.direction ≡ r.direction
  pub occurred_at : x.occurred_at ≡ to_micros r.occurred_at
  pub raw : x.raw ≡ r.raw
  pub of_tenant : x.tenant_id ≡ imp.tenant_id
  pub of_import : x.import_id ≡ imp.id
  pub of_source : x.source_id ≡ imp.source_id
  pub is_open : (x.match_status ≡ unmatched) × (x.matched_entry_id ≡ none)

-- One transaction for each row, in the order of the statement.
pub data StoresAll (imp : Import) : List StatementRow → List ExternalTransaction → Type 0 where
  nil : StoresAll imp [] []
  cons :
      {r : StatementRow} {x : ExternalTransaction} {rs : List StatementRow}
      {xs : List ExternalTransaction}
      → Stores imp r x
      → StoresAll imp rs xs
      → StoresAll imp (r ∷ rs) (x ∷ xs)

-- The import and the transactions that an outcome of the parser asks for.
abbrev pub Reports :
    (CsvError → Text)
    → Result CsvError (List StatementRow)
    → Import
    → List ExternalTransaction
    → Type 0
Reports message (ok rows) imp new =
    (imp.status ≡ processed)
    × (imp.row_count ≡ length rows)
    × (imp.error ≡ [])
    × StoresAll imp rows new
Reports message (err e) imp new =
    (imp.status ≡ import_failed) × (imp.row_count ≡ 0) × (imp.error ≡ message e) × (new ≡ [])

external_rows-StoresAll :
    (o : Outside) (imp : Import) (k : ℕ) (rows : List StatementRow)
    → StoresAll imp rows
        (map external_row (external_rows o k imp.tenant_id imp.id imp.source_id rows))
unfolding external_rows
external_rows-StoresAll o imp k [] = nil
external_rows-StoresAll o imp k (r ∷ rs) =
    cons
      (record {
        reference = refl;
        amount = refl;
        asset = refl;
        direction = refl;
        occurred_at = refl;
        raw = refl;
        of_tenant = refl;
        of_import = refl;
        of_source = refl;
        is_open = (refl, refl);
      })
      (external_rows-StoresAll o imp (suc k) rs)

import_of-Reports :
    (o : Outside) (message : CsvError → Text) (tenant source : ℕ) (filename : Text)
    (parsed : Result CsvError (List StatementRow))
    → let imp = import_of o message tenant source filename parsed in
      Reports message parsed imp
        (map external_row (external_rows o 1 tenant imp.id source (rows_of parsed)))
unfolding external_rows
import_of-Reports o message tenant source filename (ok rows) = (
  refl,
  refl,
  refl,
  external_rows-StoresAll o (import_of o message tenant source filename (ok rows)) 1 rows,
)
import_of-Reports o message tenant source filename (err e) = (refl, refl, refl, refl)

-- When ImportStatement succeeds, it adds one import of the tenant and the source, the returned one
-- with its instant cut to the microsecond, and transactions behind those that were there, and
-- changes nothing else. Where the parser takes the statement, the import is processed, counts its
-- rows and has no error, and there is one transaction for each row, in their order, unmatched and
-- with the row's reference, amount, asset, direction and raw values and its instant, cut to the
-- microsecond; where it does not, the import has failed with the message of the parser's error and
-- counts no rows, and no transaction is added.
pub import_statement-Reports :
    (o : Outside) (message : CsvError → Text) (parse_time : Text → Option ℕ) (tenant source : ℕ)
    (filename : Text) (items : List Item) (db after : ReconDb) (imp : Import)
    → import_statement o message parse_time tenant source filename items db ≡ (ok imp, after)
    → (new : List ExternalTransaction) × (after ≡ record db {
      imports = db.imports ++ (import_row imp ∷ []);
      externals = db.externals ++ new;
    })
      × (imp.tenant_id ≡ tenant)
      × (imp.source_id ≡ source)
      × Reports message (parse_statement parse_time default_asset_exponent items) imp new
import_statement-Reports o message parse_time tenant source filename items db after imp h =
    let parsed : Result CsvError (List StatementRow) =
      parse_statement parse_time default_asset_exponent items in
    let (same, rows) =
      import_statement_tables o message parse_time tenant source filename items db after imp h in
    (
      map external_row (external_rows o 1 tenant imp.id source (rows_of parsed)),
      rows,
      ap (λ (x : Import). x.tenant_id) same,
      ap (λ (x : Import). x.source_id) same,
      subst
          (λ (x : Import).
            Reports message parsed x
              (map external_row (external_rows o 1 tenant x.id source (rows_of parsed))))
          (sym same) (import_of-Reports o message tenant source filename parsed),
    )

-- Where the header has the required columns, the parser takes the first rows and it refuses the next
-- one: if ImportStatement succeeds, the import has failed with the message of the error at the
-- number of that row, counted from 1 with the header, it counts no rows, and no row is stored,
-- whatever follows in the statement.
pub import_statement-bad_row :
    (o : Outside) (message : CsvError → Text) (parse_time : Text → Option ℕ) (tenant source : ℕ)
    (filename : Text) (header : List Text) (good rest : List Item) (bad : Item) (e : RowError)
    (db after : ReconDb) (imp : Import)
    → require_columns header csv_columns ≡ ok tt
    → All (Parses parse_time header) good
    → parse_item parse_time default_asset_exponent header bad ≡ err e
    → import_statement o message parse_time tenant source filename
        (fields header ∷ good ++ (bad ∷ rest))
        db
      ≡ (ok imp, after)
    → (imp.status ≡ import_failed)
      × (imp.error ≡ message (bad_row (length good + 2) e))
      × (imp.row_count ≡ 0)
      × (after.externals ≡ db.externals)
unfolding external_rows
import_statement-bad_row o message parse_time tenant source filename header good rest bad e db after
      imp columns h is_bad done =
    let fails = parse_statement-bad parse_time header good rest bad e columns h is_bad in
    let (same, rows) =
      import_statement_tables o message parse_time tenant source filename
        (fields header ∷ good ++ (bad ∷ rest)) db after imp done in
    (
      ap (λ (x : Import). x.status) same ∙ ap status_of fails,
      ap (λ (x : Import). x.error) same ∙ ap (error_of message) fails,
      ap (λ (x : Import). x.row_count) same ∙ ap count_of fails,
      ap (λ (d : ReconDb). d.externals) rows
          ∙ (ap
                (λ p.
                  db.externals
                  ++ map external_row (external_rows o 1 tenant imp.id source (rows_of p)))
                fails
              ∙ append-nil db.externals),
    )
