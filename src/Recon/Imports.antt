-- ===== src/Recon/Imports.antt =====
-- services/reconciliation/internal/app/service.go: ImportStatement.
use ledgercore.Base.{
  ℕ, suc, ◌==◌, ◌≡◌, sym, ap, ◌∙◌, List, [], ◌∷◌, ◌++◌, map, Option, none, Text, codes, length,
  Result, ok, err, ◌>>=◌, >>=-ok, ok-injective, if◌then◌else◌, arith,
}
use mathlib.Core.List.{append_assoc, append-nil}
use ledgercore.Recon.{
  Import, ImportStatus, processed, import_failed, ExternalTransaction, unmatched,
}
use ledgercore.Recon.Csv.{CsvError, Item, StatementRow, default_asset_exponent, parse_statement}
use ledgercore.Recon.Tables.{
  ReconError, validation, ReconDb, get_source, import_row, external_row, insert_import,
  insert_externals, within,
}
use ledgercore.Recon.Runs.{Outside}

-- The transactions of the rows of a statement; the ids are those from the k-th on.
unfoldable pub external_rows :
    Outside → ℕ → ℕ → ℕ → ℕ → List StatementRow → List ExternalTransaction
external_rows o k tenant import_id source [] = []
external_rows o k tenant import_id source (r ∷ rs) =
    record {
      id = o.fresh k;
      tenant_id = tenant;
      import_id = import_id;
      source_id = source;
      external_ref = r.external_ref;
      amount = r.amount_units;
      asset = r.asset;
      direction = r.direction;
      occurred_at = r.occurred_at;
      raw = r.raw;
      match_status = unmatched;
      matched_entry_id = none;
    }
    ∷ external_rows o (suc k) tenant import_id source rs

-- The outcome of the parser decides the status, the count and the error of the import.
abbrev pub status_of : Result CsvError (List StatementRow) → ImportStatus
status_of (ok rows) = processed
status_of (err e) = import_failed

abbrev pub count_of : Result CsvError (List StatementRow) → ℕ
count_of (ok rows) = length rows
count_of (err e) = 0

abbrev pub error_of : (CsvError → Text) → Result CsvError (List StatementRow) → Text
error_of message (ok rows) = []
error_of message (err e) = message e

abbrev pub rows_of : Result CsvError (List StatementRow) → List StatementRow
rows_of (ok rows) = rows
rows_of (err e) = []

abbrev pub or_default : Text → Text
or_default [] = codes "statement.csv"
or_default (c ∷ s) = c ∷ s

abbrev pub import_of :
    Outside → (CsvError → Text) → ℕ → ℕ → Text → Result CsvError (List StatementRow) → Import
import_of o message tenant source filename parsed = record {
  id = o.fresh 0;
  tenant_id = tenant;
  source_id = source;
  filename = or_default filename;
  status = status_of parsed;
  row_count = count_of parsed;
  error = error_of message parsed;
  created_at = o.now;
}

-- The end of the transaction: the rows, where the statement has been parsed.
abbrev pub store_rows :
    Outside → Import → Result CsvError (List StatementRow) → ReconDb → Result ReconError ReconDb
store_rows o imp (err e) db = ok db
store_rows o imp (ok rows) db =
    insert_externals (external_rows o 1 imp.tenant_id imp.id imp.source_id rows) db

unfoldable pub import_body :
    Outside
    → Import
    → Result CsvError (List StatementRow)
    → ReconDb
    → Result ReconError (Import × ReconDb)
import_body o imp parsed db = get_source imp.source_id db >>= λ source.
    insert_import imp db >>= λ inserted.
    store_rows o imp parsed inserted >>= λ after. ok (imp, after)

-- ImportStatement
unfoldable pub import_statement :
    Outside
    → (CsvError → Text)
    → (Text → Option ℕ)
    → ℕ
    → ℕ
    → Text
    → List Item
    → ReconDb
    → Result ReconError Import × ReconDb
import_statement o message parse_time tenant source filename items db =
    let parsed = parse_statement parse_time default_asset_exponent items in
    if source == 0
    then (err validation, db)
    else within tenant (import_body o (import_of o message tenant source filename parsed) parsed) db

insert_externals-rows :
    (xs : List ExternalTransaction) (db after : ReconDb)
    → insert_externals xs db ≡ ok after
    → after ≡ record db { externals = db.externals ++ map external_row xs }
unfolding insert_externals
insert_externals-rows [] db after h =
    sym (ok-injective h) ∙ (λ i. record db { externals = sym (append-nil db.externals) i })
insert_externals-rows (x ∷ xs) db after h =
    let next : ReconDb = record db { externals = db.externals ++ (external_row x ∷ []) } in
    insert_externals-rows xs next after (ground (arith, h)) ∙ (λ i. record db {
      externals = append_assoc db.externals (external_row x ∷ []) (map external_row xs) i;
    })

insert_import-rows :
    (imp : Import) (db after : ReconDb)
    → insert_import imp db ≡ ok after
    → after ≡ record db { imports = db.imports ++ (import_row imp ∷ []) }
unfolding insert_import
insert_import-rows imp db after h = ground arith

store_rows-rows :
    (o : Outside) (imp : Import) (parsed : Result CsvError (List StatementRow)) (db after : ReconDb)
    → store_rows o imp parsed db ≡ ok after
    → after ≡ record db {
      externals =
          db.externals
          ++ map external_row
              (external_rows o 1 imp.tenant_id imp.id imp.source_id (rows_of parsed));
    }
unfolding external_rows
store_rows-rows o imp (err e) db after h =
    sym (ok-injective h) ∙ (λ i. record db { externals = sym (append-nil db.externals) i })
store_rows-rows o imp (ok rows) db after h =
    insert_externals-rows (external_rows o 1 imp.tenant_id imp.id imp.source_id rows) db after h

pub import_body-rows :
    (o : Outside) (imp done : Import) (parsed : Result CsvError (List StatementRow))
    (db after : ReconDb)
    → import_body o imp parsed db ≡ ok (done, after)
    → (done ≡ imp)
      × (after ≡ record db {
        imports = db.imports ++ (import_row imp ∷ []);
        externals =
            db.externals
            ++ map external_row
                (external_rows o 1 imp.tenant_id imp.id imp.source_id (rows_of parsed));
      })
unfolding import_body
import_body-rows o imp done parsed db after h =
    let finish : ReconDb → Result ReconError (Import × ReconDb) = λ d. ok (imp, d) in
    let (src, got, h1) =
      >>=-ok (get_source imp.source_id db)
        (λ s. insert_import imp db >>= λ d. store_rows o imp parsed d >>= finish) h in
    let (inserted, ins, h2) =
      >>=-ok (insert_import imp db) (λ d. store_rows o imp parsed d >>= finish) h1 in
    let (stored, st, h3) = >>=-ok (store_rows o imp parsed inserted) finish h2 in
    let pair = ok-injective h3 in
    (
      sym (ap (λ t. t.0) pair),
      sym (ap (λ t. t.1) pair)
          ∙ (store_rows-rows o imp parsed inserted stored st
              ∙ ap
                  (λ (d : ReconDb). record d {
                    externals =
                        d.externals
                        ++ map external_row
                            (external_rows o 1 imp.tenant_id imp.id imp.source_id (rows_of parsed));
                  })
                  (insert_import-rows imp db inserted ins)),
    )
