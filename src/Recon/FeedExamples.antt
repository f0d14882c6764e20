-- ===== src/Recon/FeedExamples.antt =====
-- An event of a posted transaction, a statement of three rows, and instances of the theorems.
use ledgercore.Base.{
  ℕ, ◌+◌, ◌*◌, ◌≡◌, refl, codes, pos, ok, err, none, some, Option, [], ◌∷◌, ◌++◌, List, Text, true,
  arith, text_eq, all, length,
}
use ledgercore.Domain.{Transaction, posted, debit, credit}
use ledgercore.Store.Transactions.{posted_event}
use ledgercore.Money.{validate_asset_code}
use ledgercore.Money.Decimal.{parse_units, parse_unsigned, parse_parts, parse_digits, split_point}
use ledgercore.Recon.{bank, ExternalTransaction, Import, import_failed, processed, direction_debit}
use ledgercore.Recon.Tables.{
  ReconDb, import_row, insert_mirror_entries, get_source, insert_import, insert_externals, within,
}
use ledgercore.Recon.Runs.{Outside}
use ledgercore.Recon.Feed.{acked, handle, fits_columns}
use ledgercore.Recon.Feed.Delivery.{handle-again}
use ledgercore.Recon.Feed.Posted.{message_of, mirrored, handle-posted_event}
use ledgercore.Recon.Csv.{
  CsvError, bad_row, ref_required, Item, fields, StatementRow, trim_space, column,
  default_asset_exponent, parse_direction, parse_row, parse_item, parse_rows, parse_statement,
  require_columns, csv_columns,
}
use ledgercore.Recon.Imports.{external_rows, import_body, import_statement}
use ledgercore.Recon.Imported.{Reports, import_statement-Reports, import_statement-bad_row}

abbrev payment : Transaction
payment = record {
  id = 100;
  tenant_id = 1;
  ledger_id = 1;
  reference = [];
  description = [];
  idempotency_key = codes "k";
  status = posted;
  effective_at = 7;
  effective_at_provided = true;
  posted_at = some 7;
  reversed_by_id = none;
  reverses_id = none;
  metadata = [];
  postings =
      record {
        id = 1;
        account_id = 10;
        direction = debit;
        amount = record { asset = codes "USD"; units = pos 500 };
      }
      ∷ record {
        id = 2;
        account_id = 20;
        direction = credit;
        amount = record { asset = codes "USD"; units = pos 500 };
      }
      ∷ [];
  created_at = 7;
}

abbrev posting_id : ℕ → ℕ → ℕ
posting_id transaction i = transaction * 100 + i

payment_fits : all fits_columns (mirrored posting_id 1 payment 7 0 payment.postings) ≡ true
unfolding mirrored text_eq
payment_fits = refl

handle-posted_event_example :
    handle posting_id (message_of 1 (posted_event payment 7)) []
    ≡ (acked, insert_mirror_entries (mirrored posting_id 1 payment 7 0 payment.postings) [])
handle-posted_event_example =
    handle-posted_event posting_id 1 payment 7 [] refl (omega arith) payment_fits

handle-again_example :
    handle posting_id
      (message_of 1 (posted_event payment 7))
      (handle posting_id (message_of 1 (posted_event payment 7)) []).1
    ≡ handle posting_id (message_of 1 (posted_event payment 7)) []
handle-again_example = handle-again posting_id (message_of 1 (posted_event payment 7)) []

abbrev header : List Text
header =
    codes "External_Ref"
    ∷ codes "amount"
    ∷ codes " asset"
    ∷ codes "occurred_at"
    ∷ codes "Direction"
    ∷ []

abbrev good_row : List Text
good_row = codes "a" ∷ codes "5.00" ∷ codes "USD" ∷ codes "t" ∷ codes "debit" ∷ []

abbrev bad_ref : List Text
bad_ref = codes " " ∷ codes "5.00" ∷ codes "USD" ∷ codes "t" ∷ [] ∷ []

abbrev parse_time : Text → Option ℕ
parse_time s = some 9

abbrev message : CsvError → Text
message e = codes "refused"

abbrev outside : Outside
outside = record { now = 30; fresh = λ i. i + 100; uuid_text = λ id. []; message = λ d. [] }

abbrev tables : ReconDb
tables = record {
  sources = record { id = 3; tenant_id = 1; name = codes "s"; kind = bank; created_at = 1 } ∷ [];
  imports = [];
  externals = [];
  mirror = [];
  runs = [];
  discrepancies = [];
  outbox = [];
}

abbrev refused : List Item
refused = fields header ∷ (fields good_row ∷ []) ++ (fields bad_ref ∷ fields good_row ∷ [])

abbrev refused_import : Import
refused_import = record {
  id = 100;
  tenant_id = 1;
  source_id = 3;
  filename = codes "f";
  status = import_failed;
  row_count = 0;
  error = codes "refused";
  created_at = 30;
}

abbrev good_statement : StatementRow
good_statement = record {
  external_ref = codes "a";
  amount_units = pos 500;
  asset = codes "USD";
  direction = direction_debit;
  occurred_at = 9;
  raw =
      (codes "external_ref", codes "a")
      ∷ (codes "amount", codes "5.00")
      ∷ (codes "asset", codes "USD")
      ∷ (codes "occurred_at", codes "t")
      ∷ (codes "direction", codes "debit")
      ∷ [];
}

good_parses :
    parse_item parse_time default_asset_exponent header (fields good_row) ≡ ok good_statement
unfolding parse_row column trim_space text_eq default_asset_exponent parse_direction
    validate_asset_code parse_units parse_unsigned parse_parts parse_digits split_point
good_parses = refl

bad_refused :
    parse_item parse_time default_asset_exponent header (fields bad_ref) ≡ err ref_required
unfolding parse_row column trim_space text_eq
bad_refused = refl

columns_there : require_columns header csv_columns ≡ ok tt
unfolding column trim_space text_eq
columns_there = refl

abbrev after_refused : ReconDb
unfolding import_statement import_body within get_source insert_import parse_statement parse_rows
    parse_row column trim_space text_eq default_asset_exponent parse_direction validate_asset_code
    parse_units parse_unsigned parse_parts parse_digits split_point
after_refused = (import_statement outside message parse_time 1 3 (codes "f") refused tables).1

refused_lem :
    import_statement outside message parse_time 1 3 (codes "f") refused tables
    ≡ (ok refused_import, after_refused)
unfolding import_statement import_body within get_source insert_import parse_statement parse_rows
    parse_row column trim_space text_eq default_asset_exponent parse_direction validate_asset_code
    parse_units parse_unsigned parse_parts parse_digits split_point
refused_lem = refl

import_statement-bad_row_example :
    (refused_import.status ≡ import_failed)
    × (refused_import.error ≡ message (bad_row (length (fields good_row ∷ []) + 2) ref_required))
    × (refused_import.row_count ≡ 0)
    × (after_refused.externals ≡ tables.externals)
import_statement-bad_row_example =
    import_statement-bad_row outside message parse_time 1 3 (codes "f") header
      (fields good_row ∷ []) (fields good_row ∷ []) (fields bad_ref) ref_required tables
      after_refused refused_import columns_there ((good_statement, good_parses), tt) bad_refused
      refused_lem

abbrev accepted : List Item
accepted = fields header ∷ fields good_row ∷ []

abbrev accepted_import : Import
accepted_import = record {
  id = 100;
  tenant_id = 1;
  source_id = 3;
  filename = codes "f";
  status = processed;
  row_count = 1;
  error = [];
  created_at = 30;
}

abbrev after_accepted : ReconDb
unfolding import_statement import_body within get_source insert_import parse_statement parse_rows
    parse_row column trim_space text_eq default_asset_exponent parse_direction validate_asset_code
    parse_units parse_unsigned parse_parts parse_digits split_point insert_externals external_rows
after_accepted = (import_statement outside message parse_time 1 3 (codes "f") accepted tables).1

accepted_lem :
    import_statement outside message parse_time 1 3 (codes "f") accepted tables
    ≡ (ok accepted_import, after_accepted)
unfolding import_statement import_body within get_source insert_import parse_statement parse_rows
    parse_row column trim_space text_eq default_asset_exponent parse_direction validate_asset_code
    parse_units parse_unsigned parse_parts parse_digits split_point insert_externals external_rows
accepted_lem = refl

import_statement-Reports_example :
    (new : List ExternalTransaction) × (after_accepted ≡ record tables {
      imports = tables.imports ++ (import_row accepted_import ∷ []);
      externals = tables.externals ++ new;
    })
    × (accepted_import.tenant_id ≡ 1)
    × (accepted_import.source_id ≡ 3)
    × Reports message
        (parse_statement parse_time default_asset_exponent accepted)
        accepted_import
        new
import_statement-Reports_example =
    import_statement-Reports outside message parse_time 1 3 (codes "f") accepted tables
      after_accepted accepted_import accepted_lem
