-- ===== src/Recon/Csv.antt =====
-- services/reconciliation/internal/domain/csv.go: the parser of statements. The input is what the
-- successive calls of csv.Reader.Read return before io.EOF, and time.Parse with RFC 3339 is an
-- argument. Letters are lowered and raised, and spaces trimmed, in ASCII.
use ledgercore.Base.{
  ℕ, suc, ◌+◌, ◌-◌, ◌==◌, Bool, true, false, ◌&&◌, ◌||◌, List, [], ◌∷◌, map, Option, none, some,
  Text, codes, text_eq, ℤ, pos, ltb, leb, length, any, if◌then◌else◌, Result, ok, err, fail_if,
  ◌>>=◌, ◌>>◌,
}
use ledgercore.Money.{MoneyError, validate_asset_code}
use ledgercore.Money.Decimal.{parse_units}
use ledgercore.Recon.{direction_debit, direction_credit}

pub data RowError : Type 0 where
  unreadable ref_required ref_too_long asset_required bad_time bad_direction : RowError
  bad_asset bad_amount : MoneyError → RowError

pub data CsvError : Type 0 where
  empty_file bad_header : CsvError
  missing_column : Text → CsvError
  bad_row : ℕ → RowError → CsvError

-- One result of Read.
pub data Item : Type 0 where
  fields : List Text → Item
  unparsed : Item

pub record StatementRow : Type 0 where
  pub external_ref : Text
  pub amount_units : ℤ
  pub asset : Text
  pub direction : Text
  pub occurred_at : ℕ
  pub raw : List (Text × Text)

-- strings.ToUpper, strings.ToLower and strings.TrimSpace.
abbrev pub to_upper : Text → Text
to_upper = map λ c. if leb b'a' c && leb c b'z' then c - 32 else c

abbrev pub to_lower : Text → Text
to_lower = map λ c. if leb b'A' c && leb c b'Z' then c + 32 else c

abbrev pub is_space : ℕ → Bool
is_space c = (c == b' ') || (leb 9 c && leb c 13)

abbrev pub drop_spaces : Text → Text
drop_spaces [] = []
drop_spaces (c ∷ s) = if is_space c then drop_spaces s else c ∷ s

abbrev pub reverse_onto : Text → Text → Text
reverse_onto [] out = out
reverse_onto (c ∷ s) out = reverse_onto s (c ∷ out)

unfoldable pub trim_space : Text → Text
trim_space s = reverse_onto (drop_spaces (reverse_onto (drop_spaces s) [])) []

-- assetExponents and DefaultAssetExponent
unfoldable pub default_asset_exponent : Text → ℤ
default_asset_exponent asset =
    let code = to_upper asset in
    if any (text_eq code) (codes "JPY" ∷ codes "KRW" ∷ codes "CLP" ∷ codes "VND" ∷ codes "ISK" ∷ [])
    then pos 0
    else if any (text_eq code) (codes "BHD" ∷ codes "KWD" ∷ codes "OMR" ∷ codes "TND" ∷ [])
    then pos 3
    else pos 2

-- colIdx: the last column of a name wins. `i` is the index of the first column.
unfoldable pub column : ℕ → Text → List Text → Option ℕ
column i name [] = none
column i name (c ∷ cs) =
    let later = column (suc i) name cs in
    elim later [
      | some k ↦ some k
      | none ↦ if text_eq (to_lower (trim_space c)) name then some i else none
    ]

abbrev pub at : List Text → ℕ → Text
at [] i = []
at (f ∷ fs) i = if i == 0 then trim_space f else at fs (i - 1)

-- `field(col)`: a column that the header lacks has the index 0, the zero value of the map.
abbrev pub index_or_zero : Option ℕ → ℕ
index_or_zero none = 0
index_or_zero (some i) = i

abbrev pub field : List Text → List Text → Text → Text
field header rec name = at rec (index_or_zero (column 0 name header))

abbrev pub as_row : {A E : Type 0} → (E → RowError) → Result E A → Result RowError A
as_row f (ok a) = ok a
as_row f (err e) = err (f e)

abbrev pub or_row : {A : Type 0} → Option A → RowError → Result RowError A
or_row none e = err e
or_row (some a) e = ok a

-- The raw text of the direction, or nothing where the header has no such column.
abbrev pub raw_direction : List Text → List Text → Text
raw_direction header rec = elim (column 0 (codes "direction") header) [
  | none ↦ []
  | some i ↦ at rec i
]

unfoldable pub parse_direction : Text → Result RowError Text
parse_direction raw =
    if text_eq (to_upper raw) []
    then ok []
    else if text_eq (to_upper raw) direction_debit
    then ok direction_debit
    else if text_eq (to_upper raw) direction_credit
    then ok direction_credit
    else err bad_direction

abbrev pub raw_row : Text → Text → Text → Text → Text → List (Text × Text)
raw_row ref amount asset occurred direction =
    (codes "external_ref", ref)
    ∷ (codes "amount", amount)
    ∷ (codes "asset", asset)
    ∷ (codes "occurred_at", occurred)
    ∷ (if length direction == 0 then [] else (codes "direction", direction) ∷ [])

-- The checks of one row.
unfoldable pub parse_row :
    (Text → Option ℕ) → (Text → ℤ) → List Text → List Text → Result RowError StatementRow
parse_row parse_time exp header rec = do
  fail_if (length (field header rec (codes "external_ref")) == 0) ref_required
  fail_if (ltb 255 (length (field header rec (codes "external_ref")))) ref_too_long
  fail_if (length (field header rec (codes "asset")) == 0) asset_required
  as_row bad_asset (validate_asset_code (field header rec (codes "asset")))
  units ←
      as_row bad_amount
        (parse_units (field header rec (codes "amount")) (exp (field header rec (codes "asset"))))
  occurred ← or_row (parse_time (field header rec (codes "occurred_at"))) bad_time
  direction ← parse_direction (raw_direction header rec)
  ok (record {
    external_ref = field header rec (codes "external_ref");
    amount_units = units;
    asset = field header rec (codes "asset");
    direction = direction;
    occurred_at = occurred;
    raw =
        raw_row (field header rec (codes "external_ref")) (field header rec (codes "amount"))
          (field header rec (codes "asset")) (field header rec (codes "occurred_at"))
          (raw_direction header rec);
  })

abbrev pub at_row : {A : Type 0} → ℕ → Result RowError A → Result CsvError A
at_row n (ok a) = ok a
at_row n (err e) = err (bad_row n e)

abbrev pub parse_item :
    (Text → Option ℕ) → (Text → ℤ) → List Text → Item → Result RowError StatementRow
parse_item parse_time exp header unparsed = err unreadable
parse_item parse_time exp header (fields rec) = parse_row parse_time exp header rec

-- The loop over the rows; the header is row 1.
unfoldable pub parse_rows :
    (Text → Option ℕ) → (Text → ℤ) → List Text → ℕ → List Item → Result CsvError (List StatementRow)
parse_rows parse_time exp header n [] = ok []
parse_rows parse_time exp header n (item ∷ items) =
    at_row n (parse_item parse_time exp header item) >>= λ row.
    parse_rows parse_time exp header (suc n) items >>= λ rows. ok (row ∷ rows)

abbrev pub has_column : List Text → Text → Bool
has_column header name = elim (column 0 name header) [ none ↦ false | some i ↦ true ]

-- The first required column that the header lacks.
abbrev pub require_columns : List Text → List Text → Result CsvError (Unit {0})
require_columns header [] = ok tt
require_columns header (name ∷ names) =
    if has_column header name then require_columns header names else err (missing_column name)

abbrev pub csv_columns : List Text
csv_columns = codes "external_ref" ∷ codes "amount" ∷ codes "asset" ∷ codes "occurred_at" ∷ []

-- ParseStatementCSV
unfoldable pub parse_statement :
    (Text → Option ℕ) → (Text → ℤ) → List Item → Result CsvError (List StatementRow)
parse_statement parse_time exp [] = err empty_file
parse_statement parse_time exp (unparsed ∷ items) = err bad_header
parse_statement parse_time exp (fields header ∷ items) =
    require_columns header csv_columns >> parse_rows parse_time exp header 2 items
