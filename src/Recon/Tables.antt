-- ===== src/Recon/Tables.antt =====
-- services/reconciliation/internal/adapters/postgres/store.go: the tables of the service as one tenant
-- sees them, and the queries and updates on them. Every method runs in a transaction whose row-level
-- security shows the rows of one tenant, so the state is that tenant's rows.
use ledgercore.Base.{
  ℕ, ◌==◌, Bool, true, false, ◌&&◌, ◌||◌, List, [], ◌∷◌, ◌++◌, map, Option, none, some, Text,
  text_eq, ltb, leb, length, any, find?, select, Result, ok, err, fail_if, ◌>>◌, if◌then◌else◌,
  sort_by, insert_missing, to_micros, map_micros,
}
use ledgercore.Recon.{
  Source, Import, ExternalTransaction, MirrorEntry, Run, Discrepancy, MatchStatus, unmatched,
  matched, disputed,
}

-- not_found and the validation error of the service; the violation of a key, a text that does not fit
-- its column, and the nil tenant.
pub data ReconError : Type 0 where
  not_found validation key_violation too_long nil_tenant : ReconError

-- discrepancyDetectedPayload.
pub record DiscrepancyDetected : Type 0 where
  pub discrepancy_id : ℕ
  pub run_id : ℕ
  pub source_id : ℕ
  pub kind : Text
  pub external_id : Text
  pub transaction_id : Option ℕ
  pub asset : Text
  pub amount : Text
  pub detail : Text
  pub detected_at : ℕ

-- An envelope of the topic recon.discrepancy.detected.
pub record Envelope : Type 0 where
  pub id : ℕ
  pub tenant_id : ℕ
  pub payload : DiscrepancyDetected

pub record ReconDb : Type 0 where
  pub sources : List Source
  pub imports : List Import
  pub externals : List ExternalTransaction
  pub mirror : List MirrorEntry
  pub runs : List Run
  pub discrepancies : List Discrepancy
  pub outbox : List Envelope

-- The characters of a text in UTF-8: the bytes that do not continue one.
abbrev pub characters : Text → ℕ
characters s = length (select (λ c. ltb c 128 || leb 192 c) s)

-- GetSource
unfoldable pub get_source : ℕ → ReconDb → Result ReconError Source
get_source id db = elim (find? (λ (s : Source). s.id == id) db.sources) [
  | some s ↦ ok s
  | none ↦ err not_found
]

-- A row of each table, with its instants as a column keeps them.
abbrev pub source_row : Source → Source
source_row s = record s { created_at = to_micros s.created_at }

-- InsertSource: the id is a key, and so is the name.
unfoldable pub insert_source : Source → ReconDb → Result ReconError ReconDb
insert_source s db =
    fail_if (any (λ (o : Source). o.id == s.id || text_eq o.name s.name) db.sources) key_violation
    >> ok (record db { sources = db.sources ++ (source_row s ∷ []) })

abbrev pub import_row : Import → Import
import_row imp = record imp { created_at = to_micros imp.created_at }

-- InsertImport
unfoldable pub insert_import : Import → ReconDb → Result ReconError ReconDb
insert_import imp db =
    fail_if (ltb 512 (characters imp.filename)) too_long
    >> (fail_if (any (λ (o : Import). o.id == imp.id) db.imports) key_violation
        >> ok (record db { imports = db.imports ++ (import_row imp ∷ []) }))

abbrev pub external_row : ExternalTransaction → ExternalTransaction
external_row x = record x { occurred_at = to_micros x.occurred_at }

-- InsertExternalTransactions: one statement for each row.
unfoldable pub insert_externals : List ExternalTransaction → ReconDb → Result ReconError ReconDb
insert_externals [] db = ok db
insert_externals (x ∷ xs) db =
    fail_if (ltb 255 (characters x.external_ref) || ltb 12 (characters x.asset)) too_long
    >> (fail_if (any (λ (o : ExternalTransaction). o.id == x.id) db.externals) key_violation
        >> insert_externals xs (record db { externals = db.externals ++ (external_row x ∷ []) }))

abbrev pub same_entry : MirrorEntry → MirrorEntry → Bool
same_entry e o = o.id == e.id

abbrev pub entry_row : MirrorEntry → MirrorEntry
entry_row e = record e { posted_at = to_micros e.posted_at }

-- InsertMirrorEntries: an entry whose id is there is left out.
unfoldable pub insert_mirror_entries : List MirrorEntry → List MirrorEntry → List MirrorEntry
insert_mirror_entries es mirror = insert_missing same_entry (map entry_row es) mirror

abbrev pub is_unmatched : MatchStatus → Bool
is_unmatched unmatched = true
is_unmatched matched = false
is_unmatched disputed = false

-- ORDER BY occurred_at, id.
abbrev pub external_before : ExternalTransaction → ExternalTransaction → Bool
external_before x y =
    ltb x.occurred_at y.occurred_at || (x.occurred_at == y.occurred_at && ltb x.id y.id)

-- ORDER BY posted_at, id.
abbrev pub entry_before : MirrorEntry → MirrorEntry → Bool
entry_before x y = ltb x.posted_at y.posted_at || (x.posted_at == y.posted_at && ltb x.id y.id)

-- The raw row is not read back.
abbrev pub without_raw : ExternalTransaction → ExternalTransaction
without_raw x = record x { raw = [] }

-- ListUnmatchedExternals
unfoldable pub list_unmatched : ℕ → ReconDb → List ExternalTransaction
list_unmatched source db = map without_raw (
    sort_by external_before (
      select (λ (x : ExternalTransaction). x.source_id == source && is_unmatched x.match_status)
        db.externals))

-- ListMirrorEntries
unfoldable pub list_mirror : ReconDb → List MirrorEntry
list_mirror db = sort_by entry_before db.mirror

-- MarkExternalMatched
abbrev pub mark_matched : ℕ → ℕ → ExternalTransaction → ExternalTransaction
mark_matched id entry x =
    if x.id == id then record x { match_status = matched; matched_entry_id = some entry } else x

-- MarkExternalDisputed
abbrev pub mark_disputed : ℕ → ExternalTransaction → ExternalTransaction
mark_disputed id x = if x.id == id then record x { match_status = disputed } else x

abbrev pub run_row : Run → Run
run_row r = record r { started_at = to_micros r.started_at; finished_at = map_micros r.finished_at }

-- InsertRun
unfoldable pub insert_run : Run → ReconDb → Result ReconError ReconDb
insert_run run db =
    fail_if (any (λ (o : Run). o.id == run.id) db.runs) key_violation
    >> ok (record db { runs = db.runs ++ (run_row run ∷ []) })

-- UpdateRun: the tenant, the source and the start of the row stay.
abbrev pub update_run_row : Run → Run → Run
update_run_row run o =
    if o.id == run.id
    then record o {
      status = run.status;
      matched_count = run.matched_count;
      unmatched_count = run.unmatched_count;
      finished_at = map_micros run.finished_at;
    }
    else o

abbrev pub update_run : Run → ReconDb → ReconDb
update_run run db = record db { runs = map (update_run_row run) db.runs }

-- GetRun
unfoldable pub get_run : ℕ → ReconDb → Result ReconError Run
get_run id db = elim (find? (λ (r : Run). r.id == id) db.runs) [
  | some r ↦ ok r
  | none ↦ err not_found
]

abbrev pub discrepancy_row : Discrepancy → Discrepancy
discrepancy_row d = record d { created_at = to_micros d.created_at }

-- InsertDiscrepancy
unfoldable pub insert_discrepancy : Discrepancy → ReconDb → Result ReconError ReconDb
insert_discrepancy d db =
    fail_if (any (λ (o : Discrepancy). o.id == d.id) db.discrepancies) key_violation
    >> ok (record db { discrepancies = db.discrepancies ++ (discrepancy_row d ∷ []) })

-- GetDiscrepancy
unfoldable pub get_discrepancy : ℕ → ReconDb → Result ReconError Discrepancy
get_discrepancy id db = elim (find? (λ (d : Discrepancy). d.id == id) db.discrepancies) [
  | some d ↦ ok d
  | none ↦ err not_found
]

-- UpdateDiscrepancy
abbrev pub update_discrepancy_row : Discrepancy → Discrepancy → Discrepancy
update_discrepancy_row d o =
    if o.id == d.id then record o { status = d.status; details = d.details } else o

-- InsertOutboxEnvelope
unfoldable pub insert_outbox_envelope : Envelope → ReconDb → Result ReconError ReconDb
insert_outbox_envelope env db =
    fail_if (any (λ (o : Envelope). o.id == env.id) db.outbox) key_violation
    >> ok (record db { outbox = db.outbox ++ (env ∷ []) })

-- pgxutil.WithTenantTx: the tables change only on success, and the nil tenant is refused.
unfoldable pub within :
    {A : Type 0}
    → ℕ
    → (ReconDb → Result ReconError (A × ReconDb))
    → ReconDb
    → Result ReconError A × ReconDb
within tenant body db =
    if tenant == 0
    then (err nil_tenant, db)
    else elim (body db) [ ok (a, db') ↦ (ok a, db') | err e ↦ (err e, db) ]
