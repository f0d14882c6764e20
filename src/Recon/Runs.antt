-- ===== src/Recon/Runs.antt =====
-- services/reconciliation/internal/app/service.go: the use cases of the reconciliation. What a call
-- gets from outside is an argument: the clock, the new uuids, and the texts of uuids and of messages.
use ledgercore.Base.{
  ℕ, suc, ◌==◌, Bool, true, false, not, ◌||◌, List, [], ◌∷◌, map, Option, none, some, Text, codes,
  text_eq, ltb, length, Result, ok, err, ◌>>=◌, if◌then◌else◌,
}
use ledgercore.Money.Decimal.{format_int}
use ledgercore.Recon.{
  SourceKind, valid_source_kind, Source, ExternalTransaction, MirrorEntry, Run, running, completed,
  Discrepancy, DiscrepancyKind, missing_internal, missing_external, amount_mismatch, duplicate,
  DiscrepancyStatus, opened, valid_discrepancy_status,
}
use ledgercore.Recon.Matcher.{MatchPair, Finding, MatchResult, Detail, match_naive}
use ledgercore.Recon.Tables.{
  ReconError, validation, Envelope, ReconDb, get_source, insert_source, list_unmatched, list_mirror,
  mark_matched, mark_disputed, insert_run, update_run, insert_discrepancy, get_discrepancy,
  update_discrepancy_row, insert_outbox_envelope, within,
}

-- `fresh i` is the i-th uuid that a call generates.
pub record Outside : Type 0 where
  pub now : ℕ
  pub fresh : ℕ → ℕ
  pub uuid_text : ℕ → Text
  pub message : Detail → Text

-- CreateSource
unfoldable pub create_source :
    Outside → ℕ → Text → SourceKind → ReconDb → Result ReconError Source × ReconDb
create_source o tenant name kind db =
    let src : Source = record {
      id = o.fresh 0;
      tenant_id = tenant;
      name = name;
      kind = kind;
      created_at = o.now;
    } in
    if (length name == 0) || ltb 255 (length name) || not (valid_source_kind kind)
    then (err validation, db)
    else within tenant (λ tables. insert_source src tables >>= λ after. ok (src, after)) db

-- eventKind
unfoldable pub event_kind : DiscrepancyKind → Option Text
event_kind missing_internal = some (codes "missing_in_ledger")
event_kind missing_external = some (codes "missing_in_source")
event_kind amount_mismatch = some (codes "amount_mismatch")
event_kind duplicate = none

abbrev pub entry_details : Outside → Option MirrorEntry → List (Text × Text)
entry_details o none = []
entry_details o (some m) =
    (codes "entry_id", o.uuid_text m.id)
    ∷ (codes "entry_transaction_id", o.uuid_text m.transaction_id)
    ∷ (codes "entry_amount", format_int m.amount)
    ∷ (codes "entry_asset", m.asset)
    ∷ []

-- discrepancyFromFinding
unfoldable pub discrepancy_from_finding : Outside → ℕ → Run → Finding → Discrepancy
discrepancy_from_finding o id run f = record {
  id = id;
  tenant_id = run.tenant_id;
  run_id = run.id;
  kind = f.kind;
  details =
      (codes "external_id", o.uuid_text f.external.id)
      ∷ (codes "external_ref", f.external.external_ref)
      ∷ (codes "external_amount", format_int f.external.amount)
      ∷ (codes "asset", f.external.asset)
      ∷ (codes "detail", o.message f.detail)
      ∷ entry_details o f.entry;
  status = opened;
  created_at = o.now;
}

abbrev pub entry_transaction : Option MirrorEntry → Option ℕ
entry_transaction none = none
entry_transaction (some m) = some m.transaction_id

-- discrepancyEnvelope, for a kind that the contract names.
unfoldable pub discrepancy_envelope : Outside → ℕ → Text → Run → Discrepancy → Finding → Envelope
discrepancy_envelope o id kind run disc f = record {
  id = id;
  tenant_id = run.tenant_id;
  payload = record {
    discrepancy_id = disc.id;
    run_id = run.id;
    source_id = run.source_id;
    kind = kind;
    external_id = f.external.external_ref;
    transaction_id = entry_transaction f.entry;
    asset = f.external.asset;
    amount = format_int f.external.amount;
    detail = o.message f.detail;
    detected_at = disc.created_at;
  };
}

-- The first loop of StartRun.
unfoldable pub mark_matches : List MatchPair → List ExternalTransaction → List ExternalTransaction
mark_matches [] xs = xs
mark_matches (m ∷ ms) xs = mark_matches ms (map (mark_matched m.external_id m.entry_id) xs)

-- amount_mismatch and duplicate rows are disputed.
abbrev pub is_disputed : DiscrepancyKind → Bool
is_disputed missing_internal = false
is_disputed missing_external = false
is_disputed amount_mismatch = true
is_disputed duplicate = true

abbrev pub dispute : Finding → ReconDb → ReconDb
dispute f db =
    if is_disputed f.kind
    then record db { externals = map (mark_disputed f.external.id) db.externals }
    else db

-- An event for the kinds that have one.
abbrev pub emit :
    Outside → ℕ → Option Text → Run → Discrepancy → Finding → ReconDb → Result ReconError ReconDb
emit o id none run disc f db = ok db
emit o id (some kind) run disc f db =
    insert_outbox_envelope (discrepancy_envelope o id kind run disc f) db

-- One round of the second loop; `k` counts the uuids that the call has used.
unfoldable pub record_finding : Outside → ℕ → Run → Finding → ReconDb → Result ReconError ReconDb
record_finding o k run f db =
    let disc = discrepancy_from_finding o (o.fresh k) run f in
    insert_discrepancy disc (dispute f db) >>= λ after.
    emit o (o.fresh (suc k)) (event_kind f.kind) run disc f after

unfoldable pub record_findings :
    Outside → ℕ → Run → List Finding → ReconDb → Result ReconError ReconDb
record_findings o k run [] db = ok db
record_findings o k run (f ∷ fs) db =
    record_finding o k run f db >>= λ after. record_findings o (suc (suc k)) run fs after

abbrev pub new_run : Outside → ℕ → ℕ → Run
new_run o tenant source = record {
  id = o.fresh 0;
  tenant_id = tenant;
  source_id = source;
  status = running;
  matched_count = 0;
  unmatched_count = 0;
  started_at = o.now;
  finished_at = none;
}

abbrev pub finished : Outside → Run → MatchResult → Run
finished o run result = record run {
  status = completed;
  matched_count = length result.matches;
  unmatched_count = length result.findings;
  finished_at = some o.now;
}

-- The transaction of StartRun from the lists on.
unfoldable pub reconcile : Outside → Run → ReconDb → Result ReconError (Run × ReconDb)
reconcile o run db =
    let result = match_naive (list_unmatched run.source_id db) (list_mirror db) in
    record_findings o 1 run result.findings
      (record db { externals = mark_matches result.matches db.externals })
    >>= λ after. ok (finished o run result, update_run (finished o run result) after)

unfoldable pub run_body : Outside → Run → ReconDb → Result ReconError (Run × ReconDb)
run_body o run db = get_source run.source_id db >>= λ source.
    insert_run run db >>= λ started. reconcile o run started

-- StartRun
unfoldable pub start_run : Outside → ℕ → ℕ → ReconDb → Result ReconError Run × ReconDb
start_run o tenant source db =
    if source == 0
    then (err validation, db)
    else within tenant (run_body o (new_run o tenant source)) db

-- UpdateDiscrepancy: the note goes under its key, in place of an older one.
unfoldable pub put_detail : Text → Text → List (Text × Text) → List (Text × Text)
put_detail key value [] = (key, value) ∷ []
put_detail key value ((k, v) ∷ rest) =
    let later = put_detail key value rest in
    if text_eq k key then (key, value) ∷ rest else (k, v) ∷ later

abbrev pub with_note : Text → List (Text × Text) → List (Text × Text)
with_note [] details = details
with_note (c ∷ note) details = put_detail (codes "resolution_note") (c ∷ note) details

unfoldable pub update_discrepancy :
    ℕ → ℕ → DiscrepancyStatus → Text → ReconDb → Result ReconError Discrepancy × ReconDb
update_discrepancy tenant id status note db =
    if not (valid_discrepancy_status status)
    then (err validation, db)
    else within tenant
        (λ tables. get_discrepancy id tables >>= λ d.
          let d' = record d { status = status; details = with_note note d.details } in
          ok (
            d',
            record tables { discrepancies = map (update_discrepancy_row d') tables.discrepancies },
          ))
        db
