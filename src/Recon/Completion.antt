-- ===== src/Recon/Completion.antt =====
-- services/reconciliation/internal/app/service.go: what StartRun leaves when it succeeds.
use ledgercore.Base.{
  ℕ, suc, ◌≡◌, refl, sym, ap, ◌∙◌, List, [], ◌∷◌, ◌++◌, map, Option, none, some, Text, Result, ok,
  ◌>>=◌, >>=-ok, ok-injective, if◌then◌else◌, Bool-cases, inl, inr, arith,
}
use ledgercore.Recon.{ExternalTransaction, Run, Discrepancy}
use ledgercore.Recon.Matcher.{Finding, MatchResult, match_naive}
use ledgercore.Recon.Tables.{
  ReconError, Envelope, ReconDb, get_source, list_unmatched, list_mirror, mark_disputed, run_row,
  insert_run, update_run, discrepancy_row, insert_discrepancy, insert_outbox_envelope, within,
}
use ledgercore.Recon.Runs.{
  Outside, event_kind, discrepancy_from_finding, discrepancy_envelope, mark_matches, is_disputed,
  dispute, emit, record_finding, record_findings, new_run, finished, reconcile, run_body, start_run,
}
use ledgercore.Recon.Survivors.{dispute_rows}

pub within-ok :
    {A : Type 0} (tenant : ℕ) (body : ReconDb → Result ReconError (A × ReconDb)) (db : ReconDb)
    {a : A} {after : ReconDb}
    → within tenant body db ≡ (ok a, after)
    → body db ≡ ok (a, after)
unfolding within
within-ok tenant body db h = ground arith

-- The rows and the mirror of two states are the same.
pub record SameRows (db after : ReconDb) : Type 0 where
  pub rows : after.externals ≡ db.externals
  pub entries : after.mirror ≡ db.mirror

insert_run-rows :
    (run : Run) (db after : ReconDb)
    → insert_run run db ≡ ok after
    → after ≡ record db { runs = db.runs ++ (run_row run ∷ []) }
unfolding insert_run
insert_run-rows run db after h = ground arith

insert_discrepancy-rows :
    (d : Discrepancy) (db after : ReconDb)
    → insert_discrepancy d db ≡ ok after
    → after ≡ record db { discrepancies = db.discrepancies ++ (discrepancy_row d ∷ []) }
unfolding insert_discrepancy
insert_discrepancy-rows d db after h = ground arith

insert_outbox_envelope-rows :
    (env : Envelope) (db after : ReconDb)
    → insert_outbox_envelope env db ≡ ok after
    → after ≡ record db { outbox = db.outbox ++ (env ∷ []) }
unfolding insert_outbox_envelope
insert_outbox_envelope-rows env db after h = ground arith

emit-rows :
    (o : Outside) (id : ℕ) (kind : Option Text) (run : Run) (disc : Discrepancy) (f : Finding)
    (db after : ReconDb)
    → emit o id kind run disc f db ≡ ok after
    → SameRows db after
emit-rows o id none run disc f db after h = record {
  rows = sym (ap (λ (d : ReconDb). d.externals) (ok-injective h));
  entries = sym (ap (λ (d : ReconDb). d.mirror) (ok-injective h));
}
emit-rows o id (some kind) run disc f db after h =
    let e = insert_outbox_envelope-rows (discrepancy_envelope o id kind run disc f) db after h in
    record {
      rows = ap (λ (d : ReconDb). d.externals) e;
      entries = ap (λ (d : ReconDb). d.mirror) e;
    }

-- A round disputes the row of its finding, or leaves the rows.
abbrev disputed_rows : Finding → List ExternalTransaction → List ExternalTransaction
disputed_rows f xs = if is_disputed f.kind then map (mark_disputed f.external.id) xs else xs

dispute-rows :
    (f : Finding) (db : ReconDb)
    → ((dispute f db).externals ≡ disputed_rows f db.externals)
      × ((dispute f db).mirror ≡ db.mirror)
dispute-rows f db = elim (Bool-cases (is_disputed f.kind)) [
  | inl e ↦ rw e (refl, refl)
  | inr e ↦ rw e (refl, refl)
]

record_finding-rows :
    (o : Outside) (k : ℕ) (run : Run) (f : Finding) (db after : ReconDb)
    → record_finding o k run f db ≡ ok after
    → (after.externals ≡ disputed_rows f db.externals) × (after.mirror ≡ db.mirror)
unfolding record_finding
record_finding-rows o k run f db after h =
    let disc : Discrepancy = discrepancy_from_finding o (o.fresh k) run f in
    let (inserted, e, emitted) =
      >>=-ok (insert_discrepancy disc (dispute f db))
        (λ d. emit o (o.fresh (suc k)) (event_kind f.kind) run disc f d) h in
    let same =
      emit-rows o (o.fresh (suc k)) (event_kind f.kind) run disc f inserted after emitted in
    let ins = insert_discrepancy-rows disc (dispute f db) inserted e in
    (
      same.rows ∙ ap (λ (d : ReconDb). d.externals) ins ∙ (dispute-rows f db).0,
      same.entries ∙ ap (λ (d : ReconDb). d.mirror) ins ∙ (dispute-rows f db).1,
    )

record_findings-rows :
    (o : Outside) (k : ℕ) (run : Run) (fs : List Finding) (db after : ReconDb)
    → record_findings o k run fs db ≡ ok after
    → (after.externals ≡ dispute_rows fs db.externals) × (after.mirror ≡ db.mirror)
unfolding record_findings dispute_rows
record_findings-rows o k run [] db after h = (
  sym (ap (λ (d : ReconDb). d.externals) (ok-injective h)),
  sym (ap (λ (d : ReconDb). d.mirror) (ok-injective h)),
)
record_findings-rows o k run (f ∷ fs) db after h =
    let (one, e, rest) =
      >>=-ok (record_finding o k run f db) (λ d. record_findings o (suc (suc k)) run fs d) h in
    let (rows, entries) = record_findings-rows o (suc (suc k)) run fs one after rest in
    let (row, entry) = record_finding-rows o k run f db one e in
    (rows ∙ ap (dispute_rows fs) row, entries ∙ entry)

abbrev pub matching : ℕ → ReconDb → MatchResult
matching source db = match_naive (list_unmatched source db) (list_mirror db)

pub record Completed (o : Outside) (tenant source : ℕ) (db : ReconDb) (run : Run) (after : ReconDb)
    : Type 0 where
  pub counted : run ≡ finished o (new_run o tenant source) (matching source db)
  pub rows :
      let r = matching source db in
      after.externals ≡ dispute_rows r.findings (mark_matches r.matches db.externals)
  pub entries : after.mirror ≡ db.mirror

reconcile-ok :
    (o : Outside) (run : Run) (db after : ReconDb) {done : Run}
    → reconcile o run db ≡ ok (done, after)
    → let r = matching run.source_id db in
      (done ≡ finished o run r)
      × (after.externals ≡ dispute_rows r.findings (mark_matches r.matches db.externals))
      × (after.mirror ≡ db.mirror)
unfolding reconcile
reconcile-ok o run db after h =
    let r : MatchResult = matching run.source_id db in
    let marked : ReconDb = record db { externals = mark_matches r.matches db.externals } in
    let (recorded, e, e') =
      >>=-ok (record_findings o 1 run r.findings marked)
        (λ d. ok (finished o run r, update_run (finished o run r) d)) h in
    let (rows, entries) = record_findings-rows o 1 run r.findings marked recorded e in
    let pair = ok-injective e' in
    (
      sym (ap (λ t. t.0) pair),
      sym (ap (λ t. t.1.externals) pair) ∙ rows,
      sym (ap (λ t. t.1.mirror) pair) ∙ entries,
    )

-- A new run changes neither the rows nor the entries.
matching-insert_run :
    (source : ℕ) (run : Run) (db : ReconDb)
    → matching source (record db { runs = db.runs ++ (run_row run ∷ []) }) ≡ matching source db
unfolding list_unmatched list_mirror
matching-insert_run source run db = refl

run_body-Completed :
    (o : Outside) (tenant source : ℕ) (db after : ReconDb) {run : Run}
    → run_body o (new_run o tenant source) db ≡ ok (run, after)
    → Completed o tenant source db run after
unfolding run_body
run_body-Completed o tenant source db after {run} h =
    let start : Run = new_run o tenant source in
    let (src, got, h1) =
      >>=-ok (get_source source db) (λ s. insert_run start db >>= λ d. reconcile o start d) h in
    let (started, ins, h2) = >>=-ok (insert_run start db) (λ d. reconcile o start d) h1 in
    let inserted : ReconDb = record db { runs = db.runs ++ (run_row start ∷ []) } in
    let is : started ≡ inserted = insert_run-rows start db started ins in
    let (done, rows, entries) =
      reconcile-ok o start inserted after {done = run} (sym (ap (reconcile o start) is) ∙ h2) in
    let same : matching source inserted ≡ matching source db =
      matching-insert_run source start db in
    record {
      counted = done ∙ ap (finished o start) same;
      rows =
          rows
          ∙ ap (λ (r : MatchResult). dispute_rows r.findings (mark_matches r.matches db.externals))
              same;
      entries = entries;
    }

start_run-body :
    (o : Outside) (tenant source : ℕ) (db after : ReconDb) {run : Run}
    → start_run o tenant source db ≡ (ok run, after)
    → within tenant (run_body o (new_run o tenant source)) db ≡ (ok run, after)
unfolding start_run
start_run-body o tenant source db after h = ground arith

pub start_run-Completed :
    (o : Outside) (tenant source : ℕ) (db after : ReconDb) {run : Run}
    → start_run o tenant source db ≡ (ok run, after)
    → Completed o tenant source db run after
start_run-Completed o tenant source db after {run} h =
    run_body-Completed o tenant source db after {run = run} (
      within-ok tenant (run_body o (new_run o tenant source)) db
        (start_run-body o tenant source db after {run = run} h))
