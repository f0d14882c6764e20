-- ===== src/Recon/Examples.antt =====
-- A source with five rows against a mirror of three entries, and instances of the theorems.
use ledgercore.Base.{
  ℕ, ◌+◌, ◌≡◌, refl, codes, pos, ok, none, some, [], ◌∷◌, Text, arith, sort_by, insert_sorted,
  text_eq, Distinct, List, All, ◌++◌, length,
}
use ledgercore.Recon.{
  bank, ExternalTransaction, unmatched, MirrorEntry, direction_debit, direction_credit, Run,
  completed,
}
use ledgercore.Recon.Matcher.{
  by_ref, search_candidates, match_one, match_rows, match_naive, duplicate_finding,
  mismatch_finding, missing_finding,
}
use mathlib.Core.List.{Permᴰ}
use ledgercore.Recon.Matcher.Backing.{Backs, match_naive-AllBack}
use ledgercore.Recon.Matcher.Reference.{judge_rows, matches_of, findings_of}
use ledgercore.Recon.Matcher.Equivalence.{match_naive_reference}
use ledgercore.Recon.Matcher.Verdicts.{
  entry_ids, matched_ids, flagged_ids, row_ids, match_naive-perm,
}
use ledgercore.Recon.Tables.{
  ReconDb, get_source, insert_run, list_unmatched, list_mirror, insert_discrepancy,
  insert_outbox_envelope, within,
}
use ledgercore.Recon.Runs.{
  Outside, event_kind, discrepancy_from_finding, discrepancy_envelope, mark_matches, record_finding,
  record_findings, reconcile, run_body, start_run,
}
use ledgercore.Recon.Rerun.{start_run-again}

abbrev row : ℕ → Text → ℕ → Text → ExternalTransaction
row id ref amount direction = record {
  id = id;
  tenant_id = 1;
  import_id = 2;
  source_id = 3;
  external_ref = ref;
  amount = pos amount;
  asset = codes "USD";
  direction = direction;
  occurred_at = id;
  raw = [];
  match_status = unmatched;
  matched_entry_id = none;
}

abbrev entry : ℕ → Text → ℕ → Text → MirrorEntry
entry id ref amount direction = record {
  id = id;
  tenant_id = 1;
  transaction_id = id + 100;
  account_id = 5;
  direction = direction;
  amount = pos amount;
  asset = codes "USD";
  reference = ref;
  posted_at = id;
}

abbrev rows : List ExternalTransaction
rows =
    row 11 (codes "a") 500 []
    ∷ row 12 (codes "a") 500 []
    ∷ row 13 (codes "b") 700 direction_credit
    ∷ row 14 (codes "c") 900 []
    ∷ row 15 (codes "b") 700 direction_debit
    ∷ []

abbrev entries : List MirrorEntry
entries =
    entry 21 (codes "a") 500 direction_debit
    ∷ entry 22 (codes "b") 700 direction_debit
    ∷ entry 23 (codes "b") 650 direction_credit
    ∷ []

four_rows : match_naive rows entries ≡ record {
  matches = record { external_id = 11; entry_id = 21 } ∷ [];
  findings =
      duplicate_finding (row 12 (codes "a") 500 [])
      ∷ mismatch_finding
          (row 13 (codes "b") 700 direction_credit)
          (entry 22 (codes "b") 700 direction_debit)
      ∷ missing_finding (row 14 (codes "c") 900 [])
      ∷ duplicate_finding (row 15 (codes "b") 700 direction_debit)
      ∷ [];
}
unfolding match_naive match_rows match_one search_candidates by_ref text_eq
four_rows = refl

match_naive-AllBack_example :
    let r = match_naive rows entries in
    All (Backs rows entries []) r.matches × Distinct (entry_ids r.matches)
match_naive-AllBack_example = match_naive-AllBack rows entries (omega arith)

match_naive_reference_example : match_naive rows entries ≡ (
    let js = judge_rows entries [] rows in
    record { matches = matches_of js; findings = findings_of js })
match_naive_reference_example = match_naive_reference rows entries

match_naive-perm_example :
    let r = match_naive rows entries in
    Permᴰ (matched_ids r.matches ++ flagged_ids r.findings) (row_ids rows)
match_naive-perm_example = match_naive-perm rows entries

abbrev tables : ReconDb
tables = record {
  sources = record { id = 3; tenant_id = 1; name = codes "s"; kind = bank; created_at = 1 } ∷ [];
  imports = [];
  externals = rows;
  mirror = entries;
  runs = [];
  discrepancies = [];
  outbox = [];
}

-- Calls with ids from 100 and from 200 on.
abbrev from_100 : Outside
from_100 = record { now = 30; fresh = λ i. i + 100; uuid_text = λ id. []; message = λ d. [] }

abbrev from_200 : Outside
from_200 = record { now = 40; fresh = λ i. i + 200; uuid_text = λ id. []; message = λ d. [] }

abbrev first_run : Run
first_run = record {
  id = 100;
  tenant_id = 1;
  source_id = 3;
  status = completed;
  matched_count = 1;
  unmatched_count = 4;
  started_at = 30;
  finished_at = some 30;
}

abbrev second_run : Run
second_run = record {
  id = 200;
  tenant_id = 1;
  source_id = 3;
  status = completed;
  matched_count = 0;
  unmatched_count = 1;
  started_at = 40;
  finished_at = some 40;
}

abbrev after_first : ReconDb
unfolding start_run within run_body reconcile get_source insert_run list_unmatched list_mirror
    match_naive match_rows match_one search_candidates by_ref text_eq sort_by insert_sorted
    mark_matches record_findings record_finding insert_discrepancy insert_outbox_envelope event_kind
    discrepancy_from_finding discrepancy_envelope
after_first = (start_run from_100 1 3 tables).1

abbrev after_second : ReconDb
unfolding start_run within run_body reconcile get_source insert_run list_unmatched list_mirror
    match_naive match_rows match_one search_candidates by_ref text_eq sort_by insert_sorted
    mark_matches record_findings record_finding insert_discrepancy insert_outbox_envelope event_kind
    discrepancy_from_finding discrepancy_envelope
after_second = (start_run from_200 1 3 after_first).1

first_run_lem : start_run from_100 1 3 tables ≡ (ok first_run, after_first)
unfolding start_run within run_body reconcile get_source insert_run list_unmatched list_mirror
    match_naive match_rows match_one search_candidates by_ref text_eq sort_by insert_sorted
    mark_matches record_findings record_finding insert_discrepancy insert_outbox_envelope event_kind
    discrepancy_from_finding discrepancy_envelope
first_run_lem = refl

second_run_lem : start_run from_200 1 3 after_first ≡ (ok second_run, after_second)
unfolding start_run within run_body reconcile get_source insert_run list_unmatched list_mirror
    match_naive match_rows match_one search_candidates by_ref text_eq sort_by insert_sorted
    mark_matches record_findings record_finding insert_discrepancy insert_outbox_envelope event_kind
    discrepancy_from_finding discrepancy_envelope
second_run_lem = refl

start_run-again_example :
    (second_run.matched_count ≡ 0)
    × (second_run.unmatched_count ≡ length (list_unmatched 3 after_first))
    × (after_second.externals ≡ after_first.externals)
start_run-again_example =
    start_run-again from_100 from_200 1 3 tables after_first after_second first_run second_run
      (omega arith) first_run_lem second_run_lem
