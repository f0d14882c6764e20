-- ===== src/Recon.antt =====
-- services/reconciliation/internal/domain/model.go: the entities of the reconciliation service.
-- Identifiers and instants are numbers, and 0 stands for the nil uuid. An instant is a number of
-- nanoseconds.
pub mod Matcher
pub mod Tables
pub mod Runs
pub mod Survivors
pub mod Completion
pub mod Judged
pub mod Missing
pub mod Rerun
pub mod Feed
pub mod Csv
pub mod Imports
pub mod Imported
mod Examples
mod FeedExamples
use ledgercore.Base.{ℕ, Bool, true, false, ◌||◌, List, ◌∷◌, Option, Text, codes, text_eq, ℤ}

pub data SourceKind : Type 0 where
  bank psp provider manual : SourceKind
  other_source : Text → SourceKind

unfoldable pub valid_source_kind : SourceKind → Bool
valid_source_kind bank = true
valid_source_kind psp = true
valid_source_kind provider = true
valid_source_kind manual = true
valid_source_kind (other_source t) = false

pub data ImportStatus : Type 0 where
  import_pending processed import_failed : ImportStatus

pub data MatchStatus : Type 0 where
  unmatched matched disputed : MatchStatus

pub data RunStatus : Type 0 where
  run_pending running completed run_failed : RunStatus

pub data DiscrepancyKind : Type 0 where
  missing_internal missing_external amount_mismatch duplicate : DiscrepancyKind

pub data DiscrepancyStatus : Type 0 where
  opened investigating resolved : DiscrepancyStatus
  other_discrepancy_status : Text → DiscrepancyStatus

unfoldable pub valid_discrepancy_status : DiscrepancyStatus → Bool
valid_discrepancy_status opened = true
valid_discrepancy_status investigating = true
valid_discrepancy_status resolved = true
valid_discrepancy_status (other_discrepancy_status t) = false

pub record Source : Type 0 where
  pub id : ℕ
  pub tenant_id : ℕ
  pub name : Text
  pub kind : SourceKind
  pub created_at : ℕ

pub record Import : Type 0 where
  pub id : ℕ
  pub tenant_id : ℕ
  pub source_id : ℕ
  pub filename : Text
  pub status : ImportStatus
  pub row_count : ℕ
  pub error : Text
  pub created_at : ℕ

-- An empty direction stands for a statement that declares none.
pub record ExternalTransaction : Type 0 where
  pub id : ℕ
  pub tenant_id : ℕ
  pub import_id : ℕ
  pub source_id : ℕ
  pub external_ref : Text
  pub amount : ℤ
  pub asset : Text
  pub direction : Text
  pub occurred_at : ℕ
  pub raw : List (Text × Text)
  pub match_status : MatchStatus
  pub matched_entry_id : Option ℕ

abbrev pub direction_debit : Text
direction_debit = codes "DEBIT"

abbrev pub direction_credit : Text
direction_credit = codes "CREDIT"

pub record MirrorEntry : Type 0 where
  pub id : ℕ
  pub tenant_id : ℕ
  pub transaction_id : ℕ
  pub account_id : ℕ
  pub direction : Text
  pub amount : ℤ
  pub asset : Text
  pub reference : Text
  pub posted_at : ℕ

pub record Run : Type 0 where
  pub id : ℕ
  pub tenant_id : ℕ
  pub source_id : ℕ
  pub status : RunStatus
  pub matched_count : ℕ
  pub unmatched_count : ℕ
  pub started_at : ℕ
  pub finished_at : Option ℕ

pub record Discrepancy : Type 0 where
  pub id : ℕ
  pub tenant_id : ℕ
  pub run_id : ℕ
  pub kind : DiscrepancyKind
  pub details : List (Text × Text)
  pub status : DiscrepancyStatus
  pub created_at : ℕ

pub record SourceSummary : Type 0 where
  pub source_id : ℕ
  pub source_name : Text
  pub matched_count : ℕ
  pub unmatched_count : ℕ
  pub disputed_count : ℕ
  pub open_discrepancies : ℕ
