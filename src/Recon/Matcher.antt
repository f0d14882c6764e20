-- ===== src/Recon/Matcher.antt =====
-- services/reconciliation/internal/domain/matcher.go: MatchNaive. An index of the mirror stands with
-- the entry at it. The message of a finding is kept as its format and the arguments of the format.
pub mod Reference
pub mod Rounds
pub mod Equivalence
pub mod Verdicts
pub mod Backing
use ledgercore.Base.{
  ℕ, suc, ◌+◌, ◌==◌, Bool, true, false, ◌&&◌, ◌||◌, List, [], ◌∷◌, ◌++◌, Option, none, some, Text,
  codes, text_eq, ℤ, eqb_ℤ, any, if◌then◌else◌,
}
use ledgercore.Recon.{
  ExternalTransaction, MirrorEntry, DiscrepancyKind, missing_internal, amount_mismatch, duplicate,
}

pub record MatchPair : Type 0 where
  pub external_id : ℕ
  pub entry_id : ℕ

-- The three formats: of a repeated reference, of an entry that differs, and of no entry.
pub data Detail : Type 0 where
  repeated : Text → ℤ → Text → Detail
  differs : Text → ℤ → Text → Text → ℤ → Text → Text → Detail
  absent : Text → ℤ → Text → Detail

pub record Finding : Type 0 where
  pub kind : DiscrepancyKind
  pub external : ExternalTransaction
  pub entry : Option MirrorEntry
  pub detail : Detail

pub record MatchResult : Type 0 where
  pub matches : List MatchPair
  pub findings : List Finding

pub record Slot : Type 0 where
  pub index : ℕ
  pub entry : MirrorEntry

-- directionMatches
abbrev pub direction_matches : Text → Text → Bool
direction_matches external mirror = text_eq external [] || text_eq external mirror

-- directionLabel
abbrev pub direction_label : Text → Text
direction_label [] = codes "(direction unspecified)"
direction_label (c ∷ s) = c ∷ s

-- byRef[ref]: the indices of the entries of one reference, in order; `i` is the first index.
unfoldable pub by_ref : ℕ → Text → List MirrorEntry → List Slot
by_ref i ref [] = []
by_ref i ref (m ∷ ms) =
    let rest = by_ref (suc i) ref ms in
    if text_eq m.reference ref then record { index = i; entry = m } ∷ rest else rest

-- Whether an entry agrees with a row, beyond the reference.
abbrev pub agrees : ExternalTransaction → MirrorEntry → Bool
agrees ext m =
    eqb_ℤ m.amount ext.amount
    && text_eq m.asset ext.asset
    && direction_matches ext.direction m.direction

pub record Search : Type 0 where
  pub matched_slot : Option Slot
  pub first_free : Option Slot

abbrev pub or_first : Option Slot → Slot → Option Slot
or_first none s = some s
or_first (some first) s = some first

-- The loop over the candidates; `consumed` tells of an index whether its entry is spent.
unfoldable pub search_candidates :
    (ℕ → Bool) → ExternalTransaction → Option Slot → List Slot → Search
search_candidates consumed ext free [] = record { matched_slot = none; first_free = free }
search_candidates consumed ext free (s ∷ rest) = elim (consumed s.index) [
  | true ↦ search_candidates consumed ext free rest
  | false ↦ elim (agrees ext s.entry) [
    | true ↦ record { matched_slot = some s; first_free = or_first free s }
    | false ↦ search_candidates consumed ext (or_first free s) rest
  ]
]

pub record Progress : Type 0 where
  pub consumed : ℕ → Bool
  pub seen_ref : List Text
  pub result : MatchResult

abbrev pub seen : Text → List Text → Bool
seen ref = any (text_eq ref)

abbrev pub add_match : MatchPair → MatchResult → MatchResult
add_match p r = record r { matches = r.matches ++ (p ∷ []) }

abbrev pub add_finding : Finding → MatchResult → MatchResult
add_finding f r = record r { findings = r.findings ++ (f ∷ []) }

abbrev pub duplicate_finding : ExternalTransaction → Finding
duplicate_finding ext = record {
  kind = duplicate;
  external = ext;
  entry = none;
  detail = repeated ext.external_ref ext.amount ext.asset;
}

abbrev pub mismatch_finding : ExternalTransaction → MirrorEntry → Finding
mismatch_finding ext m = record {
  kind = amount_mismatch;
  external = ext;
  entry = some m;
  detail =
      differs ext.external_ref ext.amount ext.asset (direction_label ext.direction) m.amount m.asset
        m.direction;
}

abbrev pub missing_finding : ExternalTransaction → Finding
missing_finding ext = record {
  kind = missing_internal;
  external = ext;
  entry = none;
  detail = absent ext.external_ref ext.amount ext.asset;
}

-- The switch at the end of a round: on the slot that matched and on the first free slot.
abbrev pub settle : ExternalTransaction → Option Slot → Option Slot → Progress → Progress
settle ext (some slot) first_free st = record st {
  consumed = λ i. if i == slot.index then true else st.consumed i;
  result = add_match (record { external_id = ext.id; entry_id = slot.entry.id }) st.result;
}
settle ext none (some slot) st = record st {
  result = add_finding (mismatch_finding ext slot.entry) st.result;
}
settle ext none none st = record st { result = add_finding (missing_finding ext) st.result }

-- One round of the loop over the rows.
unfoldable pub match_one : List MirrorEntry → ExternalTransaction → Progress → Progress
match_one mirror ext st =
    if seen ext.external_ref st.seen_ref
    then record st { result = add_finding (duplicate_finding ext) st.result }
    else let s = search_candidates st.consumed ext none (by_ref 0 ext.external_ref mirror) in
      settle ext s.matched_slot s.first_free
        (record st { seen_ref = ext.external_ref ∷ st.seen_ref })

unfoldable pub match_rows : List MirrorEntry → List ExternalTransaction → Progress → Progress
match_rows mirror [] st = st
match_rows mirror (ext ∷ rest) st = match_rows mirror rest (match_one mirror ext st)

abbrev pub no_progress : Progress
no_progress = record {
  consumed = λ (i : ℕ). false;
  seen_ref = [];
  result = record { matches = []; findings = [] };
}

unfoldable pub match_naive : List ExternalTransaction → List MirrorEntry → MatchResult
match_naive externals mirror = (match_rows mirror externals no_progress).result
