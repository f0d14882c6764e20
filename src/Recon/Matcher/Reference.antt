-- ===== src/Recon/Matcher/Reference.antt =====
-- services/reconciliation/internal/domain/matcher.go: what MatchNaive promises, without indices and
-- without a record of the entries that are spent.
use ledgercore.Base.{
  ℕ, suc, ◌==◌, ◌≤◌, ◌≡◌, refl, Bool, true, false, ◌&&◌, List, [], ◌∷◌, Option, none, some, Text,
  text_eq, text_eq→eq, find?, All, All-weaken, All-both, if◌then◌else◌, Bool-cases, inl, inr, arith,
}
use ledgercore.Recon.{ExternalTransaction, MirrorEntry}
use ledgercore.Recon.Matcher.{
  MatchPair, Finding, Slot, by_ref, agrees, or_first, search_candidates, seen, duplicate_finding,
  mismatch_finding, missing_finding,
}

pub data Verdict : Type 0 where
  repeats missing : Verdict
  backed contradicted : MirrorEntry → Verdict

abbrev pub refers : Text → MirrorEntry → Bool
refers ref m = text_eq m.reference ref

abbrev pub backs : ExternalTransaction → MirrorEntry → Bool
backs ext m = refers ext.external_ref m && agrees ext m

abbrev pub compare_entries : Option MirrorEntry → Option MirrorEntry → Verdict
compare_entries (some m) same_ref = backed m
compare_entries none (some m) = contradicted m
compare_entries none none = missing

-- The verdict on one row, from the references of the rows before it.
unfoldable pub judge : List MirrorEntry → List Text → ExternalTransaction → Verdict
judge mirror earlier ext =
    if seen ext.external_ref earlier
    then repeats
    else compare_entries (find? (backs ext) mirror) (find? (refers ext.external_ref) mirror)

pub record Judgement : Type 0 where
  pub external : ExternalTransaction
  pub verdict : Verdict

unfoldable pub judge_rows : List MirrorEntry → List Text → List ExternalTransaction → List Judgement
judge_rows mirror earlier [] = []
judge_rows mirror earlier (ext ∷ rest) =
    record { external = ext; verdict = judge mirror earlier ext }
    ∷ judge_rows mirror (ext.external_ref ∷ earlier) rest

unfoldable pub matches_of : List Judgement → List MatchPair
matches_of [] = []
matches_of (j ∷ js) = elim j.verdict [
  | backed m ↦ record { external_id = j.external.id; entry_id = m.id } ∷ matches_of js
  | contradicted m ↦ matches_of js
  | repeats ↦ matches_of js
  | missing ↦ matches_of js
]

unfoldable pub findings_of : List Judgement → List Finding
findings_of [] = []
findings_of (j ∷ js) = elim j.verdict [
  | backed m ↦ findings_of js
  | contradicted m ↦ mismatch_finding j.external m ∷ findings_of js
  | repeats ↦ duplicate_finding j.external ∷ findings_of js
  | missing ↦ missing_finding j.external ∷ findings_of js
]

abbrev pub entry_of : Option Slot → Option MirrorEntry
entry_of none = none
entry_of (some s) = some s.entry

abbrev pub first_of : List Slot → Option Slot
first_of [] = none
first_of (s ∷ rest) = some s

abbrev pub or_else : Option Slot → Option Slot → Option Slot
or_else none s = s
or_else (some first) s = some first

abbrev pub IsFree : (ℕ → Bool) → List Slot → Type 0
IsFree consumed = All (λ (s : Slot). consumed s.index ≡ false)

abbrev pub agreeing : ExternalTransaction → List Slot → Option Slot
agreeing ext = find? (λ (s : Slot). agrees ext s.entry)

pub search-matched :
    (consumed : ℕ → Bool) (ext : ExternalTransaction) (free : Option Slot) (slots : List Slot)
    → IsFree consumed slots
    → (search_candidates consumed ext free slots).matched_slot ≡ agreeing ext slots
unfolding search_candidates
search-matched consumed ext free [] h = refl
search-matched consumed ext free (s ∷ rest) h =
    ground (arith, h.0, search-matched consumed ext (or_first free s) rest h.1)

pub search-first :
    (consumed : ℕ → Bool) (ext : ExternalTransaction) (free : Option Slot) (slots : List Slot)
    → IsFree consumed slots
    → agreeing ext slots ≡ none
    → (search_candidates consumed ext free slots).first_free ≡ or_else free (first_of slots)
unfolding search_candidates
search-first consumed ext none [] h no_match = refl
search-first consumed ext (some f) [] h no_match = refl
search-first consumed ext none (s ∷ rest) h no_match =
    ground (arith, h.0, search-first consumed ext (some s) rest h.1)
search-first consumed ext (some f) (s ∷ rest) h no_match =
    ground (arith, h.0, search-first consumed ext (some f) rest h.1)

pub entry-agreeing :
    (ext : ExternalTransaction) (i : ℕ) (ms : List MirrorEntry)
    → entry_of (agreeing ext (by_ref i ext.external_ref ms)) ≡ find? (backs ext) ms
unfolding by_ref
entry-agreeing ext i [] = refl
entry-agreeing ext i (m ∷ ms) = elim (Bool-cases (text_eq m.reference ext.external_ref)) [
  | inl e ↦ rw e (elim (Bool-cases (agrees ext m)) [
    | inl a ↦ rw a refl
    | inr a ↦ rw a (entry-agreeing ext (suc i) ms)
  ])
  | inr e ↦ rw e (entry-agreeing ext (suc i) ms)
]

pub entry-first :
    (ref : Text) (i : ℕ) (ms : List MirrorEntry)
    → entry_of (first_of (by_ref i ref ms)) ≡ find? (refers ref) ms
unfolding by_ref
entry-first ref i [] = refl
entry-first ref i (m ∷ ms) = elim (Bool-cases (text_eq m.reference ref)) [
  | inl e ↦ rw e refl
  | inr e ↦ rw e (entry-first ref (suc i) ms)
]

-- The candidates of one reference are apart from those of another.
by_ref-above :
    (ref : Text) (i : ℕ) (ms : List MirrorEntry) → All (λ (s : Slot). i ≤ s.index) (by_ref i ref ms)
unfolding by_ref
by_ref-above ref i [] = tt
by_ref-above ref i (m ∷ ms) =
    let above : All (λ (s : Slot). i ≤ s.index) (by_ref (suc i) ref ms) =
      All-weaken (λ (s : Slot). suc i ≤ s.index) (λ s. i ≤ s.index) (by_ref (suc i) ref ms)
        (λ s h. omega arith) (by_ref-above ref (suc i) ms) in
    elim (Bool-cases (text_eq m.reference ref)) [
      | inl e ↦ rw e (omega arith, above)
      | inr e ↦ rw e above
    ]

abbrev pub IsApart : List Slot → Slot → Type 0
IsApart slots s = All (λ (t : Slot). (t.index == s.index) ≡ false) slots

by_ref_nil : (i : ℕ) (ref : Text) → by_ref i ref [] ≡ []
unfolding by_ref
by_ref_nil i ref = refl

by_ref_own :
    (i : ℕ) (ref : Text) (m : MirrorEntry) (ms : List MirrorEntry)
    → refers ref m ≡ true
    → by_ref i ref (m ∷ ms) ≡ record { index = i; entry = m } ∷ by_ref (suc i) ref ms
unfolding by_ref
by_ref_own i ref m ms e = rw e refl

by_ref_other :
    (i : ℕ) (ref : Text) (m : MirrorEntry) (ms : List MirrorEntry)
    → refers ref m ≡ false
    → by_ref i ref (m ∷ ms) ≡ by_ref (suc i) ref ms
unfolding by_ref
by_ref_other i ref m ms e = rw e refl

pub by_ref-IsApart :
    (ref other : Text) (i : ℕ) (ms : List MirrorEntry)
    → text_eq ref other ≡ false
    → All (IsApart (by_ref i other ms)) (by_ref i ref ms)
by_ref-IsApart ref other i [] ne = rw (by_ref_nil i ref) tt
by_ref-IsApart ref other i (m ∷ ms) ne =
    let later : List Slot = by_ref (suc i) other ms in
    let tail : All (IsApart later) (by_ref (suc i) ref ms) =
      by_ref-IsApart ref other (suc i) ms ne in
    elim (Bool-cases (refers ref m)) [
      | inl e ↦
          let different : refers other m ≡ false = rw (text_eq→eq m.reference ref e) ne in
          rw (by_ref_other i other m ms different, by_ref_own i ref m ms e)
            (
              All-weaken (λ (t : Slot). suc i ≤ t.index) (λ t. (t.index == i) ≡ false) later
                  (λ t h. ground arith) (by_ref-above other (suc i) ms),
              tail,
            )
      | inr e ↦ elim (Bool-cases (refers other m)) [
        | inl o ↦
            rw (by_ref_own i other m ms o, by_ref_other i ref m ms e)
              (All-weaken (λ (s : Slot). (suc i ≤ s.index) × IsApart later s)
                (λ s. ((i == s.index) ≡ false) × IsApart later s) (by_ref (suc i) ref ms)
                (λ s h. (ground arith, h.1))
                (All-both (λ (s : Slot). suc i ≤ s.index) (IsApart later) (by_ref (suc i) ref ms)
                  (by_ref-above ref (suc i) ms) tail))
        | inr o ↦ rw (by_ref_other i ref m ms e, by_ref_other i other m ms o) tail
      ]
    ]
