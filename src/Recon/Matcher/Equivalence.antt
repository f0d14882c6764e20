-- ===== src/Recon/Matcher/Equivalence.antt =====
-- services/reconciliation/internal/domain/matcher.go: MatchNaive against its reference definition.
use ledgercore.Base.{◌≡◌, sym, ap, ◌∙◌, List, [], ◌∷◌, ◌++◌, Text, arith}
use mathlib.Core.List.{append_assoc, append-nil}
use ledgercore.Recon.{ExternalTransaction, MirrorEntry}
use ledgercore.Recon.Matcher.{
  MatchResult, Progress, match_one, match_rows, no_progress, match_naive,
}
use ledgercore.Recon.Matcher.Reference.{judge, Judgement, judge_rows, matches_of, findings_of}
use ledgercore.Recon.Matcher.Rounds.{extend, Fits, Fits-no_progress, round}

matches_of-cons :
    (j : Judgement) (js : List Judgement)
    → matches_of (j ∷ js) ≡ matches_of (j ∷ []) ++ matches_of js
unfolding matches_of
matches_of-cons j js = ground arith

findings_of-cons :
    (j : Judgement) (js : List Judgement)
    → findings_of (j ∷ js) ≡ findings_of (j ∷ []) ++ findings_of js
unfolding findings_of
findings_of-cons j js = ground arith

extend-cons :
    (r : MatchResult) (j : Judgement) (js : List Judgement)
    → extend (extend r (j ∷ [])) js ≡ extend r (j ∷ js)
extend-cons r j js = λ i. record {
  matches =
      (append_assoc r.matches (matches_of (j ∷ [])) (matches_of js)
          ∙ ap (λ ms. r.matches ++ ms) (sym (matches_of-cons j js)))
        i;
  findings =
      (append_assoc r.findings (findings_of (j ∷ [])) (findings_of js)
          ∙ ap (λ fs. r.findings ++ fs) (sym (findings_of-cons j js)))
        i;
}

match_rows_lem :
    (mirror : List MirrorEntry) (earlier : List Text) (externals : List ExternalTransaction)
    (st : Progress)
    → Fits mirror earlier st
    → (match_rows mirror externals st).result
      ≡ extend st.result (judge_rows mirror earlier externals)
unfolding match_rows judge_rows matches_of findings_of
match_rows_lem mirror earlier [] st h = λ i. record {
  matches = sym (append-nil st.result.matches) i;
  findings = sym (append-nil st.result.findings) i;
}
match_rows_lem mirror earlier (ext ∷ rest) st h =
    let r = round mirror earlier ext st h in
    let j : Judgement = record { external = ext; verdict = judge mirror earlier ext } in
    let js : List Judgement = judge_rows mirror (ext.external_ref ∷ earlier) rest in
    match_rows_lem mirror (ext.external_ref ∷ earlier) rest (match_one mirror ext st) r.fits
    ∙ ap (λ x. extend x js) r.verdict
    ∙ extend-cons st.result j js

-- MatchNaive pairs and flags exactly as its reference definition, which judges each row by the whole
-- mirror and the references of the rows before it, and keeps no record of the entries that are
-- spent: a row whose reference an earlier row has is a duplicate; any other row is matched to the
-- first entry of the mirror of its reference, amount, asset and (where the row declares one)
-- direction; where there is none it is a mismatch with the first entry of its reference; and where
-- there is none of these either, it is missing in the ledger.
pub match_naive_reference :
    (externals : List ExternalTransaction) (mirror : List MirrorEntry)
    → match_naive externals mirror ≡ (
        let js = judge_rows mirror [] externals in
        record { matches = matches_of js; findings = findings_of js })
unfolding match_naive
match_naive_reference externals mirror =
    match_rows_lem mirror [] externals no_progress (Fits-no_progress mirror)
