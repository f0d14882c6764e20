-- ===== src/Recon/Matcher/Verdicts.antt =====
-- services/reconciliation/internal/domain/matcher.go: what becomes of the rows and of the entries of
-- the mirror, read off the judgements.
use ledgercore.Base.{ℕ, refl, List, [], ◌∷◌, ◌++◌, map, Text}
use mathlib.Core.List.Permᴰ
use mathlib.Core.List.{Permᴰ}
use ledgercore.Recon.{ExternalTransaction, MirrorEntry}
use ledgercore.Recon.Matcher.{MatchPair, Finding, match_naive}
use ledgercore.Recon.Matcher.Reference.{
  Verdict, repeats, missing, backed, contradicted, judge, Judgement, judge_rows, matches_of,
  findings_of,
}
use ledgercore.Recon.Matcher.Equivalence.{match_naive_reference}

abbrev pub matched_ids : List MatchPair → List ℕ
matched_ids = map (λ (p : MatchPair). p.external_id)

abbrev pub entry_ids : List MatchPair → List ℕ
entry_ids = map (λ (p : MatchPair). p.entry_id)

abbrev pub flagged_ids : List Finding → List ℕ
flagged_ids = map (λ (f : Finding). f.external.id)

abbrev pub row_ids : List ExternalTransaction → List ℕ
row_ids = map (λ (e : ExternalTransaction). e.id)

judged_ids : List Judgement → List ℕ
judged_ids = map (λ (j : Judgement). j.external.id)

abbrev judgement : ExternalTransaction → Verdict → Judgement
judgement ext v = record { external = ext; verdict = v }

judgement-perm :
    (ext : ExternalTransaction) (v : Verdict) (js : List Judgement) {ids : List ℕ}
    → Permᴰ (matched_ids (matches_of js) ++ flagged_ids (findings_of js)) ids
    → Permᴰ
        (matched_ids (matches_of (judgement ext v ∷ js))
          ++ flagged_ids (findings_of (judgement ext v ∷ js)))
        (ext.id ∷ ids)
unfolding matches_of findings_of
judgement-perm ext (backed m) js d = Permᴰ.cons refl d
judgement-perm ext (contradicted m) js d =
    Permᴰ.trans (Permᴰ.middle ext.id (matched_ids (matches_of js)) (flagged_ids (findings_of js)))
      (Permᴰ.cons refl d)
judgement-perm ext repeats js d =
    Permᴰ.trans (Permᴰ.middle ext.id (matched_ids (matches_of js)) (flagged_ids (findings_of js)))
      (Permᴰ.cons refl d)
judgement-perm ext missing js d =
    Permᴰ.trans (Permᴰ.middle ext.id (matched_ids (matches_of js)) (flagged_ids (findings_of js)))
      (Permᴰ.cons refl d)

judgements-perm :
    (mirror : List MirrorEntry) (earlier : List Text) (externals : List ExternalTransaction)
    → let js = judge_rows mirror earlier externals in
      Permᴰ (matched_ids (matches_of js) ++ flagged_ids (findings_of js)) (row_ids externals)
unfolding judge_rows matches_of findings_of
judgements-perm mirror earlier [] = Permᴰ.nil
judgements-perm mirror earlier (ext ∷ rest) =
    judgement-perm ext (judge mirror earlier ext)
      (judge_rows mirror (ext.external_ref ∷ earlier) rest)
      (judgements-perm mirror (ext.external_ref ∷ earlier) rest)

-- Every row ends in exactly one of the matches and the findings of MatchNaive: the ids of the rows of
-- both, together, are the ids of the given rows, each as often as it was given.
pub match_naive-perm :
    (externals : List ExternalTransaction) (mirror : List MirrorEntry)
    → let r = match_naive externals mirror in
      Permᴰ (matched_ids r.matches ++ flagged_ids r.findings) (row_ids externals)
match_naive-perm externals mirror =
    rw (match_naive_reference externals mirror) (judgements-perm mirror [] externals)

abbrev pub mirror_ids : List MirrorEntry → List ℕ
mirror_ids = map (λ (m : MirrorEntry). m.id)
