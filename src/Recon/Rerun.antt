-- ===== src/Recon/Rerun.antt =====
-- services/reconciliation/internal/app/service.go: a run after a run of the same source.
use ledgercore.Base.{
  ℕ, suc, ◌≡◌, ◌≢◌, refl, sym, ap, ◌∙◌, subst, true, false, List, [], ◌∷◌, none, Text, text_eq,
  text_eq→eq, length, find?, All, All-mem, All-of_mem, Distinct, mem-map, ok, sort_by, Bool-cases,
  inl, inr, arith,
}
use mathlib.Core.List.{Memᴰ}
use ledgercore.Recon.{ExternalTransaction, MirrorEntry, Run}
use ledgercore.Recon.Matcher.{MatchPair, MatchResult, seen}
use ledgercore.Recon.Matcher.Reference.{
  missing, refers, judge, Judgement, judge_rows, matches_of, findings_of,
}
use ledgercore.Recon.Matcher.Equivalence.{match_naive_reference}
use ledgercore.Recon.Matcher.Verdicts.{row_ids}
use ledgercore.Recon.Tables.{
  ReconDb, is_unmatched, without_raw, list_unmatched, list_mirror, entry_before,
}
use ledgercore.Recon.Runs.{Outside, mark_matches, start_run}
use ledgercore.Recon.Survivors.{
  dispute_rows, list_unmatched-member, member-list_unmatched, Distinct-list_unmatched,
  mark_matches-member, IsUndisputed, dispute_rows-member, Distinct-marked,
}
use ledgercore.Recon.Completion.{matching, Completed, start_run-Completed}
use ledgercore.Recon.Judged.{judgement, judged, left_missing}
use ledgercore.Recon.Missing.{no_backing, missing-new, missing-one}

-- Rows of which the mirror has no entry, with distinct references, are judged missing.
record IsLeft (mirror : List MirrorEntry) (rows : List ExternalTransaction) : Type 0 where
  no_entry : (e : ExternalTransaction) → Memᴰ e rows → find? (refers e.external_ref) mirror ≡ none
  one :
      (e f : ExternalTransaction)
      → Memᴰ e rows
      → Memᴰ f rows
      → e.external_ref ≡ f.external_ref
      → e.id ≡ f.id

IsLeft-tail :
    (mirror : List MirrorEntry) (e : ExternalTransaction) (rows : List ExternalTransaction)
    → IsLeft mirror (e ∷ rows)
    → IsLeft mirror rows
IsLeft-tail mirror e rows h = record {
  no_entry = λ x m. h.no_entry x (Memᴰ.tail m);
  one = λ x y m n. h.one x y (Memᴰ.tail m) (Memᴰ.tail n);
}

judge_new_missing :
    (mirror : List MirrorEntry) (earlier : List Text) (ext : ExternalTransaction)
    → find? (refers ext.external_ref) mirror ≡ none
    → seen ext.external_ref earlier ≡ false
    → judge mirror earlier ext ≡ missing
unfolding judge
judge_new_missing mirror earlier ext h new = rw (new, no_backing ext mirror h, h) refl

abbrev IsMissing : Judgement → Type 0
IsMissing j = j.verdict ≡ missing

judge_rows-IsMissing :
    (mirror : List MirrorEntry) (earlier : List Text) (rows : List ExternalTransaction)
    → IsLeft mirror rows
    → Distinct (row_ids rows)
    → All (λ (e : ExternalTransaction). seen e.external_ref earlier ≡ false) rows
    → All IsMissing (judge_rows mirror earlier rows)
unfolding judge_rows
judge_rows-IsMissing mirror earlier [] h keys new = tt
judge_rows-IsMissing mirror earlier (e ∷ rest) h keys new =
    let others : All
        (λ (f : ExternalTransaction). seen f.external_ref (e.external_ref ∷ earlier) ≡ false) rest =
      All-of_mem
        (λ (f : ExternalTransaction). seen f.external_ref (e.external_ref ∷ earlier) ≡ false) rest
        λ f m.
          let apart : e.id ≢ f.id =
            All-mem (λ y. e.id ≢ y) (row_ids rest) keys.0 (mem-map (λ x. x.id) rest m) in
          let not_seen : seen f.external_ref earlier ≡ false =
            All-mem (λ (x : ExternalTransaction). seen x.external_ref earlier ≡ false) rest new.1
              m in
          elim (Bool-cases (text_eq f.external_ref e.external_ref)) [
            | inl same ↦ absurd (
                apart (
                  h.one e f (Memᴰ.head refl) (Memᴰ.tail m)
                    (sym (text_eq→eq f.external_ref e.external_ref same))))
            | inr other ↦ ground (arith, other, not_seen)
          ] in
    (
      judge_new_missing mirror earlier e (h.no_entry e (Memᴰ.head refl)) new.0,
      judge_rows-IsMissing mirror (e.external_ref ∷ earlier) rest (IsLeft-tail mirror e rest h)
          keys.1 others,
    )

matches_of-missing : (js : List Judgement) → All IsMissing js → matches_of js ≡ []
unfolding matches_of
matches_of-missing [] h = refl
matches_of-missing (j ∷ js) h = rw h.0 (matches_of-missing js h.1)

length-findings_of : (js : List Judgement) → All IsMissing js → length (findings_of js) ≡ length js
unfolding findings_of
length-findings_of [] h = refl
length-findings_of (j ∷ js) h = rw h.0 (ap suc (length-findings_of js h.1))

length-judge_rows :
    (mirror : List MirrorEntry) (earlier : List Text) (rows : List ExternalTransaction)
    → length (judge_rows mirror earlier rows) ≡ length rows
unfolding judge_rows
length-judge_rows mirror earlier [] = refl
length-judge_rows mirror earlier (e ∷ rest) =
    ap suc (length-judge_rows mirror (e.external_ref ∷ earlier) rest)

-- Missing rows are not disputed.
dispute_rows-missing :
    (js : List Judgement) (xs : List ExternalTransaction)
    → All IsMissing js
    → dispute_rows (findings_of js) xs ≡ xs
unfolding findings_of dispute_rows
dispute_rows-missing [] xs h = refl
dispute_rows-missing (j ∷ js) xs h = rw h.0 (dispute_rows-missing js xs h.1)

-- A row that a run leaves unmatched was judged missing.
left-judged :
    (source : ℕ) (db after : ReconDb) {e : ExternalTransaction}
    → (let r = matching source db in
        after.externals ≡ dispute_rows r.findings (mark_matches r.matches db.externals))
    → Memᴰ e (list_unmatched source after)
    → Memᴰ (judgement e missing) (judge_rows (list_mirror db) [] (list_unmatched source db))
left-judged source db after {e} rows m =
    let r : MatchResult = matching source db in
    let js : List Judgement = judge_rows (list_mirror db) [] (list_unmatched source db) in
    let reference = match_naive_reference (list_unmatched source db) (list_mirror db) in
    let (x, found, holds, same) = list_unmatched-member source after m in
    let waiting : is_unmatched x.match_status ≡ true = ground (arith, holds) in
    let (marked, undisputed) =
      dispute_rows-member r.findings (mark_matches r.matches db.externals) {x = x}
        (subst (λ l. Memᴰ x l) rows found) waiting in
    let (given, unmarked) = mark_matches-member r.matches db.externals {x = x} marked waiting in
    let listed : Memᴰ (without_raw x) (list_unmatched source db) =
      member-list_unmatched source db given holds in
    let (v, judged_x) = judged (list_mirror db) [] (list_unmatched source db) listed in
    let is_missing : v ≡ missing =
      left_missing (without_raw x) js v judged_x
        (subst (All (λ (p : MatchPair). x.id ≢ p.external_id))
          (ap (λ (s : MatchResult). s.matches) reference) unmarked)
        (subst (All (IsUndisputed (without_raw x))) (ap (λ (s : MatchResult). s.findings) reference)
          undisputed) in
    subst (λ y. Memᴰ (judgement y missing) js) (sym same)
      (subst (λ w. Memᴰ (judgement (without_raw x) w) js) is_missing judged_x)

list_unmatched-IsLeft :
    (source : ℕ) (db after : ReconDb)
    → (let r = matching source db in
        after.externals ≡ dispute_rows r.findings (mark_matches r.matches db.externals))
    → IsLeft (list_mirror db) (list_unmatched source after)
list_unmatched-IsLeft source db after rows = record {
  no_entry = λ e m.
      (missing-new (list_mirror db) [] (list_unmatched source db)
        (left-judged source db after rows m)).0;
  one = λ e f m n same.
      ap (λ (x : ExternalTransaction). x.id)
        (missing-one (list_mirror db) [] (list_unmatched source db)
          (left-judged source db after rows m) (left-judged source db after rows n) same);
}

none_seen : (rows : List ExternalTransaction) → All (λ e. seen e.external_ref [] ≡ false) rows
none_seen [] = tt
none_seen (e ∷ rest) = (refl, none_seen rest)

-- The judgements of a run on what an earlier run of the source has left.
judge_rows-again :
    (o : Outside) (tenant source : ℕ) (db after : ReconDb) {run : Run}
    → Completed o tenant source db run after
    → Distinct (row_ids db.externals)
    → All IsMissing (judge_rows (list_mirror after) [] (list_unmatched source after))
unfolding list_mirror
judge_rows-again o tenant source db after c keys =
    let r : MatchResult = matching source db in
    subst
      (λ mirror.
        All IsMissing (judge_rows (sort_by entry_before mirror) [] (list_unmatched source after)))
      (sym c.entries)
      (judge_rows-IsMissing (list_mirror db) [] (list_unmatched source after)
        (list_unmatched-IsLeft source db after c.rows)
        (Distinct-list_unmatched source after (
          subst (λ l. Distinct (row_ids l)) (sym c.rows)
            (Distinct-marked r.matches r.findings db.externals keys)))
        (none_seen (list_unmatched source after)))

-- Where the rows have distinct ids: when StartRun has succeeded for a source and then succeeds again
-- for it on the tables that the first run has left, the second run counts no match, counts every
-- row of the source that the first left unmatched as unmatched, and changes no row.
pub start_run-again :
    (o o' : Outside) (tenant source : ℕ) (db after last : ReconDb) (run run' : Run)
    → Distinct (row_ids db.externals)
    → start_run o tenant source db ≡ (ok run, after)
    → start_run o' tenant source after ≡ (ok run', last)
    → (run'.matched_count ≡ 0)
      × (run'.unmatched_count ≡ length (list_unmatched source after))
      × (last.externals ≡ after.externals)
unfolding mark_matches
start_run-again o o' tenant source db after last run run' keys first second =
    let c1 = start_run-Completed o tenant source db after first in
    let c2 = start_run-Completed o' tenant source after last second in
    let rows : List ExternalTransaction = list_unmatched source after in
    let js : List Judgement = judge_rows (list_mirror after) [] rows in
    let all_missing : All IsMissing js = judge_rows-again o tenant source db after c1 keys in
    let reference = match_naive_reference rows (list_mirror after) in
    let no_match : (matching source after).matches ≡ [] =
      ap (λ (s : MatchResult). s.matches) reference ∙ matches_of-missing js all_missing in
    let found : (matching source after).findings ≡ findings_of js =
      ap (λ (s : MatchResult). s.findings) reference in
    (
      ap (λ (x : Run). x.matched_count) c2.counted ∙ ap length no_match,
      ap (λ (x : Run). x.unmatched_count) c2.counted
          ∙ (ap length found
              ∙ (length-findings_of js all_missing
                  ∙ length-judge_rows (list_mirror after) [] rows)),
      c2.rows
          ∙ (ap
                (λ fs.
                  dispute_rows fs (mark_matches (matching source after).matches after.externals))
                found
              ∙ (ap (λ ms. dispute_rows (findings_of js) (mark_matches ms after.externals)) no_match
                  ∙ dispute_rows-missing js after.externals all_missing)),
    )
