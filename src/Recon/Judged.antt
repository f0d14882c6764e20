-- ===== src/Recon/Judged.antt =====
-- services/reconciliation/internal/domain/matcher.go: where the judgement on a row shows in the
-- result.
use ledgercore.Base.{◌≡◌, ◌≢◌, refl, ap, subst, List, [], ◌∷◌, Text, All, All-mem}
use mathlib.Core.List.{Memᴰ}
use ledgercore.Recon.{ExternalTransaction, MirrorEntry}
use ledgercore.Recon.Matcher.{MatchPair, Finding, duplicate_finding, mismatch_finding}
use ledgercore.Recon.Matcher.Reference.{
  Verdict, repeats, missing, backed, contradicted, judge, Judgement, judge_rows, matches_of,
  findings_of,
}
use ledgercore.Recon.Survivors.{IsUndisputed}

abbrev pub judgement : ExternalTransaction → Verdict → Judgement
judgement ext v = record { external = ext; verdict = v }

-- Every row is judged.
pub judged :
    (mirror : List MirrorEntry) (earlier : List Text) (externals : List ExternalTransaction)
    {e : ExternalTransaction}
    → Memᴰ e externals
    → (v : Verdict) × Memᴰ (judgement e v) (judge_rows mirror earlier externals)
unfolding judge_rows
judged mirror earlier [] m = elim m [ ]
judged mirror earlier (x ∷ rest) (Memᴰ.head e) =
    (judge mirror earlier x, Memᴰ.head (ap (λ y. judgement y (judge mirror earlier x)) e))
judged mirror earlier (x ∷ rest) (Memᴰ.tail m) =
    let (v, found) = judged mirror (x.external_ref ∷ earlier) rest m in (v, Memᴰ.tail found)

-- Where a judgement shows.
module _ (e : ExternalTransaction) where
  matches_of-member :
      (m : MirrorEntry) (js : List Judgement)
      → Memᴰ (judgement e (backed m)) js
      → Memᴰ (record { external_id = e.id; entry_id = m.id }) (matches_of js)
  unfolding matches_of
  matches_of-member m [] found = elim found [ ]
  matches_of-member m (j ∷ js) (Memᴰ.head same) =
      subst
        (λ (k : Judgement).
          Memᴰ (record { external_id = e.id; entry_id = m.id }) (matches_of (k ∷ js)))
        same (Memᴰ.head refl)
  matches_of-member m (j ∷ js) (Memᴰ.tail found) =
      later j.external j.verdict (matches_of-member m js found)
    where
      later :
          (x : ExternalTransaction) (v : Verdict)
          → Memᴰ (record { external_id = e.id; entry_id = m.id }) (matches_of js)
          → Memᴰ (record { external_id = e.id; entry_id = m.id }) (matches_of (judgement x v ∷ js))
      later x (backed n) h = Memᴰ.tail h
      later x (contradicted n) h = h
      later x repeats h = h
      later x missing h = h

  findings_of-later :
      (f : Finding) (x : ExternalTransaction) (v : Verdict) (js : List Judgement)
      → Memᴰ f (findings_of js)
      → Memᴰ f (findings_of (judgement x v ∷ js))
  unfolding findings_of
  findings_of-later f x (backed n) js h = h
  findings_of-later f x (contradicted n) js h = Memᴰ.tail h
  findings_of-later f x repeats js h = Memᴰ.tail h
  findings_of-later f x missing js h = Memᴰ.tail h

  findings_of-contradicted :
      (m : MirrorEntry) (js : List Judgement)
      → Memᴰ (judgement e (contradicted m)) js
      → Memᴰ (mismatch_finding e m) (findings_of js)
  unfolding findings_of
  findings_of-contradicted m [] found = elim found [ ]
  findings_of-contradicted m (j ∷ js) (Memᴰ.head same) =
      subst (λ (k : Judgement). Memᴰ (mismatch_finding e m) (findings_of (k ∷ js))) same
        (Memᴰ.head refl)
  findings_of-contradicted m (j ∷ js) (Memᴰ.tail found) =
      findings_of-later (mismatch_finding e m) j.external j.verdict js
        (findings_of-contradicted m js found)

  findings_of-repeats :
      (js : List Judgement)
      → Memᴰ (judgement e repeats) js
      → Memᴰ (duplicate_finding e) (findings_of js)
  unfolding findings_of
  findings_of-repeats [] found = elim found [ ]
  findings_of-repeats (j ∷ js) (Memᴰ.head same) =
      subst (λ (k : Judgement). Memᴰ (duplicate_finding e) (findings_of (k ∷ js))) same
        (Memᴰ.head refl)
  findings_of-repeats (j ∷ js) (Memᴰ.tail found) =
      findings_of-later (duplicate_finding e) j.external j.verdict js (findings_of-repeats js found)

-- A row that none of the marks is on was judged missing.
pub left_missing :
    (e : ExternalTransaction) (js : List Judgement) (v : Verdict)
    → Memᴰ (judgement e v) js
    → All (λ (p : MatchPair). e.id ≢ p.external_id) (matches_of js)
    → All (IsUndisputed e) (findings_of js)
    → v ≡ missing
left_missing e js (backed m) found ms fs = absurd (
    All-mem (λ (p : MatchPair). e.id ≢ p.external_id) (matches_of js) ms
      (matches_of-member e m js found) refl)
left_missing e js (contradicted m) found ms fs =
    absurd (
      All-mem (IsUndisputed e) (findings_of js) fs (findings_of-contradicted e m js found) refl
        refl)
left_missing e js repeats found ms fs =
    absurd (All-mem (IsUndisputed e) (findings_of js) fs (findings_of-repeats e js found) refl refl)
left_missing e js missing found ms fs = refl
