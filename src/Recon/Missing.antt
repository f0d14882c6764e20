-- ===== src/Recon/Missing.antt =====
-- services/reconciliation/internal/domain/matcher.go: the rows that are judged missing.
use ledgercore.Base.{
  ◌≡◌, ◌≢◌, refl, sym, ap, ◌∙◌, subst, false, List, [], ◌∷◌, none, Text, text_eq_self, find?,
  Bool-cases, inl, inr, arith,
}
use mathlib.Core.List.{Memᴰ}
use ledgercore.Recon.{ExternalTransaction, MirrorEntry}
use ledgercore.Recon.Matcher.{seen}
use ledgercore.Recon.Matcher.Reference.{missing, refers, backs, judge, Judgement, judge_rows}
use ledgercore.Recon.Judged.{judgement}

-- Where no entry has the reference of a row, none backs the row.
pub no_backing :
    (ext : ExternalTransaction) (mirror : List MirrorEntry)
    → find? (refers ext.external_ref) mirror ≡ none
    → find? (backs ext) mirror ≡ none
no_backing ext [] h = refl
no_backing ext (m ∷ ms) h = elim (Bool-cases (refers ext.external_ref m)) [
  | inl e ↦ ground (arith, h, e)
  | inr e ↦ ground (arith, e, no_backing ext ms (ground (arith, h, e)))
]

judge-missing :
    (mirror : List MirrorEntry) (earlier : List Text) (ext : ExternalTransaction)
    → judge mirror earlier ext ≡ missing
    → (find? (refers ext.external_ref) mirror ≡ none) × (seen ext.external_ref earlier ≡ false)
unfolding judge
judge-missing mirror earlier ext h = ground arith

-- A row that is judged missing has a reference that neither the mirror nor an earlier row has.
pub missing-new :
    (mirror : List MirrorEntry) (earlier : List Text) (externals : List ExternalTransaction)
    {e : ExternalTransaction}
    → Memᴰ (judgement e missing) (judge_rows mirror earlier externals)
    → (find? (refers e.external_ref) mirror ≡ none) × (seen e.external_ref earlier ≡ false)
unfolding judge_rows
missing-new mirror earlier [] m = elim m [ ]
missing-new mirror earlier (x ∷ rest) {e} (Memᴰ.head same) =
    let e≡x : e ≡ x = ap (λ (j : Judgement). j.external) same in
    let v : judge mirror earlier x ≡ missing = sym (ap (λ (j : Judgement). j.verdict) same) in
    subst
      (λ (y : ExternalTransaction).
        (find? (refers y.external_ref) mirror ≡ none) × (seen y.external_ref earlier ≡ false))
      (sym e≡x) (judge-missing mirror earlier x v)
missing-new mirror earlier (x ∷ rest) {e} (Memᴰ.tail m) =
    let (none_refers, new) = missing-new mirror (x.external_ref ∷ earlier) rest {e = e} m in
    (none_refers, ground (arith, new))

not_first : (r ref : Text) (earlier : List Text) → seen r (ref ∷ earlier) ≡ false → r ≢ ref
not_first r ref earlier new same = ground (arith, new, same, text_eq_self r)

-- Two rows of one reference are not both judged missing.
pub missing-one :
    (mirror : List MirrorEntry) (earlier : List Text) (externals : List ExternalTransaction)
    {e f : ExternalTransaction}
    → Memᴰ (judgement e missing) (judge_rows mirror earlier externals)
    → Memᴰ (judgement f missing) (judge_rows mirror earlier externals)
    → e.external_ref ≡ f.external_ref
    → e ≡ f
unfolding judge_rows
missing-one mirror earlier [] m n same = elim m [ ]
missing-one mirror earlier (x ∷ rest) (Memᴰ.head p) (Memᴰ.head q) same =
    ap (λ (j : Judgement). j.external) (p ∙ sym q)
missing-one mirror earlier (x ∷ rest) {e} {f} (Memᴰ.head p) (Memᴰ.tail n) same =
    let e≡x : e ≡ x = ap (λ (j : Judgement). j.external) p in
    let new = (missing-new mirror (x.external_ref ∷ earlier) rest {e = f} n).1 in
    absurd (
      not_first f.external_ref x.external_ref earlier new
        (sym same ∙ ap (λ (y : ExternalTransaction). y.external_ref) e≡x))
missing-one mirror earlier (x ∷ rest) {e} {f} (Memᴰ.tail m) (Memᴰ.head q) same =
    let f≡x : f ≡ x = ap (λ (j : Judgement). j.external) q in
    let new = (missing-new mirror (x.external_ref ∷ earlier) rest {e = e} m).1 in
    absurd (
      not_first e.external_ref x.external_ref earlier new
        (same ∙ ap (λ (y : ExternalTransaction). y.external_ref) f≡x))
missing-one mirror earlier (x ∷ rest) {e} {f} (Memᴰ.tail m) (Memᴰ.tail n) same =
    missing-one mirror (x.external_ref ∷ earlier) rest {e = e} {f = f} m n same
