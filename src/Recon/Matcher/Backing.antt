-- ===== src/Recon/Matcher/Backing.antt =====
-- services/reconciliation/internal/domain/matcher.go: which entry of the mirror backs a match.
use ledgercore.Base.{
  ◌≡◌, ◌≢◌, ◌⊎◌, refl, sym, ap, ◌∙◌, Bool, true, false, List, [], ◌∷◌, some, Text, text_eq,
  text_eq→eq, text_eq_self, eqb_ℤ_iff, find?, All, All-weaken, Distinct, All-map, key_injective,
  Bool-cases, inl, inr, arith,
}
use mathlib.Core.List.{Memᴰ}
use ledgercore.Recon.{ExternalTransaction, MirrorEntry}
use ledgercore.Recon.Matcher.{MatchPair, seen, match_naive}
use ledgercore.Recon.Matcher.Reference.{
  Verdict, repeats, missing, backed, contradicted, backs, judge, Judgement, judge_rows, matches_of,
}
use ledgercore.Recon.Matcher.Equivalence.{match_naive_reference}
use ledgercore.Recon.Matcher.Verdicts.{entry_ids, mirror_ids}

-- What a match says of a row and of an entry.
pub record Backs (externals : List ExternalTransaction) (mirror : List MirrorEntry)
    (earlier : List Text) (p : MatchPair) : Type 0 where
  pub row : ExternalTransaction
  pub entry : MirrorEntry
  pub row_given : Memᴰ row externals
  pub entry_given : Memᴰ entry mirror
  pub row_id : p.external_id ≡ row.id
  pub entry_id : p.entry_id ≡ entry.id
  pub same_reference : entry.reference ≡ row.external_ref
  pub same_amount : entry.amount ≡ row.amount
  pub same_asset : entry.asset ≡ row.asset
  pub same_direction : (row.direction ≡ []) ⊎ (row.direction ≡ entry.direction)
  pub fresh : seen entry.reference earlier ≡ false

find?-holds :
    {A : Type 0} (p : A → Bool) (xs : List A) {a : A}
    → find? p xs ≡ some a
    → Memᴰ a xs × (p a ≡ true)
find?-holds p [] found = cc
find?-holds p (x ∷ xs) {a} found = elim (Bool-cases (p x)) [
  | inl e ↦ let same : x ≡ a = ground arith in (Memᴰ.head (sym same), ap p (sym same) ∙ e)
  | inr e ↦ let (m, holds) = find?-holds p xs {a = a} (ground arith) in (Memᴰ.tail m, holds)
]

judge-backed :
    (mirror : List MirrorEntry) (earlier : List Text) (ext : ExternalTransaction) (m : MirrorEntry)
    → judge mirror earlier ext ≡ backed m
    → (find? (backs ext) mirror ≡ some m) × (seen ext.external_ref earlier ≡ false)
unfolding judge
judge-backed mirror earlier ext m h = ground arith

-- The parts of an agreement.
backs-parts :
    (ext : ExternalTransaction) (m : MirrorEntry)
    → backs ext m ≡ true
    → (m.reference ≡ ext.external_ref)
      × (m.amount ≡ ext.amount)
      × (m.asset ≡ ext.asset)
      × ((ext.direction ≡ []) ⊎ (ext.direction ≡ m.direction))
backs-parts ext m h = (
  text_eq→eq m.reference ext.external_ref (ground arith),
  (eqb_ℤ_iff m.amount ext.amount).0 (ground arith),
  text_eq→eq m.asset ext.asset (ground arith),
  elim (Bool-cases (text_eq ext.direction [])) [
    | inl e ↦ inl (text_eq→eq ext.direction [] e)
    | inr e ↦ inr (text_eq→eq ext.direction m.direction (ground arith))
  ],
)

-- A match of later rows is one of all rows.
Backs-later :
    (ext : ExternalTransaction) (rest : List ExternalTransaction) (mirror : List MirrorEntry)
    (earlier : List Text) (p : MatchPair)
    → Backs rest mirror (ext.external_ref ∷ earlier) p
    → Backs (ext ∷ rest) mirror earlier p
Backs-later ext rest mirror earlier p b = record {
  row = b.row;
  entry = b.entry;
  row_given = Memᴰ.tail b.row_given;
  entry_given = b.entry_given;
  row_id = b.row_id;
  entry_id = b.entry_id;
  same_reference = b.same_reference;
  same_amount = b.same_amount;
  same_asset = b.same_asset;
  same_direction = b.same_direction;
  fresh = ground (arith, b.fresh);
}

Backs-now :
    (ext : ExternalTransaction) (rest : List ExternalTransaction) (mirror : List MirrorEntry)
    (earlier : List Text) (m : MirrorEntry)
    → judge mirror earlier ext ≡ backed m
    → Backs (ext ∷ rest) mirror earlier (record { external_id = ext.id; entry_id = m.id })
Backs-now ext rest mirror earlier m h =
    let (found, new) = judge-backed mirror earlier ext m h in
    let (given, holds) = find?-holds (backs ext) mirror found in
    let (reference, amount, asset, direction) = backs-parts ext m holds in
    record {
      row = ext;
      entry = m;
      row_given = Memᴰ.head refl;
      entry_given = given;
      row_id = refl;
      entry_id = refl;
      same_reference = reference;
      same_amount = amount;
      same_asset = asset;
      same_direction = direction;
      fresh = ap (λ r. seen r earlier) reference ∙ new;
    }

-- Entries of two references have two ids.
Backs-apart :
    (ext : ExternalTransaction) (rest : List ExternalTransaction) (mirror : List MirrorEntry)
    (earlier : List Text) (m : MirrorEntry) (p : MatchPair)
    → Distinct (mirror_ids mirror)
    → judge mirror earlier ext ≡ backed m
    → Backs rest mirror (ext.external_ref ∷ earlier) p
    → m.id ≢ p.entry_id
Backs-apart ext rest mirror earlier m p keys h b same =
    let (given, holds) = find?-holds (backs ext) mirror (judge-backed mirror earlier ext m h).0 in
    let one : m ≡ b.entry =
      key_injective (λ (e : MirrorEntry). e.id) mirror keys given b.entry_given
        (same ∙ b.entry_id) in
    let other : text_eq b.entry.reference ext.external_ref ≡ false = ground (arith, b.fresh) in
    let same_ref : b.entry.reference ≡ ext.external_ref =
      ap (λ (e : MirrorEntry). e.reference) (sym one) ∙ (backs-parts ext m holds).0 in
    ground (arith, other, same_ref, text_eq_self ext.external_ref)

abbrev AllBack : List ExternalTransaction → List MirrorEntry → List Text → List MatchPair → Type 0
AllBack externals mirror earlier = All (Backs externals mirror earlier)

AllBack-step :
    (ext : ExternalTransaction) (rest : List ExternalTransaction) (mirror : List MirrorEntry)
    (earlier : List Text) (v : Verdict) (js : List Judgement)
    → Distinct (mirror_ids mirror)
    → judge mirror earlier ext ≡ v
    → AllBack rest mirror (ext.external_ref ∷ earlier) (matches_of js)
    → Distinct (entry_ids (matches_of js))
    → let ms = matches_of (record { external = ext; verdict = v } ∷ js) in
      AllBack (ext ∷ rest) mirror earlier ms × Distinct (entry_ids ms)
unfolding matches_of
AllBack-step ext rest mirror earlier v js keys h later apart = step v h
  where
    all_later : AllBack (ext ∷ rest) mirror earlier (matches_of js)
    all_later =
        All-weaken (Backs rest mirror (ext.external_ref ∷ earlier))
          (Backs (ext ∷ rest) mirror earlier) (matches_of js) (Backs-later ext rest mirror earlier)
          later

    step :
        (w : Verdict)
        → judge mirror earlier ext ≡ w
        → let ms = matches_of (record { external = ext; verdict = w } ∷ js) in
          AllBack (ext ∷ rest) mirror earlier ms × Distinct (entry_ids ms)
    step (backed m) e = (
      (Backs-now ext rest mirror earlier m e, all_later),
      (
        All-map (λ y. m.id ≢ y) (λ (p : MatchPair). p.entry_id) (matches_of js)
            (All-weaken (Backs rest mirror (ext.external_ref ∷ earlier)) (λ p. m.id ≢ p.entry_id)
              (matches_of js) (λ p. Backs-apart ext rest mirror earlier m p keys e) later),
        apart,
      ),
    )
    step (contradicted m) e = (all_later, apart)
    step repeats e = (all_later, apart)
    step missing e = (all_later, apart)

judge_rows-AllBack :
    (mirror : List MirrorEntry) (earlier : List Text) (externals : List ExternalTransaction)
    → Distinct (mirror_ids mirror)
    → let ms = matches_of (judge_rows mirror earlier externals) in
      AllBack externals mirror earlier ms × Distinct (entry_ids ms)
unfolding judge_rows matches_of
judge_rows-AllBack mirror earlier [] keys = (tt, tt)
judge_rows-AllBack mirror earlier (ext ∷ rest) keys =
    let (later, apart) = judge_rows-AllBack mirror (ext.external_ref ∷ earlier) rest keys in
    AllBack-step ext rest mirror earlier (judge mirror earlier ext)
      (judge_rows mirror (ext.external_ref ∷ earlier) rest) keys refl later apart

-- Where the entries of the mirror have distinct ids, every match of MatchNaive pairs one of the given
-- rows with an entry of the mirror of the same reference, amount and asset, and of the direction of
-- the row if the row has one; and no entry backs two matches.
pub match_naive-AllBack :
    (externals : List ExternalTransaction) (mirror : List MirrorEntry)
    → Distinct (mirror_ids mirror)
    → let r = match_naive externals mirror in
      All (Backs externals mirror []) r.matches × Distinct (entry_ids r.matches)
match_naive-AllBack externals mirror keys =
    rw (match_naive_reference externals mirror) (judge_rows-AllBack mirror [] externals keys)
