-- ===== src/Recon/Survivors.antt =====
-- services/reconciliation/internal/app/service.go: the rows that a run leaves unmatched.
use ledgercore.Base.{
  ℕ, ◌==◌, ==_iff, ◌≡◌, ◌≢◌, refl, sym, ap, ◌∙◌, subst, Bool, true, false, ◌&&◌, List, [], ◌∷◌, map,
  All, Distinct, Distinct-select, Distinct-perm, mem-select, select-mem, mem-unmap, mem-map,
  mem-perm, map-perm, select, sort_by, sort_by-perm, if◌then◌else◌, Bool-cases, inl, inr, arith,
}
use mathlib.Core.List.Permᴰ as PermD
use mathlib.Core.List.{Memᴰ}
use ledgercore.Recon.{ExternalTransaction}
use ledgercore.Recon.Matcher.{MatchPair, Finding}
use ledgercore.Recon.Matcher.Verdicts.{row_ids}
use ledgercore.Recon.Tables.{
  ReconDb, is_unmatched, external_before, without_raw, list_unmatched, mark_matched, mark_disputed,
}
use ledgercore.Recon.Runs.{mark_matches, is_disputed}

-- The rows of one source that are unmatched.
abbrev pub waits : ℕ → ExternalTransaction → Bool
waits source x = x.source_id == source && is_unmatched x.match_status

-- The disputes of a list of findings.
unfoldable pub dispute_rows : List Finding → List ExternalTransaction → List ExternalTransaction
dispute_rows [] xs = xs
dispute_rows (f ∷ fs) xs =
    dispute_rows fs (if is_disputed f.kind then map (mark_disputed f.external.id) xs else xs)

pub list_unmatched-member :
    (source : ℕ) (db : ReconDb) {e : ExternalTransaction}
    → Memᴰ e (list_unmatched source db)
    → (x : ExternalTransaction) × Memᴰ x db.externals
      × (waits source x ≡ true)
      × (e ≡ without_raw x)
unfolding list_unmatched
list_unmatched-member source db {e} m =
    let rows : List ExternalTransaction = select (waits source) db.externals in
    let (x, found, same) = mem-unmap without_raw (sort_by external_before rows) m in
    let (given, holds) =
      mem-select (waits source) db.externals
        (mem-perm (PermD.symm (sort_by-perm external_before rows)) found) in
    (x, given, holds, same)

pub member-list_unmatched :
    (source : ℕ) (db : ReconDb) {x : ExternalTransaction}
    → Memᴰ x db.externals
    → waits source x ≡ true
    → Memᴰ (without_raw x) (list_unmatched source db)
unfolding list_unmatched
member-list_unmatched source db m h =
    let rows : List ExternalTransaction = select (waits source) db.externals in
    mem-map without_raw (sort_by external_before rows)
      (mem-perm (sort_by-perm external_before rows) (select-mem (waits source) db.externals m h))

ids_without_raw : (xs : List ExternalTransaction) → row_ids (map without_raw xs) ≡ row_ids xs
ids_without_raw [] = refl
ids_without_raw (x ∷ xs) = ap (λ l. x.id ∷ l) (ids_without_raw xs)

pub Distinct-list_unmatched :
    (source : ℕ) (db : ReconDb)
    → Distinct (row_ids db.externals)
    → Distinct (row_ids (list_unmatched source db))
unfolding list_unmatched
Distinct-list_unmatched source db keys =
    let rows : List ExternalTransaction = select (waits source) db.externals in
    subst Distinct (sym (ids_without_raw (sort_by external_before rows))) (
      Distinct-perm (map-perm (λ x. x.id) (sort_by-perm external_before rows))
        (Distinct-select (λ (x : ExternalTransaction). x.id) (waits source) db.externals keys))

-- An unmatched row after a mark is an unmatched row before it, with another id than the mark.
mark_matched-member :
    (id entry : ℕ) (xs : List ExternalTransaction) {x : ExternalTransaction}
    → Memᴰ x (map (mark_matched id entry) xs)
    → is_unmatched x.match_status ≡ true
    → Memᴰ x xs × (x.id ≢ id)
mark_matched-member id entry xs {x} m h =
    let (y, found, same) = mem-unmap (mark_matched id entry) xs m in
    elim (Bool-cases (y.id == id)) [
      | inl e ↦
          let marked : is_unmatched x.match_status ≡ false =
            ap (λ (z : ExternalTransaction). is_unmatched z.match_status) same ∙ rw e refl in
          absurd (ground (arith, marked, h))
      | inr e ↦
          let x≡y : x ≡ y = same ∙ rw e refl in
          (
            subst (λ z. Memᴰ z xs) (sym x≡y) found,
            λ i.
                ground (
                  arith,
                  (==_iff y.id id).1 (ap (λ (z : ExternalTransaction). z.id) (sym x≡y) ∙ i),
                ),
          )
    ]

mark_disputed-member :
    (id : ℕ) (xs : List ExternalTransaction) {x : ExternalTransaction}
    → Memᴰ x (map (mark_disputed id) xs)
    → is_unmatched x.match_status ≡ true
    → Memᴰ x xs × (x.id ≢ id)
mark_disputed-member id xs {x} m h =
    let (y, found, same) = mem-unmap (mark_disputed id) xs m in
    elim (Bool-cases (y.id == id)) [
      | inl e ↦
          let marked : is_unmatched x.match_status ≡ false =
            ap (λ (z : ExternalTransaction). is_unmatched z.match_status) same ∙ rw e refl in
          absurd (ground (arith, marked, h))
      | inr e ↦
          let x≡y : x ≡ y = same ∙ rw e refl in
          (
            subst (λ z. Memᴰ z xs) (sym x≡y) found,
            λ i.
                ground (
                  arith,
                  (==_iff y.id id).1 (ap (λ (z : ExternalTransaction). z.id) (sym x≡y) ∙ i),
                ),
          )
    ]

-- What is left unmatched by the marks of a run was unmatched, and none of the marks is on it.
pub mark_matches-member :
    (ms : List MatchPair) (xs : List ExternalTransaction) {x : ExternalTransaction}
    → Memᴰ x (mark_matches ms xs)
    → is_unmatched x.match_status ≡ true
    → Memᴰ x xs × All (λ (p : MatchPair). x.id ≢ p.external_id) ms
unfolding mark_matches
mark_matches-member [] xs m h = (m, tt)
mark_matches-member (p ∷ ms) xs {x} m h =
    let (after, others) =
      mark_matches-member ms (map (mark_matched p.external_id p.entry_id) xs) {x = x} m h in
    let (before, here) = mark_matched-member p.external_id p.entry_id xs {x = x} after h in
    (before, (here, others))

abbrev pub IsUndisputed : ExternalTransaction → Finding → Type 0
IsUndisputed x f = is_disputed f.kind ≡ true → x.id ≢ f.external.id

pub dispute_rows-member :
    (fs : List Finding) (xs : List ExternalTransaction) {x : ExternalTransaction}
    → Memᴰ x (dispute_rows fs xs)
    → is_unmatched x.match_status ≡ true
    → Memᴰ x xs × All (IsUndisputed x) fs
unfolding dispute_rows
dispute_rows-member [] xs m h = (m, tt)
dispute_rows-member (f ∷ fs) xs {x} m h = elim (Bool-cases (is_disputed f.kind)) [
  | inl e ↦
      let (after, others) =
        dispute_rows-member fs (map (mark_disputed f.external.id) xs) {x = x}
          (subst (λ l. Memᴰ x (dispute_rows fs l)) (rw e refl) m) h in
      let (before, here) = mark_disputed-member f.external.id xs {x = x} after h in
      (before, ((λ d. here), others))
  | inr e ↦
      let (after, others) =
        dispute_rows-member fs xs {x = x} (subst (λ l. Memᴰ x (dispute_rows fs l)) (rw e refl) m)
          h in
      (after, ((λ d. absurd (ground (arith, d, e))), others))
]

row_ids-map :
    (f : ExternalTransaction → ExternalTransaction) (xs : List ExternalTransaction)
    → ((x : ExternalTransaction) → (f x).id ≡ x.id)
    → row_ids (map f xs) ≡ row_ids xs
row_ids-map f [] keeps = refl
row_ids-map f (x ∷ xs) keeps = λ i. keeps x i ∷ row_ids-map f xs keeps i

row_ids-mark_matches :
    (ms : List MatchPair) (xs : List ExternalTransaction)
    → row_ids (mark_matches ms xs) ≡ row_ids xs
unfolding mark_matches
row_ids-mark_matches [] xs = refl
row_ids-mark_matches (p ∷ ms) xs =
    row_ids-mark_matches ms (map (mark_matched p.external_id p.entry_id) xs)
    ∙ row_ids-map (mark_matched p.external_id p.entry_id) xs (λ x. ground arith)

row_ids-dispute_rows :
    (fs : List Finding) (xs : List ExternalTransaction) → row_ids (dispute_rows fs xs) ≡ row_ids xs
unfolding dispute_rows
row_ids-dispute_rows [] xs = refl
row_ids-dispute_rows (f ∷ fs) xs = elim (Bool-cases (is_disputed f.kind)) [
  | inl e ↦ rw e (
      row_ids-dispute_rows fs (map (mark_disputed f.external.id) xs)
      ∙ row_ids-map (mark_disputed f.external.id) xs (λ x. ground arith))
  | inr e ↦ rw e (row_ids-dispute_rows fs xs)
]

-- A run changes no id.
pub Distinct-marked :
    (ms : List MatchPair) (fs : List Finding) (xs : List ExternalTransaction)
    → Distinct (row_ids xs)
    → Distinct (row_ids (dispute_rows fs (mark_matches ms xs)))
Distinct-marked ms fs xs keys =
    subst Distinct (sym (row_ids-dispute_rows fs (mark_matches ms xs) ∙ row_ids-mark_matches ms xs))
      keys
