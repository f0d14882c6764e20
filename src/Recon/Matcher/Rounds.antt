-- ===== src/Recon/Matcher/Rounds.antt =====
-- services/reconciliation/internal/domain/matcher.go: one round of MatchNaive against the
-- judgement on its row.
use ledgercore.Base.{
  ◌==◌, ◌≡◌, refl, sym, ap, ◌∙◌, true, false, ◌||◌, List, [], ◌∷◌, ◌++◌, Option, none, some, Text,
  text_eq, text_eq→eq, text_eq_self, find?, All-weaken, All-both, find?-All, if◌then◌else◌,
  Bool-cases, Option-cases, inl, inr, arith,
}
use mathlib.Core.List.{append-nil}
use ledgercore.Recon.{ExternalTransaction, MirrorEntry}
use ledgercore.Recon.Matcher.{
  MatchResult, Slot, Progress, by_ref, agrees, search_candidates, seen, add_finding,
  duplicate_finding, mismatch_finding, missing_finding, settle, match_one, no_progress,
}
use ledgercore.Recon.Matcher.Reference.{
  refers, backs, compare_entries, judge, Judgement, matches_of, findings_of, entry_of, first_of,
  IsFree, agreeing, IsApart, search-matched, search-first, entry-agreeing, entry-first,
  by_ref-IsApart,
}

-- What a list of judgements adds to a result.
abbrev pub extend : MatchResult → List Judgement → MatchResult
extend r js = record {
  matches = r.matches ++ matches_of js;
  findings = r.findings ++ findings_of js;
}

-- No candidate of a reference that has not been seen is spent.
pub record Fits (mirror : List MirrorEntry) (earlier : List Text) (st : Progress) : Type 0 where
  pub same_refs : (r : Text) → seen r st.seen_ref ≡ seen r earlier
  pub free : (r : Text) → seen r earlier ≡ false → IsFree st.consumed (by_ref 0 r mirror)

pub Fits-no_progress : (mirror : List MirrorEntry) → Fits mirror [] no_progress
Fits-no_progress mirror = record {
  same_refs = λ r. refl;
  free = λ r h. untouched (by_ref 0 r mirror);
}
  where
    untouched : (slots : List Slot) → IsFree (λ i. false) slots
    untouched [] = tt
    untouched (s ∷ rest) = (refl, untouched rest)

match_one_new :
    (mirror : List MirrorEntry) (ext : ExternalTransaction) (st : Progress)
    → seen ext.external_ref st.seen_ref ≡ false
    → match_one mirror ext st ≡ (
        let s = search_candidates st.consumed ext none (by_ref 0 ext.external_ref mirror) in
        settle ext s.matched_slot s.first_free
          (record st { seen_ref = ext.external_ref ∷ st.seen_ref }))
unfolding match_one
match_one_new mirror ext st new = rw new refl

match_one_again :
    (mirror : List MirrorEntry) (ext : ExternalTransaction) (st : Progress)
    → seen ext.external_ref st.seen_ref ≡ true
    → match_one mirror ext st ≡ record st { result = add_finding (duplicate_finding ext) st.result }
unfolding match_one
match_one_again mirror ext st again = rw again refl

pub record Round (mirror : List MirrorEntry) (earlier : List Text) (ext : ExternalTransaction)
    (st next : Progress) : Type 0 where
  pub verdict :
      next.result
      ≡ extend st.result (record { external = ext; verdict = judge mirror earlier ext } ∷ [])
  pub fits : Fits mirror (ext.external_ref ∷ earlier) next

judge_new :
    (mirror : List MirrorEntry) (earlier : List Text) (ext : ExternalTransaction)
    → seen ext.external_ref earlier ≡ false
    → judge mirror earlier ext
      ≡ compare_entries (find? (backs ext) mirror) (find? (refers ext.external_ref) mirror)
unfolding judge
judge_new mirror earlier ext new = rw new refl

Round-again :
    (mirror : List MirrorEntry) (earlier : List Text) (ext : ExternalTransaction) (st : Progress)
    → Fits mirror earlier st
    → seen ext.external_ref earlier ≡ true
    → Round mirror earlier ext st (match_one mirror ext st)
unfolding judge matches_of findings_of
Round-again mirror earlier ext st h again =
    rw (match_one_again mirror ext st (h.same_refs ext.external_ref ∙ again)) (record {
      verdict = rw again (λ i. record {
        matches = sym (append-nil st.result.matches) i;
        findings = st.result.findings ++ (duplicate_finding ext ∷ []);
      });
      fits = record {
        same_refs = λ r. ground (arith, h.same_refs r, text_eq→eq r ext.external_ref);
        free = λ r new. h.free r ground arith;
      };
    })

-- The references seen after a round on a new one.
same_refs_new :
    (mirror : List MirrorEntry) (earlier : List Text) (ext : ExternalTransaction) (st : Progress)
    → Fits mirror earlier st
    → (r : Text) → seen r (ext.external_ref ∷ st.seen_ref) ≡ seen r (ext.external_ref ∷ earlier)
same_refs_new mirror earlier ext st h r = ap (λ b. text_eq r ext.external_ref || b) (h.same_refs r)

not_seen :
    (r ref : Text) (earlier : List Text) → seen r (ref ∷ earlier) ≡ false → seen r earlier ≡ false
not_seen r ref earlier new = ground arith

round_unmatched :
    (mirror : List MirrorEntry) (earlier : List Text) (ext : ExternalTransaction) (st : Progress)
    (r : MatchResult)
    → Fits mirror earlier st
    → Fits mirror
        (ext.external_ref ∷ earlier)
        (record st { seen_ref = ext.external_ref ∷ st.seen_ref; result = r })
round_unmatched mirror earlier ext st r h = record {
  same_refs = same_refs_new mirror earlier ext st h;
  free = λ other new. h.free other (not_seen other ext.external_ref earlier new);
}

-- The spent entry is a candidate of the reference of the round only.
round_matched :
    (mirror : List MirrorEntry) (earlier : List Text) (ext : ExternalTransaction) (st : Progress)
    (slot : Slot) (r : MatchResult)
    → Fits mirror earlier st
    → agreeing ext (by_ref 0 ext.external_ref mirror) ≡ some slot
    → Fits mirror (ext.external_ref ∷ earlier) (record {
      consumed = λ i. if i == slot.index then true else st.consumed i;
      seen_ref = ext.external_ref ∷ st.seen_ref;
      result = r;
    })
round_matched mirror earlier ext st slot r h found = record {
  same_refs = same_refs_new mirror earlier ext st h;
  free = λ other new.
      let slots : List Slot = by_ref 0 other mirror in
      let different : text_eq ext.external_ref other ≡ false =
        ground (arith, text_eq→eq ext.external_ref other, text_eq_self other) in
      let apart : IsApart slots slot =
        find?-All (IsApart slots) (λ (s : Slot). agrees ext s.entry)
          (by_ref 0 ext.external_ref mirror)
          (by_ref-IsApart ext.external_ref other 0 mirror different) found in
      All-weaken (λ (t : Slot). ((t.index == slot.index) ≡ false) × (st.consumed t.index ≡ false))
        (λ t. (if t.index == slot.index then true else st.consumed t.index) ≡ false) slots
        (λ t k. rw (k.0, k.1) refl)
        (All-both (λ (t : Slot). (t.index == slot.index) ≡ false) (λ t. st.consumed t.index ≡ false)
          slots apart (h.free other (not_seen other ext.external_ref earlier new)));
}

Round-found :
    (mirror : List MirrorEntry) (earlier : List Text) (ext : ExternalTransaction) (st : Progress)
    (slot : Slot)
    → Fits mirror earlier st
    → seen ext.external_ref earlier ≡ false
    → agreeing ext (by_ref 0 ext.external_ref mirror) ≡ some slot
    → Round mirror earlier ext st (match_one mirror ext st)
unfolding matches_of findings_of
Round-found mirror earlier ext st slot h new found =
    let slots : List Slot = by_ref 0 ext.external_ref mirror in
    let in_mirror : find? (backs ext) mirror ≡ some slot.entry =
      sym (entry-agreeing ext 0 mirror) ∙ ap entry_of found in
    rw
      (
        match_one_new mirror ext st (h.same_refs ext.external_ref ∙ new),
        search-matched st.consumed ext none slots (h.free ext.external_ref new),
        found,
      )
      (record {
        verdict =
            rw (judge_new mirror earlier ext new, in_mirror)
              (λ i. record {
                matches =
                    st.result.matches
                    ++ (record { external_id = ext.id; entry_id = slot.entry.id } ∷ []);
                findings = sym (append-nil st.result.findings) i;
              });
        fits = round_matched mirror earlier ext st slot _ h found;
      })

Round-free :
    (mirror : List MirrorEntry) (earlier : List Text) (ext : ExternalTransaction) (st : Progress)
    (free : Option Slot)
    → Fits mirror earlier st
    → seen ext.external_ref earlier ≡ false
    → agreeing ext (by_ref 0 ext.external_ref mirror) ≡ none
    → first_of (by_ref 0 ext.external_ref mirror) ≡ free
    → Round mirror earlier ext st
        (settle ext none free (record st { seen_ref = ext.external_ref ∷ st.seen_ref }))
unfolding matches_of findings_of
Round-free mirror earlier ext st none h new nothing first =
    let no_match : find? (backs ext) mirror ≡ none =
      sym (entry-agreeing ext 0 mirror) ∙ ap entry_of nothing in
    let no_entry : find? (refers ext.external_ref) mirror ≡ none =
      sym (entry-first ext.external_ref 0 mirror) ∙ ap entry_of first in
    record {
      verdict =
          rw (judge_new mirror earlier ext new, no_match, no_entry)
            (λ i. record {
              matches = sym (append-nil st.result.matches) i;
              findings = st.result.findings ++ (missing_finding ext ∷ []);
            });
      fits = round_unmatched mirror earlier ext st _ h;
    }
Round-free mirror earlier ext st (some slot) h new nothing first =
    let no_match : find? (backs ext) mirror ≡ none =
      sym (entry-agreeing ext 0 mirror) ∙ ap entry_of nothing in
    let an_entry : find? (refers ext.external_ref) mirror ≡ some slot.entry =
      sym (entry-first ext.external_ref 0 mirror) ∙ ap entry_of first in
    record {
      verdict =
          rw (judge_new mirror earlier ext new, no_match, an_entry)
            (λ i. record {
              matches = sym (append-nil st.result.matches) i;
              findings = st.result.findings ++ (mismatch_finding ext slot.entry ∷ []);
            });
      fits = round_unmatched mirror earlier ext st _ h;
    }

pub round :
    (mirror : List MirrorEntry) (earlier : List Text) (ext : ExternalTransaction) (st : Progress)
    → Fits mirror earlier st
    → Round mirror earlier ext st (match_one mirror ext st)
round mirror earlier ext st h = elim (Bool-cases (seen ext.external_ref earlier)) [
  | inl again ↦ Round-again mirror earlier ext st h again
  | inr new ↦
      let slots : List Slot = by_ref 0 ext.external_ref mirror in
      let is_free : IsFree st.consumed slots = h.free ext.external_ref new in
      elim (Option-cases (agreeing ext slots)) [
        | inl nothing ↦
            rw
              (
                match_one_new mirror ext st (h.same_refs ext.external_ref ∙ new),
                search-matched st.consumed ext none slots is_free,
                nothing,
                search-first st.consumed ext none slots is_free nothing,
              )
              (Round-free mirror earlier ext st (first_of slots) h new nothing refl)
        | inr (slot, found) ↦ Round-found mirror earlier ext st slot h new found
      ]
]
