-- ===== src/Domain/Balanced/Verdict.antt =====
-- The verdict of ValidateBalanced.
use ledgercore.Base.{
  ◌≡◌, ◌∙◌, sym, ap, inl, inr, ◌↔◌, true, false, List, [], none, some, Text, ℤ, pos, ◌+ℤ◌, ◌<ℤ◌,
  eqb_ℤ_iff, length, all, ltb, All, ok, ◌>>=◌, >>=-ok, fail_if, Option-cases, int_laws, arith,
}
use mathlib.Core.Bool.{false≢true}
use ledgercore.Money.{Amount}
use ledgercore.Domain.{Posting, too_few_postings}
use ledgercore.Domain.Postings.{
  AmountMap, lookup, sum_sides, check_sides, validate_balanced, debit_is_matched, credit_is_matched,
}
use ledgercore.Domain.Sums.{
  units_at, units_at_range, lookup_nil, units_at-none, units_at-some, lookup-IsSums, matched_all,
  all_matched,
}
use ledgercore.Domain.Balanced.{debits_in, credits_in, FitsInt64, IsBalanced}
use ledgercore.Domain.Balanced.Loop.{AreSums, Room, sum_sides-Summed, sum_sides_total}

-- Two matching entries hold the same sum; an entry without a partner fails one of the loops.
debit_matched :
    (c : AmountMap) (a : Text) (x : Amount)
    → debit_is_matched c (a, x) ≡ true
    → units_at c a ≡ x.units
debit_matched c a x h = elim (Option-cases (lookup a c)) [
  | inl missing ↦ absurd (false≢true (rw (missing, debit_is_matched) at h))
  | inr (y, found) ↦
      units_at-some c a y found ∙ (eqb_ℤ_iff y.units x.units).0 (rw (found, debit_is_matched) at h)
]

credit_unmatched :
    (d : AmountMap) (a : Text) (y : Amount) → lookup a d ≡ none → credit_is_matched d (a, y) ≡ false
credit_unmatched d a y e = rw (e, credit_is_matched)

check_sides-eq :
    (d c : AmountMap) → check_sides (d, c) ≡ ok tt → (a : Text) → units_at d a ≡ units_at c a
unfolding check_sides
check_sides-eq d c e a =
    let forth : all (debit_is_matched c) d ≡ true = ground arith in
    let back : all (credit_is_matched d) c ≡ true = ground arith in
    elim (Option-cases (lookup a d)) [
      | inl none_d ↦ elim (Option-cases (lookup a c)) [
        | inl none_c ↦ units_at-none d a none_d ∙ sym (units_at-none c a none_c)
        | inr (y, some_c) ↦ absurd (
            false≢true (
              sym (credit_unmatched d a y none_d)
              ∙ matched_all (credit_is_matched d) c a y back some_c))
      ]
      | inr (x, some_d) ↦
          units_at-some d a x some_d
          ∙ sym (debit_matched c a x (matched_all (debit_is_matched c) d a x forth some_d))
    ]

-- A positive sum has an entry.
entry_of :
    (m : AmountMap) (a : Text) (n : ℤ)
    → pos 0 <ℤ n
    → units_at m a ≡ n
    → (y : Amount) × (lookup a m ≡ some y) × (y.units ≡ n)
entry_of m a n p e = elim (Option-cases (lookup a m)) [
  | inl missing ↦
      let zero_sum = sym (units_at-none m a missing) ∙ e in
      (let q = rw (← zero_sum) at p in absurd (omega arith))
  | inr (y, found) ↦ (y, found, sym (units_at-some m a y found) ∙ e)
]

check_sides_pass :
    (d c : AmountMap)
    → AreSums (d, c)
    → ((a : Text) → units_at d a ≡ units_at c a)
    → check_sides (d, c) ≡ ok tt
unfolding check_sides
check_sides_pass d c h same =
    let forth : all (debit_is_matched c) d ≡ true = all_matched (debit_is_matched c) d h.0 (λ a x e.
      let (y, found, eq) =
        entry_of c a x.units (lookup-IsSums a x d h.0 e).0 (sym (same a) ∙ units_at-some d a x e) in
      rw (found, debit_is_matched) ((eqb_ℤ_iff y.units x.units).1 eq)) in
    let back : all (credit_is_matched d) c ≡ true =
      all_matched (credit_is_matched d) c h.1 (λ a x e.
        let (y, found, eq) =
          entry_of d a x.units (lookup-IsSums a x c h.1 e).0 (same a ∙ units_at-some c a x e) in
        rw (found, credit_is_matched)) in
    rw (forth, back)

units_at_start : (a : Text) (n : ℤ) → units_at [] a +ℤ n ≡ n
units_at_start a n = rw (units_at-none [] a (lookup_nil a)) (omega int_laws)

-- A list of postings with amounts of at most the largest int64 is accepted exactly when it has two
-- postings at least, each has a valid asset code, a positive amount and a direction of DEBIT or
-- CREDIT, no sum of debits under an asset code exceeds the largest int64, and under every asset
-- code the debits equal the credits.
pub validate_balanced_iff :
    (ps : List Posting) → All FitsInt64 ps → (validate_balanced ps ≡ ok tt) ↔ IsBalanced ps
unfolding validate_balanced
validate_balanced_iff ps b = (accepted, accepts)
  where
    accepted : validate_balanced ps ≡ ok tt → IsBalanced ps
    accepted e =
        let (_, enough, e1) =
          >>=-ok (fail_if (ltb (length ps) 2) too_few_postings)
            (λ _. sum_sides ps ([], []) >>= λ sides. check_sides sides) e in
        let (s, summed, checked) = >>=-ok (sum_sides ps ([], [])) (λ sides. check_sides sides) e1 in
        let total = sum_sides-Summed ps ([], []) s (tt, tt) b summed in
        let same = check_sides-eq s.0 s.1 checked in
        record {
          enough = ground arith;
          valid = total.valid;
          fits = λ a.
              let r = units_at_range s.0 a total.sums.0 in
              rw (← units_at_start a (debits_in a ps)) (rw (← total.debits a) r.1);
          balanced = λ a.
              sym (units_at_start a (debits_in a ps))
              ∙ (sym (total.debits a)
                  ∙ (same a ∙ (total.credits a ∙ units_at_start a (credits_in a ps))));
        }

    accepts : IsBalanced ps → validate_balanced ps ≡ ok tt
    accepts h =
        let room : Room ps ([], []) = (
          (λ a. rw (units_at_start a (debits_in a ps)) (h.fits a)),
          (λ a. rw (units_at_start a (credits_in a ps)) (rw (← h.balanced a) (h.fits a))),
        ) in
        let (s, summed) = sum_sides_total ps [] [] (tt, tt) b h.valid room in
        let total = sum_sides-Summed ps ([], []) s (tt, tt) b summed in
        let count : ltb (length ps) 2 ≡ false = let n = h.enough in ground arith in
        rw count (
          rw summed (
            check_sides_pass s.0 s.1 total.sums (λ a.
              total.debits a
              ∙ (ap (λ t. units_at [] a +ℤ t) (h.balanced a) ∙ sym (total.credits a)))))
