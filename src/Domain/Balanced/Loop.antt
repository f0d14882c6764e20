-- ===== src/Domain/Balanced/Loop.antt =====
-- The first loop of ValidateBalanced and the sums of the two sides.
use ledgercore.Base.{
  ◌≡◌, refl, ◌∙◌, ap, Bool, true, false, List, [], ◌∷◌, Text, text_eq, text_eq_self, ℤ, pos, ◌+ℤ◌,
  ◌≤ℤ◌, ◌<ℤ◌, leb_ℤ, max_int64, All, if◌then◌else◌, Result, ok, err, ok-injective, err-ne-ok, ◌>>=◌,
  >>=-ok, fail_if, int_laws, arith, subst,
}
use ledgercore.Money.{Amount, MoneyError, validate_asset_code}
use ledgercore.Domain.{
  Posting, Direction, debit, credit, other_direction, non_positive_amount, valid_direction,
}
use ledgercore.Domain.Postings.{
  AmountMap, Sides, lift, accumulate, add_side, add_posting, sum_sides,
}
use ledgercore.Domain.Sums.{IsSums, units_at, Grown, Grown-zero, accumulate-Grown, accumulate_total}
use ledgercore.Domain.Balanced.{debit_of, credit_of, debits_in, credits_in, IsPosting, FitsInt64}

-- Both sides grow by what one posting puts on them.
abbrev SidesGrown : Sides → Sides → Direction → Amount → Type 0
SidesGrown (d, c) (d', c') dir x =
    Grown d d' x.asset (debit_of dir x.units) × Grown c c' x.asset (credit_of dir x.units)

abbrev pub AreSums : Sides → Type 0
AreSums (d, c) = IsSums d × IsSums c

add_side-Grown :
    (dir : Direction) (x : Amount) (s s' : Sides)
    → AreSums s
    → pos 0 <ℤ x.units
    → x.units ≤ℤ max_int64
    → add_side dir x s ≡ ok s'
    → (valid_direction dir ≡ true) × SidesGrown s s' dir x
unfolding add_side valid_direction
add_side-Grown debit x (d, c) (d', c') h p b e =
    let (m, made, done) = >>=-ok (accumulate d x) (λ side. ok (side, c)) e in
    let pair = ok-injective done in
    (
      refl,
      (
        subst (λ t. Grown d t x.asset x.units) (ap (λ (t : Sides). t.0) pair)
            (accumulate-Grown d m x h.0 p b made),
        subst (λ t. Grown c t x.asset (pos 0)) (ap (λ (t : Sides). t.1) pair)
            (Grown-zero c x.asset h.1),
      ),
    )
add_side-Grown credit x (d, c) (d', c') h p b e =
    let (m, made, done) = >>=-ok (accumulate c x) (λ side. ok (d, side)) e in
    let pair = ok-injective done in
    (
      refl,
      (
        subst (λ t. Grown d t x.asset (pos 0)) (ap (λ (t : Sides). t.0) pair)
            (Grown-zero d x.asset h.0),
        subst (λ t. Grown c t x.asset x.units) (ap (λ (t : Sides). t.1) pair)
            (accumulate-Grown c m x h.1 p b made),
      ),
    )
add_side-Grown (other_direction t) x (d, c) (d', c') h p b e = absurd (err-ne-ok e)

add_side_total :
    (dir : Direction) (x : Amount) (d c : AmountMap)
    → AreSums (d, c)
    → pos 0 <ℤ x.units
    → x.units ≤ℤ max_int64
    → valid_direction dir ≡ true
    → units_at d x.asset +ℤ debit_of dir x.units ≤ℤ max_int64
    → units_at c x.asset +ℤ credit_of dir x.units ≤ℤ max_int64
    → (s : Sides) × (add_side dir x (d, c) ≡ ok s)
unfolding add_side valid_direction
add_side_total debit x d c h p b v ld lc =
    let (m, made) = accumulate_total d x h.0 p b ld in ((m, c), rw made)
add_side_total credit x d c h p b v ld lc =
    let (m, made) = accumulate_total c x h.1 p b lc in ((d, m), rw made)
add_side_total (other_direction t) x d c h p b v ld lc = cc

lift-ok : (r : Result MoneyError (Unit {0})) → lift r ≡ ok tt → r ≡ ok tt
lift-ok (ok tt) h = refl
lift-ok (err e) h = cc

add_posting-Grown :
    (p : Posting) (s s' : Sides)
    → AreSums s
    → FitsInt64 p
    → add_posting p s ≡ ok s'
    → IsPosting p × SidesGrown s s' p.direction p.amount
unfolding add_posting
add_posting-Grown p s s' h b e =
    let (_, checked, rest) =
      >>=-ok (lift (validate_asset_code p.amount.asset))
        (λ _. fail_if (leb_ℤ p.amount.units (pos 0)) non_positive_amount >>= λ _.
          add_side p.direction p.amount s)
        e in
    let (_, positive, added) =
      >>=-ok (fail_if (leb_ℤ p.amount.units (pos 0)) non_positive_amount)
        (λ _. add_side p.direction p.amount s) rest in
    let pos_units : pos 0 <ℤ p.amount.units = ground arith in
    let (dir, grown) = add_side-Grown p.direction p.amount s s' h pos_units b added in
    ((lift-ok (validate_asset_code p.amount.asset) checked, pos_units, dir), grown)

add_posting_total :
    (p : Posting) (d c : AmountMap)
    → AreSums (d, c)
    → FitsInt64 p
    → IsPosting p
    → units_at d p.amount.asset +ℤ debit_of p.direction p.amount.units ≤ℤ max_int64
    → units_at c p.amount.asset +ℤ credit_of p.direction p.amount.units ≤ℤ max_int64
    → (s : Sides) × (add_posting p (d, c) ≡ ok s)
unfolding add_posting
add_posting_total p d c h b v ld lc =
    let positive : leb_ℤ p.amount.units (pos 0) ≡ false = ground arith in
    let (s, e) = add_side_total p.direction p.amount d c h v.1 b v.2 ld lc in
    (s, rw (v.0, positive) e)

-- What an accepted list of postings has added to the maps.
pub record Summed (ps : List Posting) (s s' : Sides) : Type 0 where
  pub sums : AreSums s'
  pub valid : All IsPosting ps
  pub debits : (a : Text) → units_at s'.0 a ≡ units_at s.0 a +ℤ debits_in a ps
  pub credits : (a : Text) → units_at s'.1 a ≡ units_at s.1 a +ℤ credits_in a ps

pub sum_sides-Summed :
    (ps : List Posting) (s s' : Sides)
    → AreSums s
    → All FitsInt64 ps
    → sum_sides ps s ≡ ok s'
    → Summed ps s s'
unfolding sum_sides debits_in credits_in
sum_sides-Summed [] s s' h b e =
    subst (λ t. Summed [] s t) (ok-injective e)
      (record { sums = h; valid = tt; debits = λ a. omega int_laws; credits = λ a. omega int_laws })
sum_sides-Summed (p ∷ ps) s s' h b e =
    let (m, one, more) = >>=-ok (add_posting p s) (λ next. sum_sides ps next) e in
    let (v, grown) = add_posting-Grown p s m h b.0 one in
    let rest = sum_sides-Summed ps m s' (grown.0.0, grown.1.0) b.1 more in
    record {
      sums = rest.sums;
      valid = (v, rest.valid);
      debits = λ a. rest.debits a ∙ (rw (grown.0.1 a) (omega int_laws));
      credits = λ a. rest.credits a ∙ (rw (grown.1.1 a) (omega int_laws));
    }

side_nonneg :
    (dir : Direction) (b : Bool) (n : ℤ)
    → pos 0 <ℤ n
    → (pos 0 ≤ℤ (if b then debit_of dir n else pos 0))
      × (pos 0 ≤ℤ (if b then credit_of dir n else pos 0))
side_nonneg debit true n h = ground arith
side_nonneg credit true n h = ground arith
side_nonneg (other_direction t) true n h = ground arith
side_nonneg dir false n h = ground arith

pub sums_nonneg :
    (a : Text) (ps : List Posting)
    → All IsPosting ps
    → (pos 0 ≤ℤ debits_in a ps) × (pos 0 ≤ℤ credits_in a ps)
unfolding debits_in credits_in
sums_nonneg a [] h = ground arith
sums_nonneg a (p ∷ ps) h =
    let one = side_nonneg p.direction (text_eq p.amount.asset a) p.amount.units h.0.1 in
    let more = sums_nonneg a ps h.1 in (omega int_laws, omega int_laws)

-- Enough room for the whole sum is enough for its first step.
abbrev pub Room : List Posting → Sides → Type 0
Room ps (d, c) =
    ((a : Text) → units_at d a +ℤ debits_in a ps ≤ℤ max_int64)
    × ((a : Text) → units_at c a +ℤ credits_in a ps ≤ℤ max_int64)

pub sum_sides_total :
    (ps : List Posting) (d c : AmountMap)
    → AreSums (d, c)
    → All FitsInt64 ps
    → All IsPosting ps
    → Room ps (d, c)
    → (s : Sides) × (sum_sides ps (d, c) ≡ ok s)
unfolding sum_sides debits_in credits_in
sum_sides_total [] d c h b v room = ((d, c), refl)
sum_sides_total (p ∷ ps) d c h b v room =
    let k = p.amount.asset in
    let rest = sums_nonneg k ps v.1 in
    let self = text_eq_self k in
    let at_d = rw self at (room.0 k) in
    let at_c = rw self at (room.1 k) in
    let ((d', c'), one) = add_posting_total p d c h b.0 v.0 (omega int_laws) (omega int_laws) in
    let (_, grown) = add_posting-Grown p (d, c) (d', c') h b.0 one in
    let (s, more) =
      sum_sides_total ps d' c' (grown.0.0, grown.1.0) b.1 v.1
        (
          (λ a. let r = room.0 a in rw (grown.0.1 a) (omega int_laws)),
          (λ a. let r = room.1 a in rw (grown.1.1 a) (omega int_laws)),
        ) in
    (s, rw one more)
