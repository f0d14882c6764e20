-- ===== src/Domain/Mirror.antt =====
-- What Reverse makes of a transaction.
use ledgercore.Base.{
  ℕ, suc, ◌≡◌, refl, ◌∙◌, sym, ap, List, [], ◌∷◌, Option, none, some, Bool, true, Text, ℤ, length,
  All, select, ok, ok-injective, err-ne-ok, >>=-ok, arith, subst, ◌==◌, inl, inr, Option-cases,
  Bool-cases,
}
use ledgercore.Domain.{
  Posting, Transaction, posted, Direction, debit, credit, other_direction, opposite,
  valid_direction,
}
use ledgercore.Domain.Postings.{validate_balanced}
use ledgercore.Domain.Reversal.{mirror, reverse}
use ledgercore.Domain.Balanced.{
  debit_of, credit_of, debits_in, credits_in, IsPosting, FitsInt64, IsBalanced,
}
use ledgercore.Domain.Balanced.Verdict.{validate_balanced_iff}

-- The postings of one account.
abbrev pub of_account : ℕ → List Posting → List Posting
of_account account = select (λ p. p.account_id == account)

-- The same accounts and amounts, each on the other side.
pub data Mirrored : List Posting → List Posting → Type 0 where
  nil : Mirrored [] []
  cons :
      (p : Posting) (id : ℕ) {ps qs : List Posting}
      → Mirrored ps qs
      → Mirrored (p ∷ ps) (
          record {
            id = id;
            account_id = p.account_id;
            direction = opposite p.direction;
            amount = p.amount;
          }
          ∷ qs)

mirror-Mirrored :
    (fresh : ℕ → Option ℕ) (i : ℕ) (ps : List Posting) {qs : List Posting}
    → mirror fresh i ps ≡ ok qs
    → Mirrored ps qs
unfolding mirror
mirror-Mirrored fresh i [] e = subst (λ t. Mirrored [] t) (ok-injective e) nil
mirror-Mirrored fresh i (p ∷ ps) e = elim (Option-cases (fresh i)) [
  | inl missing ↦ absurd (err-ne-ok (rw (missing, mirror) at e))
  | inr (id, given) ↦
      let (rest, made, done) =
        >>=-ok (mirror fresh (suc i) ps)
          (λ qs. ok (
            record {
              id = id;
              account_id = p.account_id;
              direction = opposite p.direction;
              amount = p.amount;
            }
            ∷ qs))
          (rw (given, mirror) at e) in
      subst (λ t. Mirrored (p ∷ ps) t) (ok-injective done)
        (cons p id (mirror-Mirrored fresh (suc i) ps made))
]

opposite-sides :
    (d : Direction) (n : ℤ)
    → valid_direction d ≡ true
    → (debit_of (opposite d) n ≡ credit_of d n) × (credit_of (opposite d) n ≡ debit_of d n)
unfolding valid_direction
opposite-sides debit n h = (refl, refl)
opposite-sides credit n h = (refl, refl)
opposite-sides (other_direction t) n h = cc

opposite-valid : (d : Direction) → valid_direction (opposite d) ≡ true
unfolding valid_direction
opposite-valid debit = refl
opposite-valid credit = refl
opposite-valid (other_direction t) = refl

sides-Mirrored :
    (a : Text) {ps qs : List Posting}
    → Mirrored ps qs
    → All IsPosting ps
    → (debits_in a qs ≡ credits_in a ps) × (credits_in a qs ≡ debits_in a ps)
unfolding debits_in credits_in
sides-Mirrored a nil h = (refl, refl)
sides-Mirrored a (cons p id m) h =
    let rest = sides-Mirrored a m h.1 in
    let one = opposite-sides p.direction p.amount.units h.0.2 in
    (rw (one.0, rest.0), rw (one.1, rest.1))

select-Mirrored :
    (account : ℕ) {ps qs : List Posting}
    → Mirrored ps qs
    → Mirrored (of_account account ps) (of_account account qs)
select-Mirrored account nil = nil
select-Mirrored account (cons p id m) = elim (Bool-cases (p.account_id == account)) [
  | inl own ↦ rw own (cons p id (select-Mirrored account m))
  | inr other ↦ rw other (select-Mirrored account m)
]

select-All {κ} :
    (P : Posting → Type κ) (f : Posting → Bool) (ps : List Posting) → All P ps → All P (select f ps)
select-All P f [] h = tt
select-All P f (p ∷ ps) h = elim (Bool-cases (f p)) [
  | inl own ↦ rw own (h.0, select-All P f ps h.1)
  | inr other ↦ rw other (select-All P f ps h.1)
]

-- A direction on the other side.
pub data Flipped : Direction → Direction → Type 0 where
  to_credit : Flipped debit credit
  to_debit : Flipped credit debit
  unknown_to_debit : (t : Text) → Flipped (other_direction t) debit

pub data Flips : List Posting → List Posting → Type 0 where
  nil : Flips [] []
  cons :
      {p q : Posting} {ps qs : List Posting}
      → q.account_id ≡ p.account_id
      → q.amount ≡ p.amount
      → Flipped p.direction q.direction
      → Flips ps qs
      → Flips (p ∷ ps) (q ∷ qs)

length-Mirrored : {ps qs : List Posting} → Mirrored ps qs → length qs ≡ length ps
length-Mirrored nil = refl
length-Mirrored (cons p id m) = ap suc (length-Mirrored m)

valid-Mirrored : {ps qs : List Posting} → Mirrored ps qs → All IsPosting ps → All IsPosting qs
valid-Mirrored nil h = tt
valid-Mirrored (cons p id m) h = ((h.0.0, h.0.1, opposite-valid p.direction), valid-Mirrored m h.1)

fits-Mirrored : {ps qs : List Posting} → Mirrored ps qs → All FitsInt64 ps → All FitsInt64 qs
fits-Mirrored nil h = tt
fits-Mirrored (cons p id m) h = (h.0, fits-Mirrored m h.1)

IsBalanced-Mirrored : {ps qs : List Posting} → Mirrored ps qs → IsBalanced ps → IsBalanced qs
IsBalanced-Mirrored m h = record {
  enough = let n = h.enough in let e = length-Mirrored m in omega arith;
  valid = valid-Mirrored m h.valid;
  fits = λ a. rw (sides-Mirrored a m h.valid).0 (rw (← h.balanced a) (h.fits a));
  balanced = λ a.
      (sides-Mirrored a m h.valid).0 ∙ (sym (h.balanced a) ∙ sym (sides-Mirrored a m h.valid).1);
}

module _ (uuid_string : ℕ → Text) (fresh : ℕ → Option ℕ) (original : Transaction)
    (reversal_id now : ℕ) where
  pub reverse-Mirrored :
      {rev : Transaction}
      → reverse uuid_string fresh original reversal_id now ≡ ok rev
      → (original.status ≡ posted)
        × (original.reversed_by_id ≡ none)
        × (rev.reverses_id ≡ some original.id)
        × (rev.status ≡ posted)
        × Mirrored original.postings rev.postings
  unfolding reverse
  reverse-Mirrored {rev} e = (
    ground arith,
    ground arith,
    ground arith,
    ground arith,
    mirror-Mirrored fresh 0 original.postings {qs = rev.postings} (ground arith),
  )

  -- A reversal that Reverse builds from postings with amounts of at most the largest int64 that
  -- ValidateBalanced accepts is accepted by it too, refers to the original, which was posted and
  -- not reversed, and moves on every account under every asset code exactly the original's credits
  -- as debits and its debits as credits.
  pub reverse_compensates :
      {rev : Transaction}
      → All FitsInt64 original.postings
      → validate_balanced original.postings ≡ ok tt
      → reverse uuid_string fresh original reversal_id now ≡ ok rev
      → (validate_balanced rev.postings ≡ ok tt)
        × (rev.reverses_id ≡ some original.id)
        × (original.status ≡ posted)
        × (original.reversed_by_id ≡ none)
        × ((account : ℕ) (a : Text)
            → (debits_in a (of_account account rev.postings)
                ≡ credits_in a (of_account account original.postings))
              × (credits_in a (of_account account rev.postings)
                  ≡ debits_in a (of_account account original.postings)))
  reverse_compensates {rev} fits valid e =
      let (status, free, link, _, m) = reverse-Mirrored e in
      let balanced = (validate_balanced_iff original.postings fits).0 valid in
      (
        (validate_balanced_iff rev.postings (fits-Mirrored m fits)).1
            (IsBalanced-Mirrored m balanced),
        link,
        status,
        free,
        λ account a.
            sides-Mirrored a (select-Mirrored account m) (
              select-All IsPosting (λ p. p.account_id == account) original.postings balanced.valid),
      )
