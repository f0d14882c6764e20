-- ===== src/Store/Balances/Effects.antt =====
-- What each statement on account_balances does to the balance of every account and asset code.
use ledgercore.Base.{
  ℕ, ◌==◌, ◌≡◌, refl, ◌∙◌, sym, ap, true, false, ◌&&◌, List, [], ◌∷◌, Text, text_eq, text_eq_iff, ℤ,
  pos, ◌+ℤ◌, ◌-ℤ◌, is_int64, any, Result, ok, err, ok-injective, err-ne-ok, if◌then◌else◌,
  Bool-cases, inl, inr, subst, int_laws, arith,
}
use ledgercore.Domain.{Balance}
use ledgercore.Store.{StoreError, BalanceRow}
use ledgercore.Store.Balances.{
  bigint, ◌then_bind◌, empty_balance, is_row, balance_of, update_balance, upsert_balance,
  add_posted, add_pending, promote, add_held, sub_held,
}

-- The columns have moved by these amounts.
pub record Shift (pd pc nd nc h : ℤ) (b b' : Balance) : Type 0 where
  pub asset : b'.asset ≡ b.asset
  pub posted_debits : b'.posted_debits ≡ b.posted_debits +ℤ pd
  pub posted_credits : b'.posted_credits ≡ b.posted_credits +ℤ pc
  pub pending_debits : b'.pending_debits ≡ b.pending_debits +ℤ nd
  pub pending_credits : b'.pending_credits ≡ b.pending_credits +ℤ nc
  pub held : b'.held ≡ b.held +ℤ h

pub then_bind-ok {ℓ κ} :
    {A : Type ℓ} {B : Type κ} (m : Result StoreError A) (f : A → Result StoreError B) {b : B}
    → (m then_bind f) ≡ ok b
    → (a : A) × (m ≡ ok a) × (f a ≡ ok b)
then_bind-ok (ok a) f h = (a, refl, h)
then_bind-ok (err e) f h = cc

bigint-ok : (n : ℤ) {m : ℤ} → bigint n ≡ ok m → m ≡ n
bigint-ok n h = elim (Bool-cases (is_int64 n)) [
  | inl fits ↦ sym (ok-injective (rw fits at h))
  | inr over ↦ absurd (err-ne-ok (rw over at h))
]

zero_right : (a : ℤ) → a ≡ a +ℤ pos 0
zero_right a = omega int_laws

pub add_posted-Shift :
    (d c : ℤ) (b : Balance) {b' : Balance}
    → add_posted d c b ≡ ok b'
    → Shift d c (pos 0) (pos 0) (pos 0) b b'
unfolding add_posted
add_posted-Shift d c b e =
    ground (arith, zero_right b.pending_debits, zero_right b.pending_credits, zero_right b.held)

pub add_pending-Shift :
    (d c : ℤ) (b : Balance) {b' : Balance}
    → add_pending d c b ≡ ok b'
    → Shift (pos 0) (pos 0) d c (pos 0) b b'
unfolding add_pending
add_pending-Shift d c b e =
    ground (arith, zero_right b.posted_debits, zero_right b.posted_credits, zero_right b.held)

sub_as_add : (a d : ℤ) → a -ℤ d ≡ a +ℤ (pos 0 -ℤ d)
sub_as_add a d = omega int_laws

pub promote-Shift :
    (d c : ℤ) (b : Balance) {b' : Balance}
    → promote d c b ≡ ok b'
    → Shift d c (pos 0 -ℤ d) (pos 0 -ℤ c) (pos 0) b b'
unfolding promote
promote-Shift d c b e =
    ground (arith, zero_right b.held, sub_as_add b.pending_debits d, sub_as_add b.pending_credits c)

pub add_held-Shift :
    (n : ℤ) (b : Balance) {b' : Balance}
    → add_held n b ≡ ok b'
    → Shift (pos 0) (pos 0) (pos 0) (pos 0) n b b'
unfolding add_held
add_held-Shift n b e = ground (
  arith,
  zero_right b.posted_debits,
  zero_right b.posted_credits,
  zero_right b.pending_debits,
  zero_right b.pending_credits,
)

pub sub_held-Shift :
    (n : ℤ) (b : Balance) {b' : Balance}
    → sub_held n b ≡ ok b'
    → Shift (pos 0) (pos 0) (pos 0) (pos 0) (pos 0 -ℤ n) b b'
unfolding sub_held
sub_held-Shift n b e = ground (
  arith,
  zero_right b.posted_debits,
  zero_right b.posted_credits,
  zero_right b.pending_debits,
  zero_right b.pending_credits,
  sub_as_add b.held n,
)

-- The first row under a key, and the rows under the other keys.
abbrev pub Moves :
    (Balance → Balance → Type 0) → ℕ → Text → List BalanceRow → List BalanceRow → Type 0
Moves R account a rows rows' =
    R (balance_of account a rows) (balance_of account a rows')
    × ((other : ℕ) (c : Text)
        → ((account == other) && text_eq a c) ≡ false
        → balance_of other c rows' ≡ balance_of other c rows)

balance_of_head :
    (account : ℕ) (a : Text) (r : BalanceRow) (rs : List BalanceRow)
    → balance_of account a (r ∷ rs)
      ≡ (if is_row account a r then r.balance else balance_of account a rs)
unfolding balance_of
balance_of_head account a r rs = elim (Bool-cases (is_row account a r)) [
  | inl own ↦ rw (own, balance_of)
  | inr other ↦ rw (other, balance_of)
]

balance_of_empty : (account : ℕ) (a : Text) → balance_of account a [] ≡ empty_balance a
unfolding balance_of
balance_of_empty account a = refl

-- A row under a key is none under another key.
other_row :
    (account other : ℕ) (a c : Text) (r : BalanceRow)
    → is_row account a r ≡ true
    → ((account == other) && text_eq a c) ≡ false
    → is_row other c r ≡ false
other_row account other a c r own differs =
    ground (arith, text_eq_iff r.balance.asset a, text_eq_iff r.balance.asset c, text_eq_iff a c)

module _ (R : Balance → Balance → Type 0) (account : ℕ) (a : Text)
    (f : Balance → Result StoreError Balance)
    (keeps : (b b' : Balance) → f b ≡ ok b' → R b b' × (b'.asset ≡ b.asset)) where
  row_moved :
      (r : BalanceRow) (rs : List BalanceRow) (b' : Balance)
      → is_row account a r ≡ true
      → f r.balance ≡ ok b'
      → Moves R account a (r ∷ rs) (record r { balance = b' } ∷ rs)
  row_moved r rs b' own e =
      let kept = keeps r.balance b' e in
      let own' : is_row account a (record r { balance = b' }) ≡ true = ground (arith) in
      (
        rw (balance_of_head account a r rs, own)
            (rw (balance_of_head account a (record r { balance = b' }) rs, own') kept.0),
        λ other c differs.
            let out = other_row account other a c r own differs in
            let out' = other_row account other a c (record r { balance = b' }) own' differs in
            rw (balance_of_head other c r rs, out)
              (rw (balance_of_head other c (record r { balance = b' }) rs, out')),
      )

  head_kept :
      (r : BalanceRow) (rs us : List BalanceRow)
      → is_row account a r ≡ false
      → Moves R account a rs us
      → Moves R account a (r ∷ rs) (r ∷ us)
  head_kept r rs us other moved = (
    rw (balance_of_head account a r rs, other) (rw (balance_of_head account a r us, other) moved.0),
    λ o c differs.
        rw (balance_of_head o c r rs) (rw (balance_of_head o c r us) (rw (moved.1 o c differs))),
  )

  pub update_moved :
      (rows rows' : List BalanceRow)
      → any (is_row account a) rows ≡ true
      → update_balance account a f rows ≡ ok rows'
      → Moves R account a rows rows'
  unfolding update_balance
  update_moved [] rows' present e = cc
  update_moved (r ∷ rs) rows' present e = elim (Bool-cases (is_row account a r)) [
    | inl own ↦
        let (b', changed, done) =
          then_bind-ok (f r.balance) (λ b. ok (record r { balance = b } ∷ rs))
            (rw (own, update_balance) at e) in
        subst (λ t. Moves R account a (r ∷ rs) t) (ok-injective done)
          (row_moved r rs b' own changed)
    | inr other ↦
        let (us, changed, done) =
          then_bind-ok (update_balance account a f rs) (λ us. ok (r ∷ us))
            (rw (other, update_balance) at e) in
        subst (λ t. Moves R account a (r ∷ rs) t) (ok-injective done)
          (head_kept r rs us other (update_moved rs us (rw other at present) changed))
  ]

  module _ (new : Balance) (named : new.asset ≡ a) (starts : R (empty_balance a) new) where
    row_added :
        (other : ℕ) (c : Text)
        → ((account == other) && text_eq a c) ≡ false
        → is_row other c (record { account_id = account; balance = new }) ≡ false
    row_added other c differs = rw named differs

    own_added : is_row account a (record { account_id = account; balance = new }) ≡ true
    own_added = rw named (ground (arith, text_eq_iff a a))

    pub upsert_moved :
        (rows rows' : List BalanceRow)
        → upsert_balance account a new f rows ≡ ok rows'
        → Moves R account a rows rows'
    unfolding upsert_balance
    upsert_moved [] rows' e =
        subst (λ t. Moves R account a [] t) (ok-injective e)
          (
            rw
                (
                  balance_of_head account a (record { account_id = account; balance = new }) [],
                  own_added,
                )
                (rw (balance_of_empty account a) starts),
            λ other c differs. rw (
              balance_of_head other c (record { account_id = account; balance = new }) [],
              row_added other c differs,
            ),
          )
    upsert_moved (r ∷ rs) rows' e = elim (Bool-cases (is_row account a r)) [
      | inl own ↦
          let (b', changed, done) =
            then_bind-ok (f r.balance) (λ b. ok (record r { balance = b } ∷ rs))
              (rw (own, upsert_balance) at e) in
          subst (λ t. Moves R account a (r ∷ rs) t) (ok-injective done)
            (row_moved r rs b' own changed)
      | inr other ↦
          let (us, changed, done) =
            then_bind-ok (upsert_balance account a new f rs) (λ us. ok (r ∷ us))
              (rw (other, upsert_balance) at e) in
          subst (λ t. Moves R account a (r ∷ rs) t) (ok-injective done)
            (head_kept r rs us other (upsert_moved rs us changed))
    ]

pub update_absent :
    (account : ℕ) (a : Text) (f : Balance → Result StoreError Balance)
    (rows rows' : List BalanceRow)
    → any (is_row account a) rows ≡ false
    → update_balance account a f rows ≡ ok rows'
    → rows' ≡ rows
unfolding update_balance
update_absent account a f [] rows' absent e = sym (ok-injective e)
update_absent account a f (r ∷ rs) rows' absent e =
    let other : is_row account a r ≡ false = ground arith in
    let (us, changed, done) =
      then_bind-ok (update_balance account a f rs) (λ us. ok (r ∷ us))
        (rw (other, update_balance) at e) in
    sym (ok-injective done)
    ∙ ap (λ t. r ∷ t) (update_absent account a f rs us (ground arith) changed)

pub balance_of_absent :
    (account : ℕ) (a : Text) (rows : List BalanceRow)
    → any (is_row account a) rows ≡ false
    → balance_of account a rows ≡ empty_balance a
balance_of_absent account a [] h = balance_of_empty account a
balance_of_absent account a (r ∷ rs) h =
    let other : is_row account a r ≡ false = ground arith in
    rw (balance_of_head account a r rs, other) (balance_of_absent account a rs (ground arith))
