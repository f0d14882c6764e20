-- ===== src/Store/Balances/Statements.antt =====
-- The three statements on account_balances that a batch of postings runs, and what each moves.
use ledgercore.Base.{
  ℕ, ◌==◌, ◌≡◌, refl, ◌∙◌, sym, Bool, true, false, ◌&&◌, ◌||◌, List, [], ◌∷◌, Text, text_eq,
  text_eq_iff, pos, any, Result, ok, ok-injective, Bool-cases, inl, inr, arith, zero-+ℤ,
}
use ledgercore.Domain.{Balance}
use ledgercore.Store.{StoreError, BalanceRow}
use ledgercore.Store.Balances.{
  empty_balance, is_row, update_balance, upsert_balance, add_posted, add_pending, promote,
  upsert_posted_balance, upsert_pending_balance, move_pending_to_posted,
}
use ledgercore.Store.Balances.Effects.{
  add_posted-Shift, add_pending-Shift, promote-Shift, update_moved, upsert_moved, then_bind-ok,
}
use ledgercore.Store.Balances.Columns.{
  ColumnShift, on_balances-ok, IsStatement, no_change, same_key, update_present, to_posted,
  to_pending, promoted,
}

or_false : (x : Bool) → (x || false) ≡ x
or_false x = ground arith

or_assoc : (x y z : Bool) → (x || (y || z)) ≡ ((x || y) || z)
or_assoc x y z = ground arith

or_own :
    (account other : ℕ) (a b : Text) (r : BalanceRow) (rs : List BalanceRow)
    → is_row account a r ≡ true
    → any (is_row other b) (r ∷ rs)
      ≡ (any (is_row other b) (r ∷ rs) || ((account == other) && text_eq a b))
or_own account other a b r rs own =
    ground (arith, text_eq_iff r.balance.asset a, text_eq_iff r.balance.asset b, text_eq_iff a b)

-- After an upsert there is a row under its key, beside those that there were.
upsert_present :
    (account : ℕ) (a : Text) (new : Balance) (f : Balance → Result StoreError Balance)
    → ((b b' : Balance) → f b ≡ ok b' → b'.asset ≡ b.asset)
    → new.asset ≡ a
    → (other : ℕ) (b : Text) (rows rows' : List BalanceRow)
    → upsert_balance account a new f rows ≡ ok rows'
    → any (is_row other b) rows'
      ≡ (any (is_row other b) rows || ((account == other) && text_eq a b))
unfolding upsert_balance
upsert_present account a new f keeps named other b [] rows' e =
    rw (← ok-injective e) (rw named (or_false _))
upsert_present account a new f keeps named other b (r ∷ rs) rows' e =
    elim (Bool-cases (is_row account a r)) [
      | inl own ↦
          let (n, changed, done) =
            then_bind-ok (f r.balance) (λ n. ok (record r { balance = n } ∷ rs))
              (rw (own, upsert_balance) at e) in
          rw (← ok-injective done) (
            rw (same_key other b r n (keeps r.balance n changed))
              (or_own account other a b r rs own))
      | inr others ↦
          let (us, changed, done) =
            then_bind-ok (upsert_balance account a new f rs) (λ us. ok (r ∷ us))
              (rw (others, upsert_balance) at e) in
          rw (← ok-injective done) (
            rw (upsert_present account a new f keeps named other b rs us changed)
              (or_assoc (is_row other b r) _ _))
    ]

module _ (account : ℕ) (a : Text) (new : Balance) (f : Balance → Result StoreError Balance)
    (keeps : (b b' : Balance) → f b ≡ ok b' → b'.asset ≡ b.asset) (named : new.asset ≡ a)
    (rows rows' : List BalanceRow) (e : upsert_balance account a new f rows ≡ ok rows') where
  upsert_keeps :
      (other : ℕ) (b : Text) → any (is_row other b) rows ≡ true → any (is_row other b) rows' ≡ true
  upsert_keeps other b h =
      upsert_present account a new f keeps named other b rows rows' e ∙ ground arith

  upsert_own : any (is_row account a) rows' ≡ true
  upsert_own =
      upsert_present account a new f keeps named account a rows rows' e
      ∙ ground (arith, text_eq_iff a a)

pub upsert_posted-IsStatement : IsStatement to_posted upsert_posted_balance
unfolding upsert_posted_balance
upsert_posted-IsStatement = record {
  step = λ account a d c db db' h e.
      let new = record (empty_balance a) {
        posted_debits = d;
        posted_credits = c;
        version = pos 1;
      } in
      let (same, made) = on_balances-ok (upsert_balance account a new (add_posted d c)) db db' e in
      (
        same,
        upsert_moved (ColumnShift to_posted d c) account a (add_posted d c)
            (λ b b' f. (add_posted-Shift d c b f, (add_posted-Shift d c b f).asset)) new refl
            (record {
              asset = refl;
              posted_debits = sym (zero-+ℤ d);
              posted_credits = sym (zero-+ℤ c);
              pending_debits = no_change;
              pending_credits = no_change;
              held = no_change;
            })
            db.balances db'.balances made,
      );
  present = λ account a d c db db' e other b h.
      let new = record (empty_balance a) {
        posted_debits = d;
        posted_credits = c;
        version = pos 1;
      } in
      let (same, made) = on_balances-ok (upsert_balance account a new (add_posted d c)) db db' e in
      upsert_keeps account a new (add_posted d c) (λ x x' f. (add_posted-Shift d c x f).asset) refl
        db.balances db'.balances made other b h;
  own = λ account a d c db db' h e.
      let new = record (empty_balance a) {
        posted_debits = d;
        posted_credits = c;
        version = pos 1;
      } in
      let (same, made) = on_balances-ok (upsert_balance account a new (add_posted d c)) db db' e in
      upsert_own account a new (add_posted d c) (λ x x' f. (add_posted-Shift d c x f).asset) refl
        db.balances db'.balances made;
}

pub upsert_pending-IsStatement : IsStatement to_pending upsert_pending_balance
unfolding upsert_pending_balance
upsert_pending-IsStatement = record {
  step = λ account a d c db db' h e.
      let new = record (empty_balance a) {
        pending_debits = d;
        pending_credits = c;
        version = pos 1;
      } in
      let (same, made) = on_balances-ok (upsert_balance account a new (add_pending d c)) db db' e in
      (
        same,
        upsert_moved (ColumnShift to_pending d c) account a (add_pending d c)
            (λ b b' f. (add_pending-Shift d c b f, (add_pending-Shift d c b f).asset)) new refl
            (record {
              asset = refl;
              posted_debits = no_change;
              posted_credits = no_change;
              pending_debits = sym (zero-+ℤ d);
              pending_credits = sym (zero-+ℤ c);
              held = no_change;
            })
            db.balances db'.balances made,
      );
  present = λ account a d c db db' e other b h.
      let new = record (empty_balance a) {
        pending_debits = d;
        pending_credits = c;
        version = pos 1;
      } in
      let (same, made) = on_balances-ok (upsert_balance account a new (add_pending d c)) db db' e in
      upsert_keeps account a new (add_pending d c) (λ x x' f. (add_pending-Shift d c x f).asset)
        refl db.balances db'.balances made other b h;
  own = λ account a d c db db' h e.
      let new = record (empty_balance a) {
        pending_debits = d;
        pending_credits = c;
        version = pos 1;
      } in
      let (same, made) = on_balances-ok (upsert_balance account a new (add_pending d c)) db db' e in
      upsert_own account a new (add_pending d c) (λ x x' f. (add_pending-Shift d c x f).asset) refl
        db.balances db'.balances made;
}

pub move_pending-IsStatement : IsStatement promoted move_pending_to_posted
unfolding move_pending_to_posted
move_pending-IsStatement = record {
  step = λ account a d c db db' h e.
      let (same, made) = on_balances-ok (update_balance account a (promote d c)) db db' e in
      (
        same,
        update_moved (ColumnShift promoted d c) account a (promote d c)
            (λ b b' f. (promote-Shift d c b f, (promote-Shift d c b f).asset)) db.balances
            db'.balances h made,
      );
  present = λ account a d c db db' e other b h.
      let (same, made) = on_balances-ok (update_balance account a (promote d c)) db db' e in
      update_present account a (promote d c) (λ x x' f. (promote-Shift d c x f).asset) other b
        db.balances db'.balances made
      ∙ h;
  own = λ account a d c db db' h e.
      let (same, made) = on_balances-ok (update_balance account a (promote d c)) db db' e in
      update_present account a (promote d c) (λ x x' f. (promote-Shift d c x f).asset) account a
        db.balances db'.balances made
      ∙ h;
}
