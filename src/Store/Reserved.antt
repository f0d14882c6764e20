-- ===== src/Store/Reserved.antt =====
-- The held column of account_balances and the active holds.
use ledgercore.Base.{
  ℕ, ◌==◌, ◌≡◌, refl, ◌∙◌, sym, ap, subst, Bool, true, false, not, ◌&&◌, ◌||◌, List, [], ◌∷◌, ◌++◌,
  some, some_injective, Text, text_eq, ℤ, pos, ◌+ℤ◌, ◌-ℤ◌, any, find?, ok, ok-injective, err-ne-ok,
  if◌then◌else◌, Bool-cases, inl, inr, int_laws, arith, +ℤ_zero, +ℤ_assoc, zero-+ℤ, leb_ℤ,
}
use ledgercore.Domain.{Hold}
use ledgercore.Store.{HoldRow, Db, Tx, raise_if, balance_row_missing, tx-ok}
use ledgercore.Store.Balances.{
  empty_balance, is_row, balance_of, update_balance, sub_held, add_held, upsert_balance,
  upsert_held, release_held, on_balances,
}
use ledgercore.Store.Balances.Effects.{
  Shift, Moves, sub_held-Shift, add_held-Shift, update_moved, upsert_moved,
}
use ledgercore.Store.Balances.Columns.{SameTables, no_change, on_balances-ok}
use ledgercore.Store.Holds.{hold_row, insert_hold, update_holds, is_active}

-- What a hold reserves on an account under an asset code.
abbrev pub on_key : ℕ → Text → Hold → Bool
on_key account c h = (h.account_id == account) && text_eq h.amount.asset c

abbrev pub held_of : ℕ → Text → Hold → ℤ
held_of account c h = if is_active h.status && on_key account c h then h.amount.units else pos 0

abbrev pub held_at : ℕ → Text → List HoldRow → ℤ
held_at account c [] = pos 0
held_at account c (r ∷ rs) = held_of account c r.hold +ℤ held_at account c rs

abbrev pub has_id : ℕ → List HoldRow → Bool
has_id id rs = any (λ r. r.hold.id == id) rs

abbrev pub DistinctIds : List HoldRow → Type 0
DistinctIds [] = Unit
DistinctIds (r ∷ rs) = (has_id r.hold.id rs ≡ false) × DistinctIds rs

-- The primary key of the holds, and the held columns, which are the sums of the active holds.
pub record HoldsAgree (db : Db) : Type 0 where
  pub distinct : DistinctIds db.holds
  pub held :
      (account : ℕ) (c : Text)
      → (balance_of account c db.balances).held ≡ held_at account c db.holds

pub held_at-append :
    (account : ℕ) (c : Text) (rs : List HoldRow) (r : HoldRow)
    → held_at account c (rs ++ r ∷ []) ≡ held_at account c rs +ℤ held_of account c r.hold
held_at-append account c [] r =
    +ℤ_zero (held_of account c r.hold) ∙ sym (zero-+ℤ (held_of account c r.hold))
held_at-append account c (q ∷ qs) r =
    ap (λ n. held_of account c q.hold +ℤ n) (held_at-append account c qs r)
    ∙ sym (+ℤ_assoc (held_of account c q.hold) (held_at account c qs) (held_of account c r.hold))

has_id-append :
    (id : ℕ) (rs : List HoldRow) (r : HoldRow)
    → has_id id (rs ++ r ∷ []) ≡ (has_id id rs || (r.hold.id == id))
has_id-append id [] r = ground arith
has_id-append id (q ∷ qs) r = ground (arith, has_id-append id qs r)

pub DistinctIds-append :
    (rs : List HoldRow) (r : HoldRow)
    → DistinctIds rs
    → has_id r.hold.id rs ≡ false
    → DistinctIds (rs ++ r ∷ [])
DistinctIds-append [] r d h = (refl, tt)
DistinctIds-append (q ∷ qs) r d h =
    let other : (r.hold.id == q.hold.id) ≡ false = ground arith in
    (
      has_id-append q.hold.id qs r ∙ rw (d.0, other) refl,
      DistinctIds-append qs r d.1 (ground arith),
    )

pub update_absent :
    (id : ℕ) (f : Hold → Hold) (rs : List HoldRow)
    → has_id id rs ≡ false
    → update_holds id f rs ≡ rs
unfolding update_holds
update_absent id f [] h = refl
update_absent id f (r ∷ rs) h =
    let other : (r.hold.id == id) ≡ false = ground arith in
    rw other (ap (λ l. r ∷ l) (update_absent id f rs (ground arith)))

module _ (id : ℕ) (f : Hold → Hold) (keeps : (h : Hold) → (f h).id ≡ h.id) where
  update-has_id :
      (other : ℕ) (rs : List HoldRow) → has_id other (update_holds id f rs) ≡ has_id other rs
  unfolding update_holds
  update-has_id other [] = refl
  update-has_id other (r ∷ rs) = elim (Bool-cases (r.hold.id == id)) [
    | inl own ↦
        rw own (rw (keeps r.hold) (ap (λ b. (r.hold.id == other) || b) (update-has_id other rs)))
    | inr away ↦ rw away (ap (λ b. (r.hold.id == other) || b) (update-has_id other rs))
  ]

  pub DistinctIds-update : (rs : List HoldRow) → DistinctIds rs → DistinctIds (update_holds id f rs)
  unfolding update_holds
  DistinctIds-update [] d = tt
  DistinctIds-update (r ∷ rs) d = elim (Bool-cases (r.hold.id == id)) [
    | inl own ↦
        rw own (rw (keeps r.hold) (update-has_id r.hold.id rs ∙ d.0, DistinctIds-update rs d.1))
    | inr away ↦ rw away (update-has_id r.hold.id rs ∙ d.0, DistinctIds-update rs d.1)
  ]

cancel_head : (u n : ℤ) → n ≡ (u +ℤ n) +ℤ (pos 0 -ℤ u)
cancel_head u n = omega int_laws

zero_less : pos 0 +ℤ (pos 0 -ℤ pos 0) ≡ pos 0
zero_less = omega int_laws

-- An active hold that stops being active takes its amount out of the sums.
pub held_at-update :
    (id : ℕ) (f : Hold → Hold) (account : ℕ) (c : Text) (rs : List HoldRow) (r : HoldRow)
    → ((h : Hold) → is_active (f h).status ≡ false)
    → DistinctIds rs
    → find? (λ (q : HoldRow). q.hold.id == id) rs ≡ some r
    → is_active r.hold.status ≡ true
    → held_at account c (update_holds id f rs)
      ≡ held_at account c rs
        +ℤ (pos 0 -ℤ (if on_key account c r.hold then r.hold.amount.units else pos 0))
unfolding update_holds
held_at-update id f account c [] r ends d found act = cc
held_at-update id f account c (q ∷ qs) r ends d found act = elim (Bool-cases (q.hold.id == id)) [
  | inl own ↦
      let same : q ≡ r = some_injective (rw own at found) in
      let alone : has_id id qs ≡ false = subst (λ n. has_id n qs ≡ false) (ground arith) d.0 in
      let was : held_of account c q.hold
          ≡ (if on_key account c r.hold then r.hold.amount.units else pos 0) =
        ap (λ (x : HoldRow). held_of account c x.hold) same ∙ rw act refl in
      rw own (
        rw (ends q.hold) (
          rw (update_absent id f qs alone) (
            zero-+ℤ (held_at account c qs)
            ∙ (rw was (
                cancel_head (if on_key account c r.hold then r.hold.amount.units else pos 0)
                  (held_at account c qs))))))
  | inr away ↦
      let rest = held_at-update id f account c qs r ends d.1 (rw away at found) act in
      rw away (rw rest (sym (+ℤ_assoc (held_of account c q.hold) (held_at account c qs) _)))
]

no_id :
    (h : Hold) (rs : List HoldRow)
    → any (λ r. r.hold.id == h.id || text_eq r.hold.idempotency_key h.idempotency_key) rs ≡ false
    → has_id h.id rs ≡ false
no_id h [] e = refl
no_id h (r ∷ rs) e = ground (arith, no_id h rs)

pub insert_hold-ok :
    (h : Hold) (hash : Text) (db db' : Db)
    → insert_hold h hash db ≡ ok (tt, db')
    → (db' ≡ record db { holds = db.holds ++ hold_row h hash ∷ [] })
      × (has_id h.id db.holds ≡ false)
      × (leb_ℤ h.amount.units (pos 0) ≡ false)
unfolding insert_hold
insert_hold-ok h hash db db' e = (ground arith, no_id h db.holds (ground arith), ground arith)

pub upsert_held-ok :
    (account : ℕ) (a : Text) (n : ℤ) (db db' : Db)
    → upsert_held account a n db ≡ ok (tt, db')
    → SameTables db db'
      × Moves (Shift (pos 0) (pos 0) (pos 0) (pos 0) n) account a db.balances db'.balances
unfolding upsert_held
upsert_held-ok account a n db db' e =
    let new = record (empty_balance a) { held = n; version = pos 1 } in
    let (same, made) = on_balances-ok (upsert_balance account a new (add_held n)) db db' e in
    (
      same,
      upsert_moved (Shift (pos 0) (pos 0) (pos 0) (pos 0) n) account a (add_held n)
          (λ b b' f. (add_held-Shift n b f, (add_held-Shift n b f).asset)) new refl
          (record {
            asset = refl;
            posted_debits = no_change;
            posted_credits = no_change;
            pending_debits = no_change;
            pending_credits = no_change;
            held = sym (zero-+ℤ n);
          })
          db.balances db'.balances made,
    )

pub release_held-ok :
    (h : Hold) (db db' : Db)
    → release_held h db ≡ ok (tt, db')
    → SameTables db db'
      × Moves
          (Shift (pos 0) (pos 0) (pos 0) (pos 0) (pos 0 -ℤ h.amount.units))
          h.account_id
          h.amount.asset
          db.balances
          db'.balances
unfolding release_held
release_held-ok h db db' e =
    let check : Tx (Unit {0}) =
      raise_if (not (any (is_row h.account_id h.amount.asset) db.balances)) balance_row_missing in
    let (db1, changed, e1) =
      tx-ok (on_balances (update_balance h.account_id h.amount.asset (sub_held h.amount.units)))
        check db e in
    let (same, made) =
      on_balances-ok (update_balance h.account_id h.amount.asset (sub_held h.amount.units)) db db1
        changed in
    elim (Bool-cases (any (is_row h.account_id h.amount.asset) db.balances)) [
      | inl there ↦
          let left : db1 ≡ db' =
            ap (λ (q : (Unit {0}) × Db). q.1) (ok-injective (rw there at e1)) in
          subst
            (λ d.
              SameTables db d
              × Moves (Shift (pos 0) (pos 0) (pos 0) (pos 0) (pos 0 -ℤ h.amount.units)) h.account_id
                  h.amount.asset db.balances d.balances)
            left
            (
              same,
              update_moved (Shift (pos 0) (pos 0) (pos 0) (pos 0) (pos 0 -ℤ h.amount.units))
                  h.account_id h.amount.asset (sub_held h.amount.units)
                  (λ b b' f.
                    (sub_held-Shift h.amount.units b f, (sub_held-Shift h.amount.units b f).asset))
                  db.balances db1.balances there made,
            )
      | inr missing ↦ absurd (err-ne-ok (rw missing at e1))
    ]
