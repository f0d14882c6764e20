-- ===== src/Store/Reserving.antt =====
-- The insertions of CreateHold.
use ledgercore.Base.{
  ℕ, ◌==◌, ◌≡◌, refl, ◌∙◌, sym, ap, subst, Bool, false, ◌&&◌, List, [], ◌∷◌, ◌++◌, Text, text_eq,
  text_eq→eq, ℤ, pos, ◌+ℤ◌, ok, ok-injective, if◌then◌else◌, Bool-cases, inl, inr, arith, +ℤ_zero,
}
use ledgercore.Domain.{Hold, Balance, active}
use ledgercore.Store.{HoldRow, Event, Db, Tx, ◌>>◌, pure, hold_created, tx-ok}
use ledgercore.Store.Rows.{insert_outbox}
use ledgercore.Store.Balances.{balance_of, upsert_held}
use ledgercore.Store.Balances.Effects.{Shift, Moves}
use ledgercore.Store.Consistency.{balances_of}
use ledgercore.Store.Transactions.{event_money}
use ledgercore.Store.Holds.{hold_row, insert_hold, reserve}
use ledgercore.Store.Reserved.{
  has_id, held_of, held_at, HoldsAgree, DistinctIds, held_at-append, DistinctIds-append,
  insert_hold-ok, upsert_held-ok,
}

pub holds_of : {db db' : Db} → db ≡ db' → db.holds ≡ db'.holds
holds_of e = ap {A = Db} (λ d. d.holds) e

pub HoldsAgree-at :
    {holds : List HoldRow} (db db' : Db)
    → DistinctIds holds
    → ((account : ℕ) (c : Text) → (balance_of account c db.balances).held ≡ held_at account c holds)
    → db'.holds ≡ holds
    → db'.balances ≡ db.balances
    → HoldsAgree db'
HoldsAgree-at db db' d h e f = record {
  distinct = subst DistinctIds (sym e) d;
  held = λ account c.
      ap (λ bs. (balance_of account c bs).held) f ∙ h account c ∙ ap (held_at account c) (sym e);
}

-- What a movement of one held column does to every held column.
pub held_moved :
    (account : ℕ) (a : Text) (n : ℤ) (db db' : Db)
    → Moves (Shift (pos 0) (pos 0) (pos 0) (pos 0) n) account a db.balances db'.balances
    → (other : ℕ) (c : Text)
    → (balance_of other c db'.balances).held
      ≡ (balance_of other c db.balances).held
        +ℤ (if (account == other) && text_eq a c then n else pos 0)
held_moved account a n db db' moved other c =
    elim (Bool-cases ((account == other) && text_eq a c)) [
      | inl own ↦
          let who : account ≡ other = ground arith in
          let what : a ≡ c = text_eq→eq a c (ground arith) in
          rw own (rw (← who) (rw (← what) moved.0.held))
      | inr away ↦ rw away (
          ap (λ (b : Balance). b.held) (moved.1 other c away)
          ∙ sym (+ℤ_zero (balance_of other c db.balances).held))
    ]

abbrev created_event : Hold → Event
created_event h = hold_created (record {
  hold_id = h.id;
  ledger_id = h.ledger_id;
  account_id = h.account_id;
  idempotency_key = h.idempotency_key;
  amount = event_money h.amount;
  expires_at = h.expires_at;
  created_at = h.created_at;
})

held_active :
    (account : ℕ) (c : Text) (h : Hold) (hash : Text)
    → h.status ≡ active
    → held_of account c (hold_row h hash).hold
      ≡ (if (h.account_id == account) && text_eq h.amount.asset c then h.amount.units else pos 0)
held_active account c h hash st = rw st refl

-- What the insertions of CreateHold leave.
reserve-ok :
    (h : Hold) (hash : Text) (db db' : Db) {v : Hold × Bool}
    → reserve h hash db ≡ ok (v, db')
    → (db'.holds ≡ db.holds ++ hold_row h hash ∷ [])
      × (has_id h.id db.holds ≡ false)
      × Moves
          (Shift (pos 0) (pos 0) (pos 0) (pos 0) h.amount.units)
          h.account_id
          h.amount.asset
          db.balances
          db'.balances
unfolding reserve
reserve-ok h hash db db' {v} e =
    let finish : Tx (Hold × Bool) = insert_outbox (created_event h) >> pure (h, false) in
    let raise_held : Tx (Hold × Bool) =
      upsert_held h.account_id h.amount.asset h.amount.units >> finish in
    let (db1, inserted, e1) = tx-ok (insert_hold h hash) raise_held db e in
    let (db2, moved, e2) =
      tx-ok (upsert_held h.account_id h.amount.asset h.amount.units) finish db1 e1 in
    let (ins, fresh, _) = insert_hold-ok h hash db db1 inserted in
    let (same, moves) = upsert_held-ok h.account_id h.amount.asset h.amount.units db1 db2 moved in
    let left : record db2 { outbox = db2.outbox ++ created_event h ∷ [] } ≡ db' =
      ap (λ (q : (Hold × Bool) × Db). q.1) (ok-injective e2) in
    (
      holds_of (sym left) ∙ holds_of same ∙ holds_of ins,
      fresh,
      subst
          (λ bs.
            Moves (Shift (pos 0) (pos 0) (pos 0) (pos 0) h.amount.units) h.account_id h.amount.asset
              db.balances bs)
          (balances_of left)
          (subst
            (λ bs.
              Moves (Shift (pos 0) (pos 0) (pos 0) (pos 0) h.amount.units) h.account_id
                h.amount.asset bs db2.balances)
            (balances_of ins) moves),
    )

pub reserve-moved :
    (h : Hold) (hash : Text) (db db' : Db) {v : Hold × Bool}
    → reserve h hash db ≡ ok (v, db')
    → Moves
        (Shift (pos 0) (pos 0) (pos 0) (pos 0) h.amount.units)
        h.account_id
        h.amount.asset
        db.balances
        db'.balances
reserve-moved h hash db db' e = let (_, _, moves) = reserve-ok h hash db db' e in moves

pub reserve-HoldsAgree :
    (h : Hold) (hash : Text) (db db' : Db) {v : Hold × Bool}
    → reserve h hash db ≡ ok (v, db')
    → h.status ≡ active
    → HoldsAgree db
    → HoldsAgree db'
reserve-HoldsAgree h hash db db' e st agree =
    let (holds, fresh, moves) = reserve-ok h hash db db' e in
    HoldsAgree-at db' db' (DistinctIds-append db.holds (hold_row h hash) agree.distinct fresh)
      (λ account c.
        held_moved h.account_id h.amount.asset h.amount.units db db' moves account c
        ∙ ap
            (λ n.
              n
              +ℤ (if (h.account_id == account) && text_eq h.amount.asset c
                  then h.amount.units
                  else pos 0))
            (agree.held account c)
        ∙ sym (
            held_at-append account c db.holds (hold_row h hash)
            ∙ ap (λ n. held_at account c db.holds +ℤ n) (held_active account c h hash st)))
      holds refl
