-- ===== src/Store/Ending.antt =====
-- The end of a hold: its row, its balance and its event.
use ledgercore.Base.{
  ℕ, ◌≡◌, refl, ◌∙◌, sym, ap, subst, Bool, true, false, not, [], ◌∷◌, ◌++◌, some, ℤ, pos, ◌+ℤ◌,
  ◌-ℤ◌, ok, err, ok-injective, err-ne-ok, if◌then◌else◌, Option-cases, inl, inr, int_laws, arith,
}
use ledgercore.Domain.{Hold}
use ledgercore.Store.{
  invalid_state, HoldRow, Event, Db, Tx, ◌>>◌, ◌>>=◌, pure, raise_if, tx-ok, bind-ok, tx-err,
  bind-next,
}
use ledgercore.Store.Rows.{insert_outbox}
use ledgercore.Store.Balances.{release_held}
use ledgercore.Store.Balances.Effects.{Shift, Moves}
use ledgercore.Store.Holds.{
  update_holds, update_hold, find_hold, is_active, finish_hold, get_hold_tx,
}
use ledgercore.Store.Consistency.{balances_of}
use ledgercore.Store.Reserved.{
  on_key, HoldsAgree, DistinctIds-update, held_at-update, release_held-ok,
}
use ledgercore.Store.Reserving.{HoldsAgree-at, held_moved, holds_of}
use ledgercore.Store.Reservations.{raise_if-ok}

get_hold_tx-ok :
    (id : ℕ) (h : Hold) (db db' : Db)
    → get_hold_tx id db ≡ ok (h, db')
    → (db' ≡ db) × ((r : HoldRow) × (find_hold id db ≡ some r) × (h ≡ r.hold))
unfolding get_hold_tx
get_hold_tx-ok id h db db' e = elim (Option-cases (find_hold id db)) [
  | inl missing ↦ absurd (err-ne-ok (rw (missing, get_hold_tx) at e))
  | inr (r, found) ↦
      let got = rw (found, get_hold_tx) at e in
      (
        sym (ap (λ (q : Hold × Db). q.1) (ok-injective got)),
        (r, found, sym (ap (λ (q : Hold × Db). q.0) (ok-injective got))),
      )
]

get_hold_tx-found :
    (id : ℕ) (r : HoldRow) (db : Db)
    → find_hold id db ≡ some r
    → get_hold_tx id db ≡ ok (r.hold, db)
unfolding get_hold_tx
get_hold_tx-found id r db found = rw found refl

-- The end of a hold, whichever it is.
pub finish_hold-ok :
    (id : ℕ) (f : Hold → Hold) (h : Hold) (event : Event) (db db' : Db) {v : Hold}
    → finish_hold id f h event db ≡ ok (v, db')
    → (db'.holds ≡ update_holds id f db.holds)
      × Moves
          (Shift (pos 0) (pos 0) (pos 0) (pos 0) (pos 0 -ℤ h.amount.units))
          h.account_id
          h.amount.asset
          db.balances
          db'.balances
unfolding finish_hold update_hold
finish_hold-ok id f h event db db' {v} e =
    let finish : Tx Hold = insert_outbox event >> pure (f h) in
    let (db1, released, e1) =
      tx-ok (release_held h) finish (record db { holds = update_holds id f db.holds }) e in
    let (same, moves) =
      release_held-ok h (record db { holds = update_holds id f db.holds }) db1 released in
    let left : record db1 { outbox = db1.outbox ++ event ∷ [] } ≡ db' =
      ap (λ (q : Hold × Db). q.1) (ok-injective e1) in
    (
      holds_of (sym left) ∙ holds_of same,
      subst
          (λ bs.
            Moves (Shift (pos 0) (pos 0) (pos 0) (pos 0) (pos 0 -ℤ h.amount.units)) h.account_id
              h.amount.asset db.balances bs)
          (balances_of left) moves,
    )

less_key :
    (b : Bool) (n : ℤ) → (if b then pos 0 -ℤ n else pos 0) ≡ pos 0 -ℤ (if b then n else pos 0)
less_key true n = refl
less_key false n = omega int_laws

-- The end of an active hold takes its amount out of its held column and out of the sum.
pub finish_hold-HoldsAgree :
    (id : ℕ) (f : Hold → Hold) (event : Event) (r : HoldRow) (db db' : Db) {v : Hold}
    → ((h : Hold) → (f h).id ≡ h.id)
    → ((h : Hold) → is_active (f h).status ≡ false)
    → find_hold id db ≡ some r
    → is_active r.hold.status ≡ true
    → finish_hold id f r.hold event db ≡ ok (v, db')
    → HoldsAgree db
    → HoldsAgree db'
unfolding find_hold
finish_hold-HoldsAgree id f event r db db' keeps ends found act e agree =
    let (holds, moves) = finish_hold-ok id f r.hold event db db' e in
    HoldsAgree-at db' db' (DistinctIds-update id f keeps db.holds agree.distinct)
      (λ account c.
        held_moved r.hold.account_id r.hold.amount.asset (pos 0 -ℤ r.hold.amount.units) db db' moves
          account c
        ∙ (λ i. agree.held account c i +ℤ less_key (on_key account c r.hold) r.hold.amount.units i)
        ∙ sym (held_at-update id f account c db.holds r ends agree.distinct found act))
      holds refl

-- An active hold that a body has loaded, and the rest of the body.
module _ {A : Type 0} (id : ℕ) (rest : Hold → Tx A) where
  abbrev guarded : Tx A
  guarded = get_hold_tx id >>= λ h. raise_if (not (is_active h.status)) invalid_state >> rest h

  pub guarded-ok :
      (db db' : Db) {v : A}
      → guarded db ≡ ok (v, db')
      → (r : HoldRow) × (find_hold id db ≡ some r)
        × (is_active r.hold.status ≡ true)
        × (rest r.hold db ≡ ok (v, db'))
  guarded-ok db db' {v} e =
      let (h, db1, loaded, e1) =
        bind-ok (get_hold_tx id) (λ h. raise_if (not (is_active h.status)) invalid_state >> rest h)
          db e in
      let (same, (r, found, its)) = get_hold_tx-ok id h db db1 loaded in
      let (db2, passed, e2) =
        tx-ok (raise_if (not (is_active h.status)) invalid_state) (rest h) db1 e1 in
      let (act, same') = raise_if-ok (not (is_active h.status)) invalid_state db1 db2 passed in
      (
        r,
        found,
        ap (λ (x : Hold). is_active x.status) (sym its) ∙ ground arith,
        subst (λ x. rest x db ≡ ok (v, db')) its
            (subst (λ d. rest h d ≡ ok (v, db')) (same' ∙ same) e2),
      )

  pub guarded-refuses :
      (r : HoldRow) (db : Db)
      → find_hold id db ≡ some r
      → is_active r.hold.status ≡ false
      → guarded db ≡ err invalid_state
  guarded-refuses r db found ended =
      bind-next (get_hold_tx id) (λ h. raise_if (not (is_active h.status)) invalid_state >> rest h)
        db db r.hold (get_hold_tx-found id r db found)
      ∙ tx-err (raise_if (not (is_active r.hold.status)) invalid_state) (rest r.hold) db
          invalid_state (rw ended refl)
