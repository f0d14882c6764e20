-- ===== src/Store/HoldEnds.antt =====
-- How a hold ends: CaptureHold and ReleaseHold.
use ledgercore.Base.{ℕ, ◌≡◌, refl, Option, Result, ok, err}
use ledgercore.Money.{Amount}
use ledgercore.Domain.{Hold}
use ledgercore.Store.{StoreError, invalid_state, Db}
use ledgercore.Store.Holds.{
  capture_hold, release_hold, capture_body, release_body, mark_captured, mark_released,
  captured_event, released_event,
}
use ledgercore.Store.Reserved.{HoldsAgree}
use ledgercore.Store.Consistency.Promotion.{with_tenant_tx-tables}
use ledgercore.Store.Ending.{finish_hold-HoldsAgree}
use ledgercore.Store.Ending.{guarded-ok}
use ledgercore.Store.Settlement.{
  capture_rest, release_rest, capture_rest-ok, finish_hold-find, method-ok, both_refused,
}

-- CaptureHold leaves the ids of the holds distinct and every held column equal to the sum of the
-- active holds, if they were so before it, whatever it returns.
pub capture_hold-HoldsAgree :
    (tenant id now : ℕ) (amount : Option Amount) (transaction_id : Option ℕ) (db db' : Db)
    {r : Result StoreError Hold}
    → HoldsAgree db
    → capture_hold tenant id amount transaction_id now db ≡ (r, db')
    → HoldsAgree db'
unfolding capture_hold capture_body
capture_hold-HoldsAgree tenant id now amount transaction_id db db' agree e =
    with_tenant_tx-tables HoldsAgree tenant (capture_body id amount transaction_id now) db db' e
      agree
      λ v db2 done.
        let (row, found, act, rest) =
          guarded-ok id (capture_rest id amount transaction_id now) db db2 done in
        let (taken, ends) = capture_rest-ok id amount transaction_id now row.hold db db2 rest in
        finish_hold-HoldsAgree id (mark_captured transaction_id)
          (captured_event row.hold taken transaction_id now) row db db2 (λ h. refl) (λ h. refl)
          found act ends agree

-- ReleaseHold leaves the ids of the holds distinct and every held column equal to the sum of the
-- active holds, if they were so before it, whatever it returns.
pub release_hold-HoldsAgree :
    (tenant id now : ℕ) (db db' : Db) {r : Result StoreError Hold}
    → HoldsAgree db
    → release_hold tenant id now db ≡ (r, db')
    → HoldsAgree db'
unfolding release_hold release_body
release_hold-HoldsAgree tenant id now db db' agree e =
    with_tenant_tx-tables HoldsAgree tenant (release_body id now) db db' e agree λ v db2 done.
      let (row, found, act, ends) = guarded-ok id (release_rest id now) db db2 done in
      finish_hold-HoldsAgree id mark_released (released_event row.hold now) row db db2 (λ h. refl)
        (λ h. refl) found act ends agree

-- A hold that has been captured is neither captured nor released again: both answer that its state
-- is invalid and leave the tables as they are.
pub capture_hold-once :
    (tenant id now later : ℕ) (amount amount' : Option Amount)
    (transaction_id transaction_id' : Option ℕ) (db db' : Db) {h : Hold}
    → capture_hold tenant id amount transaction_id now db ≡ (ok h, db')
    → (capture_hold tenant id amount' transaction_id' later db' ≡ (err invalid_state, db'))
      × (release_hold tenant id later db' ≡ (err invalid_state, db'))
unfolding capture_hold capture_body
capture_hold-once tenant id now later amount amount' transaction_id transaction_id' db db' e =
    let (tenanted, done) = method-ok tenant (capture_body id amount transaction_id now) db db' e in
    let (row, found, act, rest) =
      guarded-ok id (capture_rest id amount transaction_id now) db db' done in
    let (taken, ends) = capture_rest-ok id amount transaction_id now row.hold db db' rest in
    both_refused tenant id later amount' transaction_id'
      (record row { hold = mark_captured transaction_id row.hold }) db' tenanted
      (finish_hold-find id (mark_captured transaction_id)
        (captured_event row.hold taken transaction_id now) row db db' (λ h. refl) found ends)
      refl

-- A hold that has been released is neither captured nor released again: both answer that its state
-- is invalid and leave the tables as they are.
pub release_hold-once :
    (tenant id now later : ℕ) (amount : Option Amount) (transaction_id : Option ℕ) (db db' : Db)
    {h : Hold}
    → release_hold tenant id now db ≡ (ok h, db')
    → (capture_hold tenant id amount transaction_id later db' ≡ (err invalid_state, db'))
      × (release_hold tenant id later db' ≡ (err invalid_state, db'))
unfolding release_hold release_body
release_hold-once tenant id now later amount transaction_id db db' e =
    let (tenanted, done) = method-ok tenant (release_body id now) db db' e in
    let (row, found, act, ends) = guarded-ok id (release_rest id now) db db' done in
    both_refused tenant id later amount transaction_id
      (record row { hold = mark_released row.hold }) db' tenanted
      (finish_hold-find id mark_released (released_event row.hold now) row db db' (λ h. refl) found
        ends)
      refl
