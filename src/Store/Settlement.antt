-- ===== src/Store/Settlement.antt =====
-- CaptureHold and ReleaseHold step by step.
use ledgercore.Base.{
  ℕ, ◌==◌, ◌≡◌, refl, ◌∙◌, sym, ap, subst, true, false, List, [], ◌∷◌, Option, none, some,
  some_injective, find?, Result, ok, err, ok-injective, err-ne-ok, Bool-cases, Option-cases,
  Result-cases, inl, inr,
}
use ledgercore.Money.{Amount}
use ledgercore.Domain.{Hold}
use ledgercore.Store.{
  StoreError, invalid_state, HoldRow, Event, Db, Tx, ◌>>◌, ◌>>=◌, map_result, map_err,
  with_tenant_tx, tx-ok, bind-ok,
}
use ledgercore.Store.Rows.{find_transaction}
use ledgercore.Store.Holds.{
  update_holds, find_hold, is_active, finish_hold, mark_captured, mark_released, capture_body,
  capture_hold, release_body, release_hold, captured_amount, known_transaction, lift_result,
  captured_event, released_event,
}
use ledgercore.Store.Ending.{guarded-refuses, finish_hold-ok}

-- What CaptureHold does once it has found an active hold.
abbrev pub capture_rest : ℕ → Option Amount → Option ℕ → ℕ → Hold → Tx Hold
capture_rest id amount transaction_id now h =
    lift_result (captured_amount h.amount amount) >>= λ taken.
    known_transaction transaction_id
    >> finish_hold id (mark_captured transaction_id) h (captured_event h taken transaction_id now)

abbrev pub release_rest : ℕ → ℕ → Hold → Tx Hold
release_rest id now h = finish_hold id mark_released h (released_event h now)

lift_result-ok :
    {A : Type 0} (m : Result StoreError A) (db db' : Db) {a : A}
    → lift_result m db ≡ ok (a, db')
    → db' ≡ db
lift_result-ok (ok x) db db' e = sym (ap (λ (q : _ × Db). q.1) (ok-injective e))
lift_result-ok (err x) db db' e = absurd (err-ne-ok e)

known_transaction-ok :
    (id : Option ℕ) (db db' : Db) → known_transaction id db ≡ ok (tt, db') → db' ≡ db
known_transaction-ok none db db' e = sym (ap (λ (q : (Unit {0}) × Db). q.1) (ok-injective e))
known_transaction-ok (some id) db db' e = elim (Option-cases (find_transaction id db)) [
  | inl missing ↦ absurd (err-ne-ok (rw missing at e))
  | inr (t, found) ↦ sym (ap (λ (q : (Unit {0}) × Db). q.1) (ok-injective (rw found at e)))
]

pub capture_rest-ok :
    (id : ℕ) (amount : Option Amount) (transaction_id : Option ℕ) (now : ℕ) (h : Hold) (db db' : Db)
    {v : Hold}
    → capture_rest id amount transaction_id now h db ≡ ok (v, db')
    → (taken : Amount) × (finish_hold id
          (mark_captured transaction_id)
          h
          (captured_event h taken transaction_id now)
          db
        ≡ ok (v, db'))
capture_rest-ok id amount transaction_id now h db db' {v} e =
    let end = λ (taken : Amount).
      finish_hold id (mark_captured transaction_id) h (captured_event h taken transaction_id now) in
    let (taken, db1, fits, e1) =
      bind-ok (lift_result (captured_amount h.amount amount))
        (λ taken. known_transaction transaction_id >> end taken) db e in
    let (db2, known, e2) = tx-ok (known_transaction transaction_id) (end taken) db1 e1 in
    (
      taken,
      subst (λ d. end taken d ≡ ok (v, db'))
          (known_transaction-ok transaction_id db1 db2 known
            ∙ lift_result-ok (captured_amount h.amount amount) db db1 fits)
          e2,
    )

-- The row of an ended hold.
update-find :
    (id : ℕ) (f : Hold → Hold) (rs : List HoldRow) (r : HoldRow)
    → ((h : Hold) → (f h).id ≡ h.id)
    → find? (λ (q : HoldRow). q.hold.id == id) rs ≡ some r
    → find? (λ (q : HoldRow). q.hold.id == id) (update_holds id f rs)
      ≡ some (record r { hold = f r.hold })
unfolding update_holds
update-find id f [] r keeps found = cc
update-find id f (q ∷ qs) r keeps found = elim (Bool-cases (q.hold.id == id)) [
  | inl own ↦
      let same : q ≡ r = some_injective (rw own at found) in
      let still : ((f q.hold).id == id) ≡ true = ap (λ n. n == id) (keeps q.hold) ∙ own in
      rw own (rw still (ap (λ (x : HoldRow). some (record x { hold = f x.hold })) same))
  | inr away ↦ let rest = update-find id f qs r keeps (rw away at found) in rw away (rw away rest)
]

pub finish_hold-find :
    (id : ℕ) (f : Hold → Hold) (event : Event) (r : HoldRow) (db db' : Db) {v : Hold}
    → ((h : Hold) → (f h).id ≡ h.id)
    → find_hold id db ≡ some r
    → finish_hold id f r.hold event db ≡ ok (v, db')
    → find_hold id db' ≡ some (record r { hold = f r.hold })
unfolding find_hold
finish_hold-find id f event r db db' keeps found e =
    let (holds, _) = finish_hold-ok id f r.hold event db db' e in
    ap (λ hs. find? (λ (q : HoldRow). q.hold.id == id) hs) holds
    ∙ update-find id f db.holds r keeps found

-- What a method under a tenant returns on success, and on a failure of its body.
pub method-ok :
    {A : Type 0} (tenant : ℕ) (body : Tx A) (db db' : Db) {v : A}
    → map_result (with_tenant_tx tenant body db) ≡ (ok v, db')
    → ((tenant == 0) ≡ false) × (body db ≡ ok (v, db'))
unfolding with_tenant_tx
method-ok {A} tenant body db db' {v} e = elim (Bool-cases (tenant == 0)) [
  | inl nil ↦
      absurd
        (err-ne-ok (ap (λ (q : Result StoreError A × Db). q.0) (rw (nil, with_tenant_tx) at e)))
  | inr tenanted ↦ elim (Result-cases (body db)) [
    | inl (w, done) ↦
        let got = rw (tenanted, done, with_tenant_tx) at e in
        (
          tenanted,
          done ∙ (λ i. ok (
            ok-injective (ap (λ (q : Result StoreError A × Db). q.0) got) i,
            (ap (λ (q : Result StoreError A × Db). q.1) got) i,
          )),
        )
    | inr (x, failed) ↦ absurd (
        err-ne-ok
          (ap (λ (q : Result StoreError A × Db). q.0) (rw (tenanted, failed, with_tenant_tx) at e)))
  ]
]

method-invalid :
    {A : Type 0} (tenant : ℕ) (body : Tx A) (db : Db)
    → (tenant == 0) ≡ false
    → body db ≡ err invalid_state
    → ◌≡◌ {A = Result StoreError A × Db}
        (map_result (with_tenant_tx tenant body db))
        (err invalid_state, db)
unfolding with_tenant_tx map_err
method-invalid tenant body db tenanted failed = rw (tenanted, failed, with_tenant_tx) refl

pub both_refused :
    (tenant id now : ℕ) (amount : Option Amount) (transaction_id : Option ℕ) (r : HoldRow) (db : Db)
    → (tenant == 0) ≡ false
    → find_hold id db ≡ some r
    → is_active r.hold.status ≡ false
    → (capture_hold tenant id amount transaction_id now db ≡ (err invalid_state, db))
      × (release_hold tenant id now db ≡ (err invalid_state, db))
unfolding capture_hold release_hold capture_body release_body
both_refused tenant id now amount transaction_id r db tenanted found ended = (
  method-invalid tenant (capture_body id amount transaction_id now) db tenanted
      (guarded-refuses id (capture_rest id amount transaction_id now) r db found ended),
  method-invalid tenant (release_body id now) db tenanted
      (guarded-refuses id (release_rest id now) r db found ended),
)
