-- ===== src/Store/Reservations.antt =====
-- CreateHold against the held column and the available balance.
use ledgercore.Base.{
  ◌==◌, ◌≡◌, refl, ◌∙◌, sym, ap, subst, Bool, true, false, not, ◌&&◌, some, some_injective, Text, ℤ,
  ◌+ℤ◌, ◌-ℤ◌, ◌≤ℤ◌, ltb_ℤ, IsInt64, Result, ok, ok-injective, err-ne-ok, Bool-cases, Option-cases,
  Result-cases, inl, inr, int_laws, arith, +ℤ_zero,
}
use ledgercore.Domain.{Hold, Account, Balance, active, NormalBalance}
use ledgercore.Domain.Nets.{net_of, available, available_exact}
use ledgercore.Store.{
  StoreError, HoldRow, Db, Tx, ◌>>◌, ◌>>=◌, gets, raise_if, not_found, conflict, validation,
  insufficient_funds, invalid_state, idempotency_conflict, unique_violation, foreign_key_violation,
  check_violation, bad_value, refused_update, balance_row_missing, generate_id, nil_tenant, tx-ok,
}
use ledgercore.Store.Rows.{find_account}
use ledgercore.Store.Balances.{balance_of}
use ledgercore.Store.Transactions.{hash_differs}
use ledgercore.Store.Holds.{
  CanonicalHold, canonical_hold, lookup_hold, reserve, write_hold, replay_hold, create_hold,
  after_hold_failure,
}
use ledgercore.Store.Reserved.{HoldsAgree}
use ledgercore.Store.Reserving.{reserve-moved, reserve-HoldsAgree}

pub raise_if-ok :
    (b : Bool) (x : StoreError) (db db1 : Db)
    → raise_if b x db ≡ ok (tt, db1)
    → (b ≡ false) × (db1 ≡ db)
raise_if-ok true x db db1 e = absurd (err-ne-ok e)
raise_if-ok false x db db1 e = (refl, sym (ap (λ (q : (Unit {0}) × Db). q.1) (ok-injective e)))

-- The tests that CreateHold has passed, and the hold that it has inserted.
write_hold-ok :
    (h : Hold) (hash : Text) (db db' : Db) {v : Hold × Bool}
    → write_hold h hash db ≡ ok (v, db')
    → (a : Account) × (find_account h.account_id db ≡ some a)
      × (ltb_ℤ
            (available (balance_of h.account_id h.amount.asset db.balances) a.normal_balance)
            h.amount.units
          ≡ false)
      × (reserve (record h { ledger_id = a.ledger_id }) hash db ≡ ok (v, db'))
unfolding write_hold
write_hold-ok h hash db db' {v} e = elim (Option-cases (find_account h.account_id db)) [
  | inl missing ↦ absurd (err-ne-ok (rw (missing, write_hold) at e))
  | inr (a, found) ↦
      let go : Tx (Hold × Bool) = reserve (record h { ledger_id = a.ledger_id }) hash in
      let check : Balance → Tx (Hold × Bool) = λ b.
        raise_if (ltb_ℤ (available b a.normal_balance) h.amount.units) insufficient_funds >> go in
      let look : Tx (Hold × Bool) =
        gets (λ db. balance_of h.account_id h.amount.asset db.balances) >>= check in
      let (db1, own, e1) =
        tx-ok (raise_if (not (h.ledger_id == 0) && not (h.ledger_id == a.ledger_id)) validation)
          look db (rw (found, write_hold) at e) in
      let (_, same) =
        raise_if-ok (not (h.ledger_id == 0) && not (h.ledger_id == a.ledger_id)) validation db db1
          own in
      let e2 : look db ≡ ok (v, db') = subst (λ d. look d ≡ ok (v, db')) same e1 in
      let short =
        ltb_ℤ (available (balance_of h.account_id h.amount.asset db.balances) a.normal_balance)
          h.amount.units in
      let (db3, enough, e3) = tx-ok (raise_if short insufficient_funds) go db e2 in
      let (covered, same') = raise_if-ok short insufficient_funds db db3 enough in
      (a, found, covered, subst (λ d. go d ≡ ok (v, db')) same' e3)
]

replay_hold-old : (r : HoldRow) (hash : Text) {v : Hold} → replay_hold r hash ≡ ok (v, false) → ⊥
unfolding replay_hold
replay_hold-old r hash e = elim (Bool-cases (hash_differs r.request_hash hash)) [
  | inl differs ↦ err-ne-ok (rw differs at e)
  | inr same ↦
      let flag : true ≡ false = ap (λ (q : Hold × Bool). q.1) (ok-injective (rw same at e)) in cc
]

after_hold_failure-old :
    (x : StoreError) (key hash : Text) (db : Db) {v : Hold}
    → after_hold_failure x key hash db ≡ ok (v, false)
    → ⊥
unfolding after_hold_failure
after_hold_failure-old unique_violation key hash db {v} e =
    elim (Option-cases (lookup_hold key db)) [
      | inl absent ↦ err-ne-ok (rw (absent, after_hold_failure) at e)
      | inr (r, stored) ↦ replay_hold-old r hash (rw (stored, after_hold_failure) at e)
    ]
after_hold_failure-old not_found key hash db e = err-ne-ok e
after_hold_failure-old conflict key hash db e = err-ne-ok e
after_hold_failure-old invalid_state key hash db e = err-ne-ok e
after_hold_failure-old insufficient_funds key hash db e = err-ne-ok e
after_hold_failure-old validation key hash db e = err-ne-ok e
after_hold_failure-old idempotency_conflict key hash db e = err-ne-ok e
after_hold_failure-old foreign_key_violation key hash db e = err-ne-ok e
after_hold_failure-old check_violation key hash db e = err-ne-ok e
after_hold_failure-old bad_value key hash db e = err-ne-ok e
after_hold_failure-old refused_update key hash db e = err-ne-ok e
after_hold_failure-old balance_row_missing key hash db e = err-ne-ok e
after_hold_failure-old generate_id key hash db e = err-ne-ok e
after_hold_failure-old nil_tenant key hash db e = err-ne-ok e

result_of :
    {r r' : Result StoreError (Hold × Bool)} {d d' : Db}
    → ◌≡◌ {A = Result StoreError (Hold × Bool) × Db} (r, d) (r', d')
    → r ≡ r'
result_of e = ap (λ (q : Result StoreError (Hold × Bool) × Db). q.0) e

tables_of :
    {r r' : Result StoreError (Hold × Bool)} {d d' : Db}
    → ◌≡◌ {A = Result StoreError (Hold × Bool) × Db} (r, d) (r', d')
    → d ≡ d'
tables_of e = ap (λ (q : Result StoreError (Hold × Bool) × Db). q.1) e

-- The balance under a hold's account and asset code.
abbrev pub its_balance : Hold → Db → Balance
its_balance h db = balance_of h.account_id h.amount.asset db.balances

abbrev pub net_on : NormalBalance → Balance → ℤ
net_on n b = net_of n b.posted_debits b.posted_credits

still_covered : (net held units : ℤ) → ltb_ℤ (net -ℤ held) units ≡ false → held +ℤ units ≤ℤ net
still_covered net held units h =
    let enough : units ≤ℤ (net -ℤ held) = ground arith in omega int_laws

module _ (hash_hold : CanonicalHold → Text) (others : Db → Db) (h : Hold) (db db' : Db) where
  create_hold-tables :
      (P : Db → Type 0) {r : Result StoreError (Hold × Bool)}
      → create_hold hash_hold others h db ≡ (r, db')
      → P db
      → P (others db)
      → ((v : Hold × Bool) (db2 : Db)
          → write_hold h (hash_hold (canonical_hold h)) (others db) ≡ ok (v, db2)
          → P db2)
      → P db'
  unfolding create_hold
  create_hold-tables P {r} e before between after = elim (Bool-cases (h.tenant_id == 0)) [
    | inl nil ↦
        subst P
          (ap (λ (q : Result StoreError (Hold × Bool) × Db). q.1) (rw (nil, create_hold) at e))
          before
    | inr tenanted ↦ elim (Option-cases (lookup_hold h.idempotency_key db)) [
      | inr (k, stored) ↦ elim (Result-cases (replay_hold k (hash_hold (canonical_hold h)))) [
        | inl (v, again) ↦
            subst P
              (ap (λ (q : Result StoreError (Hold × Bool) × Db). q.1)
                (rw again at (rw (tenanted, stored, create_hold) at e)))
              before
        | inr (x, differs) ↦
            subst P
              (ap (λ (q : Result StoreError (Hold × Bool) × Db). q.1)
                (rw differs at (rw (tenanted, stored, create_hold) at e)))
              before
      ]
      | inl absent ↦ elim (Result-cases (write_hold h (hash_hold (canonical_hold h)) (others db))) [
        | inl (v, done) ↦
            subst P
              (ap (λ (q : Result StoreError (Hold × Bool) × Db). q.1)
                (rw (tenanted, absent, done, create_hold) at e))
              (after v.0 v.1 done)
        | inr (x, failed) ↦
            subst P
              (ap (λ (q : Result StoreError (Hold × Bool) × Db). q.1)
                (rw (tenanted, absent, failed, create_hold) at e))
              between
      ]
    ]
  ]

  -- CreateHold of an active hold leaves the ids of the holds distinct and every held column equal
  -- to the sum of the active holds, if they were so before it and after what others committed
  -- during it, whatever it returns.
  pub create_hold-HoldsAgree :
      {r : Result StoreError (Hold × Bool)}
      → h.status ≡ active
      → HoldsAgree db
      → HoldsAgree (others db)
      → create_hold hash_hold others h db ≡ (r, db')
      → HoldsAgree db'
  create_hold-HoldsAgree st before between e =
      create_hold-tables HoldsAgree e before between λ v db2 done.
        let (a, found, covered, made) =
          write_hold-ok h (hash_hold (canonical_hold h)) (others db) db2 done in
        (reserve-HoldsAgree (record h { ledger_id = a.ledger_id }) (hash_hold (canonical_hold h))
          (others db) db2 made st between)

  create_hold-write :
      {v : Hold}
      → create_hold hash_hold others h db ≡ (ok (v, false), db')
      → write_hold h (hash_hold (canonical_hold h)) (others db) ≡ ok ((v, false), db')
  unfolding create_hold
  create_hold-write {v} e = elim (Bool-cases (h.tenant_id == 0)) [
    | inl nil ↦ absurd (err-ne-ok (result_of (rw (nil, create_hold) at e)))
    | inr tenanted ↦ elim (Option-cases (lookup_hold h.idempotency_key db)) [
      | inr (k, stored) ↦ elim (Result-cases (replay_hold k (hash_hold (canonical_hold h)))) [
        | inl (w, again) ↦ absurd (
            replay_hold-old k (hash_hold (canonical_hold h))
              (again ∙ result_of (rw again at (rw (tenanted, stored, create_hold) at e))))
        | inr (x, differs) ↦
            absurd (err-ne-ok (result_of (rw differs at (rw (tenanted, stored, create_hold) at e))))
      ]
      | inl absent ↦ elim (Result-cases (write_hold h (hash_hold (canonical_hold h)) (others db))) [
        | inl (w, done) ↦
            let settled = rw (tenanted, absent, done, create_hold) at e in
            done ∙ (λ i. ok (ok-injective (result_of settled) i, tables_of settled i))
        | inr (x, failed) ↦ absurd (
            after_hold_failure-old x h.idempotency_key (hash_hold (canonical_hold h)) (others db)
              (result_of (rw (tenanted, absent, failed, create_hold) at e)))
      ]
    ]
  ]

  -- A hold that CreateHold inserts adds its amount to the held column, leaves the posted columns as
  -- they are, and is covered: after it the posted net on the normal side of the account is no less
  -- than what is held, where the net and the net less the held amount fit an int64 before it.
  pub create_hold-covered :
      (a : Account) {v : Hold}
      → find_account h.account_id (others db) ≡ some a
      → IsInt64 (net_on a.normal_balance (its_balance h (others db)))
      → IsInt64
          (net_on a.normal_balance (its_balance h (others db)) -ℤ (its_balance h (others db)).held)
      → create_hold hash_hold others h db ≡ (ok (v, false), db')
      → ((its_balance h db').posted_debits ≡ (its_balance h (others db)).posted_debits)
        × ((its_balance h db').posted_credits ≡ (its_balance h (others db)).posted_credits)
        × ((its_balance h db').held ≡ (its_balance h (others db)).held +ℤ h.amount.units)
        × ((its_balance h db').held ≤ℤ net_on a.normal_balance (its_balance h db'))
  create_hold-covered a found fits left e =
      let was = its_balance h (others db) in
      let (a', found', covered, made) =
        write_hold-ok h (hash_hold (canonical_hold h)) (others db) db' (create_hold-write e) in
      let same : a' ≡ a = some_injective (sym found' ∙ found) in
      let moved =
        reserve-moved (record h { ledger_id = a'.ledger_id }) (hash_hold (canonical_hold h))
          (others db) db' made in
      let debits = moved.0.posted_debits ∙ +ℤ_zero was.posted_debits in
      let credits = moved.0.posted_credits ∙ +ℤ_zero was.posted_credits in
      let enough : ltb_ℤ (net_on a.normal_balance was -ℤ was.held) h.amount.units ≡ false =
        ap (λ n. ltb_ℤ n h.amount.units) (sym (available_exact was a.normal_balance fits left))
        ∙ ap (λ (x : Account). ltb_ℤ (available was x.normal_balance) h.amount.units) (sym same)
        ∙ covered in
      (
        debits,
        credits,
        moved.0.held,
        rw (moved.0.held) (
            rw (debits, credits)
              (still_covered (net_on a.normal_balance was) was.held h.amount.units enough)),
      )
