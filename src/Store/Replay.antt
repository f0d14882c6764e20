-- ===== src/Store/Replay.antt =====
-- CreateTransaction under an idempotency key that has been used.
use ledgercore.Base.{
  ℕ, ◌==◌, ◌≡◌, ◌≢◌, refl, ◌∙◌, sym, ap, Bool, true, false, [], ◌∷◌, some, Text, text_eq,
  text_eq_self, length, find?, find?-append_none, if◌then◌else◌, Bool-cases, Option-cases,
  Result-cases, inl, inr, arith, Result, ok, err, ok-injective, err-ne-ok,
}
use ledgercore.Domain.{Transaction}
use ledgercore.Store.{
  StoreError, not_found, conflict, invalid_state, insufficient_funds, validation,
  idempotency_conflict, unique_violation, foreign_key_violation, check_violation, bad_value,
  refused_update, balance_row_missing, generate_id, nil_tenant, KeyRow, Db, Tx,
}
use ledgercore.Store.Rows.{lookup_idempotent}
use ledgercore.Store.Steps.{store_idempotent_response-ok}
use ledgercore.Store.Consistency.{Written, write_transaction-Written}
use ledgercore.Store.Transactions.{
  CanonicalTransaction, canonical_transaction, with_idempotency, write_transaction,
  create_transaction, replay, after_failure, hash_differs,
}

-- The response as it is stored: the flag is no part of its JSON.
abbrev pub snapshot : Transaction → Transaction
snapshot t = record t { effective_at_provided = false }

abbrev stored_row : Transaction → Text → KeyRow
stored_row t hash = record {
  key = t.idempotency_key;
  status_code = 201;
  response = snapshot t;
  request_hash = some hash;
}

-- What a request under a used key is answered, by its fingerprint.
abbrev pub answer : Transaction → Text → Text → Result StoreError (Transaction × Bool)
answer t stored hash =
    if text_eq stored hash then ok (snapshot t, true) else err idempotency_conflict

own_row :
    (t : Transaction) (hash key : Text)
    → t.idempotency_key ≡ key
    → find? (λ (k : KeyRow). text_eq k.key key) (stored_row t hash ∷ []) ≡ some (stored_row t hash)
own_row t hash key same =
    let own : text_eq t.idempotency_key key ≡ true =
      ap (text_eq t.idempotency_key) (sym same) ∙ text_eq_self t.idempotency_key in
    rw own

-- After the write the lookup finds the row that it has stored.
pub stored-lookup :
    (t : Transaction) (hash : Text) (db db' : Db)
    → Written t hash db db'
    → lookup_idempotent t.idempotency_key db' ≡ some (stored_row t hash)
unfolding lookup_idempotent
stored-lookup t hash db db' w =
    let (sto, absent) =
      store_idempotent_response-ok t.idempotency_key 201 t hash w.applied db' w.stored in
    ap (λ (d : Db). lookup_idempotent t.idempotency_key d) sto
    ∙ find?-append_none (λ (k : KeyRow). text_eq k.key t.idempotency_key) w.applied.keys
        (stored_row t hash ∷ []) absent
    ∙ own_row t hash t.idempotency_key refl

pub replay-answer :
    (t : Transaction) (stored hash : Text)
    → length stored ≢ 0
    → replay (stored_row t stored) hash ≡ answer t stored hash
unfolding replay
replay-answer t stored hash full =
    let long : (length stored == 0) ≡ false = ground arith in
    elim (Bool-cases (text_eq stored hash)) [
      | inl same ↦ rw (long, same)
      | inr differs ↦ rw (long, differs)
    ]

replay-old : (k : KeyRow) (hash : Text) {v : Transaction} → replay k hash ≡ ok (v, false) → ⊥
unfolding replay
replay-old k hash e = elim (Bool-cases (hash_differs k.request_hash hash)) [
  | inl differs ↦ err-ne-ok (rw (differs, replay) at e)
  | inr same ↦
      let flag : true ≡ false =
        ap (λ (q : Transaction × Bool). q.1) (ok-injective (rw (same, replay) at e)) in
      cc
]

after_failure-old :
    (x : StoreError) (key hash : Text) (db : Db) {v : Transaction}
    → after_failure x key hash db ≡ ok (v, false)
    → ⊥
unfolding after_failure
after_failure-old unique_violation key hash db {v} e =
    elim (Option-cases (lookup_idempotent key db)) [
      | inl absent ↦ err-ne-ok (rw (absent, after_failure) at e)
      | inr (k, stored) ↦ replay-old k hash (rw (stored, after_failure) at e)
    ]
after_failure-old not_found key hash db e = err-ne-ok e
after_failure-old conflict key hash db e = err-ne-ok e
after_failure-old invalid_state key hash db e = err-ne-ok e
after_failure-old insufficient_funds key hash db e = err-ne-ok e
after_failure-old validation key hash db e = err-ne-ok e
after_failure-old idempotency_conflict key hash db e = err-ne-ok e
after_failure-old foreign_key_violation key hash db e = err-ne-ok e
after_failure-old check_violation key hash db e = err-ne-ok e
after_failure-old bad_value key hash db e = err-ne-ok e
after_failure-old refused_update key hash db e = err-ne-ok e
after_failure-old balance_row_missing key hash db e = err-ne-ok e
after_failure-old generate_id key hash db e = err-ne-ok e
after_failure-old nil_tenant key hash db e = err-ne-ok e

result_of :
    {r r' : Result StoreError (Transaction × Bool)} {d d' : Db}
    → ◌≡◌ {A = Result StoreError (Transaction × Bool) × Db} (r, d) (r', d')
    → r ≡ r'
result_of e = ap (λ (q : Result StoreError (Transaction × Bool) × Db). q.0) e

tables_of :
    {r r' : Result StoreError (Transaction × Bool)} {d d' : Db}
    → ◌≡◌ {A = Result StoreError (Transaction × Bool) × Db} (r, d) (r', d')
    → d ≡ d'
tables_of e = ap (λ (q : Result StoreError (Transaction × Bool) × Db). q.1) e

-- A method that reports a new transaction has written it.
pub with_idempotency-write :
    (tenant : ℕ) (key hash : Text) (others : Db → Db) (write : Tx (Transaction × Bool))
    (db db' : Db) {v : Transaction}
    → with_idempotency tenant key hash others write db ≡ (ok (v, false), db')
    → (write (others db) ≡ ok ((v, false), db')) × ((tenant == 0) ≡ false)
unfolding with_idempotency
with_idempotency-write tenant key hash others write db db' {v} e = elim (Bool-cases (tenant == 0)) [
  | inl nil ↦ absurd (err-ne-ok (result_of (rw (nil, with_idempotency) at e)))
  | inr tenanted ↦ elim (Option-cases (lookup_idempotent key db)) [
    | inr (k, stored) ↦
        absurd (replay-old k hash (result_of (rw (tenanted, stored, with_idempotency) at e)))
    | inl absent ↦ elim (Result-cases (write (others db))) [
      | inl (w, done) ↦
          let settled = rw (tenanted, absent, done, with_idempotency) at e in
          (done ∙ (λ i. ok (ok-injective (result_of settled) i, tables_of settled i)), tenanted)
      | inr (x, failed) ↦ absurd (
          after_failure-old x key hash (others db)
            (result_of (rw (tenanted, absent, failed, with_idempotency) at e)))
    ]
  ]
]

-- After a call that has reported a new transaction, whose fingerprint is not empty, a call of the
-- same tenant with the same key is answered by the fingerprints alone: the stored response, marked
-- as a replay, for the same one, and a conflict for another. The tables stay as they are.
pub create_transaction-again :
    (hash_transaction : CanonicalTransaction → Text) (others others' : Db → Db) (t u : Transaction)
    (db db' : Db) {v : Transaction}
    → length (hash_transaction (canonical_transaction t)) ≢ 0
    → create_transaction hash_transaction others t db ≡ (ok (v, false), db')
    → u.tenant_id ≡ t.tenant_id
    → u.idempotency_key ≡ t.idempotency_key
    → create_transaction hash_transaction others' u db' ≡ (
      answer t
          (hash_transaction (canonical_transaction t))
          (hash_transaction (canonical_transaction u)),
      db',
    )
unfolding create_transaction with_idempotency
create_transaction-again hash_transaction others others' t u db db' full e tenant key =
    let hash = hash_transaction (canonical_transaction t) in
    let (wrote, tenanted) =
      with_idempotency-write t.tenant_id t.idempotency_key hash others (write_transaction t hash) db
        db' e in
    let (w, _) = write_transaction-Written t hash (others db) db' wrote in
    let found = stored-lookup t hash (others db) db' w in
    let named : lookup_idempotent u.idempotency_key db' ≡ some (stored_row t hash) =
      ap (λ k. lookup_idempotent k db') key ∙ found in
    let tenanted' : (u.tenant_id == 0) ≡ false = ap (λ n. n == 0) tenant ∙ tenanted in
    rw (tenanted', named)
      (λ i. (replay-answer t hash (hash_transaction (canonical_transaction u)) full i, db'))
