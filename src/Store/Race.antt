-- ===== src/Store/Race.antt =====
-- Two CreateTransaction calls with one idempotency key that run at the same time.
use ledgercore.Base.{
  ℕ, ◌==◌, ◌≡◌, ◌≢◌, refl, ◌∙◌, sym, ap, Bool, true, false, ◌||◌, List, [], ◌∷◌, ◌++◌, none, some,
  Text, text_eq, text_eq_self, length, any, find?, Bool-cases, Option-cases, inl, inr, arith, ok,
  err, err-ne-ok, All,
}
use ledgercore.Domain.{Ledger, Account, Transaction, valid_direction}
use ledgercore.Domain.Reversal.{is_posted}
use ledgercore.Store.{
  not_found, unique_violation, Db, Tx, ◌>>=◌, ◌>>◌, pure, or_raise, tx-ok, tx-next, tx-err,
  bind-next,
}
use ledgercore.Store.Rows.{
  lookup_idempotent, find_ledger, find_account, check_ids, check_accounts_in_ledger,
  insert_transaction, insert_transaction_row, insert_outbox, row_of, known_status, account_ids,
  insert_postings, store_idempotent_response, check_transaction_balance,
}
use ledgercore.Store.Balances.{upsert_posted_balance, apply_balances}
use ledgercore.Store.Balances.Columns.{to_posted, to_pending}
use ledgercore.Store.Balances.Statements.{upsert_posted-IsStatement, upsert_pending-IsStatement}
use ledgercore.Store.Balances.Apply.{apply_balances-SumShift}
use ledgercore.Store.Invariant.{trivially}
use ledgercore.Store.Steps.{insert_transaction-ok, store_idempotent_response-ok}
use ledgercore.Store.Consistency.{Written, write_transaction-Written, applied_to}
use ledgercore.Store.Replay.{answer, stored-lookup, replay-answer, with_idempotency-write}
use ledgercore.Store.Transactions.{
  CanonicalTransaction, canonical_transaction, with_idempotency, write_transaction,
  create_transaction, after_failure, apply_created, posted_event, get_or,
}

-- The tables that a write only reads.
abbrev read_only : Db → List Ledger × List Account
read_only db = (db.ledgers, db.accounts)

abbrev written_rows : Db → List Transaction
written_rows db = db.transactions

apply_created-frame :
    (t : Transaction) (db db' : Db)
    → All (λ p. valid_direction p.direction ≡ true) t.postings
    → apply_created t db ≡ ok (tt, db')
    → (read_only db' ≡ read_only db) × (written_rows db' ≡ written_rows db)
unfolding apply_created
apply_created-frame t db db' valid e = elim (Bool-cases (is_posted t.status)) [
  | inl yes_posted ↦
      let (dbx, moved, done) =
        tx-ok {B = Unit {0}} (apply_balances upsert_posted_balance t.postings)
          (insert_outbox (posted_event t (get_or t.posted_at t.created_at))) db
          (simp (yes_posted, apply_created) at e) in
      let (same, _) =
        apply_balances-SumShift to_posted upsert_posted-IsStatement t.postings db dbx valid
          (trivially (λ p. Unit) t.postings (λ p. tt)) moved in
      let out = applied_to done in
      (ap read_only (sym out) ∙ ap read_only same, ap written_rows (sym out) ∙ ap written_rows same)
  | inr draft_like ↦
      let (same, _) =
        apply_balances-SumShift to_pending upsert_pending-IsStatement t.postings db db' valid
          (trivially (λ p. Unit) t.postings (λ p. tt)) (simp (draft_like, apply_created) at e) in
      (ap read_only same, ap written_rows same)
]

-- After a write the ledgers and the accounts are those before it, and the transaction is the last row.
pub Written-frame :
    (t : Transaction) (hash : Text) (db db' : Db)
    → Written t hash db db'
    → (read_only db' ≡ read_only db) × (db'.transactions ≡ db.transactions ++ row_of t ∷ [])
Written-frame t hash db db' w =
    let (ins, fresh, valid) = insert_transaction-ok t db w.middle w.inserted in
    let (sto, _) =
      store_idempotent_response-ok t.idempotency_key 201 t hash w.applied db' w.stored in
    let (reads, rows) = apply_created-frame t w.middle w.applied valid w.created in
    (ap read_only sto ∙ reads ∙ ap read_only ins, ap written_rows sto ∙ rows ∙ ap written_rows ins)

check_ids-again :
    (ledger_id : ℕ) (ids : List ℕ) (db db' : Db)
    → read_only db' ≡ read_only db
    → check_ids ledger_id ids db ≡ ok (tt, db)
    → check_ids ledger_id ids db' ≡ ok (tt, db')
unfolding check_ids
check_ids-again ledger_id [] db db' same e = refl
check_ids-again ledger_id (id ∷ ids) db db' same e =
    let there : find_account id db' ≡ find_account id db =
      ap (λ (q : List Ledger × List Account). find? (λ (a : Account). a.id == id) q.1) same in
    elim (Option-cases (find_account id db)) [
      | inl missing ↦ absurd (err-ne-ok (rw (missing, check_ids) at e))
      | inr (a, found) ↦ elim (Bool-cases (a.ledger_id == ledger_id)) [
        | inl own ↦
            let found' = there ∙ found in
            rw (found') (
              rw (own)
                (check_ids-again ledger_id ids db db' same (rw (found, own, check_ids) at e)))
        | inr foreign ↦ absurd (err-ne-ok (rw (found, foreign, check_ids) at e))
      ]
    ]

taken :
    (t u : Transaction) (ts : List Transaction)
    → u.idempotency_key ≡ t.idempotency_key
    → any (λ r. r.id == u.id || text_eq r.idempotency_key u.idempotency_key) (ts ++ row_of t ∷ [])
      ≡ true
taken t u [] key =
    let own : text_eq t.idempotency_key u.idempotency_key ≡ true =
      ap (text_eq t.idempotency_key) key ∙ text_eq_self t.idempotency_key in
    ground arith
taken t u (r ∷ rs) key = ground (arith, taken t u rs key)

loses :
    (t u : Transaction) (hash hash' : Text) (db db' : Db)
    → Written t hash db db'
    → u.idempotency_key ≡ t.idempotency_key
    → known_status u.status ≡ true
    → u.ledger_id ≡ t.ledger_id
    → account_ids [] u.postings ≡ account_ids [] t.postings
    → write_transaction u hash' db' ≡ err unique_violation
unfolding write_transaction check_accounts_in_ledger insert_transaction insert_transaction_row
loses t u hash hash' db db' w key known ledger accounts =
    let (reads, rows) = Written-frame t hash db db' w in
    let (l, owner) = w.ledger in
    let named : find_ledger u.ledger_id db' ≡ some l =
      ap (λ n. find_ledger n db') ledger
      ∙ ap (λ (q : List Ledger × List Account). find? (λ (x : Ledger). x.id == t.ledger_id) q.0)
          reads
      ∙ owner in
    let same_ids : check_ids u.ledger_id (account_ids [] u.postings) db'
        ≡ check_ids t.ledger_id (account_ids [] t.postings) db' =
      λ i. check_ids (ledger i) (accounts i) db' in
    let checked =
      same_ids ∙ check_ids-again t.ledger_id (account_ids [] t.postings) db db' reads w.accounts in
    let used : any (λ r. r.id == u.id || text_eq r.idempotency_key u.idempotency_key)
          db'.transactions
        ≡ true =
      ap (any (λ r. r.id == u.id || text_eq r.idempotency_key u.idempotency_key)) rows
      ∙ taken t u db.transactions key in
    let checked' : check_accounts_in_ledger u.ledger_id u.postings db' ≡ ok (tt, db') = checked in
    let refused : insert_transaction_row u db' ≡ err unique_violation =
      rw (known, used, insert_transaction_row) refl in
    let stops : insert_transaction u db' ≡ err unique_violation =
      tx-err (insert_transaction_row u) (insert_postings u u.postings) db' unique_violation
        refused in
    let finish : Tx (Transaction × Bool) =
      apply_created u
      >> (store_idempotent_response u.idempotency_key 201 u hash'
          >> (check_transaction_balance u.id >> pure (u, false))) in
    let rest : Tx (Transaction × Bool) = insert_transaction u >> finish in
    let start : write_transaction u hash' db'
        ≡ (or_raise (some l) not_found >>= λ (x : Ledger).
              check_accounts_in_ledger u.ledger_id u.postings >> rest)
            db' =
      ap
        (λ o.
          (or_raise o not_found >>= λ (x : Ledger).
          check_accounts_in_ledger u.ledger_id u.postings >> rest)
            db')
        named in
    start
    ∙ bind-next (or_raise (some l) not_found)
        (λ (x : Ledger). check_accounts_in_ledger u.ledger_id u.postings >> rest) db' db' l refl
    ∙ (tx-next (check_accounts_in_ledger u.ledger_id u.postings) rest db' db' checked'
        ∙ tx-err (insert_transaction u) finish db' unique_violation stops)

-- A call that looks its key up before another call with that key commits, and writes after it,
-- changes nothing and answers what a later call would: the stored response, marked as a replay,
-- for the same fingerprint, and a conflict for another. The other call has reported a new
-- transaction and its fingerprint is not empty; both are of one tenant and name one ledger and the
-- same accounts in order of appearance, and the status of the one that loses is draft, posted or
-- reversed.
pub create_transaction-race :
    (hash_transaction : CanonicalTransaction → Text) (others others' : Db → Db) (t u : Transaction)
    (db before after : Db) {v : Transaction}
    → length (hash_transaction (canonical_transaction t)) ≢ 0
    → create_transaction hash_transaction others t before ≡ (ok (v, false), after)
    → lookup_idempotent u.idempotency_key db ≡ none
    → others' db ≡ after
    → u.tenant_id ≡ t.tenant_id
    → u.idempotency_key ≡ t.idempotency_key
    → known_status u.status ≡ true
    → u.ledger_id ≡ t.ledger_id
    → account_ids [] u.postings ≡ account_ids [] t.postings
    → create_transaction hash_transaction others' u db ≡ (
      answer t
          (hash_transaction (canonical_transaction t))
          (hash_transaction (canonical_transaction u)),
      after,
    )
unfolding create_transaction with_idempotency after_failure
create_transaction-race hash_transaction others others' t u db before after full e absent meets
      tenant key known ledger accounts =
    let hash = hash_transaction (canonical_transaction t) in
    let hash' = hash_transaction (canonical_transaction u) in
    let (wrote, tenanted) =
      with_idempotency-write t.tenant_id t.idempotency_key hash others (write_transaction t hash)
        before after e in
    let (w, _) = write_transaction-Written t hash (others before) after wrote in
    let tenanted' : (u.tenant_id == 0) ≡ false = ap (λ n. n == 0) tenant ∙ tenanted in
    let lost = loses t u hash hash' (others before) after w key known ledger accounts in
    let lost' : write_transaction u hash' (others' db) ≡ err unique_violation =
      ap (write_transaction u hash') meets ∙ lost in
    let found =
      ap (λ k. lookup_idempotent k (others' db)) key
      ∙ ap (lookup_idempotent t.idempotency_key) meets
      ∙ stored-lookup t hash (others before) after w in
    rw (tenanted', absent, lost')
      (rw (found, after_failure) (λ i. (replay-answer t hash hash' full i, meets i)))
