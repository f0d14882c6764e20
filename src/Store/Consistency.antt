-- ===== src/Store/Consistency.antt =====
-- CreateTransaction against the invariant of account_balances, and what its writes are made of.
pub mod Promotion
pub mod Updates
use ledgercore.Base.{
  ℕ, suc, ◌==◌, ◌≡◌, refl, ◌∙◌, sym, ap, subst, Bool, true, false, not, ◌&&◌, ◌||◌, List, [], ◌∷◌,
  ◌++◌, map, Option, none, some, Text, ◌⊎◌, if◌then◌else◌, Bool-cases, Option-cases, Result-cases,
  inl, inr, arith, Result, ok, err, ok-injective, err-ne-ok, All,
}
use ledgercore.Domain.{
  Ledger, Posting, Transaction, TransactionStatus, DomainError, draft, posted, reversed,
  other_status, valid_direction,
}
use ledgercore.Domain.Reversal.{is_posted, reverse}
use ledgercore.Domain.Mirror.{reverse-Mirrored}
use ledgercore.Store.{
  StoreError, not_found, generate_id, invalid_state, PostingRow, BalanceRow, Event, Db, Tx, Method,
  map_result, with_tenant_tx, pure, ◌>>=◌, ◌>>◌, bind-ok, next-ok, tx-ok, gets, or_raise,
}
use ledgercore.Store.Rows.{
  find_ledger, find_transaction, load_postings, load_transaction, insert_transaction,
  update_transaction, check_accounts_in_ledger, check_transaction_balance,
  store_idempotent_response, insert_outbox, lookup_idempotent, row_of, rows_of,
}
use ledgercore.Store.Balances.{
  upsert_posted_balance, upsert_pending_balance, move_pending_to_posted, apply_balances,
}
use ledgercore.Store.Balances.Columns.{to_posted, to_pending, promoted, SameTables}
use ledgercore.Store.Balances.Statements.{
  upsert_posted-IsStatement, upsert_pending-IsStatement, move_pending-IsStatement,
}
use ledgercore.Store.Balances.Apply.{apply_balances-SumShift}
use ledgercore.Store.Statuses.{find_in, update_rows-find, find_kept}
use ledgercore.Store.Steps.{
  insert_transaction-ok, check_transaction_balance-ok, check_accounts_in_ledger-ok,
  store_idempotent_response-ok, load_transaction-ok, update_transaction-ok,
}
use ledgercore.Store.Invariant.{IsConsistent, Agree, trivially, is_draft, posted-Agree, draft-Agree}
use ledgercore.Store.Invariant.Updates.{promoted-Agree, reversed-Agree}
use ledgercore.Store.Transactions.{
  CanonicalTransaction, CanonicalReversal, canonical_transaction, with_idempotency,
  write_transaction, apply_created, create_transaction, settle, replay, posted_event, get_or,
  post_draft, post_loaded, post_body, post_transaction, write_reversal, reverse_transaction,
  named_reversal, lift_domain,
}

-- What a method leaves: the tables as they were, or as the others left them, or as the writes did.
pub with_idempotency-tables :
    (P : Db → Type 0) (tenant : ℕ) (key hash : Text) (others : Db → Db)
    (write : Tx (Transaction × Bool)) (db db' : Db) {r : Result StoreError (Transaction × Bool)}
    → with_idempotency tenant key hash others write db ≡ (r, db')
    → P db
    → P (others db)
    → ((v : Transaction × Bool) (db2 : Db) → write (others db) ≡ ok (v, db2) → P db2)
    → P db'
unfolding with_idempotency
with_idempotency-tables P tenant key hash others write db db' {r} e before between after =
    elim (Bool-cases (tenant == 0)) [
      | inl nil ↦
          subst P
            (ap (λ (q : Result StoreError (Transaction × Bool) × Db). q.1)
              (rw (nil, with_idempotency) at e))
            before
      | inr tenanted ↦ elim (Option-cases (lookup_idempotent key db)) [
        | inr (k, stored) ↦
            subst P
              (ap (λ (q : Result StoreError (Transaction × Bool) × Db). q.1)
                (rw (tenanted, stored, with_idempotency) at e))
              before
        | inl absent ↦ elim (Result-cases (write (others db))) [
          | inl (v, done) ↦
              subst P
                (ap (λ (q : Result StoreError (Transaction × Bool) × Db). q.1)
                  (rw (tenanted, absent, done, with_idempotency) at e))
                (after v.0 v.1 done)
          | inr (x, failed) ↦
              subst P
                (ap (λ (q : Result StoreError (Transaction × Bool) × Db). q.1)
                  (rw (tenanted, absent, failed, with_idempotency) at e))
                between
        ]
      ]
    ]

-- The parts of a write that has succeeded.
pub record Written (t : Transaction) (hash : Text) (db db' : Db) : Type 0 where
  pub middle : Db
  pub applied : Db
  pub ledger : (l : Ledger) × (find_ledger t.ledger_id db ≡ some l)
  pub accounts : check_accounts_in_ledger t.ledger_id t.postings db ≡ ok (tt, db)
  pub inserted : insert_transaction t db ≡ ok (tt, middle)
  pub created : apply_created t middle ≡ ok (tt, applied)
  pub stored : store_idempotent_response t.idempotency_key 201 t hash applied ≡ ok (tt, db')
  pub checked : check_transaction_balance t.id db' ≡ ok (tt, db')

pub write_transaction-Written :
    (t : Transaction) (hash : Text) (db db' : Db) {v : Transaction × Bool}
    → write_transaction t hash db ≡ ok (v, db')
    → Written t hash db db' × (v ≡ (t, false))
unfolding write_transaction
write_transaction-Written t hash db db' {v} e = elim (Option-cases (find_ledger t.ledger_id db)) [
  | inl missing ↦ absurd (err-ne-ok (rw (missing, write_transaction) at e))
  | inr (l, found) ↦
      let finish : Tx (Transaction × Bool) = check_transaction_balance t.id >> pure (t, false) in
      let store : Tx (Transaction × Bool) =
        store_idempotent_response t.idempotency_key 201 t hash >> finish in
      let apply : Tx (Transaction × Bool) = apply_created t >> store in
      let insert : Tx (Transaction × Bool) = insert_transaction t >> apply in
      let (db1, accounts, e1) =
        tx-ok (check_accounts_in_ledger t.ledger_id t.postings) insert db
          (rw (found, write_transaction) at e) in
      let (db2, inserted, e2) = tx-ok (insert_transaction t) apply db1 e1 in
      let (db3, created, e3) = tx-ok (apply_created t) store db2 e2 in
      let (db4, stored, e4) =
        tx-ok (store_idempotent_response t.idempotency_key 201 t hash) finish db3 e3 in
      let (db5, checked, e5) = tx-ok (check_transaction_balance t.id) (pure (t, false)) db4 e4 in
      let same = check_accounts_in_ledger-ok t.ledger_id t.postings db db1 accounts in
      let left : db5 ≡ db' = ap (λ (q : (Transaction × Bool) × Db). q.1) (ok-injective e5) in
      let kept : db4 ≡ db' = sym (check_transaction_balance-ok t.id db4 db5 checked) ∙ left in
      (
        record {
          middle = db2;
          applied = db3;
          ledger = (l, found);
          accounts =
              subst (λ d. check_accounts_in_ledger t.ledger_id t.postings db ≡ ok (tt, d)) same
                accounts;
          inserted = subst (λ d. insert_transaction t d ≡ ok (tt, db2)) same inserted;
          created = created;
          stored =
              subst (λ d. store_idempotent_response t.idempotency_key 201 t hash db3 ≡ ok (tt, d))
                kept stored;
          checked =
              subst (λ d. check_transaction_balance t.id d ≡ ok (tt, db')) kept
                (subst (λ d. check_transaction_balance t.id db4 ≡ ok (tt, d)) left checked);
        },
        sym (ap (λ (q : (Transaction × Bool) × Db). q.0) (ok-injective e5)),
      )
]

pub IsConsistent-at :
    {ts : List Transaction} {rows : List PostingRow} {bs : List BalanceRow} (db : Db)
    → Agree ts rows bs
    → db.transactions ≡ ts
    → db.postings ≡ rows
    → db.balances ≡ bs
    → IsConsistent db
IsConsistent-at db a e f g =
    subst (λ (q : List Transaction × List PostingRow × List BalanceRow). Agree q.0 q.1 q.2)
      (λ i. (sym e i, sym f i, sym g i)) a

pub Agree-before :
    {ts : List Transaction} {rows : List PostingRow} {bs bs' : List BalanceRow}
    → Agree ts rows bs
    → bs' ≡ bs
    → Agree ts rows bs'
Agree-before {ts} {rows} a e = subst (λ b. Agree ts rows b) (sym e) a

-- The tables of the invariant, through an equation between two states.
pub transactions_of : {db db' : Db} → db ≡ db' → db.transactions ≡ db'.transactions
transactions_of e = ap {A = Db} (λ d. d.transactions) e

pub postings_of : {db db' : Db} → db ≡ db' → db.postings ≡ db'.postings
postings_of e = ap {A = Db} (λ d. d.postings) e

pub balances_of : {db db' : Db} → db ≡ db' → db.balances ≡ db'.balances
balances_of e = ap {A = Db} (λ d. d.balances) e

pub applied_to :
    {db db' : Db}
    → ◌≡◌ {A = Result StoreError ((Unit {0}) × Db)} (ok (tt, db)) (ok (tt, db'))
    → db ≡ db'
applied_to e = ap (λ (q : (Unit {0}) × Db). q.1) (ok-injective e)

status_cases :
    (s : TransactionStatus) → (is_posted s || is_draft s) ≡ true → (s ≡ posted) ⊎ (s ≡ draft)
status_cases draft h = inr refl
status_cases posted h = inl refl
status_cases reversed h = cc
status_cases (other_status t) h = cc

pub Written-IsConsistent :
    (t : Transaction) (hash : Text) (db db' : Db)
    → Written t hash db db'
    → (is_posted t.status || is_draft t.status) ≡ true
    → IsConsistent db
    → IsConsistent db'
unfolding apply_created
Written-IsConsistent t hash db db' w st a =
    let (ins, fresh, valid) = insert_transaction-ok t db w.middle w.inserted in
    let (sto, _) =
      store_idempotent_response-ok t.idempotency_key 201 t hash w.applied db' w.stored in
    let start = Agree-before a (balances_of ins) in
    elim (status_cases t.status st) [
      | inl is_it ↦
          let (dbx, moved, done) =
            tx-ok {B = Unit {0}} (apply_balances upsert_posted_balance t.postings)
              (insert_outbox (posted_event t (get_or t.posted_at t.created_at))) w.middle
              (simp (is_it, apply_created) at w.created) in
          let (same, _) =
            apply_balances-SumShift to_posted upsert_posted-IsStatement t.postings w.middle dbx
              valid (trivially (λ p. Unit) t.postings (λ p. tt)) moved in
          let out = applied_to done in
          IsConsistent-at db'
            (posted-Agree t t.postings db.transactions db.postings w.middle dbx start fresh is_it
              valid moved)
            (transactions_of sto
              ∙ transactions_of (sym out)
              ∙ transactions_of same
              ∙ transactions_of ins)
            (postings_of sto ∙ postings_of (sym out) ∙ postings_of same ∙ postings_of ins)
            (balances_of sto ∙ balances_of (sym out))
      | inr is_it ↦
          let moved = simp (is_it, apply_created) at w.created in
          let (same, _) =
            apply_balances-SumShift to_pending upsert_pending-IsStatement t.postings w.middle
              w.applied valid (trivially (λ p. Unit) t.postings (λ p. tt)) moved in
          IsConsistent-at db'
            (draft-Agree t t.postings db.transactions db.postings w.middle w.applied start fresh
              is_it valid moved)
            (transactions_of sto ∙ transactions_of same ∙ transactions_of ins)
            (postings_of sto ∙ postings_of same ∙ postings_of ins) (balances_of sto)
    ]

-- CreateTransaction of a posted transaction or of a draft leaves the postings in agreement with
-- the rest of the tables, if they were before it and after what others committed during it,
-- whatever it returns: every posting has its transaction, a direction and a balance row, the
-- posted columns of every account under every asset code are the sums of the postings of posted
-- and reversed transactions, and the pending columns those of drafts.
pub create_transaction-IsConsistent :
    (hash_transaction : CanonicalTransaction → Text) (others : Db → Db) (t : Transaction)
    (db db' : Db) {r : Result StoreError (Transaction × Bool)}
    → (is_posted t.status || is_draft t.status) ≡ true
    → IsConsistent db
    → IsConsistent (others db)
    → create_transaction hash_transaction others t db ≡ (r, db')
    → IsConsistent db'
unfolding create_transaction
create_transaction-IsConsistent hash_transaction others t db db' st before between e =
    let hash = hash_transaction (canonical_transaction t) in
    with_idempotency-tables IsConsistent t.tenant_id t.idempotency_key hash others
      (write_transaction t hash) db db' e before between
      (λ v db2 done.
        Written-IsConsistent t hash (others db) db2
          (write_transaction-Written t hash (others db) db2 done).0 st between)
