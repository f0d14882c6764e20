-- ===== src/Store/Consistency/Updates.antt =====
-- ReverseTransaction against the invariant of account_balances.
use ledgercore.Base.{
  ℕ, suc, ◌≡◌, refl, ◌∙◌, sym, ap, subst, Bool, false, [], ◌∷◌, ◌++◌, map, Option, some, Text,
  Option-cases, inl, inr, Result, ok, err, ok-injective, err-ne-ok,
}
use ledgercore.Domain.{
  Posting, Transaction, TransactionStatus, DomainError, already_reversed, not_posted,
  too_few_postings, non_positive_amount, invalid_direction, unbalanced, money, draft, posted,
  reversed, other_status, valid_direction,
}
use ledgercore.Domain.Reversal.{is_set, reverse}
use ledgercore.Domain.Mirror.{reverse-Mirrored}
use ledgercore.Store.{
  StoreError, generate_id, transaction_reversed, Db, Tx, pure, ◌>>=◌, ◌>>◌, bind-ok, tx-ok,
  or_raise,
}
use ledgercore.Store.Rows.{
  load_transaction, insert_transaction, update_transaction, check_transaction_balance,
  store_idempotent_response, insert_outbox, row_of, update_rows, posting_row,
}
use ledgercore.Store.Balances.{upsert_posted_balance, apply_balances}
use ledgercore.Store.Balances.Columns.{to_posted}
use ledgercore.Store.Balances.Statements.{upsert_posted-IsStatement}
use ledgercore.Store.Balances.Apply.{apply_balances-SumShift}
use ledgercore.Store.Statuses.{find_in, update_rows-find, find_kept}
use ledgercore.Store.Steps.{
  insert_transaction-ok, check_transaction_balance-ok, store_idempotent_response-ok,
  load_transaction-ok, update_transaction-ok,
}
use ledgercore.Store.Invariant.{IsConsistent, trivially, posted-Agree}
use ledgercore.Store.Invariant.Updates.{reversed-Agree}
use ledgercore.Store.Transactions.{
  CanonicalReversal, write_reversal, write_built, reverse_transaction, named_reversal,
  effective_key, lift_domain,
}
use ledgercore.Store.Consistency.{
  with_idempotency-tables, IsConsistent-at, Agree-before, transactions_of, postings_of, balances_of,
  applied_to,
}

abbrev mark_reversed : ℕ → Transaction → Transaction
mark_reversed by r = record r { status = reversed; reversed_by_id = some by }

lift_domain-ok :
    (m : Result DomainError Transaction) (db db' : Db) {t : Transaction}
    → lift_domain m db ≡ ok (t, db')
    → (m ≡ ok t) × (db' ≡ db)
lift_domain-ok (ok t) db db' e = (
  ap ok (ap (λ (q : Transaction × Db). q.0) (ok-injective e)),
  sym (ap (λ (q : Transaction × Db). q.1) (ok-injective e)),
)
lift_domain-ok (err already_reversed) db db' e = absurd (err-ne-ok e)
lift_domain-ok (err not_posted) db db' e = absurd (err-ne-ok e)
lift_domain-ok (err too_few_postings) db db' e = absurd (err-ne-ok e)
lift_domain-ok (err non_positive_amount) db db' e = absurd (err-ne-ok e)
lift_domain-ok (err invalid_direction) db db' e = absurd (err-ne-ok e)
lift_domain-ok (err unbalanced) db db' e = absurd (err-ne-ok e)
lift_domain-ok (err ledgercore.Domain.generate_id) db db' e = absurd (err-ne-ok e)
lift_domain-ok (err (money x)) db db' e = absurd (err-ne-ok e)

-- The writes of a reversal that has been built.
record_reversal-IsConsistent :
    (id : ℕ) (row rev : Transaction) (db dbi dba db' : Db)
    → find_in id db.transactions ≡ some row
    → row.status ≡ posted
    → rev.status ≡ posted
    → insert_transaction rev db ≡ ok (tt, dbi)
    → apply_balances upsert_posted_balance rev.postings dbi ≡ ok (tt, dba)
    → update_transaction id (mark_reversed rev.id) dba ≡ ok (tt, db')
    → IsConsistent db
    → IsConsistent db'
record_reversal-IsConsistent id row rev db dbi dba db' found was is inserted moved updated a =
    let (ins, fresh, valid) = insert_transaction-ok rev db dbi inserted in
    let (same, _) =
      apply_balances-SumShift to_posted upsert_posted-IsStatement rev.postings dbi dba valid
        (trivially (λ p. Unit) rev.postings (λ p. tt)) moved in
    let added =
      posted-Agree rev rev.postings db.transactions db.postings dbi dba
        (Agree-before a (balances_of ins)) fresh is valid moved in
    let there = find_kept id db.transactions (row_of rev ∷ []) (ap is_set found) ∙ found in
    let (only, rows) = update_transaction-ok id (mark_reversed rev.id) dba db' updated in
    let rows' =
      subst (λ ts. update_rows id (mark_reversed rev.id) ts ≡ ok db'.transactions)
        (transactions_of same ∙ transactions_of ins) rows in
    IsConsistent-at db'
      (reversed-Agree id (mark_reversed rev.id) (db.transactions ++ row_of rev ∷ [])
        db'.transactions (db.postings ++ map (posting_row rev) rev.postings) row there
        (update_rows-find id (mark_reversed rev.id) (db.transactions ++ row_of rev ∷ []) (λ x. refl)
          rows')
        dba.balances added was refl)
      refl (postings_of only ∙ postings_of same ∙ postings_of ins) (balances_of only)

module _ (uuid_string : ℕ → Text) where
  abbrev reversed_event : Transaction → Transaction → Text → ℕ → Tx (Unit {0})
  reversed_event original rev reason now = insert_outbox (
      transaction_reversed (record {
        transaction_id = original.id;
        reversal_transaction_id = rev.id;
        ledger_id = original.ledger_id;
        reason = reason;
        reversed_at = now;
      }))

  -- The writes after the reversal is built.
  write_built-IsConsistent :
      (id now : ℕ) (key reason hash : Text) (row original built : Transaction) (db db' : Db)
      {v : Transaction × Bool}
      → find_in id db.transactions ≡ some row
      → row.status ≡ posted
      → built.status ≡ posted
      → write_built uuid_string id original built key reason hash now db ≡ ok (v, db')
      → IsConsistent db
      → IsConsistent db'
  unfolding write_built
  write_built-IsConsistent id now key reason hash row original built db db' {v} found was is e a =
      let rev = named_reversal uuid_string original built key reason in
      let k6 : Tx (Transaction × Bool) = check_transaction_balance id >> pure (rev, false) in
      let k5 : Tx (Transaction × Bool) = check_transaction_balance rev.id >> k6 in
      let k4 : Tx (Transaction × Bool) = reversed_event original rev reason now >> k5 in
      let k3 : Tx (Transaction × Bool) =
        store_idempotent_response rev.idempotency_key 201 rev hash >> k4 in
      let k2 : Tx (Transaction × Bool) = update_transaction id (mark_reversed rev.id) >> k3 in
      let k1 : Tx (Transaction × Bool) = apply_balances upsert_posted_balance rev.postings >> k2 in
      let (db1, inserted, e1) = tx-ok (insert_transaction rev) k1 db e in
      let (db2, moved, e2) = tx-ok (apply_balances upsert_posted_balance rev.postings) k2 db1 e1 in
      let (db3, updated, e3) = tx-ok (update_transaction id (mark_reversed rev.id)) k3 db2 e2 in
      let (db4, stored, e4) =
        tx-ok (store_idempotent_response rev.idempotency_key 201 rev hash) k4 db3 e3 in
      let (db5, published, e5) = tx-ok (reversed_event original rev reason now) k5 db4 e4 in
      let (db6, checked, e6) = tx-ok (check_transaction_balance rev.id) k6 db5 e5 in
      let (db7, checked', e7) = tx-ok (check_transaction_balance id) (pure (rev, false)) db6 e6 in
      let left : db7 ≡ db' = ap (λ (q : (Transaction × Bool) × Db). q.1) (ok-injective e7) in
      let (sto, _) = store_idempotent_response-ok rev.idempotency_key 201 rev hash db3 db4 stored in
      let end =
        sym left
        ∙ check_transaction_balance-ok id db6 db7 checked'
        ∙ check_transaction_balance-ok rev.id db5 db6 checked
        ∙ sym (applied_to published) in
      IsConsistent-at db'
        (record_reversal-IsConsistent id row rev db db1 db2 db3 found was is inserted moved updated
          a)
        (transactions_of end ∙ transactions_of sto) (postings_of end ∙ postings_of sto)
        (balances_of end ∙ balances_of sto)

  write_reversal-IsConsistent :
      (fresh : ℕ → Option ℕ) (id now : ℕ) (key reason hash : Text) (db db' : Db)
      {v : Transaction × Bool}
      → write_reversal uuid_string fresh id key reason hash now db ≡ ok (v, db')
      → IsConsistent db
      → IsConsistent db'
  unfolding write_reversal
  write_reversal-IsConsistent fresh id now key reason hash db db' {v} e a =
      let finish = λ (original built : Transaction).
        write_built uuid_string id original built key reason hash now in
      let build = λ (original : Transaction) (rev_id : ℕ).
        lift_domain (reverse uuid_string (λ i. fresh (suc i)) original rev_id now)
        >>= finish original in
      let (original, db1, loads, e1) =
        bind-ok (load_transaction id) (λ o. or_raise (fresh 0) generate_id >>= build o) db e in
      let (same, (row, found, its)) = load_transaction-ok id original db db1 loads in
      elim (Option-cases (fresh 0)) [
        | inl missing ↦ absurd (err-ne-ok (rw missing at e1))
        | inr (rev_id, given) ↦
            let (built, db2, lifted, e2) =
              bind-ok (lift_domain (reverse uuid_string (λ i. fresh (suc i)) original rev_id now))
                (finish original) db1 (rw given at e1) in
            let (made, kept) =
              lift_domain-ok (reverse uuid_string (λ i. fresh (suc i)) original rev_id now) db1 db2
                lifted in
            let (st, _, _, is, _) =
              reverse-Mirrored uuid_string (λ i. fresh (suc i)) original rev_id now made in
            let was : row.status ≡ posted = ap (λ (x : Transaction). x.status) (sym its) ∙ st in
            write_built-IsConsistent id now key reason hash row original built db db' found was is
              (subst
                (λ d. write_built uuid_string id original built key reason hash now d ≡ ok (v, db'))
                (kept ∙ same) e2)
              a
      ]

  module _ (hash_reversal : CanonicalReversal → Text) where
    -- ReverseTransaction leaves the postings in agreement with the rest of the tables, if they
    -- were before it and after what others committed during it, whatever it returns: every posting
    -- has its transaction, a direction and a balance row, the posted columns of every account
    -- under every asset code are the sums of the postings of posted and reversed transactions, and
    -- the pending columns those of drafts.
    pub reverse_transaction-IsConsistent :
        (others : Db → Db) (fresh : ℕ → Option ℕ) (tenant id now : ℕ) (key reason : Text)
        (db db' : Db) {r : Result StoreError (Transaction × Bool)}
        → IsConsistent db
        → IsConsistent (others db)
        → reverse_transaction uuid_string hash_reversal others fresh tenant id key reason now db
          ≡ (r, db')
        → IsConsistent db'
    unfolding reverse_transaction
    reverse_transaction-IsConsistent others fresh tenant id now key reason db db' before between e =
        let hash = hash_reversal (record { reverses_id = id; reason = reason }) in
        with_idempotency-tables IsConsistent tenant (effective_key uuid_string id key) hash others
          (write_reversal uuid_string fresh id key reason hash now) db db' e before between
          (λ v db2 done.
            write_reversal-IsConsistent fresh id now key reason hash (others db) db2 done between)
