-- ===== src/Store/Consistency/Promotion.antt =====
-- PostTransaction against the invariant of account_balances.
use ledgercore.Base.{
  to_micros, ℕ, ◌==◌, ◌≡◌, refl, ◌∙◌, sym, ap, subst, true, some, Bool-cases, Result-cases, inl,
  inr, Result, ok, ok-injective, err-ne-ok,
}
use ledgercore.Domain.{Transaction, TransactionStatus, draft, posted, reversed, other_status}
use ledgercore.Store.{StoreError, Db, Tx, map_result, with_tenant_tx, pure, ◌>>◌, bind-ok, tx-ok}
use ledgercore.Store.Rows.{
  load_postings, load_transaction, update_transaction, check_transaction_balance, insert_outbox,
  transactions_guard, guard_allows,
}
use ledgercore.Store.Balances.{move_pending_to_posted, apply_balances}
use ledgercore.Store.Statuses.{find_in, update_rows-find, update_rows-guard}
use ledgercore.Store.Steps.{
  check_transaction_balance-ok, load_transaction-ok, update_transaction-ok,
}
use ledgercore.Store.Invariant.{IsConsistent}
use ledgercore.Store.Invariant.Updates.{promoted-Agree, promoted-frame}
use ledgercore.Store.Transactions.{
  posted_event, post_draft, post_loaded, post_body, post_transaction,
}
use ledgercore.Store.Consistency.{
  IsConsistent-at, Agree-before, transactions_of, postings_of, balances_of, applied_to,
}

pub with_tenant_tx-tables :
    {A : Type 0} (P : Db → Type 0) (tenant : ℕ) (body : Tx A) (db db' : Db)
    {r : Result StoreError A}
    → map_result (with_tenant_tx tenant body db) ≡ (r, db')
    → P db
    → ((v : A) (db2 : Db) → body db ≡ ok (v, db2) → P db2)
    → P db'
unfolding with_tenant_tx
with_tenant_tx-tables {A} P tenant body db db' {r} e before after =
    elim (Bool-cases (tenant == 0)) [
      | inl nil ↦
          subst P (ap (λ (q : Result StoreError A × Db). q.1) (rw (nil, with_tenant_tx) at e))
            before
      | inr tenanted ↦ elim (Result-cases (body db)) [
        | inl (v, done) ↦
            subst P
              (ap (λ (q : Result StoreError A × Db). q.1)
                (rw (tenanted, done, with_tenant_tx) at e))
              (after v.0 v.1 done)
        | inr (x, failed) ↦
            subst P
              (ap (λ (q : Result StoreError A × Db). q.1)
                (rw (tenanted, failed, with_tenant_tx) at e))
              before
      ]
    ]

abbrev mark_posted : ℕ → Transaction → Transaction
mark_posted now r = record r { status = posted; posted_at = some (to_micros now) }

guard_draft :
    (s : TransactionStatus) (old new : Transaction)
    → guard_allows s posted old new ≡ true
    → s ≡ draft
guard_draft draft old new h = refl
guard_draft posted old new h = cc
guard_draft reversed old new h = cc
guard_draft (other_status t) old new h = cc

draft_only :
    (row : Transaction) (now : ℕ)
    → transactions_guard row (mark_posted now row) ≡ true
    → row.status ≡ draft
unfolding transactions_guard
draft_only row now h = guard_draft row.status row (mark_posted now row) h

post_draft-IsConsistent :
    (id now : ℕ) (row t : Transaction) (db db' : Db) {v : Transaction}
    → find_in id db.transactions ≡ some row
    → t ≡ record row { postings = load_postings id db }
    → post_draft id t now db ≡ ok (v, db')
    → IsConsistent db
    → IsConsistent db'
unfolding post_draft load_postings
post_draft-IsConsistent id now row t db db' found loads e a =
    let out : Tx (Unit {0}) =
      insert_outbox (posted_event (record t { status = posted; posted_at = some now }) now) in
    let finish : Tx Transaction =
      check_transaction_balance id >> pure (record t { status = posted; posted_at = some now }) in
    let publish : Tx Transaction = out >> finish in
    let apply : Tx Transaction = apply_balances move_pending_to_posted t.postings >> publish in
    let (db1, updated, e1) = tx-ok (update_transaction id (mark_posted now)) apply db e in
    let (db2, moved, e2) =
      tx-ok (apply_balances move_pending_to_posted t.postings) publish db1 e1 in
    let (db3, published, e3) = tx-ok out finish db2 e2 in
    let (db4, checked, e4) =
      tx-ok (check_transaction_balance id)
        (pure (record t { status = posted; posted_at = some now })) db3 e3 in
    let left : db4 ≡ db' = ap (λ (q : Transaction × Db). q.1) (ok-injective e4) in
    let unchanged = check_transaction_balance-ok id db3 db4 checked in
    let end = sym left ∙ unchanged ∙ sym (applied_to published) in
    let (only, rows) = update_transaction-ok id (mark_posted now) db db1 updated in
    let its = ap (λ (x : Transaction). x.postings) loads in
    let moved_its =
      subst (λ ps. apply_balances move_pending_to_posted ps db1 ≡ ok (tt, db2)) its moved in
    let start = Agree-before a (balances_of only) in
    let is =
      draft_only row now (update_rows-guard id (mark_posted now) db.transactions row rows found) in
    let same = promoted-frame id db1 db2 start moved_its in
    IsConsistent-at db'
      (promoted-Agree id (mark_posted now) db.transactions db1.transactions db.postings row found
        (update_rows-find id (mark_posted now) db.transactions (λ x. refl) rows) db1 db2 start is
        refl moved_its)
      (transactions_of end ∙ transactions_of same)
      (postings_of end ∙ postings_of same ∙ postings_of only) (balances_of end)

post_loaded-IsConsistent :
    (s : TransactionStatus) (id now : ℕ) (row t : Transaction) (db db' : Db) {v : Transaction}
    → find_in id db.transactions ≡ some row
    → t ≡ record row { postings = load_postings id db }
    → post_loaded s id t now db ≡ ok (v, db')
    → IsConsistent db
    → IsConsistent db'
unfolding post_loaded
post_loaded-IsConsistent draft id now row t db db' found loads e a =
    post_draft-IsConsistent id now row t db db' found loads e a
post_loaded-IsConsistent (other_status x) id now row t db db' found loads e a =
    post_draft-IsConsistent id now row t db db' found loads e a
post_loaded-IsConsistent reversed id now row t db db' found loads e a = absurd (err-ne-ok e)
post_loaded-IsConsistent posted id now row t db db' found loads e a =
    subst IsConsistent (ap (λ (q : Transaction × Db). q.1) (ok-injective e)) a

post_body-IsConsistent :
    (id now : ℕ) (db db' : Db) {v : Transaction}
    → post_body id now db ≡ ok (v, db')
    → IsConsistent db
    → IsConsistent db'
unfolding post_body
post_body-IsConsistent id now db db' {v} e a =
    let (t, db1, loads, e1) =
      bind-ok (load_transaction id) (λ t. post_loaded t.status id t now) db e in
    let (same, (row, found, its)) = load_transaction-ok id t db db1 loads in
    post_loaded-IsConsistent t.status id now row t db db' found its
      (subst (λ d. post_loaded t.status id t now d ≡ ok (v, db')) same e1) a

-- PostTransaction leaves the postings in agreement with the rest of the tables, if they were
-- before it, whatever it returns: every posting has its transaction, a direction and a balance
-- row, the posted columns of every account under every asset code are the sums of the postings of
-- posted and reversed transactions, and the pending columns those of drafts.
pub post_transaction-IsConsistent :
    (tenant id now : ℕ) (db db' : Db) {r : Result StoreError Transaction}
    → IsConsistent db
    → post_transaction tenant id now db ≡ (r, db')
    → IsConsistent db'
unfolding post_transaction
post_transaction-IsConsistent tenant id now db db' before e =
    with_tenant_tx-tables IsConsistent tenant (post_body id now) db db' e before
      (λ v db2 done. post_body-IsConsistent id now db db2 done before)
