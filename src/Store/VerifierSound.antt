-- ===== src/Store/VerifierSound.antt =====
-- services/ledger-core/internal/adapters/postgres/store.go: what VerifyBalances has checked when it
-- reports nothing.
use ledgercore.Base.{
  ◌==◌, Option-cases, err-ne-ok, ok-injective, all, ℕ, ==_iff, ◌≡◌, refl, sym, ap, ◌∙◌, subst, Bool,
  true, false, not, ◌&&◌, List, [], ◌∷◌, ◌++◌, map, Option, none, some, Text, text_eq, text_eq→eq,
  text_eq_self, ℤ, pos, eqb_ℤ, eqb_ℤ_iff, any, find?, select, select-mem, mem-map, mem-perm,
  sort_by, sort_by-perm, Bool-cases, inl, inr, arith, ok,
}
use mathlib.Core.List.{Memᴰ}
use ledgercore.Domain.{Transaction, TransactionStatus, Direction}
use ledgercore.Store.{PostingRow, BalanceRow, Db, with_tenant_tx}
use ledgercore.Store.Rows.{find_ledger, find_transaction, is_effective}
use ledgercore.Store.Balances.{is_row}
use ledgercore.Store.Reports.{
  BalanceDiscrepancy, is_debit, is_credit, is_draft_status, in_ledger, status_passes, sum_where,
  of_key, recomputed, stored, stored_row, compare_key, differs, same_key, is_joined, keys,
  key_before, verify_account_balances, verify_balances, fits_bigint,
}
use ledgercore.Store.ReportKeys.{any-once, any-member, any-right, any-left}

module _ (db : Db) (ledger account : ℕ) (asset : Text) where
  abbrev key : ℕ × Text
  key = (account, asset)

  abbrev posting_keys : List PostingRow → List (ℕ × Text)
  posting_keys rows =
      map (λ (r : PostingRow). (r.account_id, r.asset)) (select (is_joined ledger db) rows)

  abbrev balance_keys : List BalanceRow → List (ℕ × Text)
  balance_keys rows =
      map (λ (b : BalanceRow). (b.account_id, b.balance.asset))
        (select (λ (b : BalanceRow). in_ledger ledger db b.account_id) rows)

  -- A row that a sum counts gives its key.
  joined_key :
      (f : TransactionStatus → Bool) (side : Direction → Bool) (r : PostingRow)
      → in_ledger ledger db account ≡ true
      → (of_key account asset r
          && side r.direction
          && status_passes f (find_transaction r.transaction_id db))
        ≡ true
      → (is_joined ledger db r ≡ true) × (same_key key (r.account_id, r.asset) ≡ true)
  joined_key f side r here counts =
      let number : r.account_id ≡ account =
        (==_iff r.account_id account).0 (ground (arith, counts)) in
      let text : r.asset ≡ asset = text_eq→eq r.asset asset (ground (arith, counts)) in
      let status = status_some f (find_transaction r.transaction_id db) (ground (arith, counts)) in
      let own : in_ledger ledger db r.account_id ≡ true = ap (in_ledger ledger db) number ∙ here in
      (
        ground (arith, own, status),
        ground (
          arith,
          (==_iff account r.account_id).1 (sym number),
          ap (λ a. text_eq asset a) text ∙ text_eq_self asset,
        ),
      )
    where
      status_some :
          (g : TransactionStatus → Bool) (o : Option Transaction)
          → status_passes g o ≡ true
          → status_passes (λ s. true) o ≡ true
      status_some g none h = cc
      status_some g (some t) h = refl

  absent_later :
      (r : PostingRow) (rs : List PostingRow)
      → any (same_key key) (posting_keys (r ∷ rs)) ≡ false
      → any (same_key key) (posting_keys rs) ≡ false
  absent_later r rs absent = elim (Bool-cases (is_joined ledger db r)) [
    | inl e ↦
        let all_absent : any (same_key key) ((r.account_id, r.asset) ∷ posting_keys rs) ≡ false =
          sym (rw e refl) ∙ absent in
        ground (arith, all_absent)
    | inr e ↦ sym (rw e refl) ∙ absent
  ]

  sum-none :
      (f : TransactionStatus → Bool) (side : Direction → Bool) (rows : List PostingRow)
      → in_ledger ledger db account ≡ true
      → any (same_key key) (posting_keys rows) ≡ false
      → sum_where
          (λ (r : PostingRow).
            of_key account asset r
            && side r.direction
            && status_passes f (find_transaction r.transaction_id db))
          rows
        ≡ pos 0
  unfolding sum_where
  sum-none f side [] here absent = refl
  sum-none f side (r ∷ rs) here absent =
      elim (Bool-cases (
        of_key account asset r
        && side r.direction
        && status_passes f (find_transaction r.transaction_id db))) [
          | inl counts ↦
              let (joined, same) = joined_key f side r here counts in
              let found : any (same_key key) (posting_keys (r ∷ rs)) ≡ true =
                rw joined (ground (arith, same)) in
              absurd (ground (arith, found, absent))
          | inr other ↦ rw other (sum-none f side rs here (absent_later r rs absent))
        ]

  stored-none :
      (rows : List BalanceRow)
      → in_ledger ledger db account ≡ true
      → any (same_key key) (balance_keys rows) ≡ false
      → find? (is_row account asset) rows ≡ none
  stored-none [] here absent = refl
  stored-none (b ∷ bs) here absent = elim (Bool-cases (in_ledger ledger db b.account_id)) [
    | inl e ↦
        let all_absent : any (same_key key) ((b.account_id, b.balance.asset) ∷ balance_keys bs)
            ≡ false =
          sym (rw e refl) ∙ absent in
        let other : same_key key (b.account_id, b.balance.asset) ≡ false =
          ground (arith, all_absent) in
        let later : any (same_key key) (balance_keys bs) ≡ false =
          ground (arith, all_absent, other) in
        let not_row : is_row account asset b ≡ false = elim (Bool-cases (is_row account asset b)) [
          | inl is_its ↦
              let number : b.account_id ≡ account =
                (==_iff b.account_id account).0 (ground (arith, is_its)) in
              let text : b.balance.asset ≡ asset =
                text_eq→eq b.balance.asset asset (ground (arith, is_its)) in
              ground (
                arith,
                other,
                (==_iff account b.account_id).1 (sym number),
                ap (λ a. text_eq asset a) text ∙ text_eq_self asset,
              )
          | inr no_row ↦ no_row
        ] in
        rw not_row (stored-none bs here later)
    | inr e ↦
        let later : any (same_key key) (balance_keys bs) ≡ false = sym (rw e refl) ∙ absent in
        let not_row : is_row account asset b ≡ false = elim (Bool-cases (is_row account asset b)) [
          | inl is_its ↦
              let number : b.account_id ≡ account =
                (==_iff b.account_id account).0 (ground (arith, is_its)) in
              let own : in_ledger ledger db b.account_id ≡ true =
                ap (in_ledger ledger db) number ∙ here in
              ground (arith, own, e)
          | inr no_row ↦ no_row
        ] in
        rw not_row (stored-none bs here later)
  ]

  -- The four columns of an account under an asset code are what the postings give.
  pub record IsVerified : Type 0 where
    pub posted_debits :
        recomputed is_effective is_debit account asset db
        ≡ stored (λ b. b.posted_debits) (stored_row account asset db)
    pub posted_credits :
        recomputed is_effective is_credit account asset db
        ≡ stored (λ b. b.posted_credits) (stored_row account asset db)
    pub pending_debits :
        recomputed is_draft_status is_debit account asset db
        ≡ stored (λ b. b.pending_debits) (stored_row account asset db)
    pub pending_credits :
        recomputed is_draft_status is_credit account asset db
        ≡ stored (λ b. b.pending_credits) (stored_row account asset db)

  equal_columns : (a b : ℤ) → not (eqb_ℤ a b) ≡ false → a ≡ b
  equal_columns a b h = (eqb_ℤ_iff a b).0 (ground (arith, h))

  key-IsVerified : differs (compare_key db key) ≡ false → IsVerified
  unfolding compare_key
  key-IsVerified h = record {
    posted_debits = equal_columns _ _ (ground (arith, h));
    posted_credits = equal_columns _ _ (ground (arith, h));
    pending_debits = equal_columns _ _ (ground (arith, h));
    pending_credits = equal_columns _ _ (ground (arith, h));
  }

  unlisted :
      any (same_key key) (keys ledger db) ≡ false
      → (any (same_key key) (posting_keys db.postings) ≡ false)
        × (any (same_key key) (balance_keys db.balances) ≡ false)
  unfolding keys
  unlisted absent =
      let ks : List (ℕ × Text) = posting_keys db.postings in
      let ls : List (ℕ × Text) = balance_keys db.balances in
      (
        elim (Bool-cases (any (same_key key) ks)) [
          | inl there ↦
              absurd (ground (arith, absent, any-once key (ks ++ ls) (any-left key ks ls there)))
          | inr none_there ↦ none_there
        ],
        elim (Bool-cases (any (same_key key) ls)) [
          | inl there ↦
              absurd (ground (arith, absent, any-once key (ks ++ ls) (any-right key ks ls there)))
          | inr none_there ↦ none_there
        ],
      )

  absent-IsVerified :
      in_ledger ledger db account ≡ true → any (same_key key) (keys ledger db) ≡ false → IsVerified
  absent-IsVerified here absent =
      let (no_posting, no_balance) = unlisted absent in
      let no_row : stored_row account asset db ≡ none = stored-none db.balances here no_balance in
      record {
        posted_debits = rw no_row (sum-none is_effective is_debit db.postings here no_posting);
        posted_credits = rw no_row (sum-none is_effective is_credit db.postings here no_posting);
        pending_debits = rw no_row (sum-none is_draft_status is_debit db.postings here no_posting);
        pending_credits =
            rw no_row (sum-none is_draft_status is_credit db.postings here no_posting);
      }

nothing_selected :
    (ds : List BalanceDiscrepancy) (d : BalanceDiscrepancy)
    → select differs ds ≡ []
    → Memᴰ d ds
    → differs d ≡ false
nothing_selected ds d empty m = elim (Bool-cases (differs d)) [
  | inl e ↦ elim (subst (λ l. Memᴰ d l) empty (select-mem differs ds m e)) [ ]
  | inr e ↦ e
]

verified :
    (ledger account : ℕ) (asset : Text) (db : Db)
    → in_ledger ledger db account ≡ true
    → verify_account_balances ledger db ≡ []
    → IsVerified db ledger account asset
unfolding verify_account_balances
verified ledger account asset db here empty =
    elim (Bool-cases (any (same_key (account, asset)) (keys ledger db))) [
      | inl there ↦ key-IsVerified db ledger account asset (
          nothing_selected (map (compare_key db) (sort_by key_before (keys ledger db)))
            (compare_key db (account, asset)) empty
            (mem-map (compare_key db) (sort_by key_before (keys ledger db)) (
              mem-perm (sort_by-perm key_before (keys ledger db))
                (any-member (account, asset) (keys ledger db) there))))
      | inr absent ↦ absent-IsVerified db ledger account asset here absent
    ]

report :
    (tenant ledger : ℕ) (db after : Db) (ds : List BalanceDiscrepancy)
    → verify_balances tenant ledger db ≡ (ok ds, after)
    → ds ≡ verify_account_balances ledger db
unfolding verify_balances with_tenant_tx
report tenant ledger db after ds h = elim (Bool-cases (tenant == 0)) [
  | inl nil ↦ absurd (err-ne-ok (ap (λ r. r.0) (rw nil at h)))
  | inr some_tenant ↦ elim (Option-cases (find_ledger ledger db)) [
    | inl missing ↦ absurd (err-ne-ok (ap (λ r. r.0) (rw (some_tenant, missing) at h)))
    | inr (l, found) ↦ elim (Bool-cases (all fits_bigint (verify_account_balances ledger db))) [
      | inl fits ↦ sym (ok-injective (ap (λ r. r.0) (rw (some_tenant, found, fits) at h)))
      | inr too_large ↦ absurd (err-ne-ok (ap (λ r. r.0) (rw (some_tenant, found, too_large) at h)))
    ]
  ]
]

-- When VerifyBalances succeeds and reports nothing for a ledger, then for every account of the ledger
-- and every asset code, whether there is a posting or a row of balances or neither, each of the posted
-- and pending columns of account_balances, 0 where there is no row, is the sum that the postings of
-- the posted and reversed transactions, and of the drafts, give.
pub verify_balances-IsVerified :
    (tenant ledger : ℕ) (db after : Db) (account : ℕ) (asset : Text)
    → in_ledger ledger db account ≡ true
    → verify_balances tenant ledger db ≡ (ok [], after)
    → IsVerified db ledger account asset
verify_balances-IsVerified tenant ledger db after account asset here h =
    verified ledger account asset db here (sym (report tenant ledger db after [] h))
