-- ===== src/Store/TrialBalance/Totals.antt =====
-- TrialBalance of services/ledger-core/internal/adapters/postgres/store.go: the totals are the sums of
-- the rows, in int64.
use ledgercore.Base.{
  ◌≡◌, refl, sym, ap, ◌∙◌, Bool, true, List, [], ◌∷◌, map, Option, none, some, some_injective, Text,
  text_eq, text_eq→eq, ℤ, pos, ◌+ℤ◌, +ℤ_assoc, zero-+ℤ, +ℤ_zero, wrap64, wrap64-+ℤ, find?, total,
  if◌then◌else◌, Bool-cases, inl, inr, arith,
}
use ledgercore.Store.TrialBalance.{
  TrialBalanceRow, TrialBalanceTotal, bump, no_total, add_row, add_rows, close,
}

abbrev pub find_total : Text → List TrialBalanceTotal → Option TrialBalanceTotal
find_total c ts = find? (λ (t : TrialBalanceTotal). text_eq t.asset c) ts

-- What a column of the rows adds to a total.
abbrev pub under : Text → (TrialBalanceRow → ℤ) → TrialBalanceRow → ℤ
under c d r = if text_eq r.asset c then d r else pos 0

module _ (d : TrialBalanceRow → ℤ) (col : TrialBalanceTotal → ℤ)
    (col-bump : (r : TrialBalanceRow) (t : TrialBalanceTotal)
      → col (bump r t) ≡ wrap64 (col t +ℤ d r))
    (col-none : (c : Text) → col (no_total c) ≡ pos 0) (c : Text) where
  abbrev pub column_of : Option TrialBalanceTotal → ℤ
  column_of none = pos 0
  column_of (some t) = col t

  abbrev grown : Bool → TrialBalanceRow → ℤ → ℤ
  grown b r n = if b then wrap64 (n +ℤ d r) else n

  add_row-column :
      (r : TrialBalanceRow) (ts : List TrialBalanceTotal)
      → column_of (find_total c (add_row r ts))
        ≡ grown (text_eq r.asset c) r (column_of (find_total c ts))
  unfolding add_row
  add_row-column r [] = elim (Bool-cases (text_eq r.asset c)) [
    | inl e ↦ rw e (col-bump r (no_total r.asset) ∙ ap (λ n. wrap64 (n +ℤ d r)) (col-none r.asset))
    | inr e ↦ rw e refl
  ]
  add_row-column r (t ∷ ts) = elim (Bool-cases (text_eq t.asset r.asset)) [
    | inl same ↦
        let codes_agree : text_eq t.asset c ≡ text_eq r.asset c =
          ap (λ a. text_eq a c) (text_eq→eq t.asset r.asset same) in
        elim (Bool-cases (text_eq r.asset c)) [
          | inl e ↦ rw (same, codes_agree ∙ e, e) (col-bump r t)
          | inr e ↦ rw (same, codes_agree ∙ e, e) refl
        ]
    | inr other ↦ elim (Bool-cases (text_eq t.asset c)) [
      | inl own ↦ elim (Bool-cases (text_eq r.asset c)) [
        | inl e ↦
            let same : text_eq t.asset r.asset ≡ true =
              ap (text_eq t.asset) (text_eq→eq r.asset c e) ∙ own in
            absurd (ground (arith, same, other))
        | inr e ↦ rw (other, own, e) refl
      ]
      | inr e ↦ rw (other, e) (add_row-column r ts)
    ]
  ]

  pub add_rows-column :
      (rs : List TrialBalanceRow) (ts : List TrialBalanceTotal) (n : ℤ)
      → column_of (find_total c ts) ≡ wrap64 n
      → column_of (find_total c (add_rows rs ts)) ≡ wrap64 (n +ℤ total (under c d) rs)
  unfolding add_rows total
  add_rows-column [] ts n h = h ∙ ap wrap64 (sym (+ℤ_zero n))
  add_rows-column (r ∷ rs) ts n h = elim (Bool-cases (text_eq r.asset c)) [
    | inl e ↦
        let here : column_of (find_total c (add_row r ts)) ≡ wrap64 (n +ℤ d r) =
          add_row-column r ts
          ∙ ap (λ b. grown b r (column_of (find_total c ts))) e
          ∙ ap (λ m. wrap64 (m +ℤ d r)) h
          ∙ wrap64-+ℤ n (d r) in
        rw e (
          add_rows-column rs (add_row r ts) (n +ℤ d r) here
          ∙ ap wrap64 (+ℤ_assoc n (d r) (total (under c d) rs)))
    | inr e ↦
        let here : column_of (find_total c (add_row r ts)) ≡ wrap64 n =
          add_row-column r ts ∙ ap (λ b. grown b r (column_of (find_total c ts))) e ∙ h in
        rw e (
          add_rows-column rs (add_row r ts) n here
          ∙ ap (λ m. wrap64 (n +ℤ m)) (sym (zero-+ℤ (total (under c d) rs))))
  ]

-- Where the two columns of the rows have the same sum under an asset code, its total is balanced.
pub even_totals :
    (c : Text) (rows : List TrialBalanceRow) {t : TrialBalanceTotal}
    → total (under c (λ r. r.debits)) rows ≡ total (under c (λ r. r.credits)) rows
    → find_total c (add_rows rows []) ≡ some t
    → t.debits ≡ t.credits
unfolding wrap64
even_totals c rows {t} even found =
    let debits =
      add_rows-column (λ r. r.debits) (λ t. t.debits) (λ r t. refl) (λ a. refl) c rows [] (pos 0)
        refl in
    let credits =
      add_rows-column (λ r. r.credits) (λ t. t.credits) (λ r t. refl) (λ a. refl) c rows [] (pos 0)
        refl in
    sym (ap (column_of (λ r. r.debits) (λ t. t.debits) (λ r t. refl) (λ a. refl) c) found)
    ∙ debits
    ∙ ap (λ n. wrap64 (pos 0 +ℤ n)) even
    ∙ sym credits
    ∙ ap (column_of (λ r. r.credits) (λ t. t.credits) (λ r t. refl) (λ a. refl) c) found

pub find_closed :
    (c : Text) (ts : List TrialBalanceTotal) {t : TrialBalanceTotal}
    → find_total c (map close ts) ≡ some t
    → (u : TrialBalanceTotal) × (find_total c ts ≡ some u) × (t ≡ close u)
find_closed c [] h = cc
find_closed c (u ∷ us) {t} h = elim (Bool-cases (text_eq u.asset c)) [
  | inl e ↦ (u, rw e refl, sym (some_injective (rw e at h)))
  | inr e ↦ let (v, found, same) = find_closed c us {t = t} (rw e at h) in (v, rw e found, same)
]
