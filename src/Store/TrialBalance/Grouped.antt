-- ===== src/Store/TrialBalance/Grouped.antt =====
-- TrialBalance of services/ledger-core/internal/adapters/postgres/store.go: the groups of accounts and
-- asset codes share out the postings.
use ledgercore.Base.{
  ℕ, ==_self, ◌≡◌, refl, sym, ap, ◌∙◌, subst, Bool, true, false, ◌&&◌, List, [], ◌∷◌, map, Text,
  text_eq, text_eq_self, ℤ, pos, ◌+ℤ◌, zero-+ℤ, +ℤ_zero, any, All-of_mem, mem-map, select,
  select-mem, total, total-ext, total-perm, total-swap, if◌then◌else◌, Bool-cases, inl, inr, arith,
  sort_by, sort_by-perm,
}
use mathlib.Core.List.{Memᴰ}
use ledgercore.Domain.{Direction}
use ledgercore.Store.{PostingRow}
use ledgercore.Store.Reports.{same_key, once, sum_where, of_key}
use ledgercore.Store.ReportKeys.{same_key→eq}
use ledgercore.Store.TrialBalance.{posting_key}

pub if_sum-where :
    (b : Bool) (p : PostingRow → Bool) (rows : List PostingRow)
    → (if b then sum_where p rows else pos 0)
      ≡ total (λ r. if b && p r then r.amount else pos 0) rows
unfolding sum_where total
if_sum-where true p [] = refl
if_sum-where false p [] = refl
if_sum-where true p (r ∷ rs) = elim (Bool-cases (p r)) [
  | inl e ↦ rw e (ap (λ n. r.amount +ℤ n) (if_sum-where true p rs))
  | inr e ↦ rw e (
      if_sum-where true p rs
      ∙ sym (zero-+ℤ (total (λ r. if true && p r then r.amount else pos 0) rs)))
]
if_sum-where false p (r ∷ rs) =
    if_sum-where false p rs
    ∙ sym (zero-+ℤ (total (λ r. if false && p r then r.amount else pos 0) rs))

-- Among keys without repetition, one that is listed counts once.
once-total :
    (key : ℕ × Text) (v : ℤ) (ks : List (ℕ × Text))
    → total (λ k. if same_key key k then v else pos 0) (once ks)
      ≡ (if any (same_key key) ks then v else pos 0)
unfolding once total
once-total key v [] = refl
once-total key v (k ∷ ks) = elim (Bool-cases (any (same_key k) ks)) [
  | inl again ↦ elim (Bool-cases (same_key key k)) [
    | inl e ↦
        let listed : any (same_key key) ks ≡ true =
          ap (λ l. any (same_key l) ks) (same_key→eq key k e) ∙ again in
        rw (again, e) (once-total key v ks ∙ ap (λ b. if b then v else pos 0) listed)
    | inr e ↦ rw (again, e) (once-total key v ks)
  ]
  | inr new ↦ elim (Bool-cases (same_key key k)) [
    | inl e ↦
        let unlisted : any (same_key key) ks ≡ false =
          ap (λ l. any (same_key l) ks) (same_key→eq key k e) ∙ new in
        rw (new, e)
          (ap (λ n. v +ℤ n) (once-total key v ks ∙ ap (λ b. if b then v else pos 0) unlisted)
            ∙ +ℤ_zero v)
    | inr e ↦
        rw (new, e)
          (zero-+ℤ (total (λ k. if same_key key k then v else pos 0) (once ks))
            ∙ once-total key v ks)
  ]
]

pub any-mem : (k : ℕ × Text) (ks : List (ℕ × Text)) → Memᴰ k ks → any (same_key k) ks ≡ true
any-mem k [] m = elim m [ ]
any-mem k (l ∷ ks) (Memᴰ.head e) =
    subst (λ m. any (same_key k) (m ∷ ks) ≡ true) e (ground (arith, ==_self k.0, text_eq_self k.1))
any-mem k (l ∷ ks) (Memᴰ.tail m) = ground (arith, any-mem k ks m)

module _ (p : PostingRow → Bool) (side : Direction → Bool) (c : Text) where
  abbrev cell : ℕ × Text → PostingRow → ℤ
  cell k r =
      if text_eq k.1 c && (p r && of_key k.0 k.1 r && side r.direction) then r.amount else pos 0

  -- What a posting counts under an asset code.
  abbrev pub amount_in : PostingRow → ℤ
  amount_in r = if p r && (text_eq r.asset c && side r.direction) then r.amount else pos 0

  cell-own :
      (k : ℕ × Text) (r : PostingRow)
      → cell k r ≡ (if same_key (posting_key r) k then amount_in r else pos 0)
  cell-own k r = elim (Bool-cases (same_key (posting_key r) k)) [
    | inl e ↦
        subst (λ l. cell l r ≡ (if same_key (posting_key r) l then amount_in r else pos 0))
          (same_key→eq (posting_key r) k e)
          (ground (arith, ==_self r.account_id, text_eq_self r.asset))
    | inr e ↦ ground (arith, e)
  ]

  cells :
      (r : PostingRow) (ks : List (ℕ × Text))
      → (p r ≡ true → any (same_key (posting_key r)) ks ≡ true)
      → total (λ k. cell k r) (once ks) ≡ amount_in r
  cells r ks listed =
      ap (λ f. total f (once ks)) (λ i k. cell-own k r i)
      ∙ once-total (posting_key r) (amount_in r) ks
      ∙ elim (Bool-cases (p r)) [
        | inl e ↦ ap (λ b. if b then amount_in r else pos 0) (listed e)
        | inr e ↦
            let nothing : amount_in r ≡ pos 0 = rw e refl in
            elim (Bool-cases (any (same_key (posting_key r)) ks)) [
              | inl f ↦ rw f refl
              | inr f ↦ rw f (sym nothing)
            ]
      ]

  -- The sum of the group of a key, if it is of the asset code.
  abbrev pub group : List PostingRow → ℕ × Text → ℤ
  group rows k =
      if text_eq k.1 c
      then sum_where (λ r. p r && of_key k.0 k.1 r && side r.direction) rows
      else pos 0

  pub listed-total :
      (rows : List PostingRow) (ks : List (ℕ × Text))
      → ((r : PostingRow) → Memᴰ r rows → p r ≡ true → any (same_key (posting_key r)) ks ≡ true)
      → total (group rows) (once ks) ≡ total amount_in rows
  listed-total rows ks listed =
      ap (λ f. total f (once ks))
        (λ i k.
          if_sum-where (text_eq k.1 c) (λ r. p r && of_key k.0 k.1 r && side r.direction) rows i)
      ∙ total-swap cell (once ks) rows
      ∙ total-ext (λ r. total (λ k. cell k r) (once ks)) amount_in rows
          (All-of_mem (λ (r : PostingRow). total (λ k. cell k r) (once ks) ≡ amount_in r) rows
            λ r m. cells r ks (listed r m))

  pub grouped-total :
      (before : ℕ × Text → ℕ × Text → Bool) (rows : List PostingRow)
      → total (group rows) (sort_by before (once (map posting_key (select p rows))))
        ≡ total amount_in rows
  grouped-total before rows =
      let listed : List (ℕ × Text) = map posting_key (select p rows) in
      sym (total-perm (group rows) (sort_by-perm before (once listed)))
      ∙ listed-total rows listed (λ r m passes.
        any-mem (posting_key r) listed
          (mem-map posting_key (select p rows) (select-mem p rows m passes)))
