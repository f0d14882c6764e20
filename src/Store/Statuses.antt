-- ===== src/Store/Statuses.antt =====
-- Which postings count by the status of their transaction, as the table of transactions changes.
use ledgercore.Base.{
  ℕ, ◌==◌, ◌≡◌, refl, ◌∙◌, sym, ap, Bool, true, false, not, ◌&&◌, List, [], ◌∷◌, ◌++◌, map, Option,
  none, some, find?, All, select, if◌then◌else◌, Bool-cases, Option-cases, some_injective, subst,
  Result-cases, inl, inr, arith, find?-append_some, ok, ok-injective, err-ne-ok,
}
use ledgercore.Domain.{Posting, Transaction, TransactionStatus}
use ledgercore.Domain.Reversal.{is_set}
use ledgercore.Store.{PostingRow}
use ledgercore.Store.Rows.{posting_of, posting_row, update_rows, transactions_guard}

abbrev pub find_in : ℕ → List Transaction → Option Transaction
find_in id ts = find? (λ t. t.id == id) ts

-- The row's transaction exists, and its status is of this kind.
abbrev pub in_status : (TransactionStatus → Bool) → List Transaction → PostingRow → Bool
in_status f ts r = elim (find_in r.transaction_id ts) [ none ↦ false | some t ↦ f t.status ]

abbrev pub Owned : List Transaction → List PostingRow → Type 0
Owned ts rows = All (λ r. is_set (find_in r.transaction_id ts) ≡ true) rows

-- The postings under the transactions of a kind.
abbrev pub counted : (TransactionStatus → Bool) → List Transaction → List PostingRow → List Posting
counted f ts rows = map posting_of (select (in_status f ts) rows)

pub find_kept :
    (id : ℕ) (ts us : List Transaction)
    → is_set (find_in id ts) ≡ true
    → find_in id (ts ++ us) ≡ find_in id ts
find_kept id ts us h = elim (Option-cases (find_in id ts)) [
  | inl missing ↦ cc
  | inr (t, found) ↦ find?-append_some (λ (u : Transaction). u.id == id) ts us found ∙ sym found
]

pub Owned-append :
    (ts us : List Transaction) (rows : List PostingRow) → Owned ts rows → Owned (ts ++ us) rows
Owned-append ts us [] h = tt
Owned-append ts us (r ∷ rs) h =
    (ap is_set (find_kept r.transaction_id ts us h.0) ∙ h.0, Owned-append ts us rs h.1)

in_status-kept :
    (f : TransactionStatus → Bool) (ts us : List Transaction) (r : PostingRow)
    → is_set (find_in r.transaction_id ts) ≡ true
    → in_status f (ts ++ us) r ≡ in_status f ts r
in_status-kept f ts us r h =
    ap (λ o. elim o as (λ _. Bool) [ none ↦ false | some t ↦ f t.status ])
      (find_kept r.transaction_id ts us h)

-- New transactions leave the postings of the old ones where they were.
pub counted-new_transactions :
    (f : TransactionStatus → Bool) (ts us : List Transaction) (rows : List PostingRow)
    → Owned ts rows
    → counted f (ts ++ us) rows ≡ counted f ts rows
counted-new_transactions f ts us [] h = refl
counted-new_transactions f ts us (r ∷ rs) h =
    let same = in_status-kept f ts us r h.0 in
    let rest = counted-new_transactions f ts us rs h.1 in
    elim (Bool-cases (in_status f ts r)) [
      | inl counts ↦
          let counts' = same ∙ counts in rw (counts, counts') (ap (λ l. posting_of r ∷ l) rest)
      | inr other ↦ let other' = same ∙ other in rw (other, other') rest
    ]

-- The postings of one new transaction.
pub counted-new_postings :
    (f : TransactionStatus → Bool) (ts : List Transaction) (rows : List PostingRow)
    (t u : Transaction) (ps : List Posting)
    → find_in t.id ts ≡ some u
    → counted f ts (rows ++ map (posting_row t) ps)
      ≡ counted f ts rows ++ (if f u.status then ps else [])
counted-new_postings f ts [] t u [] found = elim (Bool-cases (f u.status)) [
  | inl own ↦ rw own
  | inr other ↦ rw other
]
counted-new_postings f ts [] t u (p ∷ ps) found =
    let rest = counted-new_postings f ts [] t u ps found in
    let same : in_status f ts (posting_row t p) ≡ f u.status =
      ap (λ o. elim o as (λ _. Bool) [ none ↦ false | some t ↦ f t.status ]) found in
    elim (Bool-cases (f u.status)) [
      | inl own ↦ let own' = same ∙ own in rw (own', own) (ap (λ l. p ∷ l) (rest ∙ rw own))
      | inr other ↦ let other' = same ∙ other in rw (other', other) (rest ∙ rw other)
    ]
counted-new_postings f ts (r ∷ rs) t u ps found =
    let rest = counted-new_postings f ts rs t u ps found in
    elim (Bool-cases (in_status f ts r)) [
      | inl counts ↦ rw counts (ap (λ l. posting_of r ∷ l) rest)
      | inr other ↦ rw other rest
    ]

update_rows-cons :
    (id : ℕ) (f : Transaction → Transaction) (t : Transaction) (ts : List Transaction)
    {us : List Transaction}
    → update_rows id f (t ∷ ts) ≡ ok us
    → (vs : List Transaction) × (update_rows id f ts ≡ ok vs)
      × (us ≡ (if t.id == id then f t else t) ∷ vs)
unfolding update_rows
update_rows-cons id f t ts {us} e =
    elim (Bool-cases (t.id == id && not (transactions_guard t (f t)))) [
      | inl refused ↦ absurd (err-ne-ok (rw (refused, update_rows) at e))
      | inr allowed ↦ elim (Result-cases (update_rows id f ts)) [
        | inl (vs, rest) ↦ (vs, rest, sym (ok-injective (rw (allowed, rest, update_rows) at e)))
        | inr (x, failed) ↦ absurd (err-ne-ok (rw (allowed, failed, update_rows) at e))
      ]
    ]

pub update_rows-guard :
    (id : ℕ) (f : Transaction → Transaction) (ts : List Transaction) (t : Transaction)
    {us : List Transaction}
    → update_rows id f ts ≡ ok us
    → find_in id ts ≡ some t
    → transactions_guard t (f t) ≡ true
unfolding update_rows
update_rows-guard id f [] t e found = cc
update_rows-guard id f (u ∷ ts) t {us} e found = elim (Bool-cases (u.id == id)) [
  | inl own ↦ elim (Bool-cases (transactions_guard u (f u))) [
    | inl allowed ↦
        let same : u ≡ t = some_injective (rw own at found) in
        subst (λ x. transactions_guard x (f x) ≡ true) same allowed
    | inr refused ↦ absurd (err-ne-ok (rw (own, refused, update_rows) at e))
  ]
  | inr other ↦
      let (vs, rest, _) = update_rows-cons id f u ts e in
      update_rows-guard id f ts t rest (rw other at found)
]

-- An update of the rows under one id, each of which the guard has let pass.
abbrev pub changed : ℕ → (Transaction → Transaction) → ℕ → Option Transaction → Option Transaction
changed id f other none = none
changed id f other (some t) = some (if other == id then f t else t)

pub update_rows-find :
    (id : ℕ) (f : Transaction → Transaction) (ts : List Transaction) {us : List Transaction}
    → ((t : Transaction) → (f t).id ≡ t.id)
    → update_rows id f ts ≡ ok us
    → (other : ℕ) → find_in other us ≡ changed id f other (find_in other ts)
unfolding update_rows
update_rows-find id f [] keeps e other = rw (← ok-injective e)
update_rows-find id f (t ∷ ts) {us} keeps e other =
    let (vs, rest, made) = update_rows-cons id f t ts e in
    let tail = update_rows-find id f ts keeps rest other in
    let same = keeps t in
    rw made (elim (Bool-cases (t.id == id)) [
      | inl mine ↦ rw mine (elim (Bool-cases (t.id == other)) [
        | inl here ↦
            let here' : ((f t).id == other) ≡ true = ap (λ n. n == other) same ∙ here in
            let own : (other == id) ≡ true = ground arith in rw (here, here') (rw own)
        | inr away ↦
            let away' : ((f t).id == other) ≡ false = ap (λ n. n == other) same ∙ away in
            rw (away, away') tail
      ])
      | inr others ↦ rw others (elim (Bool-cases (t.id == other)) [
        | inl here ↦ let foreign : (other == id) ≡ false = ground arith in rw here (rw foreign)
        | inr away ↦ rw away tail
      ])
    ])

is_set-changed :
    (id : ℕ) (f : Transaction → Transaction) (other : ℕ) (o : Option Transaction)
    → is_set (changed id f other o) ≡ is_set o
is_set-changed id f other none = refl
is_set-changed id f other (some t) = refl

-- The update keeps the owners of the postings.
pub Owned-changed :
    (id : ℕ) (f : Transaction → Transaction) (ts us : List Transaction) (rows : List PostingRow)
    → ((other : ℕ) → find_in other us ≡ changed id f other (find_in other ts))
    → Owned ts rows
    → Owned us rows
Owned-changed id f ts us [] e h = tt
Owned-changed id f ts us (r ∷ rs) e h = (
  ap is_set (e r.transaction_id)
      ∙ is_set-changed id f r.transaction_id (find_in r.transaction_id ts)
      ∙ h.0,
  Owned-changed id f ts us rs e h.1,
)

untouched :
    (g : TransactionStatus → Bool) (id : ℕ) (f : Transaction → Transaction) (other : ℕ)
    (o : Option Transaction)
    → (other == id) ≡ false
    → (elim (changed id f other o) as (λ _. Bool) [ none ↦ false | some u ↦ g u.status ])
      ≡ (elim o as (λ _. Bool) [ none ↦ false | some u ↦ g u.status ])
untouched g id f other none e = refl
untouched g id f other (some t) e = rw e

-- What a row counts as after the update.
pub in_status-changed :
    (g : TransactionStatus → Bool) (id : ℕ) (f : Transaction → Transaction)
    (ts us : List Transaction) (r : PostingRow) (t : Transaction)
    → ((other : ℕ) → find_in other us ≡ changed id f other (find_in other ts))
    → find_in id ts ≡ some t
    → in_status g us r ≡ (if r.transaction_id == id then g (f t).status else in_status g ts r)
in_status-changed g id f ts us r t e found =
    let seen =
      ap (λ o. elim o as (λ _. Bool) [ none ↦ false | some u ↦ g u.status ]) (e r.transaction_id) in
    elim (Bool-cases (r.transaction_id == id)) [
      | inl own ↦
          let who : r.transaction_id ≡ id = ground arith in
          let its : find_in r.transaction_id ts ≡ some t = ap (λ n. find_in n ts) who ∙ found in
          let now : changed id f r.transaction_id (find_in r.transaction_id ts) ≡ some (f t) =
            rw its (rw own) in
          rw own (seen ∙ ap (λ o. elim o as (λ _. Bool) [ none ↦ false | some u ↦ g u.status ]) now)
      | inr other ↦
          rw other (seen ∙ untouched g id f r.transaction_id (find_in r.transaction_id ts) other)
    ]
