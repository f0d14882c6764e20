-- ===== src/Store/Sums.antt =====
-- The sums of the postings under transactions of one kind, as transactions and postings change.
use ledgercore.Base.{
  ℕ, ◌≡◌, refl, ◌∙◌, sym, ap, Bool, true, false, ◌&&◌, ◌||◌, List, [], ◌∷◌, ◌++◌, map, Text, ℤ, pos,
  ◌+ℤ◌, select, if◌then◌else◌, Bool-cases, inl, inr, int_laws, arith, +ℤ_assoc, zero-+ℤ, +ℤ_zero,
  sort_by, sort_by-perm, map-perm,
}
use mathlib.Core.List.{Permᴰ}
use ledgercore.Domain.{Posting}
use ledgercore.Domain.Balanced.{debit_of, credit_of}
use ledgercore.Store.{PostingRow}
use ledgercore.Store.Rows.{posting_of, row_before}
use ledgercore.Store.Balances.Columns.{
  matches, debits_at, credits_at, debits_at-cons, credits_at-cons, debits_at-nil, credits_at-nil,
}

-- The two sides of an account under an asset code.
abbrev pub Sides : Type 0
Sides = ℤ × ℤ

abbrev pub sides_of : ℕ → Text → Posting → Sides
sides_of account c p = (
  if matches account c p then debit_of p.direction p.amount.units else pos 0,
  if matches account c p then credit_of p.direction p.amount.units else pos 0,
)

infixl 6 ◌+ₛ◌
abbrev pub ◌+ₛ◌ : Sides → Sides → Sides
s +ₛ t = (s.0 +ℤ t.0, s.1 +ℤ t.1)

abbrev pub no_sides : Sides
no_sides = (pos 0, pos 0)

abbrev pub sums : ℕ → Text → List Posting → Sides
sums account c ps = (debits_at account c ps, credits_at account c ps)

pub sums-cons :
    (account : ℕ) (c : Text) (p : Posting) (ps : List Posting)
    → sums account c (p ∷ ps) ≡ sides_of account c p +ₛ sums account c ps
sums-cons account c p ps = λ i. (debits_at-cons account c p ps i, credits_at-cons account c p ps i)

pub sums-nil : (account : ℕ) (c : Text) → sums account c [] ≡ no_sides
sums-nil account c = λ i. (debits_at-nil account c i, credits_at-nil account c i)

pub +ₛ_assoc : (s t u : Sides) → (s +ₛ t) +ₛ u ≡ s +ₛ (t +ₛ u)
+ₛ_assoc s t u = λ i. (+ℤ_assoc s.0 t.0 u.0 i, +ℤ_assoc s.1 t.1 u.1 i)

comm : (a b : ℤ) → a +ℤ b ≡ b +ℤ a
comm a b = omega int_laws

pub +ₛ_comm : (s t : Sides) → s +ₛ t ≡ t +ₛ s
+ₛ_comm s t = λ i. (comm s.0 t.0 i, comm s.1 t.1 i)

pub zero-+ₛ : (s : Sides) → no_sides +ₛ s ≡ s
zero-+ₛ s = λ i. (zero-+ℤ s.0 i, zero-+ℤ s.1 i)

pub +ₛ_zero : (s : Sides) → s +ₛ no_sides ≡ s
+ₛ_zero s = λ i. (+ℤ_zero s.0 i, +ℤ_zero s.1 i)

pub sums-append :
    (account : ℕ) (c : Text) (ps qs : List Posting)
    → sums account c (ps ++ qs) ≡ sums account c ps +ₛ sums account c qs
sums-append account c [] qs =
    sym (zero-+ₛ (sums account c qs)) ∙ ap (λ s. s +ₛ sums account c qs) (sym (sums-nil account c))
sums-append account c (p ∷ ps) qs =
    sums-cons account c p (ps ++ qs)
    ∙ ap (λ s. sides_of account c p +ₛ s) (sums-append account c ps qs)
    ∙ sym (+ₛ_assoc (sides_of account c p) (sums account c ps) (sums account c qs))
    ∙ ap (λ s. s +ₛ sums account c qs) (sym (sums-cons account c p ps))

pub sums-perm :
    (account : ℕ) (c : Text) {ps qs : List Posting}
    → Permᴰ ps qs
    → sums account c ps ≡ sums account c qs
sums-perm account c Permᴰ.nil = refl
sums-perm account c (Permᴰ.cons {a = p} {b = q} {l₁ = l} {l₂ = m} e d) =
    sums-cons account c p l
    ∙ (λ i. sides_of account c (e i) +ₛ sums-perm account c d i)
    ∙ sym (sums-cons account c q m)
sums-perm account c (Permᴰ.swap {a = p} {b = q} {l = l} e f) =
    sums-cons account c p (q ∷ l)
    ∙ ap (λ s. sides_of account c p +ₛ s) (sums-cons account c q l)
    ∙ sym (+ₛ_assoc (sides_of account c p) (sides_of account c q) (sums account c l))
    ∙ ap (λ s. s +ₛ sums account c l) (+ₛ_comm (sides_of account c p) (sides_of account c q))
    ∙ +ₛ_assoc (sides_of account c q) (sides_of account c p) (sums account c l)
    ∙ ap (λ s. sides_of account c q +ₛ s) (sym (sums-cons account c p l))
    ∙ sym (sums-cons account c q (p ∷ l))
    ∙ (λ i. sums account c (f i ∷ e i ∷ l))
sums-perm account c (Permᴰ.trans d e) = sums-perm account c d ∙ sums-perm account c e

pub sums-sorted :
    (account : ℕ) (c : Text) (rows : List PostingRow)
    → sums account c (map posting_of (sort_by row_before rows))
      ≡ sums account c (map posting_of rows)
sums-sorted account c rows =
    sym (sums-perm account c (map-perm posting_of (sort_by-perm row_before rows)))

-- Two tests that no row passes together share out the sums.
pub sums-split :
    (account : ℕ) (c : Text) (f g h : PostingRow → Bool) (rows : List PostingRow)
    → ((r : PostingRow) → f r ≡ (g r || h r))
    → ((r : PostingRow) → (g r && h r) ≡ false)
    → sums account c (map posting_of (select f rows))
      ≡ sums account c (map posting_of (select g rows))
        +ₛ sums account c (map posting_of (select h rows))
sums-split account c f g h [] cover apart =
    sym (ap (λ s. s +ₛ sums account c []) (sums-nil account c) ∙ zero-+ₛ (sums account c []))
sums-split account c f g h (r ∷ rs) cover apart =
    let rest = sums-split account c f g h rs cover apart in
    let one = sides_of account c (posting_of r) in
    let gs = sums account c (map posting_of (select g rs)) in
    let hs = sums account c (map posting_of (select h rs)) in
    elim (Bool-cases (g r)) [
      | inl mine ↦
          let not_h : h r ≡ false = ground (arith, apart r) in
          let in_f : f r ≡ true = ground (arith, cover r) in
          rw (mine, not_h, in_f)
            (sums-cons account c (posting_of r) (map posting_of (select f rs))
              ∙ ap (λ s. one +ₛ s) rest
              ∙ sym (+ₛ_assoc one gs hs)
              ∙ ap (λ s. s +ₛ hs)
                  (sym (sums-cons account c (posting_of r) (map posting_of (select g rs)))))
      | inr not_g ↦ elim (Bool-cases (h r)) [
        | inl mine ↦
            let in_f : f r ≡ true = ground (arith, cover r) in
            rw (mine, not_g, in_f)
              (sums-cons account c (posting_of r) (map posting_of (select f rs))
                ∙ ap (λ s. one +ₛ s) rest
                ∙ sym (+ₛ_assoc one gs hs)
                ∙ ap (λ s. s +ₛ hs) (+ₛ_comm one gs)
                ∙ +ₛ_assoc gs one hs
                ∙ ap (λ s. gs +ₛ s)
                    (sym (sums-cons account c (posting_of r) (map posting_of (select h rs)))))
        | inr not_h ↦ let out : f r ≡ false = ground (arith, cover r) in rw (not_h, not_g, out) rest
      ]
    ]
