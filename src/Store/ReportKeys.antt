-- ===== src/Store/ReportKeys.antt =====
-- services/ledger-core/internal/adapters/postgres/store.go: the keys that VerifyBalances lists.
use ledgercore.Base.{
  ℕ, ==_iff, ◌≡◌, ap, ◌∙◌, true, List, [], ◌∷◌, ◌++◌, Text, text_eq→eq, any, Bool-cases, inl, inr,
  arith,
}
use mathlib.Core.List.{Memᴰ}
use ledgercore.Store.Reports.{same_key, once}

pub same_key→eq : (k l : ℕ × Text) → same_key k l ≡ true → k ≡ l
same_key→eq k l h =
    let number : k.0 ≡ l.0 = (==_iff k.0 l.0).0 (ground (arith, h)) in
    let text : k.1 ≡ l.1 = text_eq→eq k.1 l.1 (ground (arith, h)) in λ i. (number i, text i)

pub any-once :
    (k : ℕ × Text) (ks : List (ℕ × Text))
    → any (same_key k) ks ≡ true
    → any (same_key k) (once ks) ≡ true
unfolding once
any-once k [] h = h
any-once k (l ∷ ks) h = elim (Bool-cases (any (same_key l) ks)) [
  | inl again ↦ rw again (
      any-once k ks (elim (Bool-cases (same_key k l)) [
        | inl same ↦ ap (λ x. any (same_key x) ks) (same_key→eq k l same) ∙ again
        | inr other ↦ ground (arith, h, other)
      ]))
  | inr new ↦ rw new (ground (arith, h, any-once k ks))
]

pub any-member : (k : ℕ × Text) (ks : List (ℕ × Text)) → any (same_key k) ks ≡ true → Memᴰ k ks
any-member k [] h = cc
any-member k (l ∷ ks) h = elim (Bool-cases (same_key k l)) [
  | inl same ↦ Memᴰ.head (same_key→eq k l same)
  | inr other ↦ Memᴰ.tail (any-member k ks (ground (arith, h, other)))
]

pub any-right :
    (k : ℕ × Text) (ks ls : List (ℕ × Text))
    → any (same_key k) ls ≡ true
    → any (same_key k) (ks ++ ls) ≡ true
any-right k [] ls h = h
any-right k (x ∷ ks) ls h = ground (arith, any-right k ks ls h)

pub any-left :
    (k : ℕ × Text) (ks ls : List (ℕ × Text))
    → any (same_key k) ks ≡ true
    → any (same_key k) (ks ++ ls) ≡ true
any-left k [] ls h = cc
any-left k (x ∷ ks) ls h = ground (arith, h, any-left k ks ls)
