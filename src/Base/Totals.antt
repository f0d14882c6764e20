-- ===== src/Base/Totals.antt =====
-- Exact sums over lists: their order, their exchange, and sums in which one key counts.
use ledgercore.Base.Tests.{◌==◌, ==_iff, if◌then◌else◌, Bool-cases}
use ledgercore.Base.Int.{ℤ, pos, ◌+ℤ◌, +ℤ_assoc, +ℤ_comm, +ℤ_zero, zero-+ℤ, int_laws}
use ledgercore.Base.Lists.{All, find?}
use ledgercore.Base.Keys.{Distinct}
use Prim.Native.Nat.{ℕ}
use mathlib.Core.Path.{◌≡◌, refl, sym, ap, ◌∙◌, subst}
use mathlib.Core.Logic.{◌≢◌, inl, inr}
use native.Mathlib.Omega.{arith}
use mathlib.Core.List.{List, [], ◌∷◌, map, Permᴰ}
use mathlib.Core.Option.{some}

module _ {A : Type 0} where
  unfoldable pub total : (A → ℤ) → List A → ℤ
  total f [] = pos 0
  total f (x ∷ xs) = f x +ℤ total f xs

  pub total-zero : (xs : List A) → total (λ x. pos 0) xs ≡ pos 0
  unfolding total
  total-zero [] = refl
  total-zero (x ∷ xs) = zero-+ℤ (total (λ x. pos 0) xs) ∙ total-zero xs

  pub total-ext : (f g : A → ℤ) (xs : List A) → All (λ x. f x ≡ g x) xs → total f xs ≡ total g xs
  unfolding total
  total-ext f g [] h = refl
  total-ext f g (x ∷ xs) h = λ i. h.0 i +ℤ total-ext f g xs h.1 i

  pub total-add :
      (f g : A → ℤ) (xs : List A) → total (λ x. f x +ℤ g x) xs ≡ total f xs +ℤ total g xs
  unfolding total
  total-add f g [] = omega int_laws
  total-add f g (x ∷ xs) = ap (λ n. f x +ℤ g x +ℤ n) (total-add f g xs) ∙ omega int_laws

  pub total-perm : (f : A → ℤ) {xs ys : List A} → Permᴰ xs ys → total f xs ≡ total f ys
  unfolding total
  total-perm f Permᴰ.nil = refl
  total-perm f (Permᴰ.cons e d) = λ i. f (e i) +ℤ total-perm f d i
  total-perm f (Permᴰ.swap {a = a} {b = b} {l = l} e g) =
      sym (+ℤ_assoc (f a) (f b) (total f l))
      ∙ (λ i. +ℤ_comm (f a) (f b) i +ℤ total f l)
      ∙ +ℤ_assoc (f b) (f a) (total f l)
      ∙ (λ i. f (g i) +ℤ (f (e i) +ℤ total f l))
  total-perm f (Permᴰ.trans d e) = total-perm f d ∙ total-perm f e

pub total-map :
    {A B : Type 0} (f : B → ℤ) (g : A → B) (xs : List A)
    → total f (map g xs) ≡ total (λ x. f (g x)) xs
unfolding total
total-map f g [] = refl
total-map f g (x ∷ xs) = ap (λ n. f (g x) +ℤ n) (total-map f g xs)

-- The sums of a table by rows and by columns.
pub total-swap :
    {A B : Type 0} (h : A → B → ℤ) (xs : List A) (ys : List B)
    → total (λ x. total (h x) ys) xs ≡ total (λ y. total (λ x. h x y) xs) ys
unfolding total
total-swap h [] ys = sym (total-zero ys)
total-swap h (x ∷ xs) ys =
    ap (λ n. total (h x) ys +ℤ n) (total-swap h xs ys)
    ∙ sym (total-add (h x) (λ y. total (λ x. h x y) xs) ys)

-- Under distinct keys, the one element of a key gives the sum.
module _ {A : Type 0} (key : A → ℕ) (v : A → ℤ) (k : ℕ) where
  none_counts :
      (xs : List A)
      → All (λ j. k ≢ j) (map key xs)
      → total (λ x. if key x == k then v x else pos 0) xs ≡ pos 0
  unfolding total
  none_counts [] h = refl
  none_counts (x ∷ xs) h = elim (Bool-cases (key x == k)) [
    | inl e ↦ absurd (h.0 (sym ((==_iff (key x) k).0 e)))
    | inr e ↦
        rw e (zero-+ℤ (total (λ x. if key x == k then v x else pos 0) xs) ∙ none_counts xs h.1)
  ]

  pub one_counts :
      (xs : List A) {y : A}
      → find? (λ (x : A). key x == k) xs ≡ some y
      → Distinct (map key xs)
      → total (λ x. if key x == k then v x else pos 0) xs ≡ v y
  unfolding total
  one_counts [] h d = cc
  one_counts (x ∷ xs) {y} h d = elim (Bool-cases (key x == k)) [
    | inl e ↦
        let same : x ≡ y = ground (arith, h, e) in
        let own : key x ≡ k = (==_iff (key x) k).0 e in
        rw e (
          ap (λ n. v x +ℤ n) (none_counts xs (subst (λ j. All (λ i. j ≢ i) (map key xs)) own d.0))
          ∙ +ℤ_zero (v x)
          ∙ ap v same)
    | inr e ↦ rw e (
        zero-+ℤ (total (λ x. if key x == k then v x else pos 0) xs)
        ∙ one_counts xs {y = y} (ground (arith, h, e)) d.1)
  ]
