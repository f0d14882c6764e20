-- ===== src/Base/Keys.antt =====
-- Lists of keys without repetition, and membership as data.
use Prim.Native.Nat.{ℕ}
use mathlib.Core.Path.{◌≡◌, refl, sym, ap, ◌∙◌, subst}
use mathlib.Core.Logic.{◌≢◌, inl, inr}
use mathlib.Core.Bool.{Bool, true, false}
use mathlib.Core.List.Memᴰ as MemD
use mathlib.Core.List.{List, [], ◌∷◌, Memᴰ, Permᴰ, map}
use ledgercore.Base.Tests.{Bool-cases}
use ledgercore.Base.Lists.{All, select}

abbrev pub Distinct : List ℕ → Type 0
Distinct [] = Unit
Distinct (x ∷ xs) = All (λ y. x ≢ y) xs × Distinct xs

module _ {ℓ} {A : Type ℓ} where
  pub All-mem {κ} : (P : A → Type κ) (xs : List A) {a : A} → All P xs → Memᴰ a xs → P a
  All-mem P [] h m = elim m [ ]
  All-mem P (x ∷ xs) h (Memᴰ.head e) = rw e h.0
  All-mem P (x ∷ xs) h (Memᴰ.tail m) = All-mem P xs h.1 m

  pub All-of_mem {κ} : (P : A → Type κ) (xs : List A) → ((a : A) → Memᴰ a xs → P a) → All P xs
  All-of_mem P [] h = tt
  All-of_mem P (x ∷ xs) h = (h x (Memᴰ.head refl), All-of_mem P xs (λ a m. h a (Memᴰ.tail m)))

  pub mem-map {κ} :
      {B : Type κ} (f : A → B) (xs : List A) {a : A} → Memᴰ a xs → Memᴰ (f a) (map f xs)
  mem-map f [] m = elim m [ ]
  mem-map f (x ∷ xs) (Memᴰ.head e) = Memᴰ.head (ap f e)
  mem-map f (x ∷ xs) (Memᴰ.tail m) = Memᴰ.tail (mem-map f xs m)

module _ {ℓ} {A : Type ℓ} where
  -- Elements with distinct keys are told apart by their keys.
  pub key_injective :
      (key : A → ℕ) (xs : List A) {a b : A}
      → Distinct (map key xs)
      → Memᴰ a xs
      → Memᴰ b xs
      → key a ≡ key b
      → a ≡ b
  key_injective key [] h m n same = elim m [ ]
  key_injective key (x ∷ xs) h (Memᴰ.head e) (Memᴰ.head f) same = e ∙ sym f
  key_injective key (x ∷ xs) h (Memᴰ.head e) (Memᴰ.tail n) same =
      absurd (All-mem (λ y. key x ≢ y) (map key xs) h.0 (mem-map key xs n) (ap key (sym e) ∙ same))
  key_injective key (x ∷ xs) h (Memᴰ.tail m) (Memᴰ.head f) same =
      absurd
        (All-mem (λ y. key x ≢ y) (map key xs) h.0 (mem-map key xs m) (ap key (sym f) ∙ sym same))
  key_injective key (x ∷ xs) {a} {b} h (Memᴰ.tail m) (Memᴰ.tail n) same =
      key_injective key xs {a = a} {b = b} h.1 m n same

  pub All-map {κ μ} :
      {B : Type κ} (P : B → Type μ) (f : A → B) (xs : List A)
      → All (λ x. P (f x)) xs
      → All P (map f xs)
  All-map P f [] h = tt
  All-map P f (x ∷ xs) h = (h.0, All-map P f xs h.1)

  pub All-unmap {κ μ} :
      {B : Type κ} (P : B → Type μ) (f : A → B) (xs : List A)
      → All P (map f xs)
      → All (λ x. P (f x)) xs
  All-unmap P f [] h = tt
  All-unmap P f (x ∷ xs) h = (h.0, All-unmap P f xs h.1)

module _ {ℓ} {A : Type ℓ} where
  -- What a member of a list made from another says of that other.
  pub mem-select :
      (p : A → Bool) (xs : List A) {a : A} → Memᴰ a (select p xs) → Memᴰ a xs × (p a ≡ true)
  mem-select p [] m = elim m [ ]
  mem-select p (x ∷ xs) {a} m = elim (Bool-cases (p x)) [
    | inl e ↦ elim (MemD.cases_cons (subst (λ l. Memᴰ a l) (kept e) m)) [
      | inl here ↦ (Memᴰ.head here, ap p here ∙ e)
      | inr there ↦ let (found, holds) = mem-select p xs {a = a} there in (Memᴰ.tail found, holds)
    ]
    | inr e ↦
        let (found, holds) = mem-select p xs {a = a} (subst (λ l. Memᴰ a l) (left_out e) m) in
        (Memᴰ.tail found, holds)
  ]
    where
      kept : p x ≡ true → select p (x ∷ xs) ≡ x ∷ select p xs
      kept e = rw e refl

      left_out : p x ≡ false → select p (x ∷ xs) ≡ select p xs
      left_out e = rw e refl

  pub select-mem :
      (p : A → Bool) (xs : List A) {a : A} → Memᴰ a xs → p a ≡ true → Memᴰ a (select p xs)
  select-mem p [] m h = elim m [ ]
  select-mem p (x ∷ xs) (Memᴰ.head e) h = rw (sym (ap p e) ∙ h) (Memᴰ.head e)
  select-mem p (x ∷ xs) {a} (Memᴰ.tail m) h = elim (Bool-cases (p x)) [
    | inl e ↦ rw e (Memᴰ.tail (select-mem p xs {a = a} m h))
    | inr e ↦ rw e (select-mem p xs {a = a} m h)
  ]

  pub mem-unmap {κ} :
      {B : Type κ} (f : A → B) (xs : List A) {b : B}
      → Memᴰ b (map f xs)
      → (a : A) × Memᴰ a xs × (b ≡ f a)
  mem-unmap f [] m = elim m [ ]
  mem-unmap f (x ∷ xs) (Memᴰ.head e) = (x, Memᴰ.head refl, e)
  mem-unmap f (x ∷ xs) (Memᴰ.tail m) =
      let (a, found, e) = mem-unmap f xs m in (a, Memᴰ.tail found, e)

  pub mem-perm : {xs ys : List A} {a : A} → Permᴰ xs ys → Memᴰ a xs → Memᴰ a ys
  mem-perm Permᴰ.nil m = m
  mem-perm (Permᴰ.cons e d) (Memᴰ.head f) = Memᴰ.head (f ∙ e)
  mem-perm {a} (Permᴰ.cons e d) (Memᴰ.tail m) = Memᴰ.tail (mem-perm {a = a} d m)
  mem-perm (Permᴰ.swap e f) (Memᴰ.head g) = Memᴰ.tail (Memᴰ.head (g ∙ e))
  mem-perm (Permᴰ.swap e f) (Memᴰ.tail (Memᴰ.head g)) = Memᴰ.head (g ∙ f)
  mem-perm (Permᴰ.swap e f) (Memᴰ.tail (Memᴰ.tail m)) = Memᴰ.tail (Memᴰ.tail m)
  mem-perm {a} (Permᴰ.trans c d) m = mem-perm {a = a} d (mem-perm {a = a} c m)

  pub All-perm {κ} : (P : A → Type κ) {xs ys : List A} → Permᴰ xs ys → All P xs → All P ys
  All-perm P Permᴰ.nil h = h
  All-perm P (Permᴰ.cons e d) h = (subst P e h.0, All-perm P d h.1)
  All-perm P (Permᴰ.swap e f) h = (subst P f h.1.0, (subst P e h.0, h.1.1))
  All-perm P (Permᴰ.trans c d) h = All-perm P d (All-perm P c h)

  pub All-select {κ} :
      (P : A → Type κ) (p : A → Bool) (xs : List A) → All P xs → All P (select p xs)
  All-select P p [] h = tt
  All-select P p (x ∷ xs) h = elim (Bool-cases (p x)) [
    | inl e ↦ rw e (h.0, All-select P p xs h.1)
    | inr e ↦ rw e (All-select P p xs h.1)
  ]

pub Distinct-perm : {xs ys : List ℕ} → Permᴰ xs ys → Distinct xs → Distinct ys
Distinct-perm Permᴰ.nil h = h
Distinct-perm (Permᴰ.cons {a = a} {b = b} {l₁ = l} {l₂ = m} e d) h =
    (subst (λ x. All (λ y. x ≢ y) m) e (All-perm (λ y. a ≢ y) d h.0), Distinct-perm d h.1)
Distinct-perm (Permᴰ.swap {a = a} {b = b} {a' = c} {b' = d} {l = l} e f) h = (
  ((λ same. h.0.0 (e ∙ sym same ∙ sym f)), subst (λ x. All (λ y. x ≢ y) l) f h.1.0),
  (subst (λ x. All (λ y. x ≢ y) l) e h.0.1, h.1.1),
)
Distinct-perm (Permᴰ.trans c d) h = Distinct-perm d (Distinct-perm c h)

pub Distinct-select :
    {A : Type 0} (key : A → ℕ) (p : A → Bool) (xs : List A)
    → Distinct (map key xs)
    → Distinct (map key (select p xs))
Distinct-select key p [] h = tt
Distinct-select key p (x ∷ xs) h = elim (Bool-cases (p x)) [
  | inl e ↦ rw e (
    All-map (λ y. key x ≢ y) key (select p xs)
        (All-select (λ a. key x ≢ key a) p xs (All-unmap (λ y. key x ≢ y) key xs h.0)),
    Distinct-select key p xs h.1,
  )
  | inr e ↦ rw e (Distinct-select key p xs h.1)
]

pub map-perm {ℓ κ} :
    {A : Type ℓ} {B : Type κ} (f : A → B) {xs ys : List A}
    → Permᴰ xs ys
    → Permᴰ (map f xs) (map f ys)
map-perm f Permᴰ.nil = Permᴰ.nil
map-perm f (Permᴰ.cons e d) = Permᴰ.cons (ap f e) (map-perm f d)
map-perm f (Permᴰ.swap e g) = Permᴰ.swap (ap f e) (ap f g)
map-perm f (Permᴰ.trans c d) = Permᴰ.trans (map-perm f c) (map-perm f d)
