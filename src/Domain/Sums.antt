-- ===== src/Domain/Sums.antt =====
-- The maps of ValidateBalanced as functions from asset codes to sums.
use ledgercore.Base.{
  ◌≡◌, refl, ◌∙◌, sym, inl, inr, Bool, true, [], ◌∷◌, none, some, Text, text_eq, text_eq_iff,
  text_eq_self, text_eq→eq, ℤ, pos, ◌+ℤ◌, ◌≤ℤ◌, ◌<ℤ◌, is_int64, max_int64, min_int64, all,
  if◌then◌else◌, subst, some_injective, ◌>>=◌, ok-injective, err-ne-ok, ok, err, Bool-cases,
  Option-cases, int_laws, arith,
}
use ledgercore.Money.{Amount, overflow}
use ledgercore.Money.Arithmetic.{checked, add_exact}
use ledgercore.Domain.{money}
use ledgercore.Domain.Postings.{AmountMap, lookup, insert, current, lift, accumulate}

-- Every entry is a positive int64 under its own code, and no code stands twice.
abbrev pub IsSums : AmountMap → Type 0
IsSums [] = Unit
IsSums ((k, a) ∷ m) =
    (pos 0 <ℤ a.units) × (a.units ≤ℤ max_int64) × (a.asset ≡ k) × (lookup k m ≡ none) × IsSums m

-- The sum under a code, zero where the map has no entry.
pub units_at : AmountMap → Text → ℤ
units_at m k = (current m k).units

pub lookup-insert :
    (k j : Text) (a : Amount) (m : AmountMap)
    → lookup j (insert k a m) ≡ (if text_eq k j then some a else lookup j m)
unfolding lookup insert
lookup-insert k j a [] = refl
lookup-insert k j a ((i, b) ∷ m) =
    ground (arith, text_eq_iff k j, text_eq_iff i k, text_eq_iff i j, lookup-insert k j a m)

pub units_at-insert :
    (k j : Text) (a : Amount) (m : AmountMap)
    → units_at (insert k a m) j ≡ (if text_eq k j then a.units else units_at m j)
unfolding units_at current
units_at-insert k j a m = elim (Bool-cases (text_eq k j)) [
  | inl same ↦ rw (lookup-insert k j a m, units_at, current) (rw same)
  | inr other ↦ rw (lookup-insert k j a m, units_at, current) (rw other)
]

pub lookup_nil : (k : Text) → lookup k [] ≡ none
unfolding lookup
lookup_nil k = refl

pub insert-IsSums :
    (k : Text) (a : Amount) (m : AmountMap)
    → IsSums m
    → pos 0 <ℤ a.units
    → a.units ≤ℤ max_int64
    → a.asset ≡ k
    → IsSums (insert k a m)
unfolding insert
insert-IsSums k a [] h p b e = (p, b, e, lookup_nil k, tt)
insert-IsSums k a ((j, c) ∷ m) h p b e = elim (Bool-cases (text_eq j k)) [
  | inl same ↦ rw same (p, b, e ∙ sym (text_eq→eq j k same), h.3, h.4)
  | inr other ↦ rw other (
    h.0,
    h.1,
    h.2,
    ground (arith, lookup-insert k j a m, text_eq_iff k j, text_eq_iff j k),
    insert-IsSums k a m h.4 p b e,
  )
]

pub lookup-IsSums :
    (k : Text) (a : Amount) (m : AmountMap)
    → IsSums m
    → lookup k m ≡ some a
    → (pos 0 <ℤ a.units) × (a.units ≤ℤ max_int64) × (a.asset ≡ k)
unfolding lookup
lookup-IsSums k a [] h e = cc
lookup-IsSums k a ((j, c) ∷ m) h e = ground (arith, text_eq_iff j k, lookup-IsSums k a m h.4)

pub units_at_range :
    (m : AmountMap) (k : Text) → IsSums m → (pos 0 ≤ℤ units_at m k) × (units_at m k ≤ℤ max_int64)
unfolding units_at current
units_at_range m k h = elim (Option-cases (lookup k m)) [
  | inl missing ↦ rw (missing, units_at, current) (omega arith)
  | inr (a, e) ↦ rw (e, units_at, current) (let f = lookup-IsSums k a m h e in omega arith)
]

pub current-asset : (m : AmountMap) (k : Text) → IsSums m → (current m k).asset ≡ k
unfolding current
current-asset m k h = elim (Option-cases (lookup k m)) [
  | inl missing ↦ rw (missing, current)
  | inr (a, e) ↦ rw (e, current) (lookup-IsSums k a m h e).2
]

lift_checked :
    (asset : Text) (n : ℤ) (f : Amount → AmountMap)
    → (lift (checked asset n) >>= λ sum. ok (f sum))
      ≡ (if is_int64 n then ok (f (record { asset = asset; units = n })) else err (money overflow))
lift_checked asset n f = elim (Bool-cases (is_int64 n)) [ inl fits ↦ rw fits | inr over ↦ rw over ]

-- One step of the loop adds to the sum under its code, or overflows.
pub accumulate_lem :
    (m : AmountMap) (a : Amount)
    → IsSums m
    → pos 0 <ℤ a.units
    → a.units ≤ℤ max_int64
    → accumulate m a ≡ (
        let sum = units_at m a.asset +ℤ a.units in
        if is_int64 sum
        then ok (insert a.asset (record { asset = a.asset; units = sum }) m)
        else err (money overflow))
unfolding accumulate units_at
accumulate_lem m a h p b =
    let range = units_at_range m a.asset h in
    let same = current-asset m a.asset h in
    let exact = add_exact (current m a.asset) a (omega arith) (omega arith) in
    rw exact (
      rw same (
        rw (text_eq_self a.asset)
          (lift_checked a.asset (units_at m a.asset +ℤ a.units) (λ sum. insert a.asset sum m))))

pub units_at-none : (m : AmountMap) (k : Text) → lookup k m ≡ none → units_at m k ≡ pos 0
unfolding units_at current
units_at-none m k e = rw (e, units_at, current)

pub units_at-some :
    (m : AmountMap) (k : Text) (a : Amount) → lookup k m ≡ some a → units_at m k ≡ a.units
unfolding units_at current
units_at-some m k a e = rw (e, units_at, current)

-- The two loops over the maps compare the sums under every code.
pub matched_all :
    (f : Text × Amount → Bool) (m : AmountMap) (k : Text) (a : Amount)
    → all f m ≡ true
    → lookup k m ≡ some a
    → f (k, a) ≡ true
unfolding lookup
matched_all f [] k a h e = cc
matched_all f ((j, b) ∷ m) k a h e = elim (Bool-cases (text_eq j k)) [
  | inl same ↦
      let head : f (j, b) ≡ true = ground arith in
      rw (← text_eq→eq j k same)
        (let found : b ≡ a = some_injective (rw same at e) in rw (← found) head)
  | inr other ↦ matched_all f m k a (ground arith) (rw other at e)
]

pub all_matched :
    (f : Text × Amount → Bool) (m : AmountMap)
    → IsSums m
    → ((k : Text) (a : Amount) → lookup k m ≡ some a → f (k, a) ≡ true)
    → all f m ≡ true
unfolding lookup
all_matched f [] h g = refl
all_matched f ((j, b) ∷ m) h g =
    rw (g j b (rw (text_eq_self j)))
      (all_matched f m h.4 (λ k a e. g k a (ground (arith, text_eq_iff j k))))

-- The map has grown by an amount under one code.
abbrev pub Grown : AmountMap → AmountMap → Text → ℤ → Type 0
Grown m m' k n =
    IsSums m' × ((a : Text) → units_at m' a ≡ units_at m a +ℤ (if text_eq k a then n else pos 0))

pub Grown-zero : (m : AmountMap) (k : Text) → IsSums m → Grown m m k (pos 0)
Grown-zero m k h = (
  h,
  λ a. elim (Bool-cases (text_eq k a)) [
    | inl same ↦ rw same (omega int_laws)
    | inr other ↦ rw other (omega int_laws)
  ],
)

insert-Grown :
    (m : AmountMap) (k : Text) (n : ℤ)
    → IsSums m
    → pos 0 <ℤ n
    → units_at m k +ℤ n ≤ℤ max_int64
    → Grown m (insert k (record { asset = k; units = units_at m k +ℤ n }) m) k n
insert-Grown m k n h p b = (
  insert-IsSums k (record { asset = k; units = units_at m k +ℤ n }) m h
      (let range = units_at_range m k h in omega int_laws) b refl,
  λ a.
      rw (units_at-insert k a (record { asset = k; units = units_at m k +ℤ n }) m)
        (elim (Bool-cases (text_eq k a)) [
          | inl same ↦ rw (same) (rw (text_eq→eq k a same))
          | inr other ↦ rw other (omega int_laws)
        ]),
)

pub accumulate-Grown :
    (m m' : AmountMap) (x : Amount)
    → IsSums m
    → pos 0 <ℤ x.units
    → x.units ≤ℤ max_int64
    → accumulate m x ≡ ok m'
    → Grown m m' x.asset x.units
accumulate-Grown m m' x h p b e =
    let step = sym (accumulate_lem m x h p b) ∙ e in
    elim (Bool-cases (is_int64 (units_at m x.asset +ℤ x.units))) [
      | inl fits ↦
          subst (λ t. Grown m t x.asset x.units) (ok-injective (rw fits at step))
            (insert-Grown m x.asset x.units h p (ground arith))
      | inr over ↦ absurd (err-ne-ok (rw over at step))
    ]

pub accumulate_total :
    (m : AmountMap) (x : Amount)
    → IsSums m
    → pos 0 <ℤ x.units
    → x.units ≤ℤ max_int64
    → units_at m x.asset +ℤ x.units ≤ℤ max_int64
    → (m' : AmountMap) × (accumulate m x ≡ ok m')
accumulate_total m x h p b le =
    let range = units_at_range m x.asset h in
    let low : min_int64 ≤ℤ units_at m x.asset +ℤ x.units = omega int_laws in
    let fits : is_int64 (units_at m x.asset +ℤ x.units) ≡ true = ground arith in
    (
      insert x.asset (record { asset = x.asset; units = units_at m x.asset +ℤ x.units }) m,
      accumulate_lem m x h p b ∙ (rw fits),
    )
