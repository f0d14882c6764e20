-- ===== src/Money/Parsing.antt =====
-- What ParseUnits accepts and the number that it returns, against the value of a run of digits.
use ledgercore.Base.{
  ℕ, ◌+◌, ◌-◌, ◌*◌, ◌^◌, ◌≤◌, ◌<◌, ◌≡◌, refl, Bool, true, false, [], ◌∷◌, ◌++◌, Text, ℤ, pos, neg_ℤ,
  is_int64, all, if◌then◌else◌, Result, ok, err, ◌/◌, ◌%◌, ◌∙◌, sym, arith,
}
use native.Mathlib.Decide.{dec_lt}
use ledgercore.Money.{MoneyError, overflow}
use ledgercore.Money.Decimal.{parse_digits, is_digit, max_units}

-- The number that the digits spell after the number `n`.
abbrev pub digits_value : ℕ → Text → ℕ
digits_value n [] = n
digits_value n (c ∷ s) = digits_value (n * 10 + (c - b'0')) s

abbrev pub signed : Bool → ℕ → ℤ
signed negative n = if negative then neg_ℤ (pos n) else pos n

-- The signed number when it fits an int64, and an overflow otherwise.
unfoldable pub fit : ℤ → Result MoneyError ℤ
fit z = if is_int64 z then ok z else err overflow

pub digits_value_grows : (n : ℕ) (s : Text) → n ≤ digits_value n s
digits_value_grows n [] = omega arith
digits_value_grows n (c ∷ s) = omega (arith, digits_value_grows (n * 10 + (c - b'0')) s)

digits_value_mono : (m n : ℕ) (s : Text) → m ≤ n → digits_value m s ≤ digits_value n s
digits_value_mono m n [] h = h
digits_value_mono m n (c ∷ s) h =
    digits_value_mono (m * 10 + (c - b'0')) (n * 10 + (c - b'0')) s (omega arith)

pub digits_value-append :
    (n : ℕ) (xs ys : Text) → digits_value n (xs ++ ys) ≡ digits_value (digits_value n xs) ys
digits_value-append n [] ys = refl
digits_value-append n (c ∷ xs) ys = digits_value-append (n * 10 + (c - b'0')) xs ys

-- What is far above the largest int64 fits with neither sign.
fit_far : (negative : Bool) (n : ℕ) → 2 ^ 63 < n → fit (signed negative n) ≡ err overflow
unfolding fit
fit_far true n h = ground arith
fit_far false n h = ground arith

-- The test before the multiplication.
parse_digits_high :
    (negative : Bool) (n c : ℕ) (s : Text)
    → max_units / 10 < n
    → parse_digits negative n (c ∷ s) ≡ err overflow
unfolding parse_digits
parse_digits_high negative n c s h = ground arith

-- The test before the addition, at the last digit and before it.
parse_digits_last :
    (negative : Bool) (n c : ℕ)
    → n ≤ max_units / 10
    → is_digit c ≡ true
    → max_units < n * 10 + (c - b'0')
    → parse_digits negative n (c ∷ []) ≡ fit (signed negative (n * 10 + (c - b'0')))
unfolding parse_digits fit
parse_digits_last true n c h d k = ground arith
parse_digits_last false n c h d k = ground arith

parse_digits_more :
    (negative : Bool) (n c b : ℕ) (s : Text)
    → n ≤ max_units / 10
    → is_digit c ≡ true
    → max_units < n * 10 + (c - b'0')
    → parse_digits negative n (c ∷ b ∷ s) ≡ err overflow
unfolding parse_digits
parse_digits_more negative n c b s h d k = ground arith

parse_digits_step :
    (negative : Bool) (n c : ℕ) (s : Text)
    → is_digit c ≡ true
    → n * 10 + (c - b'0') ≤ max_units
    → parse_digits negative n (c ∷ s) ≡ parse_digits negative (n * 10 + (c - b'0')) s
unfolding parse_digits
parse_digits_step negative n c s d k =
    let e : ((n * 10) % 2 ^ 64 + (c - b'0')) % 2 ^ 64 ≡ n * 10 + (c - b'0') = omega arith in
    rw e (ground arith)

pub digits_head : (c : ℕ) (s : Text) → all is_digit (c ∷ s) ≡ true → is_digit c ≡ true
digits_head c s h = ground arith

digits_tail : (c : ℕ) (s : Text) → all is_digit (c ∷ s) ≡ true → all is_digit s ≡ true
digits_tail c s h = ground arith

-- Past the largest int64 nothing that follows brings the number back.
parse_digits_over :
    (negative : Bool) (n c : ℕ) (s : Text)
    → n ≤ max_units / 10
    → is_digit c ≡ true
    → max_units < n * 10 + (c - b'0')
    → parse_digits negative n (c ∷ s) ≡ fit (signed negative (digits_value n (c ∷ s)))
parse_digits_over negative n c [] h d k = parse_digits_last negative n c h d k
parse_digits_over negative n c (b ∷ s) h d k =
    parse_digits_more negative n c b s h d k
    ∙ sym (
        fit_far negative (digits_value n (c ∷ b ∷ s))
          (omega (arith, digits_value_grows ((n * 10 + (c - b'0')) * 10 + (b - b'0')) s)))

-- On a text of digits, from a number of at most the largest int64 on, the loop computes the number
-- that the digits spell after it, and overflows exactly when that does not fit an int64 with its
-- sign.
pub parse_digits_exact :
    (negative : Bool) (n : ℕ) (s : Text)
    → n ≤ max_units
    → all is_digit s ≡ true
    → parse_digits negative n s ≡ fit (signed negative (digits_value n s))
unfolding parse_digits fit
parse_digits_exact true n [] h d = ground arith
parse_digits_exact false n [] h d = ground arith
parse_digits_exact negative n (c ∷ s) h d = elim (dec_lt (max_units / 10) n) [
  | yes high ↦
      parse_digits_high negative n c s high
      ∙ sym (
          fit_far negative (digits_value n (c ∷ s))
            (omega (arith, digits_value_grows (n * 10 + (c - b'0')) s)))
  | no low ↦ elim (dec_lt max_units (n * 10 + (c - b'0'))) [
    | yes over ↦ parse_digits_over negative n c s (omega arith) (digits_head c s d) over
    | no fits ↦
        parse_digits_step negative n c s (digits_head c s d) (omega arith)
        ∙ parse_digits_exact negative (n * 10 + (c - b'0')) s (omega arith) (digits_tail c s d)
  ]
]
