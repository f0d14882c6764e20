-- ===== src/Money/Printing.antt =====
-- Lemmas on the digits that FormatWithExponent prints.
use ledgercore.Base.{
  ℕ, zero, suc, ◌+◌, ◌-◌, ◌/◌, ◌%◌, ◌<◌, ◌≡◌, refl, ◌∙◌, inl, inr, true, [], ◌∷◌, ◌++◌, Text, ℤ,
  ◌+ℤ◌, wrap64, pos_part, neg_part, IsInt64, ltb, leb, length, all, all-append, length-append,
  length-replicate, replicate, Bool-cases, arith,
}
use ledgercore.Money.Decimal.{decimal, decimal_fuel, magnitude, is_digit, pad_left}
use ledgercore.Money.Parsing.{digits_value, digits_value-append}

pub all_digits_append :
    (xs ys : Text)
    → all is_digit xs ≡ true
    → all is_digit ys ≡ true
    → all is_digit (xs ++ ys) ≡ true
all_digits_append xs ys h k = rw (all-append is_digit xs ys) (ground arith)

digit_of : (n : ℕ) → n < 10 → (is_digit (n + b'0') ≡ true) × (n + b'0' - b'0' ≡ n)
digit_of n h = (ground arith, omega arith)

decimal_fuel-digits : (fuel n : ℕ) → all is_digit (decimal_fuel fuel n) ≡ true
unfolding decimal_fuel
decimal_fuel-digits zero n = refl
decimal_fuel-digits (suc fuel) n = elim (Bool-cases (ltb n 10)) [
  | inl last ↦ rw last (ground arith)
  | inr more ↦ rw more (
      all_digits_append (decimal_fuel fuel (n / 10)) ((n % 10 + b'0') ∷ [])
        (decimal_fuel-digits fuel (n / 10)) (ground arith))
]

decimal_fuel-value : (fuel n : ℕ) → n < fuel → digits_value 0 (decimal_fuel fuel n) ≡ n
unfolding decimal_fuel
decimal_fuel-value zero n h = absurd (omega arith)
decimal_fuel-value (suc fuel) n h = elim (Bool-cases (ltb n 10)) [
  | inl last ↦ rw last (omega arith)
  | inr more ↦ rw more (
      digits_value-append 0 (decimal_fuel fuel (n / 10)) ((n % 10 + b'0') ∷ [])
      ∙ (rw (decimal_fuel-value fuel (n / 10) (ground arith)) (omega arith)))
]

decimal_fuel-length : (fuel n : ℕ) → 0 < length (decimal_fuel (suc fuel) n)
unfolding decimal_fuel
decimal_fuel-length fuel n = elim (Bool-cases (ltb n 10)) [
  | inl last ↦ rw last (omega arith)
  | inr more ↦
      rw more (omega (arith, length-append (decimal_fuel fuel (n / 10)) ((n % 10 + b'0') ∷ [])))
]

pub decimal-digits : (n : ℕ) → all is_digit (decimal n) ≡ true
unfolding decimal
decimal-digits n = decimal_fuel-digits (suc n) n

pub decimal-value : (n : ℕ) → digits_value 0 (decimal n) ≡ n
unfolding decimal
decimal-value n = decimal_fuel-value (suc n) n (omega arith)

pub decimal-length : (n : ℕ) → 0 < length (decimal n)
unfolding decimal
decimal-length n = decimal_fuel-length n n

pub zeros-digits : (k : ℕ) → all is_digit (replicate k b'0') ≡ true
zeros-digits zero = refl
zeros-digits (suc k) = zeros-digits k

zeros-value : (k : ℕ) (s : Text) → digits_value 0 (replicate k b'0' ++ s) ≡ digits_value 0 s
zeros-value zero s = refl
zeros-value (suc k) s = zeros-value k s

pub pad_left-digits :
    (e : ℕ) (s : Text) → all is_digit s ≡ true → all is_digit (pad_left e s) ≡ true
pad_left-digits e s h = elim (Bool-cases (leb (length s) e)) [
  | inl short ↦
      rw short (
        all_digits_append (replicate (e - length s + 1) b'0') s (zeros-digits (e - length s + 1)) h)
  | inr long ↦ rw long h
]

pub pad_left-value : (e : ℕ) (s : Text) → digits_value 0 (pad_left e s) ≡ digits_value 0 s
pad_left-value e s = elim (Bool-cases (leb (length s) e)) [
  | inl short ↦ rw short (zeros-value (e - length s + 1) s)
  | inr long ↦ rw long
]

pub pad_left-length : (e : ℕ) (s : Text) → e < length (pad_left e s)
pad_left-length e s = elim (Bool-cases (leb (length s) e)) [
  | inl short ↦ rw short (
      omega (
        arith,
        length-append (replicate (e - length s + 1) b'0') s,
        length-replicate {A = ℕ} (e - length s + 1) b'0',
      ))
  | inr long ↦ rw long (ground arith)
]

pub magnitude_lem : (u : ℤ) → IsInt64 u → magnitude u ≡ pos_part u + neg_part u
unfolding magnitude ◌+ℤ◌ wrap64
magnitude_lem u h = ground arith
