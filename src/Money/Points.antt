-- ===== src/Money/Points.antt =====
-- ParseUnits on texts of digits with and without a point.
use ledgercore.Base.{
  ℕ, suc, ◌+◌, ◌-◌, ◌≤◌, ◌<◌, ◌≡◌, refl, ◌∙◌, ap, Bool, true, false, none, some, [], ◌∷◌, ◌++◌,
  Text, ℤ, pos, ltb, ltb_ℤ, length, all, take, drop, replicate, arith, ok,
}
use ledgercore.Money.Decimal.{
  is_digit, index_byte, strip_sign, or_zero, parse_parts, split_point, is_point, is_empty,
  parse_unsigned, parse_units,
}
use ledgercore.Money.Parsing.{digits_value, digits_head, parse_digits_exact, fit, signed}
use ledgercore.Money.Printing.{all_digits_append, zeros-digits}

index_byte-none : (s : Text) → all is_digit s ≡ true → index_byte s b'.' ≡ none
unfolding index_byte
index_byte-none [] h = refl
index_byte-none (c ∷ s) h = ground (arith, index_byte-none s)

index_byte-append :
    (xs ys : Text) → all is_digit xs ≡ true → index_byte (xs ++ b'.' ∷ ys) b'.' ≡ some (length xs)
unfolding index_byte
index_byte-append [] ys h = refl
index_byte-append (c ∷ xs) ys h = ground (arith, index_byte-append xs ys)

take-append : (xs ys : Text) → take (length xs) (xs ++ ys) ≡ xs
take-append [] ys = refl
take-append (x ∷ xs) ys = rw (take-append xs ys)

drop-append : (xs : Text) (y : ℕ) (ys : Text) → drop (suc (length xs)) (xs ++ y ∷ ys) ≡ ys
drop-append [] y ys = refl
drop-append (x ∷ xs) y ys = drop-append xs y ys

-- The sign in front of a text.
abbrev pub with_sign : Bool → Text → Text
with_sign true s = b'-' ∷ s
with_sign false s = s

parse_parts_exact :
    (negative : Bool) (e : ℕ) (ds fs : Text)
    → all is_digit ds ≡ true
    → all is_digit fs ≡ true
    → length fs ≤ e
    → parse_parts negative e ds fs
      ≡ fit (signed negative (digits_value 0 (ds ++ (fs ++ replicate (e - length fs) b'0'))))
unfolding parse_parts
parse_parts_exact negative e ds fs hd hf le =
    let fine : ltb e (length fs) ≡ false = ground arith in
    rw (hd, hf, fine)
      (parse_digits_exact negative 0 (ds ++ (fs ++ replicate (e - length fs) b'0')) (omega arith) (
        all_digits_append ds (fs ++ replicate (e - length fs) b'0') hd (
          all_digits_append fs (replicate (e - length fs) b'0') hf (zeros-digits (e - length fs)))))

split_point_lem :
    (ds fs : Text)
    → all is_digit ds ≡ true
    → all is_digit fs ≡ true
    → split_point (ds ++ b'.' ∷ fs) ≡ ok (ds, fs)
unfolding split_point
split_point_lem ds fs hd hf =
    rw (index_byte-append ds fs hd, split_point)
      (rw (drop-append ds b'.' fs) (
        rw (index_byte-none fs hf) (rw (take-append ds (b'.' ∷ fs)) (rw (drop-append ds b'.' fs)))))

not_point_one :
    (d : ℕ) (ds fs : Text) → is_digit d ≡ true → is_point ((d ∷ ds) ++ b'.' ∷ fs) ≡ false
not_point_one d [] fs h = ground arith
not_point_one d (c ∷ ds) fs h = ground arith

parse_unsigned_split :
    (negative : Bool) (e : ℕ) (ds fs : Text)
    → all is_digit ds ≡ true
    → all is_digit fs ≡ true
    → 0 < length ds + length fs
    → parse_unsigned negative e (ds ++ b'.' ∷ fs) ≡ parse_parts negative e (or_zero ds) fs
unfolding parse_unsigned
parse_unsigned_split negative e [] [] hd hf nonempty = absurd (omega arith)
parse_unsigned_split negative e [] (c ∷ fs) hd hf nonempty = rw (split_point_lem [] (c ∷ fs) hd hf)
parse_unsigned_split negative e (d ∷ ds) fs hd hf nonempty =
    rw (not_point_one d ds fs (digits_head d ds hd)) (rw (split_point_lem (d ∷ ds) fs hd hf))

or_zero-digits : (ds : Text) → all is_digit ds ≡ true → all is_digit (or_zero ds) ≡ true
or_zero-digits [] h = refl
or_zero-digits (d ∷ ds) h = h

or_zero-value : (ds xs : Text) → digits_value 0 (or_zero ds ++ xs) ≡ digits_value 0 (ds ++ xs)
or_zero-value [] xs = refl
or_zero-value (d ∷ ds) xs = refl

-- The sign is read off, since no digit and no point is a sign.
strip_sign_lem :
    (negative : Bool) (ds fs : Text)
    → all is_digit ds ≡ true
    → strip_sign (with_sign negative (ds ++ b'.' ∷ fs)) ≡ (negative, ds ++ b'.' ∷ fs)
strip_sign_lem true ds fs h = refl
strip_sign_lem false [] fs h = refl
strip_sign_lem false (d ∷ ds) fs h = ground arith

with_sign-nonempty :
    (negative : Bool) (ds fs : Text) → is_empty (with_sign negative (ds ++ b'.' ∷ fs)) ≡ false
with_sign-nonempty true ds fs = refl
with_sign-nonempty false [] fs = refl
with_sign-nonempty false (d ∷ ds) fs = refl

-- A text of digits, a point and at most `e` more digits, with or without a minus sign and with one
-- digit at least, is read as the integer that all the digits spell, filled up with zeros to `e`
-- places, or overflows where that does not fit an int64.
pub parse_units_exact :
    (negative : Bool) (e : ℕ) (ds fs : Text)
    → all is_digit ds ≡ true
    → all is_digit fs ≡ true
    → 0 < length ds + length fs
    → length fs ≤ e
    → parse_units (with_sign negative (ds ++ b'.' ∷ fs)) (pos e)
      ≡ fit (signed negative (digits_value 0 (ds ++ (fs ++ replicate (e - length fs) b'0'))))
unfolding parse_units
parse_units_exact negative e ds fs hd hf nonempty le =
    let nonneg : ltb_ℤ (pos e) (pos 0) ≡ false = ground arith in
    rw (nonneg, with_sign-nonempty negative ds fs)
      (rw (strip_sign_lem negative ds fs hd) (
        parse_unsigned_split negative e ds fs hd hf nonempty
        ∙ (parse_parts_exact negative e (or_zero ds) fs (or_zero-digits ds hd) hf le
            ∙ ap (λ v. fit (signed negative v))
                (or_zero-value ds (fs ++ replicate (e - length fs) b'0')))))

-- The same with no point in the text.
whole_sign :
    (negative : Bool) (d : ℕ) (ds : Text)
    → is_digit d ≡ true
    → strip_sign (with_sign negative (d ∷ ds)) ≡ (negative, d ∷ ds)
whole_sign true d ds h = refl
whole_sign false d ds h = ground arith

whole-nonempty :
    (negative : Bool) (d : ℕ) (ds : Text) → is_empty (with_sign negative (d ∷ ds)) ≡ false
whole-nonempty true d ds = refl
whole-nonempty false d ds = refl

whole_point : (d : ℕ) (ds : Text) → is_digit d ≡ true → is_point (d ∷ ds) ≡ false
whole_point d [] h = ground arith
whole_point d (c ∷ ds) h = ground arith

split_point_whole : (ds : Text) → all is_digit ds ≡ true → split_point ds ≡ ok (ds, [])
unfolding split_point
split_point_whole ds h = rw (index_byte-none ds h, split_point)

-- A text of digits, with or without a minus sign, is read as the integer that the digits spell,
-- filled up with zeros to `e` places, or overflows where that does not fit an int64.
pub parse_units_whole :
    (negative : Bool) (e d : ℕ) (ds : Text)
    → all is_digit (d ∷ ds) ≡ true
    → parse_units (with_sign negative (d ∷ ds)) (pos e)
      ≡ fit (signed negative (digits_value 0 ((d ∷ ds) ++ replicate e b'0')))
unfolding parse_units parse_unsigned
parse_units_whole negative e d ds h =
    let nonneg : ltb_ℤ (pos e) (pos 0) ≡ false = ground arith in
    let z : e - 0 ≡ e = omega arith in
    let head = digits_head d ds h in
    rw (nonneg, whole-nonempty negative d ds)
      (rw (whole_sign negative d ds head) (
        rw (whole_point d ds head) (
          rw (split_point_whole (d ∷ ds) h)
            (rw z at (parse_parts_exact negative e (d ∷ ds) [] h refl (omega arith))))))

-- Every int64 fits with its own sign.
abbrev pub is_negative : ℤ → Bool
is_negative u = ltb_ℤ u (pos 0)
