-- ===== src/Base/Word.antt =====
-- Go's int64: an integer, and the wrap-around of its arithmetic modulo 2 ^ 64.
use ledgercore.Base.Tests.{ltb, if◌then◌else◌}
use ledgercore.Base.Int.{ℤ, pos, negsuc, pos_part, neg_part, ◌≤ℤ◌, leb_ℤ, ◌+ℤ◌}
use Prim.Native.Nat.{ℕ, ◌+◌, ◌-◌, ◌%◌, ◌^◌, ◌≤◌, ◌<◌}
use mathlib.Core.Path.{◌≡◌}
use mathlib.Core.Bool.{Bool, ◌&&◌}
use native.Mathlib.Omega.{arith}

abbrev pub min_int64 : ℤ
min_int64 = negsuc (2 ^ 63 - 1)

abbrev pub max_int64 : ℤ
max_int64 = pos (2 ^ 63 - 1)

-- The value fits an int64.
abbrev pub IsInt64 : ℤ → Type 0
IsInt64 a = (min_int64 ≤ℤ a) × (a ≤ℤ max_int64)

abbrev pub is_int64 : ℤ → Bool
is_int64 a = leb_ℤ min_int64 a && leb_ℤ a max_int64

-- The 64-bit pattern of an integer, in two's complement.
abbrev pub to_bits : ℤ → ℕ
to_bits (pos n) = n % 2 ^ 64
to_bits (negsuc n) = 2 ^ 64 - 1 - n % 2 ^ 64

-- The int64 that a pattern stands for.
abbrev pub of_bits : ℕ → ℤ
of_bits b = if ltb b (2 ^ 63) then pos b else negsuc (2 ^ 64 - 1 - b)

-- What an int64 operation leaves of an exact result.
unfoldable pub wrap64 : ℤ → ℤ
wrap64 a = of_bits (to_bits a)

pub wrap64-IsInt64 : (a : ℤ) → IsInt64 (wrap64 a)
unfolding wrap64
wrap64-IsInt64 a = ground arith

pub wrap64_exact : (a : ℤ) → IsInt64 a → wrap64 a ≡ a
unfolding wrap64
wrap64_exact a h = ground arith

-- One word too high or too low comes back by 2 ^ 64.
pub wrap64_above :
    (a : ℤ)
    → max_int64 ≤ℤ a
    → 2 ^ 63 ≤ pos_part a
    → pos_part a < 2 ^ 64
    → (pos_part (wrap64 a) ≡ 0) × (neg_part (wrap64 a) + pos_part a ≡ 2 ^ 64)
unfolding wrap64
wrap64_above a h k l = ground arith

pub wrap64_below :
    (a : ℤ)
    → 2 ^ 63 < neg_part a
    → neg_part a ≤ 2 ^ 64
    → (neg_part (wrap64 a) ≡ 0) × (pos_part (wrap64 a) + neg_part a ≡ 2 ^ 64)
unfolding wrap64
wrap64_below a k l = ground arith

-- A sum may be wrapped at any of its steps.
pub wrap64-+ℤ : (a b : ℤ) → wrap64 (wrap64 a +ℤ b) ≡ wrap64 (a +ℤ b)
unfolding wrap64 ◌+ℤ◌
wrap64-+ℤ a b = ground arith
