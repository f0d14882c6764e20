-- ===== src/Base/Instants.antt =====
-- Instants, in nanoseconds, as a TIMESTAMPTZ column keeps them.
use Prim.Native.Nat.{ℕ, ◌-◌, ◌%◌}
use mathlib.Core.Option.{Option, none, some}

-- The driver cuts an instant to the microsecond.
unfoldable pub to_micros : ℕ → ℕ
to_micros n = n - n % 1000

abbrev pub map_micros : Option ℕ → Option ℕ
map_micros none = none
map_micros (some n) = some (to_micros n)
