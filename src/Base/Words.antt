-- ===== src/Base/Words.antt =====
-- Bounds of the machine integers and the checked and saturating operations of the standard library.
use Prim.Native.Nat.{ℕ, ◌+◌, ◌*◌, min}
use mathlib.Core.Option.{Option, none, some}
use camera_adapter.Base.Tests.{leb, if◌then◌else◌}

abbrev pub u32_max : ℕ
u32_max = 4294967295

abbrev pub u64_max : ℕ
u64_max = 18446744073709551615

abbrev pub u128_max : ℕ
u128_max = 340282366920938463463374607431768211455

-- `i64::MAX`, the largest SQLite INTEGER.
abbrev pub i64_max : ℕ
i64_max = 9223372036854775807

-- `T::try_from`, `checked_add` and `checked_mul` at the type whose largest value is `top`.
abbrev pub checked : ℕ → ℕ → Option ℕ
checked top n = if leb n top then some n else none

abbrev pub checked_add : ℕ → ℕ → ℕ → Option ℕ
checked_add top a b = checked top (a + b)

abbrev pub checked_mul : ℕ → ℕ → ℕ → Option ℕ
checked_mul top a b = checked top (a * b)

abbrev pub saturating_mul : ℕ → ℕ → ℕ → ℕ
saturating_mul top a b = min (a * b) top

abbrev pub saturating_add : ℕ → ℕ → ℕ → ℕ
saturating_add top a b = min (a + b) top
