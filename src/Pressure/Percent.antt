-- ===== src/Pressure/Percent.antt =====
-- The percentage of src/storage_pressure.rs, a quotient by the size of the filesystem, against the floor of
-- src/admission.rs, a quotient by a hundred.
use native.Mathlib.Nat.{mul_comm, div-le_of_le-mul, mul-le-mul_right}
use camera_adapter.Base.{ℕ, ◌+◌, ◌*◌, ◌/◌, ◌≤◌, ◌<◌, arith}

quotient-le : (a p t : ℕ) → 0 < t → p ≤ a * 100 / t → p * t ≤ a * 100
quotient-le a p t pos h = grind arith

le-quotient : (a p t : ℕ) → 0 < t → p * t ≤ a * 100 → p ≤ a * 100 / t
le-quotient a p t pos h = grind arith

pub floor-le : (a p t : ℕ) → 0 < t → p ≤ a * 100 / t → (t * p + 99) / 100 ≤ a
floor-le a p t pos h = omega (arith, quotient-le a p t pos h, mul_comm t p)

pub le-percent : (a p t : ℕ) → 0 < t → (t * p + 99) / 100 ≤ a → p ≤ a * 100 / t
le-percent a p t pos h = le-quotient a p t pos (omega (arith, mul_comm t p))

pub percent-le : (a t : ℕ) → 0 < t → a ≤ t → a * 100 / t ≤ 100
percent-le a t pos h = div-le_of_le-mul t (omega (arith, mul-le-mul_right 100 h))
