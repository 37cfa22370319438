-- ===== src/Supervisor/Backoff.antt =====
-- Bounds of the reconnect delay of src/supervisor.rs.
use camera_adapter.Base.{ℕ, zero, suc, ◌+◌, ◌*◌, ◌/◌, ◌^◌, ◌≤◌, ◌<◌, min, max, ◌≡◌, List, arith}
use camera_adapter.Error.{ok}
use native.Mathlib.Omega.{pow_step}
use native.Mathlib.Nat.{mul-le-mul_left}
use camera_adapter.Base.Words.{u64_max, u128_max}
use camera_adapter.Supervisor.{
  RetryClass, transient, permanent, BackoffPolicy, nanos_per_second, duration_from_nanos,
  saturating_multiply, saturating_double, base_delay, jitter_basis_points, delay, new_policy,
}

-- The largest duration whose seconds stay below `u64::MAX`.
abbrev pub exact_nanos : ℕ
exact_nanos = u64_max * nanos_per_second

duration_from_nanos_lem : (n : ℕ) → n < exact_nanos → duration_from_nanos n ≡ n
unfolding duration_from_nanos
duration_from_nanos_lem n h = ground arith

duration_from_nanos-ge : (n k : ℕ) → k < exact_nanos → k ≤ n → k ≤ duration_from_nanos n
unfolding duration_from_nanos
duration_from_nanos-ge n k h l = ground arith

abbrev IsPolicy : BackoffPolicy → Type 0
IsPolicy p = (0 < p.minimum) × (p.minimum ≤ p.maximum) × (p.maximum * 2 < exact_nanos)

-- A saturated product is at least every bound below the largest exact duration.
capped_lem : (n m : ℕ) → m < exact_nanos → min (duration_from_nanos (min n u128_max)) m ≡ min n m
unfolding duration_from_nanos
capped_lem n m h = ground arith

-- Up to the cap, the pre-jitter delay of a transient failure is the minimum doubled at each attempt.
pub base_delay_transient :
    (p : BackoffPolicy) (attempt : ℕ)
    → IsPolicy p
    → base_delay p transient attempt ≡ min (p.minimum * 2 ^ min attempt 127) p.maximum
unfolding base_delay saturating_double
base_delay_transient p attempt h =
    capped_lem (p.minimum * 2 ^ min attempt 127) p.maximum (omega arith)

base_delay_permanent :
    (p : BackoffPolicy) (attempt : ℕ)
    → IsPolicy p
    → base_delay p permanent attempt
      ≡ max
          (base_delay p transient attempt)
          (min (max (p.minimum * 8) (10 * nanos_per_second)) p.maximum)
unfolding base_delay saturating_multiply
base_delay_permanent p attempt h = omega (arith, capped_lem (p.minimum * 8) p.maximum (omega arith))

doubled : (n k : ℕ) → n ≤ n * 2 ^ k
doubled n zero = omega arith
doubled n (suc k) = rw (pow_step 2 k) (omega (arith, doubled n k))

base_delay_bounds :
    (p : BackoffPolicy) (class : RetryClass) (attempt : ℕ)
    → IsPolicy p
    → (p.minimum ≤ base_delay p class attempt) × (base_delay p class attempt ≤ p.maximum)
base_delay_bounds p transient attempt h =
    grind (arith, base_delay_transient p attempt h, doubled p.minimum (min attempt 127))
base_delay_bounds p permanent attempt h = omega (
  arith,
  base_delay_permanent p attempt h,
  base_delay_transient p attempt h,
  doubled p.minimum (min attempt 127),
)

jittered :
    (base points : ℕ)
    → base * 2 < exact_nanos
    → points < 2001
    → (base ≤ duration_from_nanos (min (base + min (base * points) u128_max / 10000) u128_max))
      × (duration_from_nanos (min (base + min (base * points) u128_max / 10000) u128_max)
          ≤ base + base / 5)
jittered base points h k =
    let capped : base * points ≤ base * 2000 = mul-le-mul_left base (omega arith) in
    let exact : min (base + min (base * points) u128_max / 10000) u128_max < exact_nanos =
      omega arith in
    rw (duration_from_nanos_lem _ exact) (omega arith)

-- The jitter is never negative and at most a fifth.
delay-base_delay :
    (sha256 : List ℕ → List ℕ) (p : BackoffPolicy) (key : List ℕ) (generation : ℕ)
    (class : RetryClass) (attempt : ℕ)
    → IsPolicy p
    → (base_delay p class attempt ≤ delay sha256 p key generation class attempt)
      × (delay sha256 p key generation class attempt
          ≤ base_delay p class attempt + base_delay p class attempt / 5)
unfolding delay jitter_basis_points
delay-base_delay sha256 p key generation class attempt h =
    jittered (base_delay p class attempt) _ (omega (arith, base_delay_bounds p class attempt h))
      (omega arith)

-- A policy that was accepted, with room in the representation for the jitter, has these delays.
new_policy-IsPolicy :
    (minimum maximum : ℕ) {p : BackoffPolicy}
    → new_policy minimum maximum ≡ ok p
    → maximum * 2 < exact_nanos
    → IsPolicy p
unfolding new_policy
new_policy-IsPolicy minimum maximum h room = ground arith

-- For an accepted policy whose maximum leaves room for the jitter in a `Duration`: whatever the
-- digest, the instance, the generation and the attempt, every delay lies between the minimum and a
-- fifth above the maximum. A transient delay lies within a fifth above the minimum doubled once for
-- each attempt and capped at the maximum; a permanent one is at least ten seconds or the maximum.
pub delay_bounds :
    (sha256 : List ℕ → List ℕ) (minimum maximum : ℕ) (p : BackoffPolicy) (key : List ℕ)
    (generation attempt : ℕ)
    → new_policy minimum maximum ≡ ok p
    → maximum * 2 < exact_nanos
    → let doubled_minimum = min (p.minimum * 2 ^ min attempt 127) p.maximum in
      let soft = delay sha256 p key generation transient attempt in
      let hard = delay sha256 p key generation permanent attempt in
      (p.minimum ≤ soft)
      × (doubled_minimum ≤ soft)
      × (soft ≤ doubled_minimum + doubled_minimum / 5)
      × (p.minimum ≤ hard)
      × (min 10000000000 p.maximum ≤ hard)
      × (hard ≤ p.maximum + p.maximum / 5)
delay_bounds sha256 minimum maximum p key generation attempt accepted room =
    let h = new_policy-IsPolicy minimum maximum accepted room in
    omega (
      arith,
      delay-base_delay sha256 p key generation transient attempt h,
      delay-base_delay sha256 p key generation permanent attempt h,
      base_delay_bounds p transient attempt h,
      base_delay_bounds p permanent attempt h,
      base_delay_transient p attempt h,
      base_delay_permanent p attempt h,
    )
