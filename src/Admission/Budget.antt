-- ===== src/Admission/Budget.antt =====
-- The capacity of src/admission.rs: permits, a byte budget for frame memory and a budget for disk
-- space. Semaphores count permits; an atomic counter is 64 bits wide. The answer of one poll is
-- computed from the time, the cancellation and the filesystem's answer that it observes.
use camera_adapter.Base.{
  ℕ, ◌+◌, ◌-◌, ◌/◌, ◌%◌, max, String, Bool, ◌&&◌, ◌||◌, Option, none, some, ltb, [], ◌∷◌, leb, ◌==◌,
  if◌then◌else◌,
}
use camera_adapter.Base.Words.{u64_max, u128_max, checked, checked_add, checked_mul}
use camera_adapter.Base.Map.{Map, lookup, insert}
use camera_adapter.Error.{
  CameraError, rejected, bad_args, storage, storage_pressure, Result, ok, err, ◌>>=◌, ◌>>◌,
  reject_if, ok_or,
}
use camera_adapter.Admission.Errors.{resource_error, timeout_error, cancelled_error}

pub record DiskSpace : Type 0 where
  pub available_bytes : ℕ
  pub total_bytes : ℕ

-- `AdmissionController`: what is left of each capacity.
pub record Controller : Type 0 where
  pub global_acquisitions : ℕ
  pub resource_groups : Map ℕ
  pub memory_capacity : ℕ
  pub memory_available : ℕ
  pub minimum_free_bytes : ℕ
  pub minimum_free_percent : ℕ
  pub disk_outstanding : ℕ

-- The limits of the configuration that the capacity is built from.
pub record Limits : Type 0 where
  pub max_concurrent_captures : ℕ
  pub max_concurrent_encodes : ℕ
  pub max_concurrent_writes : ℕ
  pub max_in_flight_bytes : ℕ
  pub group_limits : Map ℕ
  pub minimum_free_bytes : ℕ
  pub minimum_free_percent : ℕ

abbrev group_refused : CameraError
group_refused =
    rejected bad_args "resource-group capacity must be between 1 and the global capture limit"

-- `collect::<Result<_>>`: the first group that is refused ends it.
unfoldable pub build_groups : ℕ → Map ℕ → Result (Map ℕ)
build_groups most [] = ok []
build_groups most ((name, n) ∷ groups) = do
  reject_if (n == 0 || ltb most n) group_refused
  rest ← build_groups most groups
  ok ((name, n) ∷ rest)

-- `AdmissionController::new`, `ByteBudget::new` and `DiskBudget::new`.
unfoldable pub new : Limits → Result Controller
unfolding build_groups
new l = do
  reject_if
      (l.max_concurrent_captures == 0
        || (l.max_concurrent_encodes == 0 || l.max_concurrent_writes == 0))
      (rejected bad_args "admission semaphore limits must be non-zero")
  resource_groups ← build_groups l.max_concurrent_captures l.group_limits
  reject_if (l.max_in_flight_bytes == 0) (rejected bad_args "byte budget must be non-zero")
  reject_if (ltb 100 l.minimum_free_percent)
      (rejected bad_args "minimum free percent must not exceed 100")
  ok (record {
    global_acquisitions = l.max_concurrent_captures;
    resource_groups = resource_groups;
    memory_capacity = l.max_in_flight_bytes;
    memory_available = l.max_in_flight_bytes;
    minimum_free_bytes = l.minimum_free_bytes;
    minimum_free_percent = l.minimum_free_percent;
    disk_outstanding = 0;
  })

-- What a poll observes. The probe answers later, with the space, or with an error.
pub record Observation : Type 0 where
  pub now : ℕ
  pub cancelled : Bool
  pub probe : Option (Result DiskSpace)

abbrev pub two_pow_64 : ℕ
two_pow_64 = 18446744073709551616

-- `fetch_add` and `fetch_sub` on an `AtomicU64`.
unfoldable pub release_atomic_budget : ℕ → ℕ → ℕ
release_atomic_budget value amount = (value + amount) % two_pow_64

unfoldable pub release_atomic_outstanding : ℕ → ℕ → ℕ
release_atomic_outstanding value amount = (value + two_pow_64 - amount) % two_pow_64

unfoldable pub percentage_floor : ℕ → ℕ → Result ℕ
percentage_floor total percent = do
  numerator ←
      ok_or (checked_mul u128_max total percent) (resource_error "disk percentage floor overflowed")
  rounded ←
      ok_or (checked_add u128_max numerator 99)
        (resource_error "disk percentage rounding overflowed")
  ok_or (checked u64_max (rounded / 100)) (resource_error "disk percentage floor exceeds u64")

-- The part of `DiskBudget::reserve` after the probe: the outstanding bytes with the new reservation.
unfoldable pub reserve_disk : Controller → DiskSpace → ℕ → Result ℕ
unfolding percentage_floor
reserve_disk c space amount = do
  reject_if (ltb space.total_bytes space.available_bytes)
      (storage "filesystem reported available bytes greater than total bytes")
  percent_floor ← percentage_floor space.total_bytes c.minimum_free_percent
  projected ←
      ok_or (checked_add u64_max c.disk_outstanding amount)
        (resource_error "disk reservation arithmetic overflowed")
  required ←
      ok_or (checked_add u64_max projected (max c.minimum_free_bytes percent_floor))
        (resource_error "disk floor arithmetic overflowed")
  reject_if (ltb space.available_bytes required)
      (rejected storage_pressure "disk reservation would violate the configured free-space floor")
  ok projected

-- Permits of a group; a group that is not configured has none.
unfoldable pub group_permits : Controller → String → ℕ
group_permits c name = elim (lookup name c.resource_groups) [ none ↦ 0 | some n ↦ n ]

unfoldable pub give_global : Controller → Controller
give_global c = record c { global_acquisitions = c.global_acquisitions + 1 }

unfoldable pub give_group : Option String → Controller → Controller
give_group none c = c
give_group (some name) c = record c {
  resource_groups = insert name (group_permits c name + 1) c.resource_groups;
}

unfoldable pub give_memory : ℕ → Controller → Controller
give_memory amount c = record c {
  memory_available = release_atomic_budget c.memory_available amount;
}

unfoldable pub give_disk : ℕ → Controller → Controller
give_disk amount c = record c {
  disk_outstanding = release_atomic_outstanding c.disk_outstanding amount;
}

-- The answer of one poll, of which `none` is `Pending`: `acquire_semaphore` tests the deadline once
-- before it waits, and its `select!` prefers the cancellation, then the deadline.
unfoldable pub poll_semaphore : Bool → ℕ → Observation → ℕ → Option (Result (Unit {0}))
poll_semaphore entering deadline o permits =
    if entering && leb deadline o.now
    then some (err timeout_error)
    else if o.cancelled
    then some (err cancelled_error)
    else if leb deadline o.now
    then some (err timeout_error)
    else if permits == 0
    then none
    else some (ok tt)

unfoldable pub poll_memory : Controller → ℕ → ℕ → Observation → Option (Result (Unit {0}))
poll_memory c amount deadline o =
    if amount == 0 || ltb c.memory_capacity amount
    then some
        (err (resource_error "requested memory reservation exceeds the configured byte budget"))
    else if o.cancelled
    then some (err cancelled_error)
    else if leb deadline o.now
    then some (err timeout_error)
    else if leb amount c.memory_available
    then some (ok tt)
    else none

unfoldable pub poll_disk : Controller → Bool → ℕ → ℕ → Observation → Option (Result ℕ)
unfolding reserve_disk
poll_disk c entering amount deadline o =
    if amount == 0
    then some (err (resource_error "disk reservation must be non-zero"))
    else if entering && leb deadline o.now
    then some (err timeout_error)
    else if o.cancelled
    then some (err cancelled_error)
    else if leb deadline o.now
    then some (err timeout_error)
    else elim o.probe [
      | none ↦ none
      | some answer ↦ some (answer >>= λ space. reserve_disk c space amount)
    ]
