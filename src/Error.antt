-- ===== src/Error.antt =====
-- src/error.rs: stable public error codes, the typed adapter failure and the crate-wide result.
-- A message keeps its literal text; the values that `format!` puts into it are dropped.
use camera_adapter.Base.{◌≡◌, refl, ◌⊎◌, inl, inr, String, Bool, true, false, Option, none, some}

pub data ErrorCode : Type 0 where
  bad_args no_such_instance camera_disabled device_unavailable instance_paused : ErrorCode
  camera_moving unsupported_capability unknown_capture_profile queue_full : ErrorCode
  group_too_large resource_limit capture_timeout capture_cancelled : ErrorCode
  process_interrupted capture_not_found idempotency_conflict : ErrorCode
  previous_outcome_unknown reply_required unsupported_pixel_format : ErrorCode
  storage_pressure persistence_failed ptz_disabled ptz_range_error ptz_timeout : ErrorCode
  component_stopping backend_error : ErrorCode

pub as_str : ErrorCode → String
as_str bad_args = "BAD_ARGS"
as_str no_such_instance = "NO_SUCH_INSTANCE"
as_str camera_disabled = "CAMERA_DISABLED"
as_str device_unavailable = "DEVICE_UNAVAILABLE"
as_str instance_paused = "PAUSED"
as_str camera_moving = "CAMERA_MOVING"
as_str unsupported_capability = "UNSUPPORTED_CAPABILITY"
as_str unknown_capture_profile = "UNKNOWN_CAPTURE_PROFILE"
as_str queue_full = "QUEUE_FULL"
as_str group_too_large = "GROUP_TOO_LARGE"
as_str resource_limit = "RESOURCE_LIMIT"
as_str capture_timeout = "CAPTURE_TIMEOUT"
as_str capture_cancelled = "CAPTURE_CANCELLED"
as_str process_interrupted = "PROCESS_INTERRUPTED"
as_str capture_not_found = "CAPTURE_NOT_FOUND"
as_str idempotency_conflict = "IDEMPOTENCY_CONFLICT"
as_str previous_outcome_unknown = "PREVIOUS_OUTCOME_UNKNOWN"
as_str reply_required = "REPLY_REQUIRED"
as_str unsupported_pixel_format = "UNSUPPORTED_PIXEL_FORMAT"
as_str storage_pressure = "STORAGE_PRESSURE"
as_str persistence_failed = "PERSISTENCE_FAILED"
as_str ptz_disabled = "PTZ_DISABLED"
as_str ptz_range_error = "PTZ_RANGE_ERROR"
as_str ptz_timeout = "PTZ_TIMEOUT"
as_str component_stopping = "COMPONENT_STOPPING"
as_str backend_error = "BACKEND_ERROR"

-- The three last constructors wrap a foreign error, of which the text alone is kept.
pub data CameraError : Type 0 where
  config : String → String → CameraError
  rejected : ErrorCode → String → CameraError
  backend : String → String → CameraError
  catalog : String → CameraError
  messaging : String → CameraError
  storage : String → CameraError
  io : String → CameraError
  json : String → CameraError
  sqlite : String → CameraError

unfoldable pub error_code : CameraError → ErrorCode
error_code (rejected code message) = code
error_code (storage message) = persistence_failed
error_code (io error) = persistence_failed
error_code (backend name message) = backend_error
error_code (config path message) = bad_args
error_code (json error) = bad_args
error_code (catalog message) = backend_error
error_code (messaging message) = backend_error
error_code (sqlite error) = backend_error

pub is_durable_store_failure : CameraError → Bool
is_durable_store_failure (sqlite error) = true
is_durable_store_failure (storage message) = true
is_durable_store_failure _ = false

pub data Result {ℓ} (A : Type ℓ) : Type ℓ where
  ok : A → Result A
  err : CameraError → Result A

-- An early `return Err(...)` under a condition.
abbrev pub reject_if : Bool → CameraError → Result (Unit {0})
reject_if false e = ok tt
reject_if true e = err e

-- The `?` operator.
infixl 5 ◌>>=◌ ◌>>◌
abbrev pub ◌>>=◌ {ℓ κ} : {A : Type ℓ} {B : Type κ} → Result A → (A → Result B) → Result B
err error >>= rest = err error
ok value >>= rest = rest value

abbrev pub ◌>>◌ {ℓ} : {B : Type ℓ} → Result (Unit {0}) → Result B → Result B
check >> rest = check >>= λ _. rest

-- `ok_or_else`.
abbrev pub ok_or {ℓ} : {A : Type ℓ} → Option A → CameraError → Result A
ok_or none e = err e
ok_or (some a) e = ok a

pub Result-cases {ℓ} :
    {A : Type ℓ} (r : Result A) → ((e : CameraError) × (r ≡ err e)) ⊎ ((a : A) × (r ≡ ok a))
Result-cases (ok a) = inr (a, refl)
Result-cases (err e) = inl (e, refl)
