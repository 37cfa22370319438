-- ===== src/Supervisor.antt =====
-- src/supervisor.rs: the per-camera lifecycle machine and the deterministic reconnect policy. A
-- `Duration` is its number of nanoseconds. SHA-256 is the parameter `sha256` of `delay`.
pub mod Lifecycle
pub mod Backoff
mod Tests
use camera_adapter.Base.{
  ℕ, ◌+◌, ◌-◌, ◌*◌, ◌/◌, ◌%◌, ◌^◌, min, max, Bool, true, false, ◌||◌, List, [], ◌∷◌, ◌++◌, Option,
  none, some, ltb, ◌==◌, if◌then◌else◌, get_or,
}
use camera_adapter.Base.Words.{u64_max, u128_max, checked_add, saturating_mul, saturating_add}
use camera_adapter.Error.{CameraError, config, catalog, Result, ok, err}

pub data CameraLifecycleState : Type 0 where
  disabled connecting online degraded backoff draining stopped : CameraLifecycleState

pub can_transition_to : CameraLifecycleState → CameraLifecycleState → Bool
can_transition_to disabled connecting = true
can_transition_to disabled stopped = true
can_transition_to connecting online = true
can_transition_to connecting backoff = true
can_transition_to connecting draining = true
can_transition_to online degraded = true
can_transition_to online backoff = true
can_transition_to online draining = true
can_transition_to degraded online = true
can_transition_to degraded backoff = true
can_transition_to degraded draining = true
can_transition_to backoff connecting = true
can_transition_to backoff draining = true
can_transition_to draining disabled = true
can_transition_to draining stopped = true
can_transition_to _ _ = false

pub record LifecycleMachine : Type 0 where
  pub state : CameraLifecycleState
  pub session_generation : ℕ

pub new : Bool → LifecycleMachine
new enabled = record { state = if enabled then connecting else disabled; session_generation = 0 }

-- A new protocol session: `Connecting` to `Online`.
pub is_new_session : CameraLifecycleState → CameraLifecycleState → Bool
is_new_session connecting online = true
is_new_session _ _ = false

-- The generation after a legal transition to `next`; `none` when the counter is exhausted.
pub next_generation : LifecycleMachine → CameraLifecycleState → Option ℕ
unfolding is_new_session
next_generation m next =
    if is_new_session m.state next
    then checked_add u64_max m.session_generation 1
    else some m.session_generation

pub transition : LifecycleMachine → CameraLifecycleState → LifecycleMachine × Result ℕ
unfolding can_transition_to next_generation
transition m next =
    if can_transition_to m.state next
    then elim (next_generation m next) [
      | none ↦ (m, err (catalog "camera session generation exhausted"))
      | some generation ↦
          (record m { state = next; session_generation = generation }, ok generation)
    ]
    else (m, err (catalog "invalid camera lifecycle transition"))

pub data RetryClass : Type 0 where
  transient permanent : RetryClass

pub record BackoffPolicy : Type 0 where
  pub minimum : ℕ
  pub maximum : ℕ

pub new_policy : ℕ → ℕ → Result BackoffPolicy
new_policy minimum maximum =
    if minimum == 0 || ltb maximum minimum
    then err (
        config "component.global.timeouts.reconnectBackoff"
          "minimum must be positive and no greater than maximum")
    else ok (record { minimum = minimum; maximum = maximum })

abbrev pub nanos_per_second : ℕ
nanos_per_second = 1000000000

-- `Duration::new(seconds, subsecond)`, in nanoseconds.
pub duration_from_nanos : ℕ → ℕ
duration_from_nanos nanos =
    let seconds = min (nanos / nanos_per_second) u64_max in
    let subsecond = if seconds == u64_max then 999999999 else nanos % nanos_per_second in
    seconds * nanos_per_second + subsecond

pub saturating_multiply : ℕ → ℕ → ℕ
unfolding duration_from_nanos
saturating_multiply value multiplier =
    duration_from_nanos (saturating_mul u128_max value multiplier)

-- `1_u128.checked_shl(attempt.min(127))` never fails: the shift is below the width.
pub saturating_double : ℕ → ℕ → ℕ
unfolding duration_from_nanos
saturating_double value attempt =
    duration_from_nanos (saturating_mul u128_max value (2 ^ min attempt 127))

-- The pre-jitter delay of one attempt.
pub base_delay : BackoffPolicy → RetryClass → ℕ → ℕ
base_delay p transient attempt = min (saturating_double p.minimum attempt) p.maximum
base_delay p permanent attempt =
    let floor = min (max (saturating_multiply p.minimum 8) (10 * nanos_per_second)) p.maximum in
    max (min (saturating_double p.minimum attempt) p.maximum) floor

pub be_byte : ℕ → ℕ → ℕ
be_byte value index = value / 256 ^ index % 256

pub be_bytes_u64 : ℕ → List ℕ
unfolding be_byte
be_bytes_u64 v =
    be_byte v 7
    ∷ be_byte v 6
    ∷ be_byte v 5
    ∷ be_byte v 4
    ∷ be_byte v 3
    ∷ be_byte v 2
    ∷ be_byte v 1
    ∷ be_byte v 0
    ∷ []

pub be_bytes_u32 : ℕ → List ℕ
unfolding be_byte
be_bytes_u32 v = be_byte v 3 ∷ be_byte v 2 ∷ be_byte v 1 ∷ be_byte v 0 ∷ []

pub class_byte : RetryClass → ℕ
class_byte transient = 0
class_byte permanent = 1

pub jitter_key : List ℕ → ℕ → RetryClass → ℕ → List ℕ
unfolding be_bytes_u64 be_bytes_u32 class_byte
jitter_key instance_bytes config_generation class attempt =
    instance_bytes
    ++ (0 ∷ [])
    ++ (be_bytes_u64 config_generation ++ (class_byte class ∷ be_bytes_u32 attempt))

pub jitter_basis_points : (List ℕ → List ℕ) → List ℕ → ℕ
jitter_basis_points sha256 key =
    let bytes = sha256 key in (get_or bytes 0 0 * 256 + get_or bytes 1 0) % 2001

pub delay : (List ℕ → List ℕ) → BackoffPolicy → List ℕ → ℕ → RetryClass → ℕ → ℕ
delay sha256 p instance_bytes config_generation class attempt =
    let base_nanos = base_delay p class attempt in
    let basis_points =
      jitter_basis_points sha256 (jitter_key instance_bytes config_generation class attempt) in
    let jitter_nanos = saturating_mul u128_max base_nanos basis_points / 10000 in
    duration_from_nanos (saturating_add u128_max base_nanos jitter_nanos)
