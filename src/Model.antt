-- ===== src/Model.antt =====
-- src/model.rs: the durable job states with their stage graph, and the exact size of a source frame.
pub mod Stages
pub mod Frames
mod Tests
use camera_adapter.Base.{ℕ, ◌*◌, Bool, true, false, Option, none, some}
use camera_adapter.Base.Words.{u64_max, checked_mul}

pub data PixelFormat : Type 0 where
  mono8 rgb8 bgr8 jpeg : PixelFormat

-- Bytes per pixel of an uncompressed format.
pub channels : PixelFormat → Option ℕ
channels mono8 = some 1
channels rgb8 = some 3
channels bgr8 = some 3
channels jpeg = none

-- `Option` as the `?` operator chains it.
abbrev pub and_then {ℓ κ} : {A : Type ℓ} {B : Type κ} → Option A → (A → Option B) → Option B
and_then none f = none
and_then (some a) f = f a

pub uncompressed_len : PixelFormat → ℕ → ℕ → Option ℕ
unfolding channels
uncompressed_len format width height =
    and_then (channels format)
      λ c. and_then (checked_mul u64_max width height) λ pixels. checked_mul u64_max pixels c

pub data JobState : Type 0 where
  accepted queued acquiring encoding persisting : JobState
  succeeded failed cancelled interrupted : JobState

pub JobState-discrete : Discrete JobState
JobState-discrete = hlevel

unfoldable pub is_terminal : JobState → Bool
is_terminal succeeded = true
is_terminal failed = true
is_terminal cancelled = true
is_terminal interrupted = true
is_terminal _ = false

unfoldable pub can_transition_to : JobState → JobState → Bool
can_transition_to accepted queued = true
can_transition_to accepted interrupted = true
can_transition_to queued acquiring = true
can_transition_to queued failed = true
can_transition_to queued cancelled = true
can_transition_to queued interrupted = true
can_transition_to acquiring encoding = true
can_transition_to acquiring persisting = true
can_transition_to acquiring failed = true
can_transition_to acquiring cancelled = true
can_transition_to acquiring interrupted = true
can_transition_to encoding persisting = true
can_transition_to encoding failed = true
can_transition_to encoding cancelled = true
can_transition_to encoding interrupted = true
can_transition_to persisting succeeded = true
can_transition_to persisting failed = true
can_transition_to persisting cancelled = true
can_transition_to persisting interrupted = true
can_transition_to _ _ = false
