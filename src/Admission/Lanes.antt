-- ===== src/Admission/Lanes.antt =====
-- The control lanes of src/admission.rs: a bounded queue of ordinary operations, and a coalescing
-- safety stop outside its capacity. The lock makes each call atomic.
pub mod Safety
mod Tests
use camera_adapter.Base.{
  ℕ, min, Bool, true, false, ◌&&◌, ◌||◌, not, List, [], ◌∷◌, ◌++◌, Option, none, some, ltb, leb,
  if◌then◌else◌, length,
}
use camera_adapter.Error.{rejected, bad_args, Result, ok, err}
use camera_adapter.Admission.Errors.{queue_full}

pub record SafetyStop : Type 0 where
  pub pan : Bool
  pub tilt : Bool
  pub zoom : Bool
  pub deadline : ℕ

pub merge : SafetyStop → SafetyStop → SafetyStop
merge a b = record {
  pan = a.pan || b.pan;
  tilt = a.tilt || b.tilt;
  zoom = a.zoom || b.zoom;
  deadline = min a.deadline b.deadline;
}

module _ {ℓ} where
  pub data ControlWork (T : Type ℓ) : Type ℓ where
    safety : SafetyStop → ControlWork T
    ordinary : T → ControlWork T

  pub record ControlLanes (T : Type ℓ) : Type ℓ where
    pub safety_stop : Option SafetyStop
    pub operations : List T
    pub ordinary_capacity : ℕ

module _ {ℓ} {T : Type ℓ} where
  pub new : ℕ → Result (ControlLanes T)
  new ordinary_capacity =
      if not (leb 1 ordinary_capacity && leb ordinary_capacity 1024)
      then err (rejected bad_args "ordinary control capacity must be between 1 and 1024")
      else ok
          (record { safety_stop = none; operations = []; ordinary_capacity = ordinary_capacity })

  pub try_push_ordinary : ControlLanes T → T → ControlLanes T × Result (Unit {0})
  try_push_ordinary lanes operation =
      if leb lanes.ordinary_capacity (length lanes.operations)
      then (lanes, err (queue_full "ordinary control queue is full"))
      else (record lanes { operations = lanes.operations ++ (operation ∷ []) }, ok tt)

  pub push_safety_stop : ControlLanes T → SafetyStop → ControlLanes T × Result (Unit {0})
  unfolding merge
  push_safety_stop lanes stop =
      if not stop.pan && (not stop.tilt && not stop.zoom)
      then (lanes, err (rejected bad_args "safety stop must select at least one axis"))
      else (
        record lanes {
          safety_stop = elim lanes.safety_stop [
            | none ↦ some stop
            | some existing ↦ some (merge existing stop)
          ];
        },
        ok tt,
      )

  pub pop_ordinary : ControlLanes T → List T → ControlLanes T × Option (ControlWork T)
  pop_ordinary lanes [] = (lanes, none)
  pop_ordinary lanes (operation ∷ rest) =
      (record lanes { operations = rest }, some (ordinary operation))

  pub pop_next : ControlLanes T → ControlLanes T × Option (ControlWork T)
  unfolding pop_ordinary
  pop_next lanes = elim lanes.safety_stop [
    | some stop ↦ (record lanes { safety_stop = none }, some (safety stop))
    | none ↦ pop_ordinary lanes lanes.operations
  ]
