-- ===== src/Dispatch.antt =====
-- The fleet slots of src/dispatch.rs: a capture reserves one before its row is written, and the slot is
-- given back when its guard drops. A reservation runs under the lock of the camera counts. A drop does
-- not: it takes the fleet count down first, and the camera count under the lock after it, so other
-- calls can come between.
pub mod Guards
pub mod Slots
mod Tests
use camera_adapter.Base.{
  ℕ, ◌+◌, ◌-◌, ◌%◌, String, Bool, true, false, Option, none, some, leb, ltb, ◌==◌, if◌then◌else◌,
  not,
}
use camera_adapter.Base.Map.{Map, lookup, insert, remove}
use camera_adapter.Error.{rejected, queue_full, Result, ok, err}
use camera_adapter.Admission.Queue.{held_for}

pub record FleetSlots : Type 0 where
  pub used : ℕ
  pub maximum : ℕ
  pub per_camera : Map ℕ
  pub maximum_per_camera : ℕ

-- `entry(..).or_default()`.
pub or_default : String → FleetSlots → FleetSlots
or_default camera s = elim (lookup camera s.per_camera) [
  | none ↦ record s { per_camera = insert camera 0 s.per_camera }
  | some n ↦ s
]

-- The entry of the camera stays when the reservation is refused.
pub reserve : String → FleetSlots → FleetSlots × Result (Unit {0})
unfolding or_default
reserve camera s =
    let entered = or_default camera s in
    let held = held_for entered.per_camera camera in
    if leb entered.maximum_per_camera held
    then (entered, err (rejected queue_full "camera capture queue is full"))
    else if not (ltb entered.used entered.maximum)
    then (entered, err (rejected queue_full "the component's capture queue is full"))
    else (
      record entered {
        used = entered.used + 1;
        per_camera = insert camera (held + 1) entered.per_camera;
      },
      ok tt,
    )

-- The two steps of `Drop for FleetSlot`: `fetch_sub` on a 64-bit count, and the camera's count.
pub drop_fleet : FleetSlots → FleetSlots
drop_fleet s = record s { used = (s.used + 18446744073709551616 - 1) % 18446744073709551616 }

pub drop_camera : String → FleetSlots → FleetSlots
drop_camera camera s = elim (lookup camera s.per_camera) [
  | none ↦ s
  | some n ↦ record s {
    per_camera =
        if (n - 1) == 0 then remove camera s.per_camera else insert camera (n - 1) s.per_camera;
  }
]
