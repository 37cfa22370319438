-- ===== src/Dispatch/Guards.antt =====
-- The guards of the fleet slots of src/dispatch.rs, and what one call does to the counts.
use camera_adapter.Base.{
  ℕ, ◌+◌, ◌-◌, ◌≤◌, ◌<◌, String, ◌≡◌, refl, none, some, List, [], ◌∷◌, ◌++◌, arith, leb, ltb,
  if◌then◌else◌, not, inl, inr, ◌⊎◌, Option-cases, Bool-cases, get_elem?, set, sum_of, str_eq,
  eq_iff,
}
use camera_adapter.Base.Words.{u64_max}
use camera_adapter.Base.Map.{Map, lookup, insert, lookup-insert, lookup-remove}
use camera_adapter.Error.{CameraError, rejected, queue_full, ok, err}
use camera_adapter.Admission.Queue.{held_for}
use camera_adapter.Dispatch.{FleetSlots, or_default, reserve, drop_fleet, drop_camera}

-- A guard: held, half dropped, or gone.
pub data Slot : Type 0 where
  held half_dropped gone : String → Slot

abbrev pub fleet_share : Slot → ℕ
fleet_share (held camera) = 1
fleet_share _ = 0

abbrev pub of_camera : String → String → ℕ
of_camera c camera = if str_eq camera c then 1 else 0

abbrev pub camera_share : String → Slot → ℕ
camera_share c (held camera) = of_camera c camera
camera_share c (half_dropped camera) = of_camera c camera
camera_share c (gone camera) = 0

pub record World : Type 0 where
  pub slots : FleetSlots
  pub guards : List Slot

-- A reservation, or the next step of a guard's drop.
pub data Event : Type 0 where
  reserves : String → Event
  drops : ℕ → Event

unfoldable pub drop_step : FleetSlots → Slot → FleetSlots × Slot
drop_step s (held camera) = (drop_fleet s, half_dropped camera)
drop_step s (half_dropped camera) = (drop_camera camera s, gone camera)
drop_step s (gone camera) = (s, gone camera)

unfoldable pub step : World → Event → World
unfolding drop_step
step w (reserves camera) = elim (reserve camera w.slots).1 [
  | err e ↦ record w { slots = (reserve camera w.slots).0 }
  | ok u ↦ record { slots = (reserve camera w.slots).0; guards = w.guards ++ (held camera ∷ []) }
]
step w (drops i) = elim (get_elem? w.guards i) [
  | none ↦ w
  | some g ↦
      let (slots, g') = drop_step w.slots g in record { slots = slots; guards = set w.guards i g' }
]

unfoldable pub run : World → List Event → World
run w [] = w
run w (e ∷ es) = run (step w e) es

-- Both counts are what the guards hold, and both bounds are kept.
pub record Counted (w : World) : Type 0 where
  pub fleet : w.slots.used ≡ sum_of fleet_share w.guards
  pub cameras : (c : String) → held_for w.slots.per_camera c ≡ sum_of (camera_share c) w.guards
  pub fleet_bound : w.slots.used ≤ w.slots.maximum
  pub camera_bound : (c : String) → held_for w.slots.per_camera c ≤ w.slots.maximum_per_camera
  pub width : w.slots.maximum ≤ u64_max

pub held_for-or_default :
    (camera c : String) (s : FleetSlots)
    → held_for (or_default camera s).per_camera c ≡ held_for s.per_camera c
unfolding or_default held_for
held_for-or_default camera c s =
    ground (arith, lookup-insert camera c 0 s.per_camera, eq_iff camera c)

pub or_default-rest :
    (camera : String) (s : FleetSlots)
    → ((or_default camera s).used ≡ s.used)
      × ((or_default camera s).maximum ≡ s.maximum)
      × ((or_default camera s).maximum_per_camera ≡ s.maximum_per_camera)
unfolding or_default
or_default-rest camera s = ground arith

pub held_for-insert :
    (camera c : String) (n : ℕ) (counts : Map ℕ)
    → held_for (insert camera n counts) c ≡ (if str_eq camera c then n else held_for counts c)
unfolding held_for
held_for-insert camera c n counts = ground (arith, lookup-insert camera c n counts)

pub held_for-drop_camera :
    (camera c : String) (s : FleetSlots)
    → held_for (drop_camera camera s).per_camera c ≡ held_for s.per_camera c - of_camera c camera
unfolding drop_camera held_for
held_for-drop_camera camera c s = elim (Option-cases (lookup camera s.per_camera)) [
  | inl missing ↦ rw (drop_camera, missing) (ground (arith, missing, eq_iff camera c))
  | inr (n, here) ↦
      rw (drop_camera, here)
        (ground (
          arith,
          here,
          eq_iff camera c,
          lookup-insert camera c (n - 1) s.per_camera,
          lookup-remove camera c s.per_camera,
        ))
]

-- The slots after a granted reservation.
abbrev pub granted : String → FleetSlots → FleetSlots
granted camera s =
    let entered = or_default camera s in
    record entered {
      used = entered.used + 1;
      per_camera = insert camera (held_for entered.per_camera camera + 1) entered.per_camera;
    }

pub reserve-cases :
    (camera : String) (s : FleetSlots)
    → ((e : CameraError) × ((reserve camera s).1 ≡ err e)
        × ((reserve camera s).0 ≡ or_default camera s)
        × ((s.maximum_per_camera ≤ held_for s.per_camera camera) ⊎ (s.maximum ≤ s.used)))
      ⊎ (((reserve camera s).1 ≡ ok tt)
          × ((reserve camera s).0 ≡ granted camera s)
          × (held_for s.per_camera camera < s.maximum_per_camera)
          × (s.used < s.maximum))
unfolding reserve
reserve-cases camera s =
    let entered = or_default camera s in
    let same = held_for-or_default camera camera s in
    let (used_same, maximum_same, bound_same) = or_default-rest camera s in
    elim (Bool-cases (leb entered.maximum_per_camera (held_for entered.per_camera camera))) [
      | inl full ↦ inl (
        rejected queue_full "camera capture queue is full",
        rw (reserve, full) refl,
        rw (reserve, full) refl,
        inl (ground (arith, full, same, bound_same)),
      )
      | inr room ↦ elim (Bool-cases (not (ltb entered.used entered.maximum))) [
        | inl full ↦ inl (
          rejected queue_full "the component's capture queue is full",
          rw (reserve, room, full) refl,
          rw (reserve, room, full) refl,
          inr (ground (arith, full, used_same, maximum_same)),
        )
        | inr free ↦ inr (
          rw (reserve, room, free) refl,
          rw (reserve, room, free) refl,
          ground (arith, room, same, bound_same),
          ground (arith, free, used_same, maximum_same),
        )
      ]
    ]

pub drop_fleet-used :
    (s : FleetSlots) → 0 < s.used → s.used ≤ u64_max → (drop_fleet s).used + 1 ≡ s.used
unfolding drop_fleet
drop_fleet-used s some_used small = ground arith

pub drop_fleet-rest :
    (s : FleetSlots)
    → ((c : String) → held_for (drop_fleet s).per_camera c ≡ held_for s.per_camera c)
      × ((drop_fleet s).maximum ≡ s.maximum)
      × ((drop_fleet s).maximum_per_camera ≡ s.maximum_per_camera)
unfolding drop_fleet
drop_fleet-rest s = (λ c. refl, refl, refl)

pub drop_camera-rest :
    (camera : String) (s : FleetSlots)
    → ((drop_camera camera s).used ≡ s.used)
      × ((drop_camera camera s).maximum ≡ s.maximum)
      × ((drop_camera camera s).maximum_per_camera ≡ s.maximum_per_camera)
unfolding drop_camera
drop_camera-rest camera s = ground arith
