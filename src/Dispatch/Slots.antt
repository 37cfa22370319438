-- ===== src/Dispatch/Slots.antt =====
-- The counts of src/dispatch.rs in every interleaving of reservations and drops.
use camera_adapter.Base.{
  ℕ, ◌+◌, ◌≤◌, ◌<◌, String, ◌≡◌, refl, some, List, [], ◌∷◌, arith, inl, inr, ◌↔◌, Option-cases,
  get_elem?, set, sum_of-set, sum_of-append, part-le-sum_of, eq_iff,
}
use camera_adapter.Base.Words.{u64_max}
use camera_adapter.Base.Map.{lookup}
use camera_adapter.Error.{ok}
use camera_adapter.Admission.Queue.{held_for}
use camera_adapter.Dispatch.{FleetSlots, or_default, reserve}
use camera_adapter.Dispatch.Guards.{
  Slot, held, half_dropped, gone, fleet_share, camera_share, World, Event, reserves, drops,
  drop_step, step, run, Counted, held_for-or_default, or_default-rest, held_for-insert,
  held_for-drop_camera, reserve-cases, drop_fleet-used, drop_fleet-rest, drop_camera-rest,
}

reserves-Counted : (w : World) (camera : String) → Counted w → Counted (step w (reserves camera))
unfolding step
reserves-Counted w camera v =
    let same = held_for-or_default camera in
    let (used_same, maximum_same, bound_same) = or_default-rest camera w.slots in
    let entered = or_default camera w.slots in
    elim (reserve-cases camera w.slots) [
      | inl (e, answer, state, full) ↦
          rw (step, answer, state)
            (record {
              fleet = omega (arith, v.fleet, used_same);
              cameras = λ c. omega (arith, v.cameras c, same c w.slots);
              fleet_bound = omega (arith, v.fleet_bound, used_same, maximum_same);
              camera_bound = λ c. omega (arith, v.camera_bound c, same c w.slots, bound_same);
              width = omega (arith, v.width, maximum_same);
            })
      | inr (answer, state, room, free) ↦
          rw (step, answer, state)
            (record {
              fleet = omega (
                arith,
                v.fleet,
                used_same,
                sum_of-append fleet_share w.guards (held camera ∷ []),
              );
              cameras = λ c. ground (
                arith,
                v.cameras c,
                v.cameras camera,
                same c w.slots,
                same camera w.slots,
                sum_of-append (camera_share c) w.guards (held camera ∷ []),
                eq_iff camera c,
                held_for-insert camera c (held_for entered.per_camera camera + 1)
                    entered.per_camera,
              );
              fleet_bound = omega (arith, used_same, maximum_same);
              camera_bound = λ c. ground (
                arith,
                v.camera_bound c,
                same c w.slots,
                same camera w.slots,
                bound_same,
                held_for-insert camera c (held_for entered.per_camera camera + 1)
                    entered.per_camera,
              );
              width = omega (arith, v.width, maximum_same);
            })
    ]

dropped-Counted :
    (w : World) (i : ℕ) (g : Slot)
    → Counted w
    → get_elem? w.guards i ≡ some g
    → Counted (record {
      slots = (drop_step w.slots g).0;
      guards = set w.guards i (drop_step w.slots g).1;
    })
unfolding drop_step
dropped-Counted w i (held camera) v here =
    let g' = half_dropped camera in
    let one = part-le-sum_of fleet_share w.guards i (held camera) here in
    let (counts_same, maximum_same, bound_same) = drop_fleet-rest w.slots in
    let less =
      drop_fleet-used w.slots (omega (arith, v.fleet, one))
        (omega (arith, v.fleet_bound, v.width)) in
    record {
      fleet = omega (arith, v.fleet, less, sum_of-set fleet_share w.guards i (held camera) g' here);
      cameras = λ c. omega (
        arith,
        v.cameras c,
        counts_same c,
        sum_of-set (camera_share c) w.guards i (held camera) g' here,
      );
      fleet_bound = omega (arith, v.fleet_bound, less, maximum_same);
      camera_bound = λ c. omega (arith, v.camera_bound c, counts_same c, bound_same);
      width = omega (arith, v.width, maximum_same);
    }
dropped-Counted w i (half_dropped camera) v here =
    let (used_same, maximum_same, bound_same) = drop_camera-rest camera w.slots in
    record {
      fleet = omega (
        arith,
        v.fleet,
        used_same,
        sum_of-set fleet_share w.guards i (half_dropped camera) (gone camera) here,
      );
      cameras = λ c. omega (
        arith,
        v.cameras c,
        held_for-drop_camera camera c w.slots,
        sum_of-set (camera_share c) w.guards i (half_dropped camera) (gone camera) here,
      );
      fleet_bound = omega (arith, v.fleet_bound, used_same, maximum_same);
      camera_bound =
          λ c. omega (arith, v.camera_bound c, held_for-drop_camera camera c w.slots, bound_same);
      width = omega (arith, v.width, maximum_same);
    }
dropped-Counted w i (gone camera) v here = record {
  fleet =
      omega (arith, v.fleet, sum_of-set fleet_share w.guards i (gone camera) (gone camera) here);
  cameras = λ c.
      omega (
        arith,
        v.cameras c,
        sum_of-set (camera_share c) w.guards i (gone camera) (gone camera) here,
      );
  fleet_bound = v.fleet_bound;
  camera_bound = v.camera_bound;
  width = v.width;
}

step-Counted : (w : World) (e : Event) → Counted w → Counted (step w e)
unfolding step
step-Counted w (reserves camera) v = reserves-Counted w camera v
step-Counted w (drops i) v = elim (Option-cases (get_elem? w.guards i)) [
  | inl missing ↦ rw (step, missing) v
  | inr (g, here) ↦ rw (step, here) (dropped-Counted w i g v here)
]

run-Counted : (w : World) (es : List Event) → Counted w → Counted (run w es)
unfolding run
run-Counted w [] v = v
run-Counted w (e ∷ es) v = run-Counted (step w e) es (step-Counted w e v)

-- No slots used.
abbrev pub empty_slots : ℕ → ℕ → FleetSlots
empty_slots maximum per_camera = record {
  used = 0;
  maximum = maximum;
  per_camera = [];
  maximum_per_camera = per_camera;
}

-- In every interleaving of reservations and of the two steps of each drop, from slots that are all
-- free: the fleet count is the number of held guards, the count of each camera is the number of its
-- guards that have not dropped to the end, and neither count exceeds its bound.
pub run-empty-Counted :
    (maximum per_camera : ℕ) (es : List Event)
    → maximum ≤ u64_max
    → Counted (run (record { slots = empty_slots maximum per_camera; guards = [] }) es)
unfolding held_for lookup
run-empty-Counted maximum per_camera es small = run-Counted _ es (record {
  fleet = refl;
  cameras = λ c. refl;
  fleet_bound = omega arith;
  camera_bound = λ c. omega arith;
  width = small;
})

-- A reservation is granted exactly when the camera and the fleet both have room.
pub reserve_granted_iff :
    (camera : String) (s : FleetSlots)
    → ((reserve camera s).1 ≡ ok tt)
      ↔ ((held_for s.per_camera camera < s.maximum_per_camera) × (s.used < s.maximum))
reserve_granted_iff camera s = elim (reserve-cases camera s) [
  | inl (e, answer, state, full) ↦
      (λ yes'. absurd (ground (arith, answer, yes')), λ room. absurd (ground (arith, full)))
  | inr (answer, state, room, free) ↦ (λ granted'. (room, free), λ both. answer)
]
