-- ===== src/Admission/Capacity/Conservation.antt =====
-- The capacity of src/admission.rs in every interleaving of captures.
use camera_adapter.Base.{
  ℕ, ◌+◌, ◌≤◌, String, ◌≡◌, none, some, List, [], ◌∷◌, ◌++◌, arith, Option-cases, Bool-cases, ◌==◌,
  zero, suc, refl, subst, inl, inr, get_elem?, set, sum_of, sum_of-set, sum_of-append,
  part-le-sum_of, All, All-append,
}
use camera_adapter.Base.Words.{u64_max}
use camera_adapter.Error.{ok, Result-cases}
use camera_adapter.Admission.Budget.{Limits, build_groups, new}
use camera_adapter.Admission.Capacity.{
  CaptureResourceRequest, Controller, Task, group_permits, begin, reserve_memory,
}
use camera_adapter.Admission.Capacity.Moves.{Room, global_held, group_held, memory_held, disk_held}
use camera_adapter.Admission.Capacity.Placement.{Action, act, Placed, act-Placed}
use camera_adapter.Admission.Capacity.Actions.{act-Moves}

-- The controller, every capture that was begun, and every reservation of memory beside them.
pub record World : Type 0 where
  pub controller : Controller
  pub tasks : List Task

-- A capture arrives, memory is asked for beside the leases, or one of the tasks acts.
pub data Event : Type 0 where
  arrives : CaptureResourceRequest → Event
  reserves : (amount deadline : ℕ) → Event
  acts : ℕ → Action → Event

pub step : World → Event → World
unfolding begin
step w (arrives request) = record w { tasks = w.tasks ++ (begin request ∷ []) }
step w (reserves amount deadline) = record w {
  tasks = w.tasks ++ (reserve_memory amount deadline ∷ []);
}
step w (acts i a) = elim (get_elem? w.tasks i) [
  | none ↦ w
  | some t ↦
      let (controller, t') = act a w.controller t in
      record { controller = controller; tasks = set w.tasks i t' }
]

pub run : World → List Event → World
run w [] = w
run w (e ∷ es) = run (step w e) es

-- What is left and what is held add up to the capacity of `limits`, a controller at rest.
pub record Conserved (limits : Controller) (w : World) : Type 0 where
  pub global :
      w.controller.global_acquisitions + sum_of global_held w.tasks ≡ limits.global_acquisitions
  pub group :
      (g : String)
      → group_permits w.controller g + sum_of (group_held g) w.tasks ≡ group_permits limits g
  pub memory : w.controller.memory_available + sum_of memory_held w.tasks ≡ limits.memory_available
  pub disk : w.controller.disk_outstanding ≡ limits.disk_outstanding + sum_of disk_held w.tasks
  pub width : w.controller.disk_outstanding ≤ u64_max
  pub placed : All Placed w.tasks

All-get : (xs : List Task) (i : ℕ) (t : Task) → All Placed xs → get_elem? xs i ≡ some t → Placed t
All-get [] i t h e = cc
All-get (x ∷ xs) zero t h e = subst Placed (ground arith) h.0
All-get (x ∷ xs) (suc i) t h e = All-get xs i t h.1 e

All-set : (xs : List Task) (i : ℕ) (t : Task) → All Placed xs → Placed t → All Placed (set xs i t)
All-set [] i t h p = tt
All-set (x ∷ xs) zero t h p = (p, h.1)
All-set (x ∷ xs) (suc i) t h p = (h.0, All-set xs i t h.1 p)

acts-Conserved :
    (limits : Controller) (w : World) (i : ℕ) (a : Action) (t : Task)
    → limits.memory_available ≤ u64_max
    → Conserved limits w
    → get_elem? w.tasks i ≡ some t
    → Conserved limits (record {
      controller = (act a w.controller t).0;
      tasks = set w.tasks i (act a w.controller t).1;
    })
acts-Conserved limits w i a t small v e =
    let room : Room w.controller t = record {
      memory_room = omega (arith, v.memory, part-le-sum_of memory_held w.tasks i t e);
      disk_room = omega (arith, v.disk, part-le-sum_of disk_held w.tasks i t e);
      disk_width = v.width;
    } in
    let p = All-get w.tasks i t v.placed e in
    let moved = act-Moves a w.controller t room p in
    let t' = (act a w.controller t).1 in
    record {
      global = omega (arith, v.global, moved.global, sum_of-set global_held w.tasks i t t' e);
      group =
          λ g. omega (arith, v.group g, moved.group g, sum_of-set (group_held g) w.tasks i t t' e);
      memory = omega (arith, v.memory, moved.memory, sum_of-set memory_held w.tasks i t t' e);
      disk = omega (arith, v.disk, moved.disk, sum_of-set disk_held w.tasks i t t' e);
      width = moved.width;
      placed = All-set w.tasks i t' v.placed (act-Placed a w.controller t p);
    }

begin-idle :
    (request : CaptureResourceRequest)
    → (global_held (begin request) ≡ 0)
      × (memory_held (begin request) ≡ 0)
      × (disk_held (begin request) ≡ 0)
      × ((g : String) → group_held g (begin request) ≡ 0)
      × Placed (begin request)
unfolding begin
begin-idle request = elim (Bool-cases (request.maximum_frame_bytes == 0)) [
  | inl empty ↦ rw (begin, empty) (refl, refl, refl, λ g. refl, tt)
  | inr some_bytes ↦ rw (begin, some_bytes) (refl, refl, refl, λ g. refl, tt)
]

arrives-Conserved :
    (limits : Controller) (w : World) (t : Task)
    → (global_held t ≡ 0)
      × (memory_held t ≡ 0)
      × (disk_held t ≡ 0)
      × ((g : String) → group_held g t ≡ 0)
      × Placed t
    → Conserved limits w
    → Conserved limits (record w { tasks = w.tasks ++ (t ∷ []) })
arrives-Conserved limits w t idle v =
    let (g0, m0, d0, gr0, p0) = idle in
    let new = t ∷ [] in
    record {
      global = omega (arith, v.global, g0, sum_of-append global_held w.tasks new);
      group = λ g. omega (arith, v.group g, gr0 g, sum_of-append (group_held g) w.tasks new);
      memory = omega (arith, v.memory, m0, sum_of-append memory_held w.tasks new);
      disk = omega (arith, v.disk, d0, sum_of-append disk_held w.tasks new);
      width = v.width;
      placed = All-append Placed w.tasks new v.placed (p0, tt);
    }

step-Conserved :
    (limits : Controller) (w : World) (e : Event)
    → limits.memory_available ≤ u64_max
    → Conserved limits w
    → Conserved limits (step w e)
unfolding step reserve_memory
step-Conserved limits w (arrives request) small v =
    arrives-Conserved limits w (begin request) (begin-idle request) v
step-Conserved limits w (reserves amount deadline) small v =
    arrives-Conserved limits w (reserve_memory amount deadline) (refl, refl, refl, λ g. refl, tt) v
step-Conserved limits w (acts i a) small v = elim (Option-cases (get_elem? w.tasks i)) [
  | inl missing ↦ rw (step, missing) v
  | inr (t, here) ↦ rw (step, here) (acts-Conserved limits w i a t small v here)
]

run-Conserved :
    (limits : Controller) (w : World) (es : List Event)
    → limits.memory_available ≤ u64_max
    → Conserved limits w
    → Conserved limits (run w es)
unfolding run
run-Conserved limits w [] small v = v
run-Conserved limits w (e ∷ es) small v =
    run-Conserved limits (step w e) es small (step-Conserved limits w e small v)

new-limits :
    (l : Limits) (c : Controller)
    → new l ≡ ok c
    → (c.memory_available ≡ l.max_in_flight_bytes) × (c.disk_outstanding ≡ 0)
unfolding new
new-limits l c made = elim (Result-cases (build_groups l.max_concurrent_captures l.group_limits)) [
  | inl (e, refused) ↦ absurd (ground (arith, refused))
  | inr (groups, built) ↦ ground (arith, built)
]

-- After any events, in any order and with any observations, on a controller that was just built from
-- limits whose memory fits 64 bits: what is left of the global permits, of each group's permits and of
-- the frame memory, plus what all captures and all reservations of `reserve_memory` hold of it, is what
-- the controller was built with, and the outstanding disk bytes are exactly those that the captures hold.
pub run-new-Conserved :
    (l : Limits) (c : Controller) (es : List Event)
    → l.max_in_flight_bytes ≤ u64_max
    → new l ≡ ok c
    → Conserved c (run (record { controller = c; tasks = [] }) es)
run-new-Conserved l c es small made =
    let (memory, disk) = new-limits l c made in
    run-Conserved c (record { controller = c; tasks = [] }) es (omega arith)
      (record {
        global = omega arith;
        group = λ g. omega arith;
        memory = omega arith;
        disk = omega arith;
        width = omega arith;
        placed = tt;
      })
