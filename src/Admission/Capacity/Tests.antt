-- ===== src/Admission/Capacity/Tests.antt =====
-- The theorems on the capacity of src/admission.rs at concrete inputs.
use camera_adapter.Base.{ℕ, ◌+◌, ◌*◌, ◌≤◌, ◌≡◌, refl, false, some, List, [], ◌∷◌, arith}
use camera_adapter.Base.Map.{lookup}
use camera_adapter.Error.{CameraError, ok}
use camera_adapter.Admission.Budget.{
  Limits, new, build_groups, Controller, DiskSpace, Observation, reserve_disk, percentage_floor,
}
use camera_adapter.Admission.Capacity.{CaptureResourceRequest, poll, wants_memory, finished}
use camera_adapter.Admission.Capacity.Placement.{polled, dropped, frame_taken}
use camera_adapter.Admission.Capacity.Conservation.{
  Event, arrives, reserves, acts, run, Conserved, run-new-Conserved,
}
use camera_adapter.Admission.Capacity.Progress.{poll_ends}
use camera_adapter.Admission.Capacity.Disk.{reserve_disk_safe}

abbrev limits : Limits
limits = record {
  max_concurrent_captures = 2;
  max_concurrent_encodes = 1;
  max_concurrent_writes = 1;
  max_in_flight_bytes = 1000;
  group_limits = ("usb", 1) ∷ [];
  minimum_free_bytes = 100;
  minimum_free_percent = 10;
}

abbrev controller : Controller
controller = record {
  global_acquisitions = 2;
  resource_groups = ("usb", 1) ∷ [];
  memory_capacity = 1000;
  memory_available = 1000;
  minimum_free_bytes = 100;
  minimum_free_percent = 10;
  disk_outstanding = 0;
}

new-limits_made : new limits ≡ ok controller
unfolding new build_groups
new-limits_made = refl

abbrev request : CaptureResourceRequest
request = record { resource_group = some "usb"; maximum_frame_bytes = 300; deadline = 50 }

abbrev space : DiskSpace
space = record { available_bytes = 5000; total_bytes = 10000 }

abbrev at : ℕ → Observation
at now = record { now = now; cancelled = false; probe = some (ok space) }

abbrev events : List Event
events =
    arrives request
    ∷ arrives request
    ∷ reserves 40 9
    ∷ acts 2 (polled (at 1))
    ∷ acts 0 (polled (at 1))
    ∷ acts 1 (polled (at 1))
    ∷ acts 0 (polled (at 2))
    ∷ acts 1 (polled (at 2))
    ∷ acts 0 (polled (at 3))
    ∷ acts 0 (polled (at 4))
    ∷ acts 0 (frame_taken 200)
    ∷ acts 1 (polled (at 5))
    ∷ acts 1 dropped
    ∷ acts 2 dropped
    ∷ []

run-new-Conserved_example :
    Conserved controller (run (record { controller = controller; tasks = [] }) events)
run-new-Conserved_example = run-new-Conserved limits controller events (omega arith) new-limits_made

poll_ends_example :
    (e : CameraError) × ((poll (at 60) controller (wants_memory request)).1 ≡ finished (some e))
poll_ends_example = poll_ends (at 60) controller (wants_memory request) request refl refl

usb_known : lookup "usb" controller.resource_groups ≡ some 1
unfolding lookup
usb_known = refl

reserved : reserve_disk controller space 300 ≡ ok 300
unfolding reserve_disk percentage_floor
reserved = refl

reserve_disk_safe_example :
    (300 ≡ 0 + 300) × (300 + 100 ≤ 5000) × (100 * 300 + 10000 * 10 ≤ 100 * 5000)
reserve_disk_safe_example = reserve_disk_safe controller space 300 300 reserved
