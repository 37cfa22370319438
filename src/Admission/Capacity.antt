-- ===== src/Admission/Capacity.antt =====
-- The captures of src/admission.rs, and the reservations of frame memory beside them: a capture takes a global and a group permit, frame memory and disk
-- space, in that order, and what it holds is given back when it drops. A future is a task that is polled one
-- stage at a time.
pub mod Disk
pub mod Moves
pub mod Placement
pub mod Actions
pub mod Conservation
pub mod Progress
mod Tests
use camera_adapter.Base.{
  ℕ, ◌-◌, String, Bool, true, false, Option, none, some, ltb, ◌==◌, if◌then◌else◌,
}
use camera_adapter.Base.Map.{lookup, insert}
use camera_adapter.Error.{CameraError, config, ok, err}
use camera_adapter.Admission.Errors.{resource_error}
pub use camera_adapter.Admission.Budget.{DiskSpace, Controller, Observation}
unfoldable pub use camera_adapter.Admission.Budget.{
  release_atomic_budget, release_atomic_outstanding, percentage_floor, reserve_disk, group_permits,
  give_global, give_group, give_memory, give_disk, poll_semaphore, poll_memory, poll_disk,
}

pub record CaptureResourceRequest : Type 0 where
  pub resource_group : Option String
  pub maximum_frame_bytes : ℕ
  pub deadline : ℕ

-- One capture: the stage at which its future waits, the lease that it then holds, or its end. The
-- flag of a stage says that it has not been polled there yet. A `reserve_memory` borrows frame memory beside
-- the leases: it waits for an amount until a deadline, and then holds it until it drops.
pub data Task : Type 0 where
  wants_global : Bool → CaptureResourceRequest → Task
  wants_group : Bool → String → CaptureResourceRequest → Task
  wants_memory : CaptureResourceRequest → Task
  wants_disk : Bool → CaptureResourceRequest → Task
  acquiring : CaptureResourceRequest → ℕ → ℕ → Task
  processing : ℕ → ℕ → Task
  borrowing : ℕ → ℕ → Task
  borrowed : ℕ → Task
  finished : Option CameraError → Task

-- `acquire_capture` before its first await.
pub begin : CaptureResourceRequest → Task
begin request =
    if request.maximum_frame_bytes == 0
    then finished (some (resource_error "maximum frame reservation must be non-zero"))
    else wants_global true request

-- With the global permit just taken: the group stage, the memory stage, or an unknown group, for
-- which the permit is dropped.
pub after_global : Controller → CaptureResourceRequest → Controller × Task
unfolding give_global
after_global c request = elim request.resource_group [
  | none ↦ (c, wants_memory request)
  | some name ↦ elim (lookup name c.resource_groups) [
    | none ↦ (
      give_global c,
      finished
          (some (config "component.instances[].resourceGroup" "unknown admission resource group")),
    )
    | some permits ↦ (c, wants_group true name request)
  ]
]

-- `reserve_memory` before its first await.
pub reserve_memory : (amount deadline : ℕ) → Task
reserve_memory amount deadline = borrowing amount deadline

pub poll : Observation → Controller → Task → Controller × Task
unfolding poll_semaphore poll_memory poll_disk after_global give_global give_group give_memory
poll o c (wants_global entering request) =
    elim (poll_semaphore entering request.deadline o c.global_acquisitions) [
      | none ↦ (c, wants_global false request)
      | some (err e) ↦ (c, finished (some e))
      | some (ok _) ↦
          after_global (record c { global_acquisitions = c.global_acquisitions - 1 }) request
    ]
poll o c (wants_group entering name request) =
    elim (poll_semaphore entering request.deadline o (group_permits c name)) [
      | none ↦ (c, wants_group false name request)
      | some (err e) ↦ (give_global c, finished (some e))
      | some (ok _) ↦ (
        record c { resource_groups = insert name (group_permits c name - 1) c.resource_groups },
        wants_memory request,
      )
    ]
poll o c (wants_memory request) =
    elim (poll_memory c request.maximum_frame_bytes request.deadline o) [
      | none ↦ (c, wants_memory request)
      | some (err e) ↦ (give_global (give_group request.resource_group c), finished (some e))
      | some (ok _) ↦ (
        record c { memory_available = c.memory_available - request.maximum_frame_bytes },
        wants_disk true request,
      )
    ]
poll o c (wants_disk entering request) =
    elim (poll_disk c entering request.maximum_frame_bytes request.deadline o) [
      | none ↦ (c, wants_disk false request)
      | some (err e) ↦ (
        give_global (give_group request.resource_group (give_memory request.maximum_frame_bytes c)),
        finished (some e),
      )
      | some (ok projected) ↦ (
        record c { disk_outstanding = projected },
        acquiring request request.maximum_frame_bytes request.maximum_frame_bytes,
      )
    ]
poll o c (borrowing amount deadline) = elim (poll_memory c amount deadline o) [
  | none ↦ (c, borrowing amount deadline)
  | some (err e) ↦ (c, finished (some e))
  | some (ok _) ↦ (record c { memory_available = c.memory_available - amount }, borrowed amount)
]
poll o c t = (c, t)

-- Dropping what a task holds, in the order of the fields of its lease.
pub drop_task : Controller → Task → Controller × Task
unfolding give_global give_group give_memory give_disk
drop_task c (wants_global entering request) = (c, finished none)
drop_task c (wants_group entering name request) = (give_global c, finished none)
drop_task c (wants_memory request) =
    (give_global (give_group request.resource_group c), finished none)
drop_task c (wants_disk entering request) = (
  give_global (give_group request.resource_group (give_memory request.maximum_frame_bytes c)),
  finished none,
)
drop_task c (acquiring request memory disk) = (
  give_global (give_group request.resource_group (give_memory memory (give_disk disk c))),
  finished none,
)
drop_task c (processing memory disk) = (give_memory memory (give_disk disk c), finished none)
drop_task c (borrowing amount deadline) = (c, finished none)
drop_task c (borrowed amount) = (give_memory amount c, finished none)
drop_task c (finished result) = (c, finished result)

-- `finish_acquisition`: a frame larger than its reservation is an error, and the whole lease drops.
pub finish_acquisition : ℕ → Controller → Task → Controller × Task
unfolding drop_task
finish_acquisition actual c (acquiring request memory disk) =
    if ltb memory actual
    then (
      (drop_task c (acquiring request memory disk)).0,
      finished (some (resource_error "memory reservation cannot grow after admission")),
    )
    else (
      give_global (give_group request.resource_group (give_memory (memory - actual) c)),
      processing actual disk,
    )
finish_acquisition actual c t = (c, t)

-- `shrink_memory`, `release_memory` and `shrink_disk` of a processing lease. A refused growth leaves
-- the lease as it is.
pub shrink_memory : ℕ → Controller → Task → Controller × Task
unfolding give_memory
shrink_memory bytes c (processing memory disk) =
    if ltb memory bytes
    then (c, processing memory disk)
    else (give_memory (memory - bytes) c, processing bytes disk)
shrink_memory bytes c t = (c, t)

pub release_memory : Controller → Task → Controller × Task
unfolding give_memory
release_memory c (processing memory disk) = (give_memory memory c, processing 0 disk)
release_memory c t = (c, t)

pub shrink_disk : ℕ → Controller → Task → Controller × Task
unfolding give_disk
shrink_disk bytes c (processing memory disk) =
    if ltb disk bytes
    then (c, processing memory disk)
    else (give_disk (disk - bytes) c, processing memory bytes)
shrink_disk bytes c t = (c, t)
