-- ===== src/Admission/Capacity/Placement.antt =====
-- What is done to a capture of src/admission.rs, and where it then waits.
use camera_adapter.Base.{ℕ, ◌≡◌, some, ltb, Option-cases, Bool-cases, inl, inr}
use camera_adapter.Base.Map.{lookup}
use camera_adapter.Error.{ok, err}
use camera_adapter.Admission.Capacity.{
  CaptureResourceRequest, Controller, Task, wants_global, wants_group, wants_memory, wants_disk,
  acquiring, processing, borrowing, finished, Observation, group_permits, poll_semaphore,
  poll_memory, poll_disk, after_global, poll, drop_task, finish_acquisition, shrink_memory,
  release_memory, shrink_disk,
}

-- A task that waits for a group waits for the group of its request.
abbrev pub Placed : Task → Type 0
Placed (wants_group entering name request) = request.resource_group ≡ some name
Placed _ = Unit

-- What is done to a task.
pub data Action : Type 0 where
  polled : Observation → Action
  dropped : Action
  frame_taken : ℕ → Action
  memory_shrunk : ℕ → Action
  memory_released : Action
  disk_shrunk : ℕ → Action

unfoldable pub act : Action → Controller → Task → Controller × Task
act (polled o) c t = poll o c t
act dropped c t = drop_task c t
act (frame_taken actual) c t = finish_acquisition actual c t
act (memory_shrunk bytes) c t = shrink_memory bytes c t
act memory_released c t = release_memory c t
act (disk_shrunk bytes) c t = shrink_disk bytes c t

after_global-Placed :
    (c : Controller) (request : CaptureResourceRequest) → Placed (after_global c request).1
unfolding after_global
after_global-Placed c request = elim (Option-cases request.resource_group) [
  | inl free ↦ rw (after_global, free) tt
  | inr (name, chosen) ↦ elim (Option-cases (lookup name c.resource_groups)) [
    | inl unknown ↦ rw (after_global, chosen, unknown) tt
    | inr (permits, known) ↦ rw (after_global, chosen, known) chosen
  ]
]

poll-Placed : (o : Observation) (c : Controller) (t : Task) → Placed t → Placed (poll o c t).1
unfolding poll
poll-Placed o c (wants_global entering request) p =
    elim (Option-cases (poll_semaphore entering request.deadline o c.global_acquisitions)) [
      | inl quiet ↦ rw (poll, quiet) tt
      | inr (err e, answer) ↦ rw (poll, answer) tt
      | inr (ok u, answer) ↦ rw (poll, answer) (after_global-Placed _ request)
    ]
poll-Placed o c (wants_group entering name request) p =
    elim (Option-cases (poll_semaphore entering request.deadline o (group_permits c name))) [
      | inl quiet ↦ rw (poll, quiet) p
      | inr (err e, answer) ↦ rw (poll, answer) tt
      | inr (ok u, answer) ↦ rw (poll, answer) tt
    ]
poll-Placed o c (wants_memory request) p =
    elim (Option-cases (poll_memory c request.maximum_frame_bytes request.deadline o)) [
      | inl quiet ↦ rw (poll, quiet) tt
      | inr (err e, answer) ↦ rw (poll, answer) tt
      | inr (ok u, answer) ↦ rw (poll, answer) tt
    ]
poll-Placed o c (wants_disk entering request) p =
    elim (Option-cases (poll_disk c entering request.maximum_frame_bytes request.deadline o)) [
      | inl quiet ↦ rw (poll, quiet) tt
      | inr (err e, answer) ↦ rw (poll, answer) tt
      | inr (ok projected, answer) ↦ rw (poll, answer) tt
    ]
poll-Placed o c (borrowing amount deadline) p =
    elim (Option-cases (poll_memory c amount deadline o)) [
      | inl quiet ↦ rw (poll, quiet) tt
      | inr (err e, answer) ↦ rw (poll, answer) tt
      | inr (ok u, answer) ↦ rw (poll, answer) tt
    ]
poll-Placed o c t p = p

pub act-Placed : (a : Action) (c : Controller) (t : Task) → Placed t → Placed (act a c t).1
unfolding act drop_task finish_acquisition shrink_memory shrink_disk release_memory
act-Placed (polled o) c t p = poll-Placed o c t p
act-Placed dropped c (finished result) p = tt
act-Placed dropped c (wants_group entering name request) p = tt
act-Placed dropped c t p = tt
act-Placed (frame_taken actual) c (acquiring request memory disk) p =
    elim (Bool-cases (ltb memory actual)) [
      | inl over ↦ rw (finish_acquisition, over) tt
      | inr fits ↦ rw (finish_acquisition, fits) tt
    ]
act-Placed (frame_taken actual) c t p = p
act-Placed (memory_shrunk bytes) c (processing memory disk) p =
    elim (Bool-cases (ltb memory bytes)) [
      | inl over ↦ rw (shrink_memory, over) tt
      | inr fits ↦ rw (shrink_memory, fits) tt
    ]
act-Placed (memory_shrunk bytes) c t p = p
act-Placed memory_released c (processing memory disk) p = tt
act-Placed memory_released c t p = p
act-Placed (disk_shrunk bytes) c (processing memory disk) p = elim (Bool-cases (ltb disk bytes)) [
  | inl over ↦ rw (shrink_disk, over) tt
  | inr fits ↦ rw (shrink_disk, fits) tt
]
act-Placed (disk_shrunk bytes) c t p = p
