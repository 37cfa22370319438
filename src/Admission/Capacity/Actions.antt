-- ===== src/Admission/Capacity/Actions.antt =====
-- The actions on one capture of src/admission.rs, as moves of capacity.
use camera_adapter.Base.{
  ℕ, ◌-◌, String, ◌≡◌, refl, Bool, none, some, arith, ltb, Option-cases, Bool-cases, inl, inr,
}
use camera_adapter.Error.{ok, err}
use camera_adapter.Admission.Capacity.{
  CaptureResourceRequest, Controller, Task, wants_global, wants_group, wants_memory, wants_disk,
  acquiring, processing, borrowing, finished, Observation, group_permits, release_atomic_budget,
  release_atomic_outstanding, give_global, give_memory, give_disk, poll_semaphore, poll_memory,
  poll_disk, poll, drop_task, finish_acquisition, shrink_memory, release_memory, shrink_disk,
}
use camera_adapter.Admission.Capacity.Moves.{
  Room, Moves, dropped-Moves, same-Moves, poll_semaphore-ok, after_global-Moves, wants_group-Moves,
  poll_disk-ok, poll_memory-ok, give_group-permits, give_group-rest,
}
use camera_adapter.Admission.Capacity.Placement.{
  Placed, Action, polled, dropped, frame_taken, memory_shrunk, memory_released, disk_shrunk, act,
}

poll_global-Moves :
    (o : Observation) (c : Controller) (entering : Bool) (request : CaptureResourceRequest)
    → Room c (wants_global entering request)
    → let out = poll o c (wants_global entering request) in
      Moves c (wants_global entering request) out.0 out.1
unfolding poll
poll_global-Moves o c entering request h =
    elim (Option-cases (poll_semaphore entering request.deadline o c.global_acquisitions)) [
      | inl quiet ↦
          rw (poll, quiet)
            (same-Moves c (wants_global entering request) _ h refl (λ g. refl) refl refl)
      | inr (err e, answer) ↦
          rw (poll, answer)
            (same-Moves c (wants_global entering request) _ h refl (λ g. refl) refl refl)
      | inr (ok u, answer) ↦
          let (n, have) = poll_semaphore-ok entering request.deadline o _ u answer in
          rw (poll, answer) (after_global-Moves c request entering n h have)
    ]

poll_group-Moves :
    (o : Observation) (c : Controller) (entering : Bool) (name : String)
    (request : CaptureResourceRequest)
    → Room c (wants_group entering name request)
    → request.resource_group ≡ some name
    → let out = poll o c (wants_group entering name request) in
      Moves c (wants_group entering name request) out.0 out.1
unfolding poll drop_task
poll_group-Moves o c entering name request h chosen =
    elim (Option-cases (poll_semaphore entering request.deadline o (group_permits c name))) [
      | inl quiet ↦
          rw (poll, quiet)
            (same-Moves c (wants_group entering name request) _ h refl (λ g. refl) refl refl)
      | inr (err e, answer) ↦
          rw (poll, answer) (dropped-Moves c (wants_group entering name request) (some e) h)
      | inr (ok u, answer) ↦
          let (n, have) = poll_semaphore-ok entering request.deadline o _ u answer in
          rw (poll, answer) (wants_group-Moves c name request entering n h chosen have)
    ]

poll_memory-Moves :
    (o : Observation) (c : Controller) (request : CaptureResourceRequest)
    → Room c (wants_memory request)
    → let out = poll o c (wants_memory request) in Moves c (wants_memory request) out.0 out.1
unfolding poll drop_task group_permits
poll_memory-Moves o c request h =
    elim (Option-cases (poll_memory c request.maximum_frame_bytes request.deadline o)) [
      | inl quiet ↦
          rw (poll, quiet) (same-Moves c (wants_memory request) _ h refl (λ g. refl) refl refl)
      | inr (err e, answer) ↦ rw (poll, answer) (dropped-Moves c (wants_memory request) (some e) h)
      | inr (ok u, answer) ↦
          let enough = poll_memory-ok c request.maximum_frame_bytes request.deadline o u answer in
          rw (poll, answer)
            (record {
              global = refl;
              group = λ g. refl;
              memory = omega arith;
              disk = refl;
              width = h.disk_width;
            })
    ]

poll_borrowing-Moves :
    (o : Observation) (c : Controller) (amount deadline : ℕ)
    → Room c (borrowing amount deadline)
    → let out = poll o c (borrowing amount deadline) in
      Moves c (borrowing amount deadline) out.0 out.1
unfolding poll group_permits
poll_borrowing-Moves o c amount deadline h = elim (Option-cases (poll_memory c amount deadline o)) [
  | inl quiet ↦
      rw (poll, quiet) (same-Moves c (borrowing amount deadline) _ h refl (λ g. refl) refl refl)
  | inr (err e, answer) ↦
      rw (poll, answer) (same-Moves c (borrowing amount deadline) _ h refl (λ g. refl) refl refl)
  | inr (ok u, answer) ↦
      let enough = poll_memory-ok c amount deadline o u answer in
      rw (poll, answer)
        (record {
          global = refl;
          group = λ g. refl;
          memory = omega arith;
          disk = refl;
          width = h.disk_width;
        })
]

poll_disk-Moves :
    (o : Observation) (c : Controller) (entering : Bool) (request : CaptureResourceRequest)
    → Room c (wants_disk entering request)
    → let out = poll o c (wants_disk entering request) in
      Moves c (wants_disk entering request) out.0 out.1
unfolding poll drop_task group_permits
poll_disk-Moves o c entering request h =
    elim (Option-cases (poll_disk c entering request.maximum_frame_bytes request.deadline o)) [
      | inl quiet ↦
          rw (poll, quiet)
            (same-Moves c (wants_disk entering request) _ h refl (λ g. refl) refl refl)
      | inr (err e, answer) ↦
          rw (poll, answer) (dropped-Moves c (wants_disk entering request) (some e) h)
      | inr (ok projected, answer) ↦
          let (sum, fits) =
            poll_disk-ok c entering request.maximum_frame_bytes request.deadline o projected
              answer in
          rw (poll, answer)
            (record {
              global = refl;
              group = λ g. refl;
              memory = refl;
              disk = omega arith;
              width = fits;
            })
    ]

finish-Moves :
    (c : Controller) (request : CaptureResourceRequest) (memory disk actual : ℕ)
    → Room c (acquiring request memory disk)
    → let out = finish_acquisition actual c (acquiring request memory disk) in
      Moves c (acquiring request memory disk) out.0 out.1
unfolding finish_acquisition give_global give_memory group_permits release_atomic_budget
finish-Moves c request memory disk actual h = elim (Bool-cases (ltb memory actual)) [
  | inl over ↦ rw (finish_acquisition, over) (dropped-Moves c (acquiring request memory disk) _ h)
  | inr fits ↦
      let o = request.resource_group in
      let inner = give_memory (memory - actual) c in
      let (global_same, memory_same, disk_same) = give_group-rest o inner in
      rw (finish_acquisition, fits)
        (record {
          global = ground (arith, global_same);
          group = λ g. ground (arith, give_group-permits o inner g);
          memory = ground (arith, memory_same);
          disk = ground (arith, disk_same);
          width = ground (arith, disk_same);
        })
]

shrink_memory-Moves :
    (c : Controller) (memory disk bytes : ℕ)
    → Room c (processing memory disk)
    → let out = shrink_memory bytes c (processing memory disk) in
      Moves c (processing memory disk) out.0 out.1
unfolding shrink_memory give_memory group_permits release_atomic_budget
shrink_memory-Moves c memory disk bytes h = elim (Bool-cases (ltb memory bytes)) [
  | inl over ↦
      rw (shrink_memory, over)
        (same-Moves c (processing memory disk) _ h refl (λ g. refl) refl refl)
  | inr fits ↦
      rw (shrink_memory, fits)
        (record {
          global = refl;
          group = λ g. refl;
          memory = ground arith;
          disk = refl;
          width = h.disk_width;
        })
]

shrink_disk-Moves :
    (c : Controller) (memory disk bytes : ℕ)
    → Room c (processing memory disk)
    → let out = shrink_disk bytes c (processing memory disk) in
      Moves c (processing memory disk) out.0 out.1
unfolding shrink_disk give_disk group_permits release_atomic_outstanding
shrink_disk-Moves c memory disk bytes h = elim (Bool-cases (ltb disk bytes)) [
  | inl over ↦
      rw (shrink_disk, over) (same-Moves c (processing memory disk) _ h refl (λ g. refl) refl refl)
  | inr fits ↦
      rw (shrink_disk, fits)
        (record {
          global = refl;
          group = λ g. refl;
          memory = refl;
          disk = ground arith;
          width = ground arith;
        })
]

poll-Moves :
    (o : Observation) (c : Controller) (t : Task)
    → Room c t
    → Placed t
    → Moves c t (poll o c t).0 (poll o c t).1
unfolding poll
poll-Moves o c (wants_global entering request) h p = poll_global-Moves o c entering request h
poll-Moves o c (wants_group entering name request) h p =
    poll_group-Moves o c entering name request h p
poll-Moves o c (wants_memory request) h p = poll_memory-Moves o c request h
poll-Moves o c (wants_disk entering request) h p = poll_disk-Moves o c entering request h
poll-Moves o c (borrowing amount deadline) h p = poll_borrowing-Moves o c amount deadline h
poll-Moves o c t h p = same-Moves c t t h refl (λ g. refl) refl refl

dropped_task-Moves :
    (c : Controller) (t : Task) → Room c t → Moves c t (drop_task c t).0 (drop_task c t).1
unfolding drop_task
dropped_task-Moves c (finished result) h =
    same-Moves c (finished result) (finished result) h refl (λ g. refl) refl refl
dropped_task-Moves c t h = dropped-Moves c t none h

-- Every action moves capacity between the controller and the task, and makes none.
pub act-Moves :
    (a : Action) (c : Controller) (t : Task)
    → Room c t
    → Placed t
    → Moves c t (act a c t).0 (act a c t).1
unfolding act finish_acquisition shrink_memory shrink_disk release_memory give_memory group_permits
    release_atomic_budget
act-Moves (polled o) c t h p = poll-Moves o c t h p
act-Moves dropped c t h p = dropped_task-Moves c t h
act-Moves (frame_taken actual) c (acquiring request memory disk) h p =
    finish-Moves c request memory disk actual h
act-Moves (frame_taken actual) c t h p = same-Moves c t t h refl (λ g. refl) refl refl
act-Moves (memory_shrunk bytes) c (processing memory disk) h p =
    shrink_memory-Moves c memory disk bytes h
act-Moves (memory_shrunk bytes) c t h p = same-Moves c t t h refl (λ g. refl) refl refl
act-Moves memory_released c (processing memory disk) h p = record {
  global = refl;
  group = λ g. refl;
  memory = ground arith;
  disk = refl;
  width = h.disk_width;
}
act-Moves memory_released c t h p = same-Moves c t t h refl (λ g. refl) refl refl
act-Moves (disk_shrunk bytes) c (processing memory disk) h p =
    shrink_disk-Moves c memory disk bytes h
act-Moves (disk_shrunk bytes) c t h p = same-Moves c t t h refl (λ g. refl) refl refl
