-- ===== src/Admission/Capacity/Progress.antt =====
-- How a capture of src/admission.rs gets its lease, and how its wait ends.
use camera_adapter.Base.{
  ℕ, ◌-◌, ◌≤◌, ◌<◌, String, ◌≡◌, refl, Bool, true, false, ◌||◌, Option, none, some, arith, leb,
}
use camera_adapter.Base.Map.{lookup, insert}
use camera_adapter.Error.{CameraError, Result, ok, err}
use camera_adapter.Admission.Capacity.{
  DiskSpace, CaptureResourceRequest, Controller, Task, wants_global, wants_group, wants_memory,
  wants_disk, acquiring, processing, borrowing, borrowed, finished, Observation, reserve_disk,
  group_permits, poll_semaphore, poll_memory, poll_disk, begin, after_global, poll,
}

-- The request that a task waits for.
abbrev pub waits : Task → Option CaptureResourceRequest
waits (wants_global entering request) = some request
waits (wants_group entering name request) = some request
waits (wants_memory request) = some request
waits (wants_disk entering request) = some request
waits _ = none

-- An answer that is an error.
abbrev is_err {ℓ} : {A : Type ℓ} → Option (Result A) → Bool
is_err (some (err e)) = true
is_err _ = false

is_err-error {ℓ} :
    {A : Type ℓ}
    → (answer : Option (Result A)) → is_err answer ≡ true
    → (e : CameraError) × (answer ≡ some (err e))
is_err-error none h = cc
is_err-error (some (ok a)) h = cc
is_err-error (some (err e)) h = (e, refl)

module _ (o : Observation) (deadline : ℕ) (late : (o.cancelled || leb deadline o.now) ≡ true) where
  poll_semaphore_late :
      (entering : Bool) (permits : ℕ) → is_err (poll_semaphore entering deadline o permits) ≡ true
  unfolding poll_semaphore
  poll_semaphore_late entering permits = ground arith

  poll_memory_late : (c : Controller) (amount : ℕ) → is_err (poll_memory c amount deadline o) ≡ true
  unfolding poll_memory
  poll_memory_late c amount = ground arith

  poll_disk_late :
      (c : Controller) (entering : Bool) (amount : ℕ)
      → is_err (poll_disk c entering amount deadline o) ≡ true
  unfolding poll_disk
  poll_disk_late c entering amount = ground arith

-- The next poll of a capture that waits, once it is cancelled or its deadline has come, ends it with
-- an error, at whichever stage it waits and whatever capacity is left.
pub poll_ends :
    (o : Observation) (c : Controller) (t : Task) (request : CaptureResourceRequest)
    → waits t ≡ some request
    → (o.cancelled || leb request.deadline o.now) ≡ true
    → (e : CameraError) × ((poll o c t).1 ≡ finished (some e))
unfolding poll
poll_ends o c (wants_global entering request) r same late =
    let (e, answer) = is_err-error _ (
      poll_semaphore_late o request.deadline (ground (arith, same)) entering
        c.global_acquisitions) in
    (e, rw (poll, answer) refl)
poll_ends o c (wants_group entering name request) r same late =
    let (e, answer) = is_err-error _ (
      poll_semaphore_late o request.deadline (ground (arith, same)) entering
        (group_permits c name)) in
    (e, rw (poll, answer) refl)
poll_ends o c (wants_memory request) r same late =
    let (e, answer) =
      is_err-error _ (
        poll_memory_late o request.deadline (ground (arith, same)) c request.maximum_frame_bytes) in
    (e, rw (poll, answer) refl)
poll_ends o c (wants_disk entering request) r same late =
    let (e, answer) = is_err-error _ (
      poll_disk_late o request.deadline (ground (arith, same)) c entering
        request.maximum_frame_bytes) in
    (e, rw (poll, answer) refl)
poll_ends o c (acquiring request memory disk) r same late = cc
poll_ends o c (processing memory disk) r same late = cc
poll_ends o c (borrowing amount deadline) r same late = cc
poll_ends o c (borrowed amount) r same late = cc
poll_ends o c (finished result) r same late = cc

module _ (o : Observation) (deadline : ℕ) (live : o.cancelled ≡ false)
    (early : o.now < deadline) where
  poll_semaphore_free :
      (entering : Bool) (permits : ℕ)
      → 0 < permits
      → poll_semaphore entering deadline o permits ≡ some (ok tt)
  unfolding poll_semaphore
  poll_semaphore_free entering permits free = ground arith

  poll_memory_free :
      (c : Controller) (amount : ℕ)
      → 0 < amount
      → amount ≤ c.memory_available
      → c.memory_available ≤ c.memory_capacity
      → poll_memory c amount deadline o ≡ some (ok tt)
  unfolding poll_memory
  poll_memory_free c amount some_bytes fits sane = ground arith

  poll_disk_free :
      (c : Controller) (entering : Bool) (amount projected : ℕ) (space : DiskSpace)
      → 0 < amount
      → o.probe ≡ some (ok space)
      → reserve_disk c space amount ≡ ok projected
      → poll_disk c entering amount deadline o ≡ some (ok projected)
  unfolding poll_disk
  poll_disk_free c entering amount projected space some_bytes answer grants =
      rw (answer, grants) (ground arith)

poll_global_free :
    (o : Observation) (c : Controller) (request : CaptureResourceRequest) (name : String)
    (permits : ℕ)
    → request.resource_group ≡ some name
    → lookup name c.resource_groups ≡ some permits
    → poll_semaphore true request.deadline o c.global_acquisitions ≡ some (ok tt)
    → poll o c (wants_global true request) ≡ (
      record c { global_acquisitions = c.global_acquisitions - 1 },
      wants_group true name request,
    )
unfolding poll after_global
poll_global_free o c request name permits chosen known sem =
    simp (poll, sem, after_global, chosen, known)

poll_group_free :
    (o : Observation) (c : Controller) (request : CaptureResourceRequest) (name : String)
    → poll_semaphore true request.deadline o (group_permits c name) ≡ some (ok tt)
    → poll o c (wants_group true name request) ≡ (
      record c { resource_groups = insert name (group_permits c name - 1) c.resource_groups },
      wants_memory request,
    )
unfolding poll
poll_group_free o c request name sem = rw (poll, sem) refl

poll_memory_stage :
    (o : Observation) (c : Controller) (request : CaptureResourceRequest)
    → poll_memory c request.maximum_frame_bytes request.deadline o ≡ some (ok tt)
    → poll o c (wants_memory request) ≡ (
      record c { memory_available = c.memory_available - request.maximum_frame_bytes },
      wants_disk true request,
    )
unfolding poll
poll_memory_stage o c request sem = rw (poll, sem) refl

begin-wants :
    (request : CaptureResourceRequest)
    → 0 < request.maximum_frame_bytes
    → begin request ≡ wants_global true request
unfolding begin
begin-wants request some_bytes = ground arith

-- A capture that is polled for each of its four stages.
pub poll_twice : Observation → Controller → Task → Controller × Task
poll_twice o c t = poll o (poll o c t).0 (poll o c t).1

pub poll_four : Observation → Controller → Task → Controller × Task
unfolding poll_twice
poll_four o c t = poll_twice o (poll_twice o c t).0 (poll_twice o c t).1

poll_twice-chain :
    (o : Observation) (c c1 : Controller) (t t1 : Task) (out : Controller × Task)
    → poll o c t ≡ (c1, t1)
    → poll o c1 t1 ≡ out
    → poll_twice o c t ≡ out
unfolding poll_twice
poll_twice-chain o c c1 t t1 out first second = rw (poll_twice, first) second

poll_four-chain :
    (o : Observation) (c c2 : Controller) (t t2 : Task) (out : Controller × Task)
    → poll_twice o c t ≡ (c2, t2)
    → poll_twice o c2 t2 ≡ out
    → poll_four o c t ≡ out
unfolding poll_four
poll_four-chain o c c2 t t2 out first second = rw (poll_four, first) second

poll_disk_stage :
    (o : Observation) (c : Controller) (request : CaptureResourceRequest) (projected : ℕ)
    → poll_disk c true request.maximum_frame_bytes request.deadline o ≡ some (ok projected)
    → poll o c (wants_disk true request) ≡ (
      record c { disk_outstanding = projected },
      acquiring request request.maximum_frame_bytes request.maximum_frame_bytes,
    )
unfolding poll
poll_disk_stage o c request projected sem = rw (poll, sem) refl

-- Of a capture that names a configured group: with a free global and group permit, enough frame
-- memory, and a disk reservation that the budget grants, four polls before its deadline and without
-- a cancellation take it to its lease, with its whole frame size reserved in memory and on disk.
pub poll_four_acquires :
    (o : Observation) (c : Controller) (request : CaptureResourceRequest) (name : String)
    (permits projected : ℕ) (space : DiskSpace)
    → request.resource_group ≡ some name
    → lookup name c.resource_groups ≡ some permits
    → 0 < permits
    → 0 < c.global_acquisitions
    → 0 < request.maximum_frame_bytes
    → request.maximum_frame_bytes ≤ c.memory_available
    → c.memory_available ≤ c.memory_capacity
    → o.cancelled ≡ false
    → o.now < request.deadline
    → o.probe ≡ some (ok space)
    → reserve_disk c space request.maximum_frame_bytes ≡ ok projected
    → (poll_four o c (begin request)).1
      ≡ acquiring request request.maximum_frame_bytes request.maximum_frame_bytes
unfolding group_permits reserve_disk
poll_four_acquires o c request name permits projected space chosen known some_permits some_global
      some_bytes fits sane live early answer grants =
    let c1 : Controller = record c { global_acquisitions = c.global_acquisitions - 1 } in
    let c2 : Controller = record c1 {
      resource_groups = insert name (group_permits c1 name - 1) c1.resource_groups;
    } in
    let c3 : Controller = record c2 {
      memory_available = c2.memory_available - request.maximum_frame_bytes;
    } in
    let first =
      poll_global_free o c request name permits chosen known (
        poll_semaphore_free o request.deadline live early true c.global_acquisitions some_global) in
    let second = poll_group_free o c1 request name (
      poll_semaphore_free o request.deadline live early true (group_permits c1 name)
        (rw (group_permits, known) some_permits)) in
    let third = poll_memory_stage o c2 request (
      poll_memory_free o request.deadline live early c2 request.maximum_frame_bytes some_bytes fits
        sane) in
    let last = poll_disk_stage o c3 request projected (
      poll_disk_free o request.deadline live early c3 true request.maximum_frame_bytes projected
        space some_bytes answer grants) in
    let all =
      poll_four-chain o c c2 (wants_global true request) (wants_memory request) _
        (poll_twice-chain o c c1 (wants_global true request) (wants_group true name request) _ first
          second)
        (poll_twice-chain o c2 c3 (wants_memory request) (wants_disk true request) _ third last) in
    rw (begin-wants request some_bytes, all) refl
