-- ===== src/Admission/Capacity/Moves.antt =====
-- What one action of one capture moves between the capacity of src/admission.rs and that capture.
use camera_adapter.Base.{
  ℕ, zero, suc, ◌+◌, ◌-◌, ◌≤◌, String, ◌≡◌, refl, Bool, Option, none, some, arith, str_eq, eq_iff,
  if◌then◌else◌, Option-cases, inl, inr,
}
use camera_adapter.Base.Words.{u64_max}
use camera_adapter.Base.Map.{lookup, insert, lookup-insert}
use camera_adapter.Error.{CameraError, ok, err}
use camera_adapter.Admission.Capacity.{
  CaptureResourceRequest, DiskSpace, Controller, Task, wants_global, wants_group, wants_memory,
  wants_disk, acquiring, processing, borrowed, finished, Observation, release_atomic_budget,
  release_atomic_outstanding, group_permits, give_global, give_group, give_memory, give_disk,
  poll_semaphore, poll_memory, poll_disk, reserve_disk, after_global, drop_task,
}

-- What a task holds of each capacity.
abbrev pub global_held : Task → ℕ
global_held (wants_group entering name request) = 1
global_held (wants_memory request) = 1
global_held (wants_disk entering request) = 1
global_held (acquiring request memory disk) = 1
global_held _ = 0

abbrev pub of_group : String → Option String → ℕ
of_group g none = 0
of_group g (some name) = if str_eq name g then 1 else 0

abbrev pub group_held : String → Task → ℕ
group_held g (wants_memory request) = of_group g request.resource_group
group_held g (wants_disk entering request) = of_group g request.resource_group
group_held g (acquiring request memory disk) = of_group g request.resource_group
group_held g _ = 0

abbrev pub memory_held : Task → ℕ
memory_held (wants_disk entering request) = request.maximum_frame_bytes
memory_held (acquiring request memory disk) = memory
memory_held (processing memory disk) = memory
memory_held (borrowed amount) = amount
memory_held _ = 0

abbrev pub disk_held : Task → ℕ
disk_held (acquiring request memory disk) = disk
disk_held (processing memory disk) = disk
disk_held _ = 0

-- The counters have room for what the task may give back.
pub record Room (c : Controller) (t : Task) : Type 0 where
  pub memory_room : c.memory_available + memory_held t ≤ u64_max
  pub disk_room : disk_held t ≤ c.disk_outstanding
  pub disk_width : c.disk_outstanding ≤ u64_max

-- One action of one task moves capacity between the controller and that task.
pub record Moves (c : Controller) (t : Task) (c' : Controller) (t' : Task) : Type 0 where
  pub global : c'.global_acquisitions + global_held t' ≡ c.global_acquisitions + global_held t
  pub group :
      (g : String) → group_permits c' g + group_held g t' ≡ group_permits c g + group_held g t
  pub memory : c'.memory_available + memory_held t' ≡ c.memory_available + memory_held t
  pub disk : c'.disk_outstanding + disk_held t ≡ c.disk_outstanding + disk_held t'
  pub width : c'.disk_outstanding ≤ u64_max

pub give_group-permits :
    (o : Option String) (c : Controller) (g : String)
    → group_permits (give_group o c) g ≡ group_permits c g + of_group g o
unfolding give_group group_permits
give_group-permits none c g = omega arith
give_group-permits (some name) c g =
    ground (arith, lookup-insert name g (group_permits c name + 1) c.resource_groups, eq_iff name g)

take_group-permits :
    (name : String) (c : Controller) (g : String) (n : ℕ)
    → group_permits c name ≡ suc n
    → group_permits (record c { resource_groups = insert name n c.resource_groups }) g
        + of_group g (some name)
      ≡ group_permits c g
unfolding group_permits
take_group-permits name c g n h =
    ground (arith, lookup-insert name g n c.resource_groups, eq_iff name g)

pub give_group-rest :
    (o : Option String) (c : Controller)
    → ((give_group o c).global_acquisitions ≡ c.global_acquisitions)
      × ((give_group o c).memory_available ≡ c.memory_available)
      × ((give_group o c).disk_outstanding ≡ c.disk_outstanding)
unfolding give_group
give_group-rest none c = ground arith
give_group-rest (some name) c = ground arith

-- The lease of the group, the memory and the global permit, given back.
back-Moves :
    (c : Controller) (t : Task) (o : Option String) (memory : ℕ) (result : Option CameraError)
    → Room c t
    → global_held t ≡ 1
    → ((g : String) → group_held g t ≡ of_group g o)
    → memory_held t ≡ memory
    → disk_held t ≡ 0
    → Moves c t (give_global (give_group o (give_memory memory c))) (finished result)
unfolding give_global give_memory group_permits release_atomic_budget
back-Moves c t o memory result h one group mem disk =
    let (global_same, memory_same, disk_same) = give_group-rest o (give_memory memory c) in
    record {
      global = ground (arith, global_same, one);
      group = λ g. ground (arith, give_group-permits o (give_memory memory c) g, group g);
      memory = ground (arith, memory_same, mem);
      disk = ground (arith, disk_same, disk);
      width = ground (arith, disk_same);
    }

pub dropped-Moves :
    (c : Controller) (t : Task) (result : Option CameraError)
    → Room c t
    → Moves c t (drop_task c t).0 (finished result)
unfolding drop_task give_global give_memory give_disk group_permits release_atomic_budget
    release_atomic_outstanding
dropped-Moves c (acquiring request memory disk) result h =
    let o = request.resource_group in
    let inner = give_memory memory (give_disk disk c) in
    let (global_same, memory_same, disk_same) = give_group-rest o inner in
    record {
      global = ground (arith, global_same);
      group = λ g. ground (arith, give_group-permits o inner g);
      memory = ground (arith, memory_same);
      disk = ground (arith, disk_same);
      width = ground (arith, disk_same);
    }
dropped-Moves c (wants_memory request) result h =
    let o = request.resource_group in
    let (global_same, memory_same, disk_same) = give_group-rest o c in
    record {
      global = ground (arith, global_same);
      group = λ g. ground (arith, give_group-permits o c g);
      memory = ground (arith, memory_same);
      disk = ground (arith, disk_same);
      width = ground (arith, disk_same);
    }
dropped-Moves c (wants_disk entering request) result h =
    back-Moves c (wants_disk entering request) request.resource_group request.maximum_frame_bytes
      result h refl (λ g. refl) refl refl
dropped-Moves c (borrowed amount) result h = record {
  global = refl;
  group = λ g. refl;
  memory = ground arith;
  disk = refl;
  width = h.disk_width;
}
dropped-Moves c t result h = ground arith

pub poll_semaphore-ok :
    (entering : Bool) (deadline : ℕ) (o : Observation) (permits : ℕ) (u : Unit {0})
    → poll_semaphore entering deadline o permits ≡ some (ok u)
    → (n : ℕ) × (permits ≡ suc n)
unfolding poll_semaphore
poll_semaphore-ok entering deadline o zero u h = absurd (ground arith)
poll_semaphore-ok entering deadline o (suc n) u h = (n, refl)

-- A task that keeps what it holds.
pub same-Moves :
    (c : Controller) (t t' : Task)
    → Room c t
    → global_held t' ≡ global_held t
    → ((g : String) → group_held g t' ≡ group_held g t)
    → memory_held t' ≡ memory_held t
    → disk_held t' ≡ disk_held t
    → Moves c t c t'
same-Moves c t t' h global group memory disk = record {
  global = omega arith;
  group = λ g. omega (arith, group g);
  memory = omega arith;
  disk = omega arith;
  width = h.disk_width;
}

pub after_global-Moves :
    (c : Controller) (request : CaptureResourceRequest) (entering : Bool) (n : ℕ)
    → Room c (wants_global entering request)
    → c.global_acquisitions ≡ suc n
    → let out =
        after_global (record c { global_acquisitions = c.global_acquisitions - 1 }) request in
      Moves c (wants_global entering request) out.0 out.1
unfolding after_global give_global group_permits
after_global-Moves c request entering n h e = elim (Option-cases request.resource_group) [
  | inl free ↦ record {
    global = rw free (ground arith);
    group = λ g. rw free (ground (arith, free));
    memory = rw free (ground arith);
    disk = rw free (ground arith);
    width = rw free h.disk_width;
  }
  | inr (name, chosen) ↦ elim (Option-cases (lookup name c.resource_groups)) [
    | inl unknown ↦ record {
      global = rw (after_global, chosen, unknown) (ground arith);
      group = λ g. rw (after_global, chosen, unknown) (ground arith);
      memory = rw (after_global, chosen, unknown) (ground arith);
      disk = rw (after_global, chosen, unknown) (ground arith);
      width = rw (after_global, chosen, unknown) h.disk_width;
    }
    | inr (permits, known) ↦ record {
      global = rw (after_global, chosen, known) (ground arith);
      group = λ g. rw (after_global, chosen, known) (ground arith);
      memory = rw (after_global, chosen, known) (ground arith);
      disk = rw (after_global, chosen, known) (ground arith);
      width = rw (after_global, chosen, known) h.disk_width;
    }
  ]
]

pub wants_group-Moves :
    (c : Controller) (name : String) (request : CaptureResourceRequest) (entering : Bool) (n : ℕ)
    → Room c (wants_group entering name request)
    → request.resource_group ≡ some name
    → group_permits c name ≡ suc n
    → Moves c
        (wants_group entering name request)
        (record c { resource_groups = insert name (group_permits c name - 1) c.resource_groups })
        (wants_memory request)
wants_group-Moves c name request entering n h chosen e = record {
  global = refl;
  group = λ g. rw (e, chosen) (ground (arith, take_group-permits name c g n e));
  memory = refl;
  disk = refl;
  width = h.disk_width;
}

reserve_disk-ok :
    (c : Controller) (space : DiskSpace) (amount projected : ℕ)
    → reserve_disk c space amount ≡ ok projected
    → (projected ≡ c.disk_outstanding + amount) × (projected ≤ u64_max)
unfolding reserve_disk
reserve_disk-ok c space amount projected h = ground arith

pub poll_disk-ok :
    (c : Controller) (entering : Bool) (amount deadline : ℕ) (o : Observation) (projected : ℕ)
    → poll_disk c entering amount deadline o ≡ some (ok projected)
    → (projected ≡ c.disk_outstanding + amount) × (projected ≤ u64_max)
unfolding poll_disk
poll_disk-ok c entering amount deadline o projected h = elim (Option-cases o.probe) [
  | inl quiet ↦ absurd (ground (arith, quiet))
  | inr (err e, answer) ↦ absurd (ground (arith, answer))
  | inr (ok space, answer) ↦ reserve_disk-ok c space amount projected (ground (arith, answer))
]

pub poll_memory-ok :
    (c : Controller) (amount deadline : ℕ) (o : Observation) (u : Unit {0})
    → poll_memory c amount deadline o ≡ some (ok u)
    → amount ≤ c.memory_available
unfolding poll_memory
poll_memory-ok c amount deadline o u h = ground arith
