-- ===== src/Pressure/Agreement.antt =====
-- The monitor of src/storage_pressure.rs and the disk budget of src/admission.rs judge one filesystem by the
-- same floors: the monitor by the free percentage, the budget by the bytes that the percentage makes.
use mathlib.Core.Option.{some-injective}
use camera_adapter.Base.{
  ◌-◌, sym, ap, ◌∙◌, Bool, some, ℕ, ◌+◌, ◌*◌, ◌/◌, ◌≤◌, ◌<◌, ◌≡◌, arith, ◌↔◌, String, false,
}
use camera_adapter.Base.Words.{u64_max}
use camera_adapter.Error.{ok}
use camera_adapter.Admission.Budget.{DiskSpace, Controller, Observation, poll_disk, reserve_disk}
use camera_adapter.Admission.Capacity.Disk.{reserve_disk_safe, reserve_disk_grants}
use camera_adapter.Pressure.{assess_space, free_percent_of}
use camera_adapter.Pressure.Percent.{floor-le, le-percent, percent-le}

free_percent_lem :
    (space : DiskSpace)
    → 0 < space.total_bytes
    → space.available_bytes ≤ space.total_bytes
    → free_percent_of space ≡ space.available_bytes * 100 / space.total_bytes
free_percent_lem space pos h =
    ground (arith, percent-le space.available_bytes space.total_bytes pos h)

-- The same disk with `taken` more bytes written.
abbrev pub written : ℕ → DiskSpace → DiskSpace
written taken space = record space { available_bytes = space.available_bytes - taken }

-- A wait for disk space that is neither cancelled nor late does what the probe's answer decides.
poll_disk-reserve_disk :
    (c : Controller) (entering : Bool) (amount deadline : ℕ) (o : Observation) (space : DiskSpace)
    → 0 < amount
    → o.probe ≡ some (ok space)
    → o.cancelled ≡ false
    → o.now < deadline
    → poll_disk c entering amount deadline o ≡ some (reserve_disk c space amount)
unfolding poll_disk
poll_disk-reserve_disk c entering amount deadline o space some_bytes answer live early =
    rw answer (ground arith)

reserve_disk-pressured :
    (root : String) (c : Controller) (space : DiskSpace) (amount : ℕ)
    → 0 < space.total_bytes
    → space.available_bytes ≤ space.total_bytes
    → reserve_disk c space amount ≡ ok (c.disk_outstanding + amount)
    → (assess_space root
        (written (c.disk_outstanding + amount) space)
        c.minimum_free_bytes
        c.minimum_free_percent).pressured
      ≡ false
unfolding assess_space
reserve_disk-pressured root c space amount pos ordered h =
    let rest = written (c.disk_outstanding + amount) space in
    let safe = reserve_disk_safe c space amount (c.disk_outstanding + amount) h in
    let percent : c.minimum_free_percent ≤ rest.available_bytes * 100 / rest.total_bytes =
      le-percent rest.available_bytes c.minimum_free_percent rest.total_bytes pos (omega arith) in
    ground (arith, free_percent_lem rest pos (omega arith))

calm-reserve_disk :
    (root : String) (c : Controller) (space : DiskSpace) (amount : ℕ)
    → 0 < space.total_bytes
    → space.available_bytes ≤ space.total_bytes
    → space.total_bytes ≤ u64_max
    → c.minimum_free_percent ≤ 100
    → c.disk_outstanding + amount ≤ space.available_bytes
    → (assess_space root
        (written (c.disk_outstanding + amount) space)
        c.minimum_free_bytes
        c.minimum_free_percent).pressured
      ≡ false
    → reserve_disk c space amount ≡ ok (c.disk_outstanding + amount)
unfolding assess_space
calm-reserve_disk root c space amount pos ordered width percent fits calm =
    let rest = written (c.disk_outstanding + amount) space in
    let share : (rest.total_bytes * c.minimum_free_percent + 99) / 100 ≤ rest.available_bytes =
      floor-le rest.available_bytes c.minimum_free_percent rest.total_bytes pos
        (ground (arith, free_percent_lem rest pos (omega arith))) in
    reserve_disk_grants c space amount ordered width percent (ground arith) (omega arith)

-- On a filesystem that is not empty, of at most 64 bits, whose available bytes are within its total, with a
-- configured percentage of at most 100: the disk budget grants a capture that is neither cancelled nor
-- late its reservation of one byte or more exactly when the monitor with the same floors would report no
-- pressure on that filesystem once all outstanding bytes, the new ones with them, are written to it.
-- Both fit into the available bytes.
pub assess_space-poll_disk :
    (root : String) (c : Controller) (space : DiskSpace) (entering : Bool) (amount deadline : ℕ)
    (o : Observation)
    → 0 < space.total_bytes
    → space.available_bytes ≤ space.total_bytes
    → space.total_bytes ≤ u64_max
    → c.minimum_free_percent ≤ 100
    → c.disk_outstanding + amount ≤ space.available_bytes
    → 0 < amount
    → o.probe ≡ some (ok space)
    → o.cancelled ≡ false
    → o.now < deadline
    → ((assess_space root
          (written (c.disk_outstanding + amount) space)
          c.minimum_free_bytes
          c.minimum_free_percent).pressured
        ≡ false)
      ↔ (poll_disk c entering amount deadline o ≡ some (ok (c.disk_outstanding + amount)))
assess_space-poll_disk root c space entering amount deadline o pos ordered width percent fits
      some_bytes answer live early =
    let asked =
      poll_disk-reserve_disk c entering amount deadline o space some_bytes answer live early in
    (
      λ calm.
          asked
          ∙ ap some (calm-reserve_disk root c space amount pos ordered width percent fits calm),
      λ granted.
          reserve_disk-pressured root c space amount pos ordered
            (some-injective _ _ (sym asked ∙ granted)),
    )
