-- ===== src/Admission/Capacity/Disk.antt =====
-- The free-space floor of the disk budget of src/admission.rs.
use camera_adapter.Base.{ℕ, ◌+◌, ◌*◌, ◌/◌, ◌≤◌, ◌≡◌, arith}
use camera_adapter.Base.Words.{u64_max}
use camera_adapter.Error.{ok}
use camera_adapter.Admission.Capacity.{Controller, DiskSpace, percentage_floor, reserve_disk}

percentage_floor-ok :
    (total percent floor : ℕ)
    → percentage_floor total percent ≡ ok floor
    → floor ≡ (total * percent + 99) / 100
unfolding percentage_floor
percentage_floor-ok total percent floor h = ground arith

-- A disk reservation that is granted adds its bytes to the outstanding ones, and all outstanding bytes
-- leave both floors free in the space that was probed: the configured bytes, and the configured
-- percentage of the filesystem.
pub reserve_disk_safe :
    (c : Controller) (space : DiskSpace) (amount projected : ℕ)
    → reserve_disk c space amount ≡ ok projected
    → (projected ≡ c.disk_outstanding + amount)
      × (projected + c.minimum_free_bytes ≤ space.available_bytes)
      × (100 * projected + space.total_bytes * c.minimum_free_percent ≤ 100 * space.available_bytes)
unfolding reserve_disk percentage_floor
reserve_disk_safe c space amount projected h = ground arith

-- A disk reservation is granted whenever both floors stay free: on a filesystem of at most 64 bits
-- whose available bytes are within its total, with a configured percentage of at most 100.
pub reserve_disk_grants :
    (c : Controller) (space : DiskSpace) (amount : ℕ)
    → space.available_bytes ≤ space.total_bytes
    → space.total_bytes ≤ u64_max
    → c.minimum_free_percent ≤ 100
    → c.disk_outstanding + amount + c.minimum_free_bytes ≤ space.available_bytes
    → 100 * (c.disk_outstanding + amount) + space.total_bytes * c.minimum_free_percent
      ≤ 100 * space.available_bytes
    → reserve_disk c space amount ≡ ok (c.disk_outstanding + amount)
unfolding reserve_disk percentage_floor
reserve_disk_grants c space amount ordered width percent bytes share = ground arith
