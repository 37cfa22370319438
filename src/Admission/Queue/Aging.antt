-- ===== src/Admission/Queue/Aging.antt =====
-- Priority aging in src/admission.rs.
use native.Mathlib.Nat.{le-div_iff_mul-le, div-mul-le_self}
use camera_adapter.Base.{ℕ, ◌+◌, ◌-◌, ◌*◌, ◌/◌, ◌≤◌, ◌<◌, arith}
use camera_adapter.Admission.Queue.{QueueEntry, CapturePriority, base_score, effective_score}

div_shift : (i x y k : ℕ) → 0 < i → x + k * i ≤ y → x / i + k ≤ y / i
div_shift i x y k h l = (le-div_iff_mul-le h).1 (omega (arith, div-mul-le_self x i))

base_score-le-two : (p : CapturePriority) → base_score p ≤ 2
unfolding base_score
base_score-le-two p = ground arith

-- Whatever their priorities, an entry that has waited three aging intervals longer has the higher
-- score.
pub aging_outranks {ℓ} :
    {T : Type ℓ} (now interval : ℕ) (old young : QueueEntry T)
    → 0 < interval
    → old.enqueued_at + 3 * interval ≤ young.enqueued_at
    → young.enqueued_at ≤ now
    → effective_score now interval young < effective_score now interval old
unfolding effective_score
aging_outranks now interval old young h l k = omega (
  arith,
  base_score-le-two young.priority,
  div_shift interval (now - young.enqueued_at) (now - old.enqueued_at) 3 h (omega arith),
)
