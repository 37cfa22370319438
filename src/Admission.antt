-- ===== src/Admission.antt =====
-- src/admission.rs: the capture queue with priority aging, the control lanes with their safety stop,
-- and the capacity that captures reserve.
pub mod Errors
pub mod Queue
pub mod Lanes
pub mod Budget
pub mod Capacity
