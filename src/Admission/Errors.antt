-- ===== src/Admission/Errors.antt =====
-- The rejections of src/admission.rs. The stage that `format!` names in a message is dropped.
use camera_adapter.Base.{String}
use camera_adapter.Error.{
  CameraError, rejected, queue_full as queue_full_code, resource_limit, capture_timeout,
  capture_cancelled,
}

abbrev pub queue_full : String → CameraError
queue_full message = rejected queue_full_code message

abbrev pub resource_error : String → CameraError
resource_error message = rejected resource_limit message

abbrev pub timeout_error : CameraError
timeout_error = rejected capture_timeout "deadline expired while waiting"

abbrev pub cancelled_error : CameraError
cancelled_error = rejected capture_cancelled "cancelled while waiting"
