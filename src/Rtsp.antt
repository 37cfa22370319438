-- ===== src/Rtsp.antt =====
-- The parts of src/backend/rtsp.rs that read what a camera sends: RTP packets, codec parameter sets and
-- access units. A byte is a number, a slice is a list of them, and `usize` has 64 bits.
pub mod Bytes
pub mod Packet
pub mod Rbsp
pub mod Sps
pub mod Assembler
mod Tests
use Prim.Native.String.{◌++◌ as joined}
use camera_adapter.Base.{String}
use camera_adapter.Error.{CameraError, backend}

abbrev pub rtsp_backend : String
rtsp_backend = "onvif-rtsp"

abbrev pub rtsp_backend_error : String → CameraError
rtsp_backend_error message = backend rtsp_backend message

abbrev pub security_error : String → CameraError
security_error message = rtsp_backend_error (joined "security policy rejected RTSP data: " message)
