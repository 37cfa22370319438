-- ===== src/Rtsp/Assembler/H264.antt =====
-- `AccessUnitAssembler::push_h264` of src/backend/rtsp.rs. A parsed packet has a payload byte at least.
use camera_adapter.Base.{
  ℕ, zero, suc, ◌+◌, ◌*◌, ◌/◌, ◌%◌, ◌^◌, Bool, ◌&&◌, ◌||◌, List, [], ◌∷◌, length, get_or, take, ltb,
  leb, ◌==◌, if◌then◌else◌,
}
use camera_adapter.Error.{rejected, unsupported_capability}
use camera_adapter.Rtsp.{security_error}
use camera_adapter.Rtsp.Bytes.{has_bit, be16, drop}
use camera_adapter.Rtsp.Packet.{RtpPacket}
use camera_adapter.Rtsp.Assembler.{Step, ◌>>◌, done, stop, append_nal}
use camera_adapter.Rtsp.Assembler.Fragments.{Messages, start_fragment, continue_fragment}

abbrev pub fu_a_messages : Messages
fu_a_messages = record {
  overlap = security_error "H.264 FU-A fragments overlap";
  lacks_start = security_error "H.264 FU-A continuation lacks start";
  discontinuous = security_error "H.264 FU-A sequence is discontinuous";
  lacks_state = security_error "H.264 FU-A end lacks active fragment state";
}

abbrev pub is_vcl : ℕ → Bool
is_vcl kind = leb 1 kind && leb kind 5

-- The loop over a STAP-A. A round takes three bytes at least, so the length of the payload is fuel
-- enough.
unfoldable pub append_stap_a : ℕ → List ℕ → Step (Unit {0})
append_stap_a fuel [] = done
append_stap_a zero (hi ∷ rest) = stop (security_error "H.264 STAP-A length is truncated")
append_stap_a (suc fuel) (hi ∷ []) = stop (security_error "H.264 STAP-A length is truncated")
append_stap_a (suc fuel) (hi ∷ lo ∷ rest) =
    if (be16 hi lo == 0) || ltb (length rest) (be16 hi lo)
    then stop (security_error "H.264 STAP-A NAL length is invalid")
    else (append_nal (take (be16 hi lo) rest) (is_vcl (get_or rest 0 0 % 2 ^ 5))
        >> append_stap_a fuel (drop (be16 hi lo) rest))

unfoldable pub push_fu_a : RtpPacket → List ℕ → Step (Unit {0})
push_fu_a packet payload =
    let indicator = get_or payload 0 0 in
    let header = get_or payload 1 0 in
    let reconstructed = indicator / 2 ^ 5 * 2 ^ 5 + header % 2 ^ 5 in
    let kind = reconstructed % 2 ^ 5 in
    if ltb (length payload) 3
    then stop (security_error "H.264 FU-A payload is truncated")
    else if has_bit 7 header && has_bit 6 header
    then stop (security_error "H.264 FU-A cannot start and end together")
    else if has_bit 7 header
    then start_fragment fu_a_messages packet (reconstructed ∷ []) (drop 2 payload) (is_vcl kind)
        (kind == 5)
    else continue_fragment fu_a_messages packet (drop 2 payload) (has_bit 6 header)

unfoldable pub push_h264 : RtpPacket → Step (Unit {0})
push_h264 packet =
    let payload = packet.payload in
    let nal_type = get_or payload 0 0 % 2 ^ 5 in
    if leb 1 nal_type && leb nal_type 23
    then append_nal payload (is_vcl nal_type)
    else if nal_type == 24
    then append_stap_a (length payload) (drop 1 payload)
    else if nal_type == 28
    then push_fu_a packet payload
    else stop (
        rejected unsupported_capability
          "RTSP stream uses an unsupported H.264 RTP packetization type")
