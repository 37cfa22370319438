-- ===== src/Rtsp/Assembler/H265.antt =====
-- `AccessUnitAssembler::push_h265` of src/backend/rtsp.rs.
use camera_adapter.Base.{
  ℕ, zero, suc, ◌+◌, ◌*◌, ◌/◌, ◌%◌, ◌^◌, ◌&&◌, ◌||◌, List, [], ◌∷◌, length, get_or, take, ltb, leb,
  ◌==◌, if◌then◌else◌,
}
use camera_adapter.Error.{rejected, unsupported_capability}
use camera_adapter.Rtsp.{security_error}
use camera_adapter.Rtsp.Bytes.{has_bit, be16, drop}
use camera_adapter.Rtsp.Packet.{RtpPacket}
use camera_adapter.Rtsp.Assembler.{Step, ◌>>◌, done, stop, append_nal}
use camera_adapter.Rtsp.Assembler.Fragments.{Messages, start_fragment, continue_fragment}

abbrev pub fu_messages : Messages
fu_messages = record {
  overlap = security_error "H.265 FU fragments overlap";
  lacks_start = security_error "H.265 FU continuation lacks start";
  discontinuous = security_error "H.265 FU sequence is discontinuous";
  lacks_state = security_error "H.265 FU end lacks active fragment state";
}

-- The loop over an AP, with the length of the payload as fuel.
unfoldable pub append_ap : ℕ → List ℕ → Step (Unit {0})
append_ap fuel [] = done
append_ap zero (hi ∷ rest) = stop (security_error "H.265 AP length is truncated")
append_ap (suc fuel) (hi ∷ []) = stop (security_error "H.265 AP length is truncated")
append_ap (suc fuel) (hi ∷ lo ∷ rest) =
    if ltb (be16 hi lo) 2 || ltb (length rest) (be16 hi lo)
    then stop (security_error "H.265 AP NAL length is invalid")
    else (append_nal (take (be16 hi lo) rest) (leb (get_or rest 0 0 / 2 % 2 ^ 6) 31)
        >> append_ap fuel (drop (be16 hi lo) rest))

unfoldable pub push_fu : RtpPacket → List ℕ → Step (Unit {0})
push_fu packet payload =
    let first = get_or payload 0 0 in
    let header = get_or payload 2 0 in
    let reconstructed_type = header % 2 ^ 6 in
    let reconstructed =
      (first / 2 ^ 7 * 2 ^ 7 + reconstructed_type * 2 + first % 2) ∷ get_or payload 1 0 ∷ [] in
    if ltb (length payload) 4
    then stop (security_error "H.265 FU payload is truncated")
    else if has_bit 7 header && has_bit 6 header
    then stop (security_error "H.265 FU cannot start and end together")
    else if has_bit 7 header
    then start_fragment fu_messages packet reconstructed (drop 3 payload)
        (leb reconstructed_type 31) (leb 16 reconstructed_type && leb reconstructed_type 23)
    else continue_fragment fu_messages packet (drop 3 payload) (has_bit 6 header)

unfoldable pub push_h265 : RtpPacket → Step (Unit {0})
push_h265 packet =
    let payload = packet.payload in
    let nal_type = get_or payload 0 0 / 2 % 2 ^ 6 in
    if ltb (length payload) 2
    then stop (security_error "H.265 RTP payload is truncated")
    else if leb nal_type 47
    then append_nal payload (leb nal_type 31)
    else if nal_type == 48
    then append_ap (length payload) (drop 2 payload)
    else if nal_type == 49
    then push_fu packet payload
    else stop (
        rejected unsupported_capability
          "RTSP stream uses an unsupported H.265 RTP packetization type")
