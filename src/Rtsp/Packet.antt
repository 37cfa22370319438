-- ===== src/Rtsp/Packet.antt =====
-- `parse_rtp_packet` of src/backend/rtsp.rs, by its parts: the end of the CSRC list, of the extension and
-- of the media bytes, each an offset into the packet.
pub mod Wire
pub mod RoundTrip
pub mod Fields
use camera_adapter.Base.{
  ℕ, ◌+◌, ◌-◌, ◌*◌, ◌/◌, ◌%◌, ◌^◌, Bool, true, false, not, ◌||◌, Option, none, some, List, length,
  get_or, take, ltb, leb, ◌==◌, if◌then◌else◌,
}
use camera_adapter.Base.Words.{u64_max, checked_add, saturating_mul}
use camera_adapter.Error.{Result, ok, err, ◌>>=◌, ◌>>◌, reject_if, ok_or}
use camera_adapter.Rtsp.{security_error}
use camera_adapter.Rtsp.Bytes.{has_bit, be16, drop, last}

pub record RtpPacket : Type 0 where
  pub marker : Bool
  pub payload_type : ℕ
  pub sequence : ℕ
  pub timestamp : ℕ
  pub payload : List ℕ

abbrev pub max_interleaved_packet_bytes : ℕ
max_interleaved_packet_bytes = 65535

-- The offset after the fixed header and the CSRC list.
unfoldable pub csrc_end : List ℕ → Result ℕ
csrc_end bytes = do
  let csrc_count = get_or bytes 0 0 % 2 ^ 4
  offset ←
      ok_or (checked_add u64_max 12 (saturating_mul u64_max csrc_count 4))
        (security_error "RTP header size overflowed")
  reject_if (ltb (length bytes) offset) (security_error "RTP CSRC list is truncated")
  ok offset

extension_body : List ℕ → ℕ → Result ℕ
extension_body bytes offset = do
  reject_if (ltb (length bytes) (offset + 4)) (security_error "RTP extension header is truncated")
  let words = be16 (get_or bytes (offset + 2) 0) (get_or bytes (offset + 3) 0)
  past ← ok_or (checked_add u64_max offset 4) (security_error "RTP extension size overflowed")
  end ←
      ok_or (checked_add u64_max past (saturating_mul u64_max words 4))
        (security_error "RTP extension size overflowed")
  reject_if (ltb (length bytes) end) (security_error "RTP extension body is truncated")
  ok end

unfoldable pub extension_end : List ℕ → ℕ → Result ℕ
unfolding extension_body
extension_end bytes offset =
    if has_bit 4 (get_or bytes 0 0) then extension_body bytes offset else ok offset

padding_start : List ℕ → ℕ → Result ℕ
padding_start bytes offset = do
  count ← ok_or (last bytes) (security_error "RTP padding marker is missing")
  reject_if ((count == 0) || ltb (length bytes - offset) count)
      (security_error "RTP padding length is invalid")
  ok (length bytes - count)

unfoldable pub media_end : List ℕ → ℕ → Result ℕ
unfolding padding_start
media_end bytes offset =
    if has_bit 5 (get_or bytes 0 0) then padding_start bytes offset else ok (length bytes)

unfoldable pub parse_rtp_packet : List ℕ → Result RtpPacket
parse_rtp_packet bytes = do
  reject_if (ltb (length bytes) 12 || ltb max_interleaved_packet_bytes (length bytes))
      (security_error "interleaved RTP packet violates byte bounds")
  reject_if (not (get_or bytes 0 0 / 2 ^ 6 == 2))
      (security_error "interleaved RTP packet has an invalid version")
  header ← csrc_end bytes
  offset ← extension_end bytes header
  end ← media_end bytes offset
  reject_if (leb end offset) (security_error "RTP packet has no media payload")
  ok (record {
    marker = has_bit 7 (get_or bytes 1 0);
    payload_type = get_or bytes 1 0 % 2 ^ 7;
    sequence = be16 (get_or bytes 2 0) (get_or bytes 3 0);
    timestamp =
        be16 (get_or bytes 4 0) (get_or bytes 5 0) * 2 ^ 16
        + be16 (get_or bytes 6 0) (get_or bytes 7 0);
    payload = drop offset (take end bytes);
  })
