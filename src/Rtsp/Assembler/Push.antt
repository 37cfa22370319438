-- ===== src/Rtsp/Assembler/Push.antt =====
-- `AccessUnitAssembler::push` of src/backend/rtsp.rs.
use camera_adapter.Base.{
  ℕ, ◌+◌, ◌%◌, ◌^◌, Bool, true, false, not, ◌||◌, Option, none, some, List, [], length, ◌==◌,
  if◌then◌else◌,
}
use camera_adapter.Error.{ErrorCode, resource_limit, error_code, Result, ok, err}
use camera_adapter.Rtsp.{security_error}
use camera_adapter.Rtsp.Packet.{RtpPacket}
use camera_adapter.Rtsp.Assembler.{
  RtspCodec, h264, h265, Assembler, Step, discard_incomplete, is_empty, is_some,
}
use camera_adapter.Rtsp.Assembler.H264.{push_h264}
use camera_adapter.Rtsp.Assembler.H265.{push_h265}

pub record EncodedAccessUnit : Type 0 where
  pub bytes : List ℕ
  pub rtp_timestamp : ℕ
  pub compressed_bytes : ℕ
  pub dimensions : Option (ℕ × ℕ)
  pub random_access : Bool

abbrev pub is_resource_limit : ErrorCode → Bool
is_resource_limit resource_limit = true
is_resource_limit _ = false

abbrev pub differs : Option ℕ → ℕ → Bool
differs none n = false
differs (some m) n = not (m == n)

abbrev pub discard_if : Bool → Assembler → Assembler
discard_if c a = if c then discard_incomplete a else a

abbrev pub get_or_insert : Option ℕ → ℕ → Option ℕ
get_or_insert none n = some n
get_or_insert (some m) n = some m

-- What precedes the codec: a gap or a new timestamp drops the unit that was being built.
unfoldable pub resynchronise : RtpPacket → Assembler → Assembler
resynchronise packet a =
    let b = discard_if (differs a.expected_sequence packet.sequence) a in
    let c = discard_if (differs b.timestamp packet.timestamp) b in
    record c {
      timestamp = get_or_insert c.timestamp packet.timestamp;
      expected_sequence = some ((packet.sequence + 1) % 2 ^ 16);
    }

unfoldable pub assemble : RtspCodec → RtpPacket → Step (Unit {0})
assemble h264 packet = push_h264 packet
assemble h265 packet = push_h265 packet

abbrev pub reset : Assembler → Assembler
reset a = record a {
  timestamp = none;
  expected_sequence = none;
  has_vcl = false;
  has_random_access = false;
  bootstrap_pending = if a.bootstrap_injected_for_unit then false else a.bootstrap_pending;
  bootstrap_injected_for_unit = false;
  bytes = [];
}

abbrev pub emit_at : Option ℕ → Step (Option EncodedAccessUnit)
emit_at none a = (a, err (security_error "complete RTP access unit has no timestamp"))
emit_at (some timestamp) a = (
  reset a,
  ok (
      some (record {
        bytes = a.bytes;
        rtp_timestamp = timestamp;
        compressed_bytes = length a.bytes;
        dimensions = a.dimensions;
        random_access = a.has_random_access;
      })),
)

unfoldable pub complete : RtpPacket → Step (Option EncodedAccessUnit)
complete packet a =
    if not packet.marker
    then (a, ok none)
    else if is_some a.fragment || (not a.has_vcl || is_empty a.bytes)
    then (discard_incomplete a, ok none)
    else emit_at a.timestamp a

unfoldable pub finish :
    RtpPacket → Assembler × Result (Unit {0}) → Assembler × Result (Option EncodedAccessUnit)
finish packet (a, ok _) = complete packet a
finish packet (a, err error) =
    if is_resource_limit (error_code error) then (discard_incomplete a, ok none) else (a, err error)

unfoldable pub push : RtpPacket → Step (Option EncodedAccessUnit)
push packet a =
    if not (packet.payload_type == a.payload_type)
    then (a, ok none)
    else finish packet (assemble a.codec packet (resynchronise packet a))
