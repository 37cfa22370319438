-- ===== src/Rtsp/Tests.antt =====
-- Concrete runs of the readers of src/backend/rtsp.rs.
use camera_adapter.Base.{
  ℕ, ◌≡◌, refl, Bool, true, false, Option, none, some, List, [], ◌∷◌, ◌++◌, arith,
}
use camera_adapter.Error.{Result, ok, err}
use camera_adapter.Base.{inl, All}
use camera_adapter.Rtsp.Bytes.{IsByte}
use camera_adapter.Rtsp.Packet.{RtpPacket, parse_rtp_packet}
use camera_adapter.Rtsp.Packet.Wire.{Wire, encode, IsWire}
use camera_adapter.Rtsp.Packet.RoundTrip.{parse_rtp_packet-encode}
use camera_adapter.Rtsp.Packet.Fields.{IsPacket, parse_rtp_packet-IsPacket}
use camera_adapter.Rtsp.Rbsp.{from_escaped}
use camera_adapter.Rtsp.Rbsp.Escape.{escape, from_escaped-escape}
use camera_adapter.Rtsp.Rbsp.Reads.{bits_of}
use camera_adapter.Rtsp.Rbsp.Golomb.{value_from, falses, code_word, golomb_value}
use camera_adapter.Rtsp.Sps.{is_high_profile, parse_h264_sps_dimensions}
use camera_adapter.Rtsp.Sps.Bounds.{IsDimensions, sps-IsDimensions}
use camera_adapter.Rtsp.Sps.Syntax.{
  Ue, output_order, progressive, Sps, sps_bits, width_of, height_of, IsSps, zero_ue,
}
use camera_adapter.Rtsp.Sps.RoundTrip.{parse_h264-sps}
use camera_adapter.Rtsp.Assembler.{
  h264, h265, RtspTrack, FragmentState, Assembler, new, discard_incomplete, begin_vcl,
  inject_bootstrap_before_vcl, append_start_code, append_bytes, observe_nal,
}
use camera_adapter.Rtsp.Assembler.Fragments.{start_fragment, continue_fragment}
use camera_adapter.Rtsp.Assembler.H264.{push_h264, push_fu_a}
use camera_adapter.Rtsp.Assembler.Push.{
  EncodedAccessUnit, push, resynchronise, assemble, finish, complete,
}
use camera_adapter.Rtsp.Assembler.Units.{units, IsUnit, session_of, units-IsUnit}
use camera_adapter.Rtsp.Assembler.Loss.{messages, oversized_fragment_ends}
use camera_adapter.Rtsp.Assembler.Fragmentation.{Header}
use camera_adapter.Rtsp.Assembler.Reassembly.{idle, nal_packets, units-nal_packets}
use camera_adapter.Rtsp.Assembler.Aggregation.{assemble_each, aggregate_payload, assemble-aggregate}

abbrev plain_track : RtspTrack
plain_track = record { codec = h264; payload_type = 96; bootstrap_nals = [] }

abbrev packet_at : ℕ → ℕ → Bool → List ℕ → RtpPacket
packet_at sequence timestamp marker payload = record {
  marker = marker;
  payload_type = 96;
  sequence = sequence;
  timestamp = timestamp;
  payload = payload;
}

abbrev push_both : RtpPacket → RtpPacket → Result Assembler → Result (Option EncodedAccessUnit)
push_both p q (err e) = err e
push_both p q (ok a) = (push q (push p a).0).1

two_fragments :
    push_both
      (packet_at 10 77 false (0x7c ∷ 0x85 ∷ 1 ∷ 2 ∷ []))
      (packet_at 11 77 true (0x7c ∷ 0x45 ∷ 3 ∷ 4 ∷ []))
      (new plain_track 4096)
    ≡ ok (
        some (record {
          bytes = 0 ∷ 0 ∷ 0 ∷ 1 ∷ 0x65 ∷ 1 ∷ 2 ∷ 3 ∷ 4 ∷ [];
          rtp_timestamp = 77;
          compressed_bytes = 9;
          dimensions = none;
          random_access = true;
        }))
unfolding new push resynchronise discard_incomplete assemble push_h264 push_fu_a start_fragment
    begin_vcl inject_bootstrap_before_vcl append_start_code append_bytes continue_fragment
    observe_nal finish complete
two_fragments = refl

-- Two contributing sources, an extension of one word, and three bytes of padding.
abbrev wire : Wire
wire = record {
  marker = true;
  payload_type = 96;
  sequence = 65535;
  timestamp = 90000;
  source = 7;
  csrc_count = 2;
  csrc = 1 ∷ 2 ∷ 3 ∷ 4 ∷ 5 ∷ 6 ∷ 7 ∷ 8 ∷ [];
  extension =
      some (record { profile_hi = 190; profile_lo = 222; words = 1; body = 9 ∷ 9 ∷ 9 ∷ 9 ∷ [] });
  payload = 0x65 ∷ 1 ∷ 2 ∷ [];
  padding = some (0 ∷ 0 ∷ []);
}

wire-IsWire : IsWire wire
wire-IsWire = record {
  type_fits = omega arith;
  sequence_fits = omega arith;
  timestamp_fits = omega arith;
  count_fits = omega arith;
  csrc_counted = refl;
  extends = (omega arith, refl);
  has_media = omega arith;
  pads = omega arith;
  fits = omega arith;
}

abbrev wire_packet : RtpPacket
wire_packet = record {
  marker = true;
  payload_type = 96;
  sequence = 65535;
  timestamp = 90000;
  payload = 0x65 ∷ 1 ∷ 2 ∷ [];
}

parse_rtp_packet-encode_example : parse_rtp_packet (encode wire) ≡ ok wire_packet
parse_rtp_packet-encode_example = parse_rtp_packet-encode wire wire-IsWire

wire-octets : All IsByte (encode wire)
wire-octets = omega arith

parse_rtp_packet-IsPacket_example : IsPacket (encode wire) wire_packet
parse_rtp_packet-IsPacket_example =
    parse_rtp_packet-IsPacket (encode wire) wire_packet wire-octets
      (parse_rtp_packet-encode wire wire-IsWire)

from_escaped-escape_example :
    from_escaped (escape 0 (0 ∷ 0 ∷ 1 ∷ []))
    ≡ ok (record { bytes = 0 ∷ 0 ∷ 1 ∷ []; bit_offset = 0 })
from_escaped-escape_example = from_escaped-escape 0 (0 ∷ 1 ∷ [])

abbrev one_ue : Ue
one_ue = record { suffix = false ∷ []; short = omega arith }

-- A baseline stream of 32 by 32 samples.
abbrev small_sps : Sps
small_sps = record {
  profile = false ∷ true ∷ false ∷ false ∷ false ∷ false ∷ true ∷ false ∷ [];
  constraints_and_level =
      false ∷ false ∷ false ∷ false ∷ false ∷ false ∷ false ∷ false ∷ false ∷ false ∷ false ∷ true
      ∷ true ∷ true ∷ true ∷ false ∷ [];
  id = zero_ue;
  frame_number = zero_ue;
  order = output_order;
  references = one_ue;
  gaps_allowed = false;
  width = one_ue;
  height = one_ue;
  frames = progressive;
  direct_inference = true;
  cropping = none;
}

small_sps-IsSps : IsSps small_sps
unfolding golomb_value value_from width_of height_of is_high_profile
small_sps-IsSps = record {
  profile_size = refl;
  level_size = refl;
  plain_profile = refl;
  number_fits = omega arith;
  order_fits = tt;
  coded_fits = omega arith;
  rows_fit = omega arith;
  columns_left = omega arith;
  rows_left = omega arith;
  width_fits = omega arith;
  height_fits = omega arith;
}

small_sps-written :
    bits_of (0x42 ∷ 0 ∷ 0x1e ∷ 0xda ∷ 0x25 ∷ 0xa0 ∷ [])
    ≡ sps_bits small_sps ++ (true ∷ false ∷ false ∷ false ∷ false ∷ false ∷ [])
unfolding sps_bits bits_of code_word falses
small_sps-written = refl

parse_h264-sps_example :
    parse_h264_sps_dimensions (0x67 ∷ escape 0 (0x42 ∷ 0 ∷ 0x1e ∷ 0xda ∷ 0x25 ∷ 0xa0 ∷ []))
    ≡ ok (width_of small_sps, height_of small_sps)
parse_h264-sps_example =
    parse_h264-sps small_sps 0x67 0x42 (0 ∷ 0x1e ∷ 0xda ∷ 0x25 ∷ 0xa0 ∷ [])
      (true ∷ false ∷ false ∷ false ∷ false ∷ false ∷ []) small_sps-IsSps refl small_sps-written
      (omega arith) (omega arith)

sps-IsDimensions_example : IsDimensions (width_of small_sps, height_of small_sps)
sps-IsDimensions_example =
    sps-IsDimensions (0x67 ∷ escape 0 (0x42 ∷ 0 ∷ 0x1e ∷ 0xda ∷ 0x25 ∷ 0xa0 ∷ []))
      (width_of small_sps, height_of small_sps)
      (inl (
        parse_h264-sps small_sps 0x67 0x42 (0 ∷ 0x1e ∷ 0xda ∷ 0x25 ∷ 0xa0 ∷ [])
          (true ∷ false ∷ false ∷ false ∷ false ∷ false ∷ []) small_sps-IsSps refl small_sps-written
          (omega arith) (omega arith)))

abbrev started : ℕ → Assembler
started top = idle h264 96 top none 0

abbrev two_packets : List RtpPacket
two_packets =
    packet_at 10 77 false (0x7c ∷ 0x85 ∷ 1 ∷ 2 ∷ [])
    ∷ packet_at 11 77 true (0x7c ∷ 0x45 ∷ 3 ∷ 4 ∷ [])
    ∷ []

abbrev armed_track : RtspTrack
armed_track = record { codec = h264; payload_type = 96; bootstrap_nals = (0x68 ∷ 1 ∷ []) ∷ [] }

abbrev armed : Assembler
armed = record (started 4096) { bootstrap_nals = (0x68 ∷ 1 ∷ []) ∷ []; bootstrap_pending = true }

started-new : new armed_track 4096 ≡ ok armed
unfolding new
started-new = refl

units-IsUnit_example : All (IsUnit (session_of armed_track 4096)) (units two_packets armed)
units-IsUnit_example = units-IsUnit armed_track 4096 armed two_packets started-new

-- A key frame of which nine bytes have arrived, and a bound of ten.
abbrev first_fragment : FragmentState
first_fragment = record { timestamp = 77; expected_sequence = 11; nal_offset = 4 }

abbrev nearly_full : Assembler
nearly_full = record (started 10) {
  timestamp = some 77;
  expected_sequence = some 11;
  fragment = some first_fragment;
  bytes = 0 ∷ 0 ∷ 0 ∷ 1 ∷ 0x65 ∷ 1 ∷ 2 ∷ 3 ∷ 4 ∷ [];
  has_vcl = true;
  has_random_access = true;
}

oversized_fragment_ends_example :
    ((push (packet_at 11 77 false (0x7c ∷ 0x05 ∷ 5 ∷ 6 ∷ [])) nearly_full).1 ≡ ok none)
    × ((push
          (packet_at 12 77 true (0x7c ∷ 0x45 ∷ 7 ∷ []))
          (push (packet_at 11 77 false (0x7c ∷ 0x05 ∷ 5 ∷ 6 ∷ [])) nearly_full).0).1
        ≡ err (messages h264).lacks_start)
oversized_fragment_ends_example =
    oversized_fragment_ends first_fragment (packet_at 11 77 false (0x7c ∷ 0x05 ∷ 5 ∷ 6 ∷ []))
      (packet_at 12 77 true (0x7c ∷ 0x45 ∷ 7 ∷ [])) nearly_full
      (record {
        same_type = refl;
        opened = refl;
        next = refl;
        at = refl;
        fragment_next = refl;
        fragment_at = refl;
      })
      (refl, omega arith, refl) (omega arith) (omega arith) refl (refl, omega arith, refl)

abbrev cra : Header
cra = record { first = 42; second = 1 }

-- A CRA picture of H.265 in three packets, across the wrap of the sequence number.
units-nal_packets_example :
    units
      (nal_packets h265 97 5 65535 cra (1 ∷ 2 ∷ []) ((3 ∷ []) ∷ []) (4 ∷ 5 ∷ []))
      (idle h265 97 100 none 0)
    ≡ record {
      bytes = 0 ∷ 0 ∷ 0 ∷ 1 ∷ 42 ∷ 1 ∷ 1 ∷ 2 ∷ 3 ∷ 4 ∷ 5 ∷ [];
      rtp_timestamp = 5;
      compressed_bytes = 11;
      dimensions = none;
      random_access = true;
    }
      ∷ []
units-nal_packets_example =
    units-nal_packets h265 97 100 none 0 5 65535 cra (1 ∷ 2 ∷ []) ((3 ∷ []) ∷ []) (4 ∷ 5 ∷ [])
      (omega arith) (omega arith) (omega arith) (omega arith) (omega arith) (omega arith)
      (omega arith)

assemble-aggregate_example :
    assemble h264
      (packet_at 1 1 true (aggregate_payload h264 0x78 0 ((9 ∷ 0xf0 ∷ []) ∷ (0x65 ∷ 1 ∷ []) ∷ [])))
    ≡ assemble_each h264
        (packet_at 1 1 true
          (aggregate_payload h264 0x78 0 ((9 ∷ 0xf0 ∷ []) ∷ (0x65 ∷ 1 ∷ []) ∷ [])))
        ((9 ∷ 0xf0 ∷ []) ∷ (0x65 ∷ 1 ∷ []) ∷ [])
assemble-aggregate_example =
    assemble-aggregate h264
      (packet_at 1 1 true (aggregate_payload h264 0x78 0 ((9 ∷ 0xf0 ∷ []) ∷ (0x65 ∷ 1 ∷ []) ∷ [])))
      0x78 0 ((9 ∷ 0xf0 ∷ []) ∷ (0x65 ∷ 1 ∷ []) ∷ []) refl
      (
        record { has_header = omega arith; sized = omega arith; single = refl },
        (record { has_header = omega arith; sized = omega arith; single = refl }, tt),
      )
      refl
