-- ===== src/Rtsp/Assembler/Fragments.antt =====
-- The fragmentation units of src/backend/rtsp.rs: what `push_h264` does with an FU-A and `push_h265` with an
-- FU, the reconstructed header and the body given. The two differ in their messages.
use camera_adapter.Base.{
  ℕ, ◌+◌, ◌%◌, ◌^◌, Bool, not, ◌&&◌, Option, none, some, List, length, ◌==◌, if◌then◌else◌,
}
use camera_adapter.Error.{CameraError, err}
use camera_adapter.Rtsp.Bytes.{drop}
use camera_adapter.Rtsp.Packet.{RtpPacket}
use camera_adapter.Rtsp.Assembler.{
  FragmentState, Assembler, Step, ◌>>◌, done, stop, change, begin_vcl, append_start_code,
  append_bytes, note_vcl, observe_nal, is_some,
}

-- The messages of one codec.
pub record Messages : Type 0 where
  pub overlap : CameraError
  pub lacks_start : CameraError
  pub discontinuous : CameraError
  pub lacks_state : CameraError

abbrev pub next_sequence : RtpPacket → ℕ
next_sequence packet = (packet.sequence + 1) % 2 ^ 16

-- The fragment opens where the NAL unit begins, behind its start code.
abbrev pub open_fragment : RtpPacket → ℕ → Assembler → Assembler
open_fragment packet nal_offset a = record a {
  fragment = some (record {
    timestamp = packet.timestamp;
    expected_sequence = next_sequence packet;
    nal_offset = nal_offset;
  });
}

abbrev pub begin_nal : RtpPacket → List ℕ → List ℕ → Bool → Step (Unit {0})
begin_nal packet header body vcl a =
    (append_bytes header
        >> append_bytes body
        >> change (note_vcl vcl)
        >> change (open_fragment packet (length a.bytes)))
      a

unfoldable pub start_fragment :
    Messages → RtpPacket → List ℕ → List ℕ → Bool → Bool → Step (Unit {0})
start_fragment m packet header body vcl random_access a =
    if is_some a.fragment
    then (a, err m.overlap)
    else (begin_vcl vcl random_access >> append_start_code >> begin_nal packet header body vcl) a

abbrev pub move_fragment : RtpPacket → FragmentState → Assembler → Assembler
move_fragment packet state a = record a {
  fragment = some (record state { expected_sequence = next_sequence packet });
}

abbrev pub close_at : Messages → Option FragmentState → Step (Unit {0})
close_at m none a = (a, err m.lacks_state)
close_at m (some state) a =
    observe_nal (drop state.nal_offset a.bytes) (record a { fragment = none })

abbrev pub close_fragment : Messages → Step (Unit {0})
close_fragment m a = close_at m a.fragment a

abbrev pub follows : RtpPacket → FragmentState → Bool
follows packet state =
    (state.timestamp == packet.timestamp) && (state.expected_sequence == packet.sequence)

abbrev pub continue_at :
    Messages → RtpPacket → List ℕ → Bool → Option FragmentState → Step (Unit {0})
continue_at m packet body end none = stop m.lacks_start
continue_at m packet body end (some state) =
    if not (follows packet state)
    then stop m.discontinuous
    else (change (move_fragment packet state)
        >> append_bytes body
        >> (if end then close_fragment m else done))

unfoldable pub continue_fragment : Messages → RtpPacket → List ℕ → Bool → Step (Unit {0})
continue_fragment m packet body end a = continue_at m packet body end a.fragment a
