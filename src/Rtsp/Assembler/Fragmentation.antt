-- ===== src/Rtsp/Assembler/Fragmentation.antt =====
-- A NAL unit that a sender cuts into fragmentation units, as RFC 6184 and RFC 7798 lay them out: the
-- packets that the assembler of src/backend/rtsp.rs receives.
use camera_adapter.Base.{
  ℕ, ◌+◌, ◌*◌, ◌/◌, ◌%◌, ◌^◌, ◌≤◌, ◌<◌, ◌≡◌, refl, Bool, true, false, List, [], ◌∷◌, ◌++◌, arith,
  length,
}
use camera_adapter.Rtsp.Packet.{RtpPacket}
use camera_adapter.Rtsp.Assembler.{RtspCodec, h264, h265}
use camera_adapter.Rtsp.Assembler.Loss.{IsContinuation, body, ends}

-- The header of a NAL unit. The second byte belongs to H.265 alone.
pub record Header : Type 0 where
  pub first : ℕ
  pub second : ℕ

abbrev pub header_bytes : RtspCodec → Header → List ℕ
header_bytes h264 h = h.first ∷ []
header_bytes h265 h = h.first ∷ h.second ∷ []

-- A fragmentation unit. `flag` is 128 for the first, 64 for the last and 0 between.
abbrev pub fu_payload : RtspCodec → Header → ℕ → List ℕ → List ℕ
fu_payload h264 h flag piece = (h.first / 32 * 32 + 28) ∷ (flag + h.first % 32) ∷ piece
fu_payload h265 h flag piece =
    (h.first / 128 * 128 + 98 + h.first % 2) ∷ h.second ∷ (flag + h.first / 2 % 64) ∷ piece

-- A packet of the run, with its number in the run.
abbrev pub fu_packet : RtspCodec → ℕ → ℕ → ℕ → Bool → Header → ℕ → List ℕ → RtpPacket
fu_packet c type timestamp sequence marker h flag piece = record {
  marker = marker;
  payload_type = type;
  sequence = sequence % 2 ^ 16;
  timestamp = timestamp;
  payload = fu_payload c h flag piece;
}

-- The fragments behind the first one. The last one has the marker.
abbrev pub rest_packets : RtspCodec → ℕ → ℕ → ℕ → Header → List (List ℕ) → List ℕ → List RtpPacket
rest_packets c type timestamp sequence h [] final =
    fu_packet c type timestamp sequence true h 64 final ∷ []
rest_packets c type timestamp sequence h (piece ∷ pieces) final =
    fu_packet c type timestamp sequence false h 0 piece
    ∷ rest_packets c type timestamp (sequence + 1) h pieces final

abbrev pub joined : List (List ℕ) → List ℕ → List ℕ
joined [] final = final
joined (piece ∷ pieces) final = piece ++ joined pieces final

pub fu-IsContinuation :
    (c : RtspCodec) (h : Header) (flag : ℕ) (piece : List ℕ)
    → flag ≤ 64
    → flag % 64 ≡ 0
    → 0 < length piece
    → IsContinuation c (fu_payload c h flag piece)
fu-IsContinuation h264 h flag piece small whole some_bytes =
    (omega arith, omega arith, ground arith)
fu-IsContinuation h265 h flag piece small whole some_bytes =
    (omega arith, omega arith, ground arith)

pub fu_body :
    (c : RtspCodec) (h : Header) (flag : ℕ) (piece : List ℕ)
    → body c (fu_payload c h flag piece) ≡ piece
fu_body h264 h flag piece = refl
fu_body h265 h flag piece = refl

pub fu_ends :
    (c : RtspCodec) (h : Header) (piece : List ℕ)
    → (ends c (fu_payload c h 0 piece) ≡ false) × (ends c (fu_payload c h 64 piece) ≡ true)
fu_ends h264 h piece = (ground arith, ground arith)
fu_ends h265 h piece = (ground arith, ground arith)
