-- ===== src/Rtsp/Packet/Wire.antt =====
-- Packets as RFC 3550 lays them out, for src/backend/rtsp.rs to read.
use camera_adapter.Base.{
  ℕ, ◌+◌, ◌*◌, ◌/◌, ◌%◌, ◌^◌, ◌≤◌, ◌<◌, ◌≡◌, Bool, Option, none, some, List, [], ◌∷◌, ◌++◌, length,
  if◌then◌else◌,
}
use camera_adapter.Rtsp.Packet.{max_interleaved_packet_bytes}

-- A header extension: two bytes of the profile, and a body of so many words of four bytes.
pub record Extension : Type 0 where
  pub profile_hi : ℕ
  pub profile_lo : ℕ
  pub words : ℕ
  pub body : List ℕ

-- What a sender puts into one packet. The padding is given without its last byte, which counts it.
pub record Wire : Type 0 where
  pub marker : Bool
  pub payload_type : ℕ
  pub sequence : ℕ
  pub timestamp : ℕ
  pub source : ℕ
  pub csrc_count : ℕ
  pub csrc : List ℕ
  pub extension : Option Extension
  pub payload : List ℕ
  pub padding : Option (List ℕ)

abbrev pub extension_bytes : Option Extension → List ℕ
extension_bytes none = []
extension_bytes (some x) = x.profile_hi ∷ x.profile_lo ∷ x.words / 256 ∷ x.words % 256 ∷ x.body

abbrev pub padding_bytes : Option (List ℕ) → List ℕ
padding_bytes none = []
padding_bytes (some fill) = fill ++ ((length fill + 1) ∷ [])

abbrev pub flag_of {ℓ} : {A : Type ℓ} → Option A → ℕ
flag_of none = 0
flag_of (some a) = 1

abbrev pub first_byte : Wire → ℕ
first_byte w = 128 + flag_of w.padding * 32 + flag_of w.extension * 16 + w.csrc_count

abbrev second_byte : Wire → ℕ
second_byte w = (if w.marker then 128 else 0) + w.payload_type

-- The fixed header in front of `rest`.
abbrev pub header_then : Wire → List ℕ → List ℕ
header_then w rest =
    first_byte w
    ∷ second_byte w
    ∷ w.sequence / 256
    ∷ w.sequence % 256
    ∷ w.timestamp / 2 ^ 24
    ∷ w.timestamp / 2 ^ 16 % 256
    ∷ w.timestamp / 256 % 256
    ∷ w.timestamp % 256
    ∷ w.source / 2 ^ 24
    ∷ w.source / 2 ^ 16 % 256
    ∷ w.source / 256 % 256
    ∷ w.source % 256
    ∷ rest

abbrev pub encode : Wire → List ℕ
encode w =
    header_then w
      (w.csrc ++ (extension_bytes w.extension ++ (w.payload ++ padding_bytes w.padding)))

abbrev pub Extends : Option Extension → Type 0
Extends none = Unit
Extends (some x) = (x.words < 2 ^ 16) × (length x.body ≡ x.words * 4)

abbrev pub Pads : Option (List ℕ) → Type 0
Pads none = Unit
Pads (some fill) = length fill < 255

-- The limits of the format, and the bound on one interleaved packet.
pub record IsWire (w : Wire) : Type 0 where
  pub type_fits : w.payload_type < 128
  pub sequence_fits : w.sequence < 2 ^ 16
  pub timestamp_fits : w.timestamp < 2 ^ 32
  pub count_fits : w.csrc_count < 16
  pub csrc_counted : length w.csrc ≡ w.csrc_count * 4
  pub extends : Extends w.extension
  pub has_media : 0 < length w.payload
  pub pads : Pads w.padding
  pub fits : length (encode w) ≤ max_interleaved_packet_bytes

abbrev pub fixed_and_csrc : Wire → ℕ
fixed_and_csrc w = 12 + w.csrc_count * 4

abbrev pub media_offset : Wire → ℕ
media_offset w = fixed_and_csrc w + length (extension_bytes w.extension)
