-- ===== src/Rtsp/Assembler.antt =====
-- `AccessUnitAssembler` of src/backend/rtsp.rs: its state and the calls that put NAL units into the access
-- unit that is being built. A call returns the state with its result, since the state that an error
-- leaves behind is used again.
pub mod Fragments
pub mod H264
pub mod H265
pub mod Push
pub mod Bounds
pub mod Codecs
pub mod Growth
pub mod ParameterSets
pub mod RandomAccess
pub mod Units
pub mod Loss
pub mod Fragmentation
pub mod Continuation
pub mod Reassembly
pub mod Aggregation
use camera_adapter.Base.{
  is_some, ℕ, zero, suc, ◌+◌, ◌/◌, ◌%◌, ◌^◌, Bool, true, false, not, ◌&&◌, ◌||◌, Option, none, some,
  List, [], ◌∷◌, ◌++◌, length, get_or, ltb, leb, ◌==◌, if◌then◌else◌,
}
use camera_adapter.Base.Words.{u64_max, checked_add, saturating_add}
use camera_adapter.Error.{CameraError, rejected, resource_limit, Result, ok, err}
use camera_adapter.Rtsp.{security_error}
use camera_adapter.Rtsp.Sps.{parse_h264_sps_dimensions}
use camera_adapter.Rtsp.Sps.H265.{parse_h265_sps_dimensions}

pub data RtspCodec : Type 0 where
  h264 h265 : RtspCodec

-- The part of a track that the assembler keeps.
pub record RtspTrack : Type 0 where
  pub codec : RtspCodec
  pub payload_type : ℕ
  pub bootstrap_nals : List (List ℕ)

pub record FragmentState : Type 0 where
  pub timestamp : ℕ
  pub expected_sequence : ℕ
  pub nal_offset : ℕ

pub record Assembler : Type 0 where
  pub codec : RtspCodec
  pub payload_type : ℕ
  pub maximum_bytes : ℕ
  pub timestamp : Option ℕ
  pub expected_sequence : Option ℕ
  pub fragment : Option FragmentState
  pub bytes : List ℕ
  pub has_vcl : Bool
  pub has_random_access : Bool
  pub bootstrap_nals : List (List ℕ)
  pub bootstrap_pending : Bool
  pub bootstrap_injected_for_unit : Bool
  pub dimensions : Option (ℕ × ℕ)
  pub incomplete_units : ℕ

abbrev pub is_empty {ℓ} : {A : Type ℓ} → List A → Bool
is_empty [] = true
is_empty (x ∷ xs) = false

unfoldable pub new : RtspTrack → ℕ → Result Assembler
new track maximum_bytes =
    if maximum_bytes == 0
    then err (rejected resource_limit "RTSP compressed-frame bound must be positive")
    else ok (record {
      codec = track.codec;
      payload_type = track.payload_type;
      maximum_bytes = maximum_bytes;
      timestamp = none;
      expected_sequence = none;
      fragment = none;
      bytes = [];
      has_vcl = false;
      has_random_access = false;
      bootstrap_nals = track.bootstrap_nals;
      bootstrap_pending = not (is_empty track.bootstrap_nals);
      bootstrap_injected_for_unit = false;
      dimensions = none;
      incomplete_units = 0;
    })

abbrev pub Step : Type 0 → Type 0
Step A = Assembler → Assembler × Result A

abbrev pub done : Step (Unit {0})
done a = (a, ok tt)

abbrev pub stop : CameraError → Step (Unit {0})
stop e a = (a, err e)

-- The `?` operator.
abbrev pub go_on : Assembler × Result (Unit {0}) → Step (Unit {0}) → Assembler × Result (Unit {0})
go_on (a, ok x) rest = rest a
go_on (a, err e) rest = (a, err e)

infixl 5 ◌>>◌
abbrev pub ◌>>◌ : Step (Unit {0}) → Step (Unit {0}) → Step (Unit {0})
(first >> rest) a = go_on (first a) rest

abbrev pub change : (Assembler → Assembler) → Step (Unit {0})
change f a = (f a, ok tt)

abbrev pub size_overflow : CameraError
size_overflow = security_error "RTP access-unit size overflowed"

abbrev pub oversized : CameraError
oversized = rejected resource_limit "RTSP compressed access unit exceeds maximumFrameBytes"

abbrev pub extend : Option ℕ → List ℕ → Step (Unit {0})
extend none more a = (a, err size_overflow)
extend (some next) more a =
    if ltb a.maximum_bytes next
    then (a, err oversized)
    else (record a { bytes = a.bytes ++ more }, ok tt)

unfoldable pub append_bytes : List ℕ → Step (Unit {0})
append_bytes more a = extend (checked_add u64_max (length a.bytes) (length more)) more a

abbrev pub start_code : List ℕ
start_code = 0 ∷ 0 ∷ 0 ∷ 1 ∷ []

unfoldable pub append_start_code : Step (Unit {0})
append_start_code = append_bytes start_code

abbrev pub nal_type : RtspCodec → List ℕ → ℕ
nal_type h264 nal = get_or nal 0 0 % 2 ^ 5
nal_type h265 nal = get_or nal 0 0 / 2 % 2 ^ 6

unfoldable pub nal_is_random_access : RtspCodec → List ℕ → Bool
nal_is_random_access h264 nal = not (is_empty nal) && (nal_type h264 nal == 5)
nal_is_random_access h265 nal =
    leb 2 (length nal) && (leb 16 (nal_type h265 nal) && leb (nal_type h265 nal) 23)

abbrev pub is_parameter_set : RtspCodec → List ℕ → Bool
is_parameter_set h264 nal = not (is_empty nal) && (nal_type h264 nal == 7)
is_parameter_set h265 nal = leb 2 (length nal) && (nal_type h265 nal == 33)

abbrev pub parse_dimensions : RtspCodec → List ℕ → Result (ℕ × ℕ)
parse_dimensions h264 nal = parse_h264_sps_dimensions nal
parse_dimensions h265 nal = parse_h265_sps_dimensions nal

abbrev pub note_dimensions : Result (ℕ × ℕ) → Step (Unit {0})
note_dimensions (ok d) a = (record a { dimensions = some d }, ok tt)
note_dimensions (err e) a = (a, err e)

unfoldable pub observe_nal : List ℕ → Step (Unit {0})
observe_nal nal a =
    if is_parameter_set a.codec nal
    then note_dimensions (parse_dimensions a.codec nal) a
    else (a, ok tt)

unfoldable pub append_bootstrap : List (List ℕ) → Step (Unit {0})
append_bootstrap [] = done
append_bootstrap (nal ∷ rest) =
    observe_nal nal >> append_start_code >> append_bytes nal >> append_bootstrap rest

abbrev pub set_injected : Assembler → Assembler
set_injected a = record a { bootstrap_injected_for_unit = true }

unfoldable pub inject_bootstrap_before_vcl : Bool → Step (Unit {0})
inject_bootstrap_before_vcl vcl a =
    if not vcl || (not a.bootstrap_pending || a.bootstrap_injected_for_unit)
    then (a, ok tt)
    else (append_bootstrap a.bootstrap_nals >> change set_injected) a

abbrev pub mark_random_access : Bool → Assembler → Assembler
mark_random_access random a =
    if random
    then record a { has_random_access = true; bootstrap_pending = not (is_empty a.bootstrap_nals) }
    else a

unfoldable pub begin_vcl : Bool → Bool → Step (Unit {0})
begin_vcl vcl random_access =
    change (mark_random_access (vcl && random_access)) >> inject_bootstrap_before_vcl vcl

abbrev pub note_vcl : Bool → Assembler → Assembler
note_vcl vcl a = record a { has_vcl = a.has_vcl || vcl }

unfoldable pub append_nal : List ℕ → Bool → Step (Unit {0})
append_nal nal vcl a =
    (begin_vcl vcl (nal_is_random_access a.codec nal)
        >> observe_nal nal
        >> append_start_code
        >> append_bytes nal
        >> change (note_vcl vcl))
      a

unfoldable pub discard_incomplete : Assembler → Assembler
discard_incomplete a = record a {
  has_random_access = false;
  incomplete_units =
      if not (is_empty a.bytes) || is_some a.fragment
      then saturating_add u64_max a.incomplete_units 1
      else a.incomplete_units;
  timestamp = none;
  expected_sequence = none;
  fragment = none;
  bytes = [];
  has_vcl = false;
  bootstrap_injected_for_unit = false;
}
