-- ===== src/Rtsp/Sps.antt =====
-- `parse_h264_sps_dimensions` and `parse_h265_sps_dimensions` of src/backend/rtsp.rs, with their parts.
-- An `i32` is its bit pattern, and its sum wraps, as in the release profile.
pub mod Bounds
pub mod Syntax
pub mod RoundTrip
pub mod H265
use camera_adapter.Base.{
  ℕ, zero, suc, ◌+◌, ◌-◌, ◌*◌, ◌/◌, ◌%◌, ◌^◌, Bool, true, false, not, ◌&&◌, ◌||◌, Option, none,
  some, List, [], ◌∷◌, length, get_or, ltb, leb, ◌==◌, if◌then◌else◌,
}
use camera_adapter.Base.Words.{u32_max, checked_add, checked_mul}
use camera_adapter.Error.{Result, ok, err, reject_if}
use camera_adapter.Rtsp.{security_error}
use camera_adapter.Rtsp.Bytes.{drop}
use camera_adapter.Rtsp.Rbsp.{
  RbspBitReader, Read, pure, fail, some_or, refuse_if, ◌>>=◌, ◌>>◌, from_escaped, bit, bits,
  unsigned_exp_golomb, signed_exp_golomb, skip,
}

-- `checked_sub`.
abbrev pub checked_sub : ℕ → ℕ → Option ℕ
checked_sub a b = if leb b a then some (a - b) else none

-- `Option::and_then`.
abbrev pub and_option {ℓ κ} : {A : Type ℓ} {B : Type κ} → Option A → (A → Option B) → Option B
and_option none f = none
and_option (some a) f = f a

unfoldable pub validate_dimensions : ℕ → ℕ → Read (ℕ × ℕ)
validate_dimensions width height = do
  refuse_if ((width == 0) || (height == 0) || ltb 65535 width || ltb 65535 height)
      (security_error "codec dimensions violate hard bounds")
  pure (width, height)

-- `%` of an `i32` by 256, which keeps the sign of its left side.
abbrev rem_256 : ℕ → ℕ
rem_256 pattern =
    if ltb pattern (2 ^ 31) then pattern % 256 else (2 ^ 32 - (2 ^ 32 - pattern) % 256) % 2 ^ 32

next_scale_of : ℕ → ℕ → Read ℕ
next_scale_of last_scale next_scale =
    if next_scale == 0
    then pure next_scale
    else (signed_exp_golomb >>= λ delta. pure (rem_256 ((last_scale + delta + 256) % 2 ^ 32)))

scaling_list_from : ℕ → ℕ → ℕ → Read (Unit {0})
scaling_list_from zero last_scale next_scale = pure tt
scaling_list_from (suc left) last_scale next_scale = do
  next ← next_scale_of last_scale next_scale
  scaling_list_from left (if next == 0 then last_scale else next) next

skip_h264_scaling_list : ℕ → Read (Unit {0})
skip_h264_scaling_list size = scaling_list_from size 8 8

-- The rounds `index..` of the scaling matrix, `left` of them.
scaling_matrix_from : ℕ → ℕ → Read (Unit {0})
scaling_matrix_from zero index = pure tt
scaling_matrix_from (suc left) index = do
  present ← bit
  if present then skip_h264_scaling_list (if ltb index 6 then 16 else 64) else pure tt
  scaling_matrix_from left (index + 1)

pub record Chroma : Type 0 where
  pub chroma_format_idc : ℕ
  pub separate_colour_plane : Bool

unfoldable pub is_high_profile : ℕ → Bool
is_high_profile p =
    (p == 100)
    || (p == 110)
    || (p == 122)
    || (p == 244)
    || (p == 44)
    || (p == 83)
    || (p == 86)
    || (p == 118)
    || (p == 128)
    || (p == 138)
    || (p == 139)
    || (p == 134)
    || (p == 135)

pub high_profile_fields : Read Chroma
high_profile_fields = do
  chroma_format_idc ← unsigned_exp_golomb
  refuse_if (ltb 3 chroma_format_idc) (security_error "H.264 SPS chroma format is invalid")
  separate ← if chroma_format_idc == 3 then bit else pure false
  luma_depth ← unsigned_exp_golomb
  refuse_if (ltb 6 luma_depth) (security_error "H.264 SPS bit depth is unsupported")
  chroma_depth ← unsigned_exp_golomb
  refuse_if (ltb 6 chroma_depth) (security_error "H.264 SPS bit depth is unsupported")
  _ ← bit
  scaling ← bit
  if scaling then scaling_matrix_from (if chroma_format_idc == 3 then 12 else 8) 0 else pure tt
  pure (record { chroma_format_idc = chroma_format_idc; separate_colour_plane = separate })

unfoldable pub profile_fields : ℕ → Read Chroma
profile_fields profile_idc =
    if is_high_profile profile_idc
    then high_profile_fields
    else pure (record { chroma_format_idc = 1; separate_colour_plane = false })

skip_offsets : ℕ → Read (Unit {0})
skip_offsets zero = pure tt
skip_offsets (suc left) = do _ ← signed_exp_golomb; skip_offsets left

pub cycle_fields : Read (Unit {0})
cycle_fields = do
  _ ← bit
  _ ← signed_exp_golomb
  _ ← signed_exp_golomb
  cycle ← unsigned_exp_golomb
  refuse_if (ltb 256 cycle) (security_error "H.264 SPS POC cycle is oversized")
  skip_offsets cycle

pub lsb_fields : Read (Unit {0})
lsb_fields = do
  width ← unsigned_exp_golomb
  refuse_if (ltb 12 width) (security_error "H.264 SPS POC width is invalid")

unfoldable pub picture_order : ℕ → Read (Unit {0})
picture_order zero = lsb_fields
picture_order (suc zero) = cycle_fields
picture_order (suc (suc zero)) = pure tt
picture_order _ = fail (security_error "H.264 SPS POC type is invalid")

pub record Crop : Type 0 where
  pub left : ℕ
  pub right : ℕ
  pub top : ℕ
  pub bottom : ℕ

pub cropped : Read Crop
cropped = do
  left ← unsigned_exp_golomb
  right ← unsigned_exp_golomb
  top ← unsigned_exp_golomb
  bottom ← unsigned_exp_golomb
  pure (record { left = left; right = right; top = top; bottom = bottom })

unfoldable pub crop_fields : Read Crop
crop_fields = do
  present ← bit
  if present then cropped else pure (record { left = 0; right = 0; top = 0; bottom = 0 })

abbrev pub chroma_array_type : Chroma → ℕ
chroma_array_type c = if c.separate_colour_plane then 0 else c.chroma_format_idc

-- `(sub_width, sub_height)`.
unfoldable pub sub_sampling : ℕ → Option (ℕ × ℕ)
sub_sampling zero = some (1, 1)
sub_sampling (suc zero) = some (2, 2)
sub_sampling (suc (suc zero)) = some (2, 1)
sub_sampling (suc (suc (suc zero))) = some (1, 1)
sub_sampling _ = none

-- `coded` without `unit` samples for each of the cropped units at its two ends.
unfoldable pub cropped_size : Option ℕ → ℕ → ℕ → ℕ → Option ℕ
cropped_size coded first second unit = and_option coded λ size.
    and_option (checked_add u32_max first second)
      λ crop. and_option (checked_mul u32_max crop unit) λ samples. checked_sub size samples

unfoldable pub coded_fields : Read (ℕ × ℕ × Bool)
coded_fields = do
  _ ← unsigned_exp_golomb
  _ ← bit
  width ← unsigned_exp_golomb
  width_mbs ← some_or (checked_add u32_max width 1) (security_error "H.264 SPS width overflowed")
  height ← unsigned_exp_golomb
  height_map_units ←
      some_or (checked_add u32_max height 1) (security_error "H.264 SPS height overflowed")
  frame_mbs_only ← bit
  if frame_mbs_only then pure false else bit
  _ ← bit
  pure (width_mbs, height_map_units, frame_mbs_only)

unfoldable pub h264_geometry : Chroma → ℕ → ℕ → Bool → Crop → Read (ℕ × ℕ)
h264_geometry chroma width_mbs height_map_units frame_mbs_only crop = do
  (sub_width, sub_height) ←
      some_or (sub_sampling (chroma_array_type chroma))
        (security_error "H.264 SPS chroma array type is invalid")
  let frame_factor = if frame_mbs_only then 1 else 2
  crop_unit_y ←
      some_or (checked_mul u32_max sub_height frame_factor)
        (security_error "H.264 SPS crop unit overflowed")
  width ←
      some_or (cropped_size (checked_mul u32_max width_mbs 16) crop.left crop.right sub_width)
        (security_error "H.264 SPS cropped width is invalid")
  height ←
      some_or
        (cropped_size
          (and_option (checked_mul u32_max height_map_units 16)
            (λ v. checked_mul u32_max v frame_factor))
          crop.top crop.bottom crop_unit_y)
        (security_error "H.264 SPS cropped height is invalid")
  validate_dimensions width height

unfoldable pub h264_fields : Read (ℕ × ℕ)
h264_fields = do
  profile_idc ← bits 8
  skip 16
  _ ← unsigned_exp_golomb
  chroma ← profile_fields profile_idc
  frame_number ← unsigned_exp_golomb
  refuse_if (ltb 12 frame_number) (security_error "H.264 SPS frame-number width is invalid")
  pic_order_cnt_type ← unsigned_exp_golomb
  picture_order pic_order_cnt_type
  (width_mbs, height_map_units, frame_mbs_only) ← coded_fields
  crop ← crop_fields
  h264_geometry chroma width_mbs height_map_units frame_mbs_only crop

-- The value of a whole parse. The reader is a local variable of the function.
abbrev pub parsed {ℓ} : {A : Type ℓ} → Result (A × RbspBitReader) → Result A
parsed (ok (a, r)) = ok a
parsed (err e) = err e

abbrev pub parse_with {ℓ} : {A : Type ℓ} → Read A → Result RbspBitReader → Result A
parse_with m (ok r) = parsed (m r)
parse_with m (err e) = err e

unfoldable pub parse_h264_sps_dimensions : List ℕ → Result (ℕ × ℕ)
parse_h264_sps_dimensions nal =
    if ltb (length nal) 4 || not (get_or nal 0 0 % 2 ^ 5 == 7)
    then err (security_error "H.264 SPS NAL is invalid")
    else parse_with h264_fields (from_escaped (drop 1 nal))
