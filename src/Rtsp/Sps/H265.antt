-- ===== src/Rtsp/Sps/H265.antt =====
-- `parse_h265_sps_dimensions` of src/backend/rtsp.rs and the profile, tier and level fields that it skips.
use camera_adapter.Base.{
  ℕ, zero, suc, ◌-◌, ◌*◌, ◌/◌, ◌%◌, ◌^◌, Bool, false, not, ◌||◌, some, List, [], ◌∷◌, length,
  get_or, ltb, ◌==◌, if◌then◌else◌,
}
use camera_adapter.Error.{Result, err}
use camera_adapter.Rtsp.{security_error}
use camera_adapter.Rtsp.Bytes.{drop}
use camera_adapter.Rtsp.Rbsp.{
  Read, pure, some_or, refuse_if, ◌>>=◌, ◌>>◌, from_escaped, bit, bits, unsigned_exp_golomb, skip,
}
use camera_adapter.Rtsp.Sps.{
  Chroma, Crop, chroma_array_type, sub_sampling, cropped_size, crop_fields, validate_dimensions,
  parse_with,
}

-- `(profile_present, level_present)` of the sub-layers, the first in front.
pub presence_flags : ℕ → Read (List (Bool × Bool))
presence_flags zero = pure []
presence_flags (suc left) = do
  profile ← bit
  level ← bit
  rest ← presence_flags left
  pure ((profile, level) ∷ rest)

pub skip_sub_layers : List (Bool × Bool) → Read (Unit {0})
skip_sub_layers [] = pure tt
skip_sub_layers ((profile, level) ∷ rest) = do
  if profile then skip 88 else pure tt
  if level then skip 8 else pure tt
  skip_sub_layers rest

pub skip_h265_profile_tier_level : ℕ → Read (Unit {0})
skip_h265_profile_tier_level max_sub_layers_minus1 = do
  skip 96
  flags ← presence_flags max_sub_layers_minus1
  if ltb 0 max_sub_layers_minus1 then skip ((8 - max_sub_layers_minus1) * 2) else pure tt
  skip_sub_layers flags

unfoldable pub h265_geometry : Chroma → ℕ → ℕ → Crop → Read (ℕ × ℕ)
h265_geometry chroma coded_width coded_height crop = do
  (sub_width, sub_height) ←
      some_or (sub_sampling (chroma_array_type chroma))
        (security_error "H.265 SPS chroma array type is invalid")
  width ←
      some_or (cropped_size (some coded_width) crop.left crop.right sub_width)
        (security_error "H.265 SPS cropped width is invalid")
  height ←
      some_or (cropped_size (some coded_height) crop.top crop.bottom sub_height)
        (security_error "H.265 SPS cropped height is invalid")
  validate_dimensions width height

unfoldable pub h265_fields : Read (ℕ × ℕ)
h265_fields = do
  skip 4
  max_sub_layers_minus1 ← bits 3
  refuse_if (ltb 6 max_sub_layers_minus1) (security_error "H.265 SPS sub-layer count is invalid")
  _ ← bit
  skip_h265_profile_tier_level max_sub_layers_minus1
  _ ← unsigned_exp_golomb
  chroma_format_idc ← unsigned_exp_golomb
  refuse_if (ltb 3 chroma_format_idc) (security_error "H.265 SPS chroma format is invalid")
  separate ← if chroma_format_idc == 3 then bit else pure false
  coded_width ← unsigned_exp_golomb
  coded_height ← unsigned_exp_golomb
  crop ← crop_fields
  h265_geometry (record { chroma_format_idc = chroma_format_idc; separate_colour_plane = separate })
      coded_width coded_height crop

unfoldable pub parse_h265_sps_dimensions : List ℕ → Result (ℕ × ℕ)
parse_h265_sps_dimensions nal =
    if ltb (length nal) 5 || not (get_or nal 0 0 / 2 % 2 ^ 6 == 33)
    then err (security_error "H.265 SPS NAL is invalid")
    else parse_with h265_fields (from_escaped (drop 2 nal))
