-- ===== src/Rtsp/Sps/Syntax.antt =====
-- The H.264 sequence parameter set as its standard writes it, for the profiles without chroma fields,
-- and the picture size that it stands for: the input and the result of `parse_h264_sps_dimensions` of
-- src/backend/rtsp.rs.
use camera_adapter.Base.{
  ℕ, ◌+◌, ◌-◌, ◌*◌, ◌≤◌, ◌<◌, ◌≡◌, Bool, true, false, Option, none, some, List, [], ◌∷◌, ◌++◌,
  arith, length, if◌then◌else◌,
}
use camera_adapter.Base.Words.{u32_max}
use camera_adapter.Rtsp.Rbsp.Golomb.{value_from, code_word, golomb_value}
use camera_adapter.Rtsp.Sps.{Crop, is_high_profile}

-- A number and the suffix of its code word.
pub record Ue : Type 0 where
  pub suffix : List Bool
  pub short : length suffix ≤ 31

abbrev pub word : Ue → List Bool
word u = code_word u.suffix

abbrev pub value : Ue → ℕ
value u = golomb_value u.suffix

-- The fields behind a picture order type of 0, and none behind a type of 2.
pub data Order : Type 0 where
  lsb : Ue → Order
  output_order : Order

pub data Frames : Type 0 where
  progressive : Frames
  interlaced : Bool → Frames

pub record Cropping : Type 0 where
  pub left : Ue
  pub right : Ue
  pub top : Ue
  pub bottom : Ue

pub record Sps : Type 0 where
  pub profile : List Bool
  pub constraints_and_level : List Bool
  pub id : Ue
  pub frame_number : Ue
  pub order : Order
  pub references : Ue
  pub gaps_allowed : Bool
  pub width : Ue
  pub height : Ue
  pub frames : Frames
  pub direct_inference : Bool
  pub cropping : Option Cropping

-- The numbers 0 and 2.
abbrev pub zero_ue : Ue
zero_ue = record { suffix = []; short = omega arith }

abbrev pub two_ue : Ue
two_ue = record { suffix = true ∷ []; short = omega arith }

abbrev pub order_type : Order → Ue
order_type (lsb u) = zero_ue
order_type output_order = two_ue

abbrev pub order_bits : Order → List Bool
order_bits (lsb u) = word u
order_bits output_order = []

abbrev pub is_progressive : Frames → Bool
is_progressive progressive = true
is_progressive (interlaced adaptive) = false

abbrev pub frames_bits : Frames → List Bool
frames_bits progressive = []
frames_bits (interlaced adaptive) = adaptive ∷ []

abbrev pub coded_bits : Sps → List Bool → List Bool
coded_bits s rest =
    word s.references
    ++ (s.gaps_allowed
        ∷ (word s.width
            ++ (word s.height
                ++ (is_progressive s.frames
                    ∷ (frames_bits s.frames ++ (s.direct_inference ∷ rest))))))

abbrev pub cropping_bits : Option Cropping → List Bool
cropping_bits none = false ∷ []
cropping_bits (some c) = true ∷ (word c.left ++ (word c.right ++ (word c.top ++ word c.bottom)))

unfoldable pub sps_bits : Sps → List Bool
sps_bits s =
    s.profile
    ++ (s.constraints_and_level
        ++ (word s.id
            ++ (word s.frame_number
                ++ (word (order_type s.order)
                    ++ (order_bits s.order ++ coded_bits s (cropping_bits s.cropping))))))

abbrev pub factor : Frames → ℕ
factor frames = if is_progressive frames then 1 else 2

abbrev pub crop_of : Option Cropping → Crop
crop_of none = record { left = 0; right = 0; top = 0; bottom = 0 }
crop_of (some c) = record {
  left = value c.left;
  right = value c.right;
  top = value c.top;
  bottom = value c.bottom;
}

abbrev pub coded_width : Sps → ℕ
coded_width s = (value s.width + 1) * 16

abbrev pub coded_height : Sps → ℕ
coded_height s = (value s.height + 1) * 16 * factor s.frames

abbrev pub cropped_columns : Sps → ℕ
cropped_columns s = ((crop_of s.cropping).left + (crop_of s.cropping).right) * 2

abbrev pub cropped_rows : Sps → ℕ
cropped_rows s = ((crop_of s.cropping).top + (crop_of s.cropping).bottom) * (2 * factor s.frames)

-- What the standard displays: the coded samples without the cropped ones.
unfoldable pub width_of : Sps → ℕ
width_of s = coded_width s - cropped_columns s

unfoldable pub height_of : Sps → ℕ
height_of s = coded_height s - cropped_rows s

abbrev pub IsOrder : Order → Type 0
IsOrder (lsb u) = value u ≤ 12
IsOrder output_order = Unit

-- The limits of the parser on such a parameter set.
pub record IsSps (s : Sps) : Type 0 where
  pub profile_size : length s.profile ≡ 8
  pub level_size : length s.constraints_and_level ≡ 16
  pub plain_profile : is_high_profile (value_from 0 s.profile) ≡ false
  pub number_fits : value s.frame_number ≤ 12
  pub order_fits : IsOrder s.order
  pub coded_fits : coded_width s ≤ u32_max
  pub rows_fit : coded_height s ≤ u32_max
  pub columns_left : cropped_columns s < coded_width s
  pub rows_left : cropped_rows s < coded_height s
  pub width_fits : width_of s ≤ 65535
  pub height_fits : height_of s ≤ 65535
