-- ===== src/Rtsp/Sps/Bounds.antt =====
-- The dimensions that the two parsers of src/backend/rtsp.rs return, on any bytes.
use camera_adapter.Base.{
  ℕ, ◌≤◌, ◌<◌, ◌≡◌, ◌⊎◌, subst, Option, some, inl, inr, Bool, true, false, not, ◌||◌, List, arith,
  length, get_or, ltb, ◌==◌, ◌%◌, ◌/◌, if◌then◌else◌,
}
use camera_adapter.Error.{CameraError, Result, ok, err, Result-cases}
use camera_adapter.Base.Words.{u32_max, checked_mul}
use camera_adapter.Rtsp.{security_error}
use camera_adapter.Rtsp.Bytes.{drop}
use camera_adapter.Rtsp.Rbsp.{
  RbspBitReader, Read, ◌>>=◌, refuse_if, from_escaped, pure, some_or, bit, bits, skip,
  unsigned_exp_golomb,
}
use camera_adapter.Rtsp.Sps.{
  Chroma, Crop, chroma_array_type, sub_sampling, cropped_size, and_option, profile_fields,
  picture_order, coded_fields, crop_fields, validate_dimensions, h264_geometry, h264_fields,
  parse_h264_sps_dimensions, parse_with,
}
use camera_adapter.Rtsp.Sps.H265.{
  h265_geometry, h265_fields, skip_h265_profile_tier_level, parse_h265_sps_dimensions,
}

abbrev pub IsDimensions : ℕ × ℕ → Type 0
IsDimensions (width, height) = (0 < width) × (width ≤ 65535) × (0 < height) × (height ≤ 65535)

-- Whatever the reader holds, a result of the call has the property.
record Ensures {ℓ} {A : Type ℓ} (m : Read A) (P : A → Type 0) : Type ℓ where
  holds : (r r' : RbspBitReader) (a : A) → m r ≡ ok (a, r') → P a

>>=-Ensures {ℓ} :
    {A B : Type ℓ} (m : Read A) (f : A → Read B) {P : B → Type 0}
    → ((a : A) → Ensures (f a) P)
    → Ensures (m >>= f) P
>>=-Ensures m f h = record {
  holds = λ r r' b e. elim (Result-cases (m r)) [
    | inl (x, failed) ↦ ground (arith, failed)
    | inr ((a, r1), passed) ↦ (h a).holds r1 r' b (ground (arith, passed))
  ];
}

validate-Ensures : (w h : ℕ) → Ensures (validate_dimensions w h) IsDimensions
unfolding validate_dimensions
validate-Ensures w h = record { holds = λ r r' d e. ground arith }

-- A call whose value is chosen by an option: the rest alone matters.
some_or-Ensures {ℓ} :
    {A B : Type ℓ} (o : Option A) (x : CameraError) (f : A → Read B) {P : B → Type 0}
    → ((a : A) → Ensures (f a) P)
    → Ensures (some_or o x >>= f) P
some_or-Ensures o x f = >>=-Ensures (some_or o x) f

h264_geometry-Ensures :
    (chroma : Chroma) (w h : ℕ) (frame : Bool) (crop : Crop)
    → Ensures (h264_geometry chroma w h frame crop) IsDimensions
unfolding h264_geometry
h264_geometry-Ensures chroma w h frame crop =
    some_or-Ensures (sub_sampling (chroma_array_type chroma)) _ _ λ sub.
      some_or-Ensures (checked_mul u32_max sub.1 (if frame then 1 else 2)) _ _ λ unit.
        some_or-Ensures (cropped_size (checked_mul u32_max w 16) crop.left crop.right sub.0) _ _
          λ width.
            some_or-Ensures
              (cropped_size
                (and_option (checked_mul u32_max h 16)
                  (λ v. checked_mul u32_max v (if frame then 1 else 2)))
                crop.top crop.bottom unit)
              _ _ λ height. validate-Ensures width height

h265_geometry-Ensures :
    (chroma : Chroma) (w h : ℕ) (crop : Crop) → Ensures (h265_geometry chroma w h crop) IsDimensions
unfolding h265_geometry
h265_geometry-Ensures chroma w h crop =
    some_or-Ensures (sub_sampling (chroma_array_type chroma)) _ _ λ sub.
      some_or-Ensures (cropped_size (some w) crop.left crop.right sub.0) _ _ λ width.
        some_or-Ensures (cropped_size (some h) crop.top crop.bottom sub.1) _ _
          λ height. validate-Ensures width height

h264-Ensures : Ensures h264_fields IsDimensions
unfolding h264_fields
h264-Ensures = >>=-Ensures (bits 8) _ λ profile_idc. >>=-Ensures (skip 16) _ λ _.
    >>=-Ensures unsigned_exp_golomb _ λ _. >>=-Ensures (profile_fields profile_idc) _ λ chroma.
      >>=-Ensures unsigned_exp_golomb _ λ number.
        >>=-Ensures
          (refuse_if (ltb 12 number) (security_error "H.264 SPS frame-number width is invalid")) _
          λ _. >>=-Ensures unsigned_exp_golomb _ λ order. >>=-Ensures (picture_order order) _ λ _.
            >>=-Ensures coded_fields _ λ coded.
              >>=-Ensures crop_fields _
                λ crop. h264_geometry-Ensures chroma coded.0 coded.1 coded.2 crop

h265-Ensures : Ensures h265_fields IsDimensions
unfolding h265_fields
h265-Ensures = >>=-Ensures (skip 4) _ λ _. >>=-Ensures (bits 3) _ λ layers.
    >>=-Ensures (refuse_if (ltb 6 layers) (security_error "H.265 SPS sub-layer count is invalid")) _
      λ _. >>=-Ensures bit _ λ _. >>=-Ensures (skip_h265_profile_tier_level layers) _ λ _.
        >>=-Ensures unsigned_exp_golomb _ λ _. >>=-Ensures unsigned_exp_golomb _ λ format.
          >>=-Ensures
            (refuse_if (ltb 3 format) (security_error "H.265 SPS chroma format is invalid")) _
            λ _. >>=-Ensures (if format == 3 then bit else pure false) _ λ separate.
              >>=-Ensures unsigned_exp_golomb _ λ width. >>=-Ensures unsigned_exp_golomb _ λ height.
                >>=-Ensures crop_fields _ λ crop. h265_geometry-Ensures _ width height crop

parse_with-IsDimensions :
    (m : Read (ℕ × ℕ)) (start : Result RbspBitReader) (d : ℕ × ℕ)
    → Ensures m IsDimensions
    → parse_with m start ≡ ok d
    → IsDimensions d
parse_with-IsDimensions m (err x) d h e = cc
parse_with-IsDimensions m (ok r) d h e = elim (Result-cases (m r)) [
  | inl (x, failed) ↦ ground (arith, failed)
  | inr ((a, r1), passed) ↦ subst IsDimensions (ground (arith, passed)) (h.holds r r1 a passed)
]

unguarded :
    (c : Bool) (x : CameraError) (m : Result (ℕ × ℕ)) {d : ℕ × ℕ}
    → (if c then err x else m) ≡ ok d
    → m ≡ ok d
unguarded true x m e = cc
unguarded false x m e = e

-- Whatever bytes a camera sends as its H.264 or H.265 parameter set, the dimensions that come out are
-- positive and at most 65535.
pub sps-IsDimensions :
    (nal : List ℕ) (d : ℕ × ℕ)
    → (parse_h264_sps_dimensions nal ≡ ok d) ⊎ (parse_h265_sps_dimensions nal ≡ ok d)
    → IsDimensions d
unfolding parse_h264_sps_dimensions parse_h265_sps_dimensions
sps-IsDimensions nal d (inl e) =
    parse_with-IsDimensions h264_fields (from_escaped (drop 1 nal)) d h264-Ensures
      (unguarded (ltb (length nal) 4 || not ((get_or nal 0 0 % 32) == 7)) _ _ e)
sps-IsDimensions nal d (inr e) =
    parse_with-IsDimensions h265_fields (from_escaped (drop 2 nal)) d h265-Ensures
      (unguarded (ltb (length nal) 5 || not ((get_or nal 0 0 / 2 % 64) == 33)) _ _ e)
