-- ===== src/Rtsp/Sps/RoundTrip.antt =====
-- `h264_fields` and `parse_h264_sps_dimensions` of src/backend/rtsp.rs on a parameter set as the standard
-- writes it.
use mathlib.Core.List.{append-nil, append_assoc}
use camera_adapter.Base.{
  ℕ, suc, ◌+◌, ◌-◌, ◌*◌, ◌%◌, ◌^◌, ◌≤◌, ◌<◌, ◌≡◌, sym, ap, ◌∙◌, subst, Bool, true, false, not, ◌||◌,
  Option, none, some, List, [], ◌∷◌, ◌++◌, arith, length, ltb, ◌==◌, if◌then◌else◌,
}
use camera_adapter.Base.Words.{u32_max, checked_add, checked_mul}
use camera_adapter.Error.{CameraError, Result, ok, err}
use camera_adapter.Rtsp.{security_error}
use camera_adapter.Rtsp.Rbsp.{
  RbspBitReader, Read, pure, some_or, refuse_if, ◌>>=◌, bit, bits, skip, unsigned_exp_golomb,
}
use camera_adapter.Rtsp.Rbsp.Escape.{escape, from_escaped-escape, length-escape-le}
use camera_adapter.Rtsp.Rbsp.Reads.{
  Reads, unread, bits_of, pure-Reads, >>=-Reads, bit-Reads, skip-Reads,
}
use camera_adapter.Rtsp.Rbsp.Golomb.{
  value_from, bits-Reads, golomb_value, unsigned_exp_golomb-Reads, passed-Reads,
}
use camera_adapter.Rtsp.Sps.{
  Chroma, Crop, is_high_profile, profile_fields, picture_order, lsb_fields, coded_fields, cropped,
  crop_fields, cropped_size, and_option, validate_dimensions, h264_geometry, h264_fields,
  high_profile_fields, sub_sampling, parse_h264_sps_dimensions, parse_with, parsed,
}
use camera_adapter.Rtsp.Sps.Syntax.{
  Ue, word, value, Order, Frames, Cropping, Sps, order_type, order_bits, is_progressive,
  frames_bits, coded_bits, cropping_bits, sps_bits, factor, crop_of, width_of, height_of, IsOrder,
  IsSps, lsb, output_order, progressive, interlaced,
}

ue-Reads : (u : Ue) → Reads unsigned_exp_golomb (word u) (value u)
ue-Reads u = unsigned_exp_golomb-Reads u.suffix u.short

-- A value that is there.
some-Reads {ℓ} :
    {A B : Type ℓ} {o : Option A} (e : CameraError) (f : A → Read B) {ys : List Bool} {a : A}
    {b : B}
    → o ≡ some a
    → Reads (f a) ys b
    → Reads (some_or o e >>= f) ys b
some-Reads e f {ys} {a} {b} eo h =
    subst (λ p. Reads (some_or p e >>= f) ys b) (sym eo) (record { run = h.run })

allowed-Reads : (c : Bool) (e : CameraError) → c ≡ false → Reads (refuse_if c e) [] tt
allowed-Reads c e ec =
    subst (λ d. Reads (refuse_if d e) [] tt) (sym ec) (record { run = (pure-Reads tt).run })

order-Reads :
    (o : Order) → IsOrder o → Reads (picture_order (value (order_type o))) (order_bits o) tt
unfolding picture_order lsb_fields golomb_value value_from
order-Reads (lsb u) le =
    subst (λ xs. Reads lsb_fields xs tt) (append-nil (word u))
      (>>=-Reads _ (ue-Reads u) (allowed-Reads (ltb 12 (value u)) _ (ground arith)))
order-Reads output_order le = pure-Reads tt

frames-Reads :
    (f : Frames)
    → Reads
        (if is_progressive f then pure false else bit)
        (frames_bits f)
        (elim f [ progressive ↦ false | interlaced adaptive ↦ adaptive ])
frames-Reads progressive = pure-Reads false
frames-Reads (interlaced adaptive) = bit-Reads adaptive

one_more : (n : ℕ) → n + 1 ≤ u32_max → checked_add u32_max n 1 ≡ some (n + 1)
one_more n h = ground arith

height_small : (f : Frames) (n : ℕ) → (n + 1) * 16 * factor f ≤ u32_max → n + 1 ≤ u32_max
height_small progressive n h = omega arith
height_small (interlaced adaptive) n h = omega arith

coded-Reads :
    (s : Sps)
    → IsSps s
    → Reads coded_fields
        (coded_bits s [])
        (value s.width + 1, value s.height + 1, is_progressive s.frames)
unfolding coded_fields
coded-Reads s v = >>=-Reads _ (ue-Reads s.references) (
    >>=-Reads _ (bit-Reads s.gaps_allowed) (
      >>=-Reads _ (ue-Reads s.width) (
        some-Reads (security_error "H.264 SPS width overflowed") _
          (one_more (value s.width) (omega (arith, v.coded_fits)))
          (>>=-Reads _ (ue-Reads s.height) (
            some-Reads (security_error "H.264 SPS height overflowed") _
              (one_more (value s.height) (height_small s.frames _ v.rows_fit))
              (>>=-Reads _ (bit-Reads (is_progressive s.frames)) (
                >>=-Reads _ (frames-Reads s.frames)
                  (>>=-Reads _ (bit-Reads s.direct_inference) (pure-Reads _)))))))))

recut {ℓ} :
    {A : Type ℓ} {m : Read A} {xs ys : List Bool} {a : A} → xs ≡ ys → Reads m xs a → Reads m ys a
recut {m} {a} e h = subst (λ zs. Reads m zs a) e h

cropped-Reads :
    (c : Cropping)
    → Reads cropped
        (word c.left ++ (word c.right ++ (word c.top ++ word c.bottom)))
        (crop_of (some c))
unfolding cropped
cropped-Reads c = >>=-Reads _ (ue-Reads c.left) (
    >>=-Reads _ (ue-Reads c.right) (
      >>=-Reads _ (ue-Reads c.top)
        (recut (append-nil (word c.bottom)) (>>=-Reads _ (ue-Reads c.bottom) (pure-Reads _)))))

crop-Reads : (c : Option Cropping) → Reads crop_fields (cropping_bits c) (crop_of c)
unfolding crop_fields
crop-Reads none = >>=-Reads _ (bit-Reads false) (pure-Reads _)
crop-Reads (some c) = >>=-Reads _ (bit-Reads true) (cropped-Reads c)

cropped_size_lem :
    (size first second unit : ℕ)
    → first + second ≤ u32_max
    → (first + second) * unit ≤ size
    → size ≤ u32_max
    → cropped_size (some size) first second unit ≡ some (size - (first + second) * unit)
unfolding cropped_size
cropped_size_lem size first second unit sum_fits le fits = ground arith

product_fits : (n k : ℕ) → n * k ≤ u32_max → checked_mul u32_max n k ≡ some (n * k)
product_fits n k h = ground arith

columns_lem :
    (w : ℕ) (c : Crop)
    → w * 16 ≤ u32_max
    → (c.left + c.right) * 2 < w * 16
    → cropped_size (checked_mul u32_max w 16) c.left c.right 2
      ≡ some (w * 16 - (c.left + c.right) * 2)
columns_lem w c wf cl =
    ap (λ o. cropped_size o c.left c.right 2) (product_fits w 16 wf)
    ∙ cropped_size_lem (w * 16) c.left c.right 2 (omega arith) (omega arith) wf

rows_lem :
    (h k : ℕ) (c : Crop)
    → h * 16 ≤ u32_max
    → h * 16 * k ≤ u32_max
    → c.top + c.bottom ≤ u32_max
    → (c.top + c.bottom) * (2 * k) ≤ h * 16 * k
    → cropped_size
        (and_option (checked_mul u32_max h 16) (λ v. checked_mul u32_max v k))
        c.top
        c.bottom
        (2 * k)
      ≡ some (h * 16 * k - (c.top + c.bottom) * (2 * k))
rows_lem h k c hf16 hf sum rl =
    ap (λ o. cropped_size (and_option o (λ v. checked_mul u32_max v k)) c.top c.bottom (2 * k))
      (product_fits h 16 hf16)
    ∙ ap (λ o. cropped_size o c.top c.bottom (2 * k)) (product_fits (h * 16) k hf)
    ∙ cropped_size_lem (h * 16 * k) c.top c.bottom (2 * k) sum rl hf

validated :
    (w h : ℕ) → 0 < w → w ≤ 65535 → 0 < h → h ≤ 65535 → Reads (validate_dimensions w h) [] (w, h)
unfolding validate_dimensions
validated w h w0 w1 h0 h1 =
    passed-Reads ((w == 0) || (h == 0) || ltb 65535 w || ltb 65535 h) _ (ground arith)
      (pure-Reads (w, h))

abbrev no_chroma : Chroma
no_chroma = record { chroma_format_idc = 1; separate_colour_plane = false }

geometry-Reads :
    (f : Frames) (w h : ℕ) (c : Crop)
    → w * 16 ≤ u32_max
    → h * 16 * factor f ≤ u32_max
    → (c.left + c.right) * 2 < w * 16
    → (c.top + c.bottom) * (2 * factor f) < h * 16 * factor f
    → w * 16 - (c.left + c.right) * 2 ≤ 65535
    → h * 16 * factor f - (c.top + c.bottom) * (2 * factor f) ≤ 65535
    → Reads
        (h264_geometry no_chroma w h (is_progressive f) c)
        []
        (w * 16 - (c.left + c.right) * 2, h * 16 * factor f - (c.top + c.bottom) * (2 * factor f))
unfolding h264_geometry sub_sampling
geometry-Reads progressive w h c wf hf cl rl wb hb =
    some-Reads (security_error "H.264 SPS cropped width is invalid") _ (columns_lem w c wf cl) (
      some-Reads (security_error "H.264 SPS cropped height is invalid") _
        (rows_lem h 1 c (omega arith) hf (omega arith) (omega arith))
        (validated _ _ (omega arith) wb (omega arith) hb))
geometry-Reads (interlaced adaptive) w h c wf hf cl rl wb hb =
    some-Reads (security_error "H.264 SPS cropped width is invalid") _ (columns_lem w c wf cl) (
      some-Reads (security_error "H.264 SPS cropped height is invalid") _
        (rows_lem h 2 c (omega arith) hf (omega arith) (omega arith))
        (validated _ _ (omega arith) wb (omega arith) hb))

bits_list-Reads :
    (bs : List Bool) (n : ℕ) → length bs ≡ n → n ≤ 64 → Reads (bits n) bs (value_from 0 bs)
bits_list-Reads bs n e le =
    subst (λ k. Reads (bits k) bs (value_from 0 bs)) e (bits-Reads bs (omega arith))

skip_list-Reads : (bs : List Bool) (n : ℕ) → length bs ≡ n → 0 < n → Reads (skip n) bs tt
skip_list-Reads [] n e lt = absurd (omega arith)
skip_list-Reads (b ∷ bs) n e lt = subst (λ k. Reads (skip k) (b ∷ bs) tt) e (skip-Reads b bs)

plain-Reads : (p : ℕ) → is_high_profile p ≡ false → Reads (profile_fields p) [] no_chroma
unfolding profile_fields
plain-Reads p e =
    subst (λ c. Reads (if c then high_profile_fields else pure no_chroma) [] no_chroma) (sym e)
      (record { run = (pure-Reads no_chroma).run })

coded_split : (s : Sps) (rest : List Bool) → coded_bits s [] ++ rest ≡ coded_bits s rest
coded_split s rest = simp append_assoc

fields-Reads : (s : Sps) → IsSps s → Reads h264_fields (sps_bits s) (width_of s, height_of s)
unfolding h264_fields sps_bits width_of height_of
fields-Reads s v = >>=-Reads _ (bits_list-Reads s.profile 8 v.profile_size (omega arith)) (
    >>=-Reads _ (skip_list-Reads s.constraints_and_level 16 v.level_size (omega arith)) (
      >>=-Reads _ (ue-Reads s.id) (
        >>=-Reads _ (plain-Reads (value_from 0 s.profile) v.plain_profile) (
          >>=-Reads _ (ue-Reads s.frame_number) (
            passed-Reads (ltb 12 (value s.frame_number)) _ (ground (arith, v.number_fits)) (
              >>=-Reads _ (ue-Reads (order_type s.order)) (
                >>=-Reads _ (order-Reads s.order v.order_fits) (
                  recut (coded_split s (cropping_bits s.cropping)) (
                    >>=-Reads _ (coded-Reads s v) (
                      recut (append-nil (cropping_bits s.cropping)) (
                        >>=-Reads _ (crop-Reads s.cropping) (
                          geometry-Reads s.frames (value s.width + 1) (value s.height + 1)
                            (crop_of s.cropping) v.coded_fits v.rows_fit v.columns_left v.rows_left
                            v.width_fits v.height_fits))))))))))))

unguarded :
    (c : Bool) (x : CameraError) {m : Result (ℕ × ℕ)} {d : ℕ × ℕ}
    → c ≡ false
    → m ≡ ok d
    → (if c then err x else m) ≡ ok d
unguarded c x ec h = rw ec h

-- A NAL unit with an H.264 parameter set in it, of a profile that is not one of the high ones, with a picture
-- order count of type 0 or 2, and within the parser's limits on numbers and sizes, in bytes that the encoder
-- then escaped, is parsed to the picture size that the parameter set stands for. What follows the
-- parameter set does not matter.
pub parse_h264-sps :
    (s : Sps) (header first : ℕ) (payload : List ℕ) (trailing : List Bool)
    → IsSps s
    → header % 32 ≡ 7
    → bits_of (first ∷ payload) ≡ sps_bits s ++ trailing
    → 2 ≤ length payload
    → length (first ∷ payload) * 8 < 2 ^ 64
    → parse_h264_sps_dimensions (header ∷ escape 0 (first ∷ payload)) ≡ ok (width_of s, height_of s)
unfolding parse_h264_sps_dimensions unread
parse_h264-sps s header first payload trailing v kind written sized room =
    let start : RbspBitReader = record { bytes = first ∷ payload; bit_offset = 0 } in
    let (r, passed, left, fits) = (fields-Reads s v).run start trailing room written in
    unguarded (ltb (suc (length (escape 0 (first ∷ payload)))) 4 || not ((header % 32) == 7)) _
      (ground (arith, length-escape-le 0 (first ∷ payload)))
      (ap (parse_with h264_fields) (from_escaped-escape first payload) ∙ ap parsed passed)
