-- ===== src/Model/Frames.antt =====
-- The frame size of src/model.rs.
use camera_adapter.Base.{ℕ, ◌*◌, ◌≤◌, ◌<◌, ◌≡◌, ◌⊎◌, none, some, arith}
use camera_adapter.Base.Words.{u64_max}
use camera_adapter.Model.{PixelFormat, mono8, channels, uncompressed_len}

-- The size of an uncompressed frame is exactly `width * height * channels`, or is refused when that
-- product does not fit 64 bits.
pub uncompressed_len_lem :
    (format : PixelFormat) (width height c : ℕ)
    → channels format ≡ some c
    → ((width * height * c ≤ u64_max)
        × (uncompressed_len format width height ≡ some (width * height * c)))
      ⊎ ((u64_max < width * height * c) × (uncompressed_len format width height ≡ none))
unfolding uncompressed_len channels
uncompressed_len_lem mono8 width height c e = ground arith
uncompressed_len_lem _ width height c e = ground arith
