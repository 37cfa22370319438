-- ===== src/Rtsp/Rbsp.antt =====
-- `RbspBitReader` of src/backend/rtsp.rs: the bits of a codec parameter set, without its
-- emulation-prevention bytes. A call takes the reader and returns it with its result; an error ends the
-- parse that owns the reader. An `i32` is its bit pattern.
pub mod Escape
pub mod Reads
pub mod Golomb
use camera_adapter.Base.{
  ℕ, zero, suc, ◌+◌, ◌-◌, ◌*◌, ◌/◌, ◌%◌, ◌^◌, Bool, true, false, ◌&&◌, Option, none, some, List, [],
  ◌∷◌, length, get_elem?, ltb, leb, ◌==◌, if◌then◌else◌,
}
use camera_adapter.Base.Words.{
  u32_max, u64_max, checked, checked_add, saturating_mul, saturating_add,
}
use camera_adapter.Error.{CameraError, Result, ok, err, ok_or}
use camera_adapter.Rtsp.{security_error}
use camera_adapter.Rtsp.Bytes.{has_bit}

pub record RbspBitReader : Type 0 where
  pub bytes : List ℕ
  pub bit_offset : ℕ

abbrev pub Read {ℓ} : Type ℓ → Type ℓ
Read A = RbspBitReader → Result (A × RbspBitReader)

abbrev pub pure {ℓ} : {A : Type ℓ} → A → Read A
pure a r = ok (a, r)

abbrev pub fail {ℓ} : {A : Type ℓ} → CameraError → Read A
fail e r = err e

-- `ok_or_else` and `?` on an option.
abbrev pub some_or {ℓ} : {A : Type ℓ} → Option A → CameraError → Read A
some_or none e = fail e
some_or (some a) e = pure a

abbrev pub refuse_if : Bool → CameraError → Read (Unit {0})
refuse_if true e = fail e
refuse_if false e = pure tt

abbrev and_then {ℓ κ} :
    {A : Type ℓ} {B : Type κ}
    → Result (A × RbspBitReader)
    → (A → Read B)
    → Result (B × RbspBitReader)
and_then (ok (a, r)) rest = rest a r
and_then (err e) rest = err e

infixl 5 ◌>>=◌ ◌>>◌
abbrev pub ◌>>=◌ {ℓ κ} : {A : Type ℓ} {B : Type κ} → Read A → (A → Read B) → Read B
(m >>= rest) r = and_then (m r) rest

abbrev pub ◌>>◌ {ℓ κ} : {A : Type ℓ} {B : Type κ} → Read A → Read B → Read B
m >> rest = m >>= λ _. rest

-- The loop of `from_escaped`, with its count of zeros.
unfoldable pub unescape : ℕ → List ℕ → List ℕ
unescape zero_count [] = []
unescape zero_count (byte ∷ rest) = elim (leb 2 zero_count && (byte == 3)) [
  | true ↦ unescape 0 rest
  | false ↦ byte ∷ unescape (if byte == 0 then saturating_add 255 zero_count 1 else 0) rest
]

reader_of : List ℕ → Result RbspBitReader
reader_of [] = err (security_error "codec parameter set is empty")
reader_of (byte ∷ rest) = ok (record { bytes = byte ∷ rest; bit_offset = 0 })

unfoldable pub from_escaped : List ℕ → Result RbspBitReader
unfolding reader_of
from_escaped bytes = reader_of (unescape 0 bytes)

unfoldable pub bit : Read Bool
bit r =
    and_then
      (some_or (get_elem? r.bytes (r.bit_offset / 8))
        (security_error "codec parameter set is truncated")
        (record r { bit_offset = saturating_add u64_max r.bit_offset 1 }))
      (λ byte. pure (has_bit (7 - r.bit_offset % 8) byte))

abbrev pub bit_value : Bool → ℕ
bit_value b = if b then 1 else 0

unfoldable pub bits_from : ℕ → ℕ → Read ℕ
bits_from zero value = pure value
bits_from (suc left) value = do b ← bit; bits_from left (value * 2 % 2 ^ 64 + bit_value b)

unfoldable pub bits : ℕ → Read ℕ
bits count = do
  refuse_if (ltb 64 count) (security_error "codec bit-field width is invalid")
  bits_from count 0

-- The `while` loop. It ends at 32 zeros at the latest, so `left` is 32 at first.
unfoldable pub count_zeroes : ℕ → ℕ → Read ℕ
count_zeroes zero leading_zeroes = fail (security_error "codec Exp-Golomb value is oversized")
count_zeroes (suc left) leading_zeroes = bit >>= λ b. elim b [
  | true ↦ pure leading_zeroes
  | false ↦ do
    refuse_if (ltb 31 (leading_zeroes + 1)) (security_error "codec Exp-Golomb value is oversized")
    count_zeroes left (leading_zeroes + 1)
]

unfoldable pub unsigned_exp_golomb : Read ℕ
unsigned_exp_golomb = do
  leading_zeroes ← count_zeroes 32 0
  suffix ← bits leading_zeroes
  some_or (checked u32_max (saturating_add u64_max (2 ^ leading_zeroes - 1) suffix))
      (security_error "codec Exp-Golomb value overflowed")

unfoldable pub signed_exp_golomb : Read ℕ
signed_exp_golomb = do
  value ← unsigned_exp_golomb
  magnitude ←
      some_or (checked (2 ^ 31 - 1) ((value + 1) / 2))
        (security_error "signed codec value overflowed")
  pure (if value % 2 == 0 then (2 ^ 32 - magnitude) % 2 ^ 32 else magnitude)

unfoldable pub skip : ℕ → Read (Unit {0})
skip count r =
    and_then
      ((do
        end ←
            some_or (checked_add u64_max r.bit_offset count)
              (security_error "codec bit offset overflowed")
        refuse_if (ltb (saturating_mul u64_max (length r.bytes) 8) end)
            (security_error "codec parameter set is truncated")
        pure end)
        r)
      (λ end r'. ok (tt, record r' { bit_offset = end }))
