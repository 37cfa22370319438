-- ===== src/Rtsp/Rbsp/Escape.antt =====
-- Emulation prevention, as an encoder applies it, against `from_escaped` of src/backend/rtsp.rs.
use camera_adapter.Base.{
  ℕ, ◌+◌, ◌≤◌, ◌≡◌, refl, ap, ◌∙◌, true, false, ◌&&◌, List, [], ◌∷◌, inl, inr, arith, leb, ◌==◌,
  if◌then◌else◌, length, Bool-cases,
}
use camera_adapter.Error.{ok}
use camera_adapter.Rtsp.Rbsp.{unescape, reader_of, from_escaped}

-- The number of count that end the bytes written so far, and never more than two: a third byte that is
-- at most 3 gets a 3 in front of it.
pub escape : ℕ → List ℕ → List ℕ
escape count [] = []
escape count (byte ∷ rest) = elim (leb 2 count && leb byte 3) [
  | true ↦ 3 ∷ byte ∷ escape (if byte == 0 then 1 else 0) rest
  | false ↦ byte ∷ escape (if byte == 0 then count + 1 else 0) rest
]

zeros_after : ℕ → ℕ → ℕ
zeros_after count byte = if byte == 0 then count + 1 else 0

unescape_kept :
    (count byte : ℕ) (rest : List ℕ)
    → count ≤ 2
    → (leb 2 count && (byte == 3)) ≡ false
    → unescape count (byte ∷ rest) ≡ byte ∷ unescape (zeros_after count byte) rest
unfolding unescape zeros_after
unescape_kept count byte rest le e =
    rw (unescape, e) (ap (λ n. byte ∷ unescape n rest) (ground arith))

escape_marked :
    (count byte : ℕ) (rest : List ℕ)
    → (leb 2 count && leb byte 3) ≡ true
    → escape count (byte ∷ rest) ≡ 3 ∷ byte ∷ escape (zeros_after 0 byte) rest
unfolding escape zeros_after
escape_marked count byte rest e = rw (escape, e) refl

escape_plain :
    (count byte : ℕ) (rest : List ℕ)
    → (leb 2 count && leb byte 3) ≡ false
    → escape count (byte ∷ rest) ≡ byte ∷ escape (zeros_after count byte) rest
unfolding escape zeros_after
escape_plain count byte rest e = rw (escape, e) refl

unescape_marked :
    (count : ℕ) (rest : List ℕ) → 2 ≤ count → unescape count (3 ∷ rest) ≡ unescape 0 rest
unfolding unescape
unescape_marked count rest le = ground arith

zeros_after_zero-le : (byte : ℕ) → zeros_after 0 byte ≤ 2
unfolding zeros_after
zeros_after_zero-le byte = ground arith

-- A third zero would have been marked.
zeros_after-le :
    (count byte : ℕ) → count ≤ 2 → (leb 2 count && leb byte 3) ≡ false → zeros_after count byte ≤ 2
unfolding zeros_after
zeros_after-le count byte le e = ground arith

pub length-escape-le : (count : ℕ) (bytes : List ℕ) → length bytes ≤ length (escape count bytes)
length-escape-le count [] = omega arith
length-escape-le count (byte ∷ rest) = elim (Bool-cases (leb 2 count && leb byte 3)) [
  | inl e ↦ omega (
    arith,
    ap length (escape_marked count byte rest e),
    length-escape-le (zeros_after 0 byte) rest,
  )
  | inr e ↦ omega (
    arith,
    ap length (escape_plain count byte rest e),
    length-escape-le (zeros_after count byte) rest,
  )
]

unescape-escape :
    (count : ℕ) (bytes : List ℕ) → count ≤ 2 → unescape count (escape count bytes) ≡ bytes
unfolding escape unescape
unescape-escape count [] le = refl
unescape-escape count (byte ∷ rest) le = elim (Bool-cases (leb 2 count && leb byte 3)) [
  | inl e ↦
      ap (unescape count) (escape_marked count byte rest e)
      ∙ unescape_marked count (byte ∷ escape (zeros_after 0 byte) rest) (ground arith)
      ∙ unescape_kept 0 byte _ (omega arith) refl
      ∙ ap (◌∷◌ byte) (unescape-escape (zeros_after 0 byte) rest (zeros_after_zero-le byte))
  | inr e ↦
      ap (unescape count) (escape_plain count byte rest e)
      ∙ unescape_kept count byte _ le (ground arith)
      ∙ ap (◌∷◌ byte)
          (unescape-escape (zeros_after count byte) rest (zeros_after-le count byte le e))
]

-- The reader starts at the first bit of the bytes that the encoder had before it put
-- emulation-prevention bytes into them, whatever those bytes are, when there is at least one.
pub from_escaped-escape :
    (byte : ℕ) (rest : List ℕ)
    → from_escaped (escape 0 (byte ∷ rest)) ≡ ok (record { bytes = byte ∷ rest; bit_offset = 0 })
unfolding from_escaped reader_of
from_escaped-escape byte rest = ap reader_of (unescape-escape 0 (byte ∷ rest) (omega arith))
