-- ===== src/Rtsp/Packet/RoundTrip.antt =====
-- `parse_rtp_packet` of src/backend/rtsp.rs on the packets of RFC 3550.
use mathlib.Core.List.{append_assoc}
use camera_adapter.Base.{
  ℕ, ◌+◌, ◌-◌, ◌*◌, ◌/◌, ◌%◌, ◌≤◌, ◌<◌, ◌≡◌, refl, sym, ap, ◌∙◌, subst, Bool, true, false, Option,
  none, some, List, [], ◌∷◌, ◌++◌, arith, length, get_or, take, if◌then◌else◌, length-append,
}
use camera_adapter.Error.{ok}
use camera_adapter.Rtsp.Bytes.{
  has_bit, be16, drop, last, drop-append, take-append, get_or-append, last-append,
}
use camera_adapter.Rtsp.Packet.{RtpPacket, csrc_end, extension_end, media_end, parse_rtp_packet}
use camera_adapter.Rtsp.Packet.Wire.{
  flag_of, Extension, Wire, extension_bytes, padding_bytes, first_byte, header_then, encode,
  Extends, Pads, IsWire, fixed_and_csrc, media_offset,
}

length-encode :
    (w : Wire)
    → IsWire w
    → length (encode w) ≡ media_offset w + (length w.payload + length (padding_bytes w.padding))
length-encode w v = omega (
  arith,
  v.csrc_counted,
  length-append w.csrc (extension_bytes w.extension ++ (w.payload ++ padding_bytes w.padding)),
  length-append (extension_bytes w.extension) (w.payload ++ padding_bytes w.padding),
  length-append w.payload (padding_bytes w.padding),
)

-- The parts of the parser at the values that the header and the lengths decide.
csrc_end_at :
    (bytes : List ℕ) (n : ℕ)
    → get_or bytes 0 0 % 16 ≡ n
    → n < 16
    → 12 + n * 4 ≤ length bytes
    → csrc_end bytes ≡ ok (12 + n * 4)
unfolding csrc_end
csrc_end_at bytes n e lt le = rw e (ground arith)

extension_none_at :
    (bytes : List ℕ) (o : ℕ) → has_bit 4 (get_or bytes 0 0) ≡ false → extension_end bytes o ≡ ok o
unfolding extension_end
extension_none_at bytes o e = rw e refl

extension_some_at :
    (bytes : List ℕ) (o hi lo : ℕ)
    → has_bit 4 (get_or bytes 0 0) ≡ true
    → get_or bytes (o + 2) 0 ≡ hi
    → get_or bytes (o + 3) 0 ≡ lo
    → hi < 256
    → lo < 256
    → o + 4 + be16 hi lo * 4 ≤ length bytes
    → length bytes ≤ 65535
    → extension_end bytes o ≡ ok (o + 4 + be16 hi lo * 4)
unfolding extension_end
extension_some_at bytes o hi lo e eh el bh bl le fits = rw (e, eh, el) (ground arith)

padding_none_at :
    (bytes : List ℕ) (o : ℕ)
    → has_bit 5 (get_or bytes 0 0) ≡ false
    → media_end bytes o ≡ ok (length bytes)
unfolding media_end
padding_none_at bytes o e = rw e refl

padding_some_at :
    (bytes : List ℕ) (o k : ℕ)
    → has_bit 5 (get_or bytes 0 0) ≡ true
    → last bytes ≡ some k
    → 0 < k
    → o + k ≤ length bytes
    → media_end bytes o ≡ ok (length bytes - k)
unfolding media_end
padding_some_at bytes o k e el pos le = rw (e, el) (ground arith)

parse_at :
    (bytes : List ℕ) (h o e : ℕ)
    → 12 ≤ length bytes
    → length bytes ≤ 65535
    → get_or bytes 0 0 / 64 ≡ 2
    → csrc_end bytes ≡ ok h
    → extension_end bytes h ≡ ok o
    → media_end bytes o ≡ ok e
    → o < e
    → parse_rtp_packet bytes
      ≡ ok (record {
        marker = has_bit 7 (get_or bytes 1 0);
        payload_type = get_or bytes 1 0 % 128;
        sequence = be16 (get_or bytes 2 0) (get_or bytes 3 0);
        timestamp =
            be16 (get_or bytes 4 0) (get_or bytes 5 0) * 65536
            + be16 (get_or bytes 6 0) (get_or bytes 7 0);
        payload = drop o (take e bytes);
      })
unfolding parse_rtp_packet
parse_at bytes h o e l12 fits version ch co ce lt = rw (version, ch, co, ce) (ground arith)

-- The packet in front of its extension, and in front of its media bytes.
abbrev with_csrc : Wire → List ℕ
with_csrc w = header_then w w.csrc

abbrev with_extension : Wire → List ℕ
with_extension w = with_csrc w ++ extension_bytes w.extension

encode_split : (w : Wire) → encode w ≡ with_extension w ++ (w.payload ++ padding_bytes w.padding)
encode_split w = sym (append_assoc (with_csrc w) (extension_bytes w.extension) _)

encode_in_two : (w : Wire) → encode w ≡ (with_extension w ++ w.payload) ++ padding_bytes w.padding
encode_in_two w = encode_split w ∙ sym (append_assoc (with_extension w) w.payload _)

length-with_extension : (w : Wire) → IsWire w → length (with_extension w) ≡ media_offset w
length-with_extension w v =
    omega (arith, v.csrc_counted, length-append (with_csrc w) (extension_bytes w.extension))

extension_end_after :
    (front rest : List ℕ) (x : Option Extension)
    → Extends x
    → get_or (front ++ (extension_bytes x ++ rest)) 0 0 / 16 % 2 ≡ flag_of x
    → length (front ++ (extension_bytes x ++ rest)) ≤ 65535
    → extension_end (front ++ (extension_bytes x ++ rest)) (length front)
      ≡ ok (length front + length (extension_bytes x))
extension_end_after front rest none ex e fits =
    extension_none_at _ _ (ground arith) ∙ ap ok (omega arith)
extension_end_after front rest (some x) ex e fits =
    extension_some_at _ _ (x.words / 256) (x.words % 256) (ground arith)
      (get_or-append front _ _ 2 0 refl) (get_or-append front _ _ 3 0 refl) (omega (arith, ex.0))
      (omega arith)
      (omega (
        arith,
        ex.1,
        length-append front (extension_bytes (some x) ++ rest),
        length-append x.body rest,
      ))
      fits
    ∙ ap ok (omega (arith, ex.1))

media_end_after :
    (front : List ℕ) (p : Option (List ℕ)) (o : ℕ)
    → Pads p
    → get_or (front ++ padding_bytes p) 0 0 / 32 % 2 ≡ flag_of p
    → o ≤ length front
    → media_end (front ++ padding_bytes p) o ≡ ok (length front)
media_end_after front none o ps e le =
    padding_none_at _ _ (ground arith) ∙ ap ok (omega (arith, length-append front []))
media_end_after front (some fill) o ps e le =
    padding_some_at _ _ (length fill + 1) (ground arith)
      (ap last (sym (append_assoc front fill _)) ∙ last-append (front ++ fill) _) (omega arith)
      (omega (arith, lengths))
    ∙ ap ok (omega (arith, lengths))
  where
    lengths : length (front ++ padding_bytes (some fill)) ≡ length front + (length fill + 1)
    lengths = omega (
      arith,
      length-append front (padding_bytes (some fill)),
      length-append fill ((length fill + 1) ∷ []),
    )

flag_of-le {ℓ} : {A : Type ℓ} (o : Option A) → flag_of o ≤ 1
flag_of-le none = omega arith
flag_of-le (some a) = omega arith

flags :
    (w : Wire)
    → IsWire w
    → (first_byte w / 64 ≡ 2)
      × (first_byte w / 32 % 2 ≡ flag_of w.padding)
      × (first_byte w / 16 % 2 ≡ flag_of w.extension)
      × (first_byte w % 16 ≡ w.csrc_count)
flags w v = omega (arith, v.count_fits, flag_of-le w.padding, flag_of-le w.extension)

extension_end-encode :
    (w : Wire) → IsWire w → extension_end (encode w) (fixed_and_csrc w) ≡ ok (media_offset w)
extension_end-encode w v =
    subst (λ n. extension_end (encode w) n ≡ ok (n + length (extension_bytes w.extension)))
      (omega (arith, v.csrc_counted))
      (extension_end_after (with_csrc w) (w.payload ++ padding_bytes w.padding) w.extension
        v.extends (flags w v).2 v.fits)

media_end-encode :
    (w : Wire)
    → IsWire w
    → media_end (encode w) (media_offset w) ≡ ok (media_offset w + length w.payload)
media_end-encode w v =
    subst (λ bytes. media_end bytes (media_offset w) ≡ ok (media_offset w + length w.payload))
      (sym (encode_in_two w))
      (media_end_after (with_extension w ++ w.payload) w.padding (media_offset w) v.pads
          (flags w v).1 (omega (arith, length-front))
        ∙ ap ok length-front)
  where
    length-front : length (with_extension w ++ w.payload) ≡ media_offset w + length w.payload
    length-front =
        omega (arith, length-with_extension w v, length-append (with_extension w) w.payload)

payload-encode :
    (w : Wire)
    → IsWire w
    → drop (media_offset w) (take (media_offset w + length w.payload) (encode w)) ≡ w.payload
payload-encode w v =
    ap (λ bytes. drop (media_offset w) (take (media_offset w + length w.payload) bytes))
      (encode_in_two w)
    ∙ ap (drop (media_offset w)) (
        take-append (with_extension w ++ w.payload) _ _
          (omega (arith, length-with_extension w v, length-append (with_extension w) w.payload)))
    ∙ drop-append (with_extension w) w.payload _ (length-with_extension w v)

abbrev packet_of : Bool → ℕ → ℕ → ℕ → List ℕ → RtpPacket
packet_of m t s c p = record {
  marker = m;
  payload_type = t;
  sequence = s;
  timestamp = c;
  payload = p;
}

same_packet :
    {m m' : Bool} {t t' s s' c c' : ℕ} {p p' : List ℕ}
    → m ≡ m'
    → t ≡ t'
    → s ≡ s'
    → c ≡ c'
    → p ≡ p'
    → ok (packet_of m t s c p) ≡ ok (packet_of m' t' s' c' p')
same_packet em et es ec ep = cc

marker_bit : (m : Bool) (t : ℕ) → t < 128 → has_bit 7 ((if m then 128 else 0) + t) ≡ m
marker_bit true t h = ground arith
marker_bit false t h = ground arith

type_bits : (m : Bool) (t : ℕ) → t < 128 → ((if m then 128 else 0) + t) % 128 ≡ t
type_bits true t h = omega arith
type_bits false t h = omega arith

-- A packet that RFC 3550 lets a sender write, and that fits the bound, is read back: its fields, and
-- the media bytes without the CSRC list, the extension and the padding.
pub parse_rtp_packet-encode :
    (w : Wire)
    → IsWire w
    → parse_rtp_packet (encode w)
      ≡ ok (record {
        marker = w.marker;
        payload_type = w.payload_type;
        sequence = w.sequence;
        timestamp = w.timestamp;
        payload = w.payload;
      })
parse_rtp_packet-encode w v =
    parse_at (encode w) _ _ _ (omega arith) v.fits (flags w v).0
      (csrc_end_at (encode w) w.csrc_count (flags w v).3 v.count_fits (
        omega (
          arith,
          v.csrc_counted,
          length-append w.csrc
              (extension_bytes w.extension ++ (w.payload ++ padding_bytes w.padding)),
        )))
      (extension_end-encode w v) (media_end-encode w v) (omega (arith, v.has_media))
    ∙ same_packet (marker_bit w.marker w.payload_type v.type_fits)
        (type_bits w.marker w.payload_type v.type_fits) (omega arith)
        (omega (arith, v.timestamp_fits)) (payload-encode w v)
