-- ===== src/Rtsp/Packet/Fields.antt =====
-- What `parse_rtp_packet` of src/backend/rtsp.rs returns on any bytes.
use mathlib.Core.List.{append_assoc}
use camera_adapter.Base.{
  zero, suc, [], ◌∷◌, ◌++◌, refl, sym, ◌∙◌, none, some, if◌then◌else◌, ℕ, ◌+◌, ◌*◌, ◌%◌, ◌^◌, ◌<◌,
  ◌≡◌, ap, inl, inr, List, arith, length, get_or, take, All, Option-cases,
}
use camera_adapter.Error.{ok, Result-cases}
use camera_adapter.Rtsp.Bytes.{
  has_bit, IsByte, be16, drop, last, length-drop, length-take, All-get_or,
}
use camera_adapter.Rtsp.Packet.{RtpPacket, csrc_end, extension_end, media_end, parse_rtp_packet}

-- Where RFC 3550 has the media bytes begin: behind the CSRC list, and behind the extension if there is one.
abbrev pub csrc_until : List ℕ → ℕ
csrc_until bytes = 12 + 4 * (get_or bytes 0 0 % 16)

abbrev pub media_from : List ℕ → ℕ
media_from bytes =
    let start = csrc_until bytes in
    if has_bit 4 (get_or bytes 0 0)
    then start + (4 + 4 * be16 (get_or bytes (start + 2) 0) (get_or bytes (start + 3) 0))
    else start

-- The padding at the end, which its last byte counts.
abbrev pub padding_of : List ℕ → ℕ
padding_of bytes =
    if has_bit 5 (get_or bytes 0 0) then elim (last bytes) [ none ↦ 0 | some count ↦ count ] else 0

-- Fields in their widths, and media bytes between the headers and the padding.
pub record IsPacket (bytes : List ℕ) (p : RtpPacket) : Type 0 where
  pub type_fits : p.payload_type < 2 ^ 7
  pub sequence_fits : p.sequence < 2 ^ 16
  pub timestamp_fits : p.timestamp < 2 ^ 32
  pub has_media : 0 < length p.payload
  pub headers : List ℕ
  pub padding : List ℕ
  pub headers_sized : length headers ≡ media_from bytes
  pub padding_sized : length padding ≡ padding_of bytes
  pub laid_out : headers ++ (p.payload ++ padding) ≡ bytes

take-drop : (n : ℕ) (xs : List ℕ) → take n xs ++ drop n xs ≡ xs
take-drop zero [] = refl
take-drop (suc n) [] = refl
take-drop zero (x ∷ xs) = refl
take-drop (suc n) (x ∷ xs) = ap (λ r. x ∷ r) (take-drop n xs)

csrc_end-ok : (bytes : List ℕ) (h : ℕ) → csrc_end bytes ≡ ok h → h ≡ csrc_until bytes
unfolding csrc_end
csrc_end-ok bytes h e = ground arith

extension_end-ok :
    (bytes : List ℕ) (o : ℕ) → extension_end bytes (csrc_until bytes) ≡ ok o → o ≡ media_from bytes
unfolding extension_end
extension_end-ok bytes o e = ground arith

-- The media bytes end in the packet, and the padding fills the rest.
media_end-ok :
    (bytes : List ℕ) (o e : ℕ) → media_end bytes o ≡ ok e → e + padding_of bytes ≡ length bytes
unfolding media_end
media_end-ok bytes o e h = elim (Option-cases (last bytes)) [
  | inl missing ↦ ground (arith, missing)
  | inr (k, eq) ↦ ground (arith, eq)
]

record Parts (bytes : List ℕ) (p : RtpPacket) : Type 0 where
  offset : ℕ
  end : ℕ
  behind_header : offset ≡ media_from bytes
  within : end + padding_of bytes ≡ length bytes
  nonempty : offset < end
  payload_is : p.payload ≡ drop offset (take end bytes)
  type_is : p.payload_type ≡ get_or bytes 1 0 % 128
  sequence_is : p.sequence ≡ be16 (get_or bytes 2 0) (get_or bytes 3 0)
  timestamp_is :
      p.timestamp
      ≡ be16 (get_or bytes 4 0) (get_or bytes 5 0) * 65536
        + be16 (get_or bytes 6 0) (get_or bytes 7 0)

parsed-Parts : (bytes : List ℕ) (p : RtpPacket) → parse_rtp_packet bytes ≡ ok p → Parts bytes p
unfolding parse_rtp_packet
parsed-Parts bytes p parsed = elim (Result-cases (csrc_end bytes)) [
  | inl (x, eh) ↦ ground (arith, eh)
  | inr (h, eh) ↦ elim (Result-cases (extension_end bytes h)) [
    | inl (x, eo) ↦ ground (arith, eh, eo)
    | inr (o, eo) ↦ elim (Result-cases (media_end bytes o)) [
      | inl (x, ee) ↦ ground (arith, eh, eo, ee)
      | inr (e, ee) ↦ record {
        offset = o;
        end = e;
        behind_header =
            extension_end-ok bytes o (ap (extension_end bytes) (sym (csrc_end-ok bytes h eh)) ∙ eo);
        within = media_end-ok bytes o e ee;
        nonempty = ground (arith, eh, eo, ee);
        payload_is = ground (arith, eh, eo, ee);
        type_is = ground (arith, eh, eo, ee);
        sequence_is = ground (arith, eh, eo, ee);
        timestamp_is = ground (arith, eh, eo, ee);
      }
    ]
  ]
]

three_parts :
    (bytes : List ℕ) (offset end : ℕ)
    → take offset (take end bytes) ++ (drop offset (take end bytes) ++ drop end bytes) ≡ bytes
three_parts bytes offset end =
    sym
      (append_assoc (take offset (take end bytes)) (drop offset (take end bytes)) (drop end bytes))
    ∙ ap (λ front. front ++ drop end bytes) (take-drop offset (take end bytes))
    ∙ take-drop end bytes

-- Whatever bytes arrive, a packet that is returned has its fields in their widths, and its media bytes, at
-- least one, are what lies in the packet between the headers of RFC 3550, with the CSRC list and the
-- extension that the first byte announces, and the padding that the last byte counts.
pub parse_rtp_packet-IsPacket :
    (bytes : List ℕ) (p : RtpPacket)
    → All IsByte bytes
    → parse_rtp_packet bytes ≡ ok p
    → IsPacket bytes p
unfolding parse_rtp_packet
parse_rtp_packet-IsPacket bytes p octets parsed =
    let q = parsed-Parts bytes p parsed in
    let octet : (i : ℕ) → IsByte (get_or bytes i 0) =
      λ i. All-get_or IsByte bytes i 0 octets (omega arith) in
    let kept : length (take q.end bytes) ≡ q.end =
      length-take q.end bytes (omega (arith, q.within)) in
    let sized : length p.payload + q.offset ≡ q.end = omega (
      arith,
      ap length q.payload_is,
      kept,
      length-drop q.offset (take q.end bytes) (omega (arith, q.nonempty, kept)),
    ) in
    record {
      type_fits = omega (arith, q.type_is);
      sequence_fits = omega (arith, q.sequence_is, octet 2, octet 3);
      timestamp_fits = omega (arith, q.timestamp_is, octet 4, octet 5, octet 6, octet 7);
      has_media = omega (arith, sized, q.nonempty);
      headers = take q.offset (take q.end bytes);
      padding = drop q.end bytes;
      headers_sized =
          length-take q.offset (take q.end bytes) (omega (arith, q.nonempty, kept))
          ∙ q.behind_header;
      padding_sized = omega (arith, q.within, length-drop q.end bytes (omega (arith, q.within)));
      laid_out = rw q.payload_is (three_parts bytes q.offset q.end);
    }
