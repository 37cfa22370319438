-- ===== src/Rtsp/Assembler/Aggregation.antt =====
-- Packets that carry several whole NAL units, an STAP-A of H.264 or an AP of H.265, in the assembler of
-- src/backend/rtsp.rs.
use camera_adapter.Base.{
  ℕ, zero, suc, ◌/◌, ◌%◌, ◌≤◌, ◌<◌, ◌≡◌, refl, Bool, true, false, ◌&&◌, ◌||◌, ◌∙◌, List, [], ◌∷◌,
  ◌++◌, arith, length, get_or, ltb, leb, ◌==◌, All, length-append,
}
use camera_adapter.Rtsp.Bytes.{be16, take-append, drop-append}
use camera_adapter.Rtsp.Packet.{RtpPacket}
use camera_adapter.Rtsp.Assembler.{RtspCodec, h264, h265, Step, done, ◌>>◌, append_nal, nal_type}
use camera_adapter.Rtsp.Assembler.H264.{append_stap_a, push_h264, is_vcl}
use camera_adapter.Rtsp.Assembler.H265.{append_ap, push_h265}
use camera_adapter.Rtsp.Assembler.Push.{assemble}

-- Each NAL unit behind its length.
abbrev pub aggregate : List (List ℕ) → List ℕ
aggregate [] = []
aggregate (nal ∷ rest) = length nal / 256 ∷ length nal % 256 ∷ (nal ++ aggregate rest)

-- The header of the packet in front: of H.264 the byte `24` with two flag bits, of H.265 the type 48.
abbrev pub aggregate_payload : RtspCodec → ℕ → ℕ → List (List ℕ) → List ℕ
aggregate_payload h264 first second nals = first ∷ aggregate nals
aggregate_payload h265 first second nals = first ∷ second ∷ aggregate nals

abbrev pub IsAggregate : RtspCodec → ℕ → Type 0
IsAggregate h264 first = first % 32 ≡ 24
IsAggregate h265 first = first / 2 % 64 ≡ 48

abbrev minimum_of : RtspCodec → ℕ
minimum_of h264 = 1
minimum_of h265 = 2

-- The types that the payload formats let a packet carry whole.
abbrev is_single : RtspCodec → List ℕ → Bool
is_single h264 nal = leb 1 (nal_type h264 nal) && leb (nal_type h264 nal) 23
is_single h265 nal = leb (nal_type h265 nal) 47

-- A NAL unit that an aggregation packet can hold.
pub record IsNal (c : RtspCodec) (nal : List ℕ) : Type 0 where
  pub has_header : minimum_of c ≤ length nal
  pub sized : length nal < 65536
  pub single : is_single c nal ≡ true

abbrev pub is_picture : RtspCodec → List ℕ → Bool
is_picture h264 nal = is_vcl (nal_type h264 nal)
is_picture h265 nal = leb (nal_type h265 nal) 31

-- The NAL units one after the other, each as the payload of a packet with the rest of `p`.
abbrev pub assemble_each : RtspCodec → RtpPacket → List (List ℕ) → Step (Unit {0})
assemble_each c p [] = done
assemble_each c p (nal ∷ rest) = assemble c (record p { payload = nal }) >> assemble_each c p rest

abbrev append_nals : RtspCodec → List (List ℕ) → Step (Unit {0})
append_nals c [] = done
append_nals c (nal ∷ rest) = append_nal nal (is_picture c nal) >> append_nals c rest

first_of : (nal rest : List ℕ) → 0 < length nal → get_or (nal ++ rest) 0 0 ≡ get_or nal 0 0
first_of [] rest h = absurd (omega arith)
first_of (x ∷ xs) rest h = refl

size_of : (n : ℕ) → be16 (n / 256) (n % 256) ≡ n
size_of n = omega arith

append_stap_a-aggregate :
    (fuel : ℕ) (nals : List (List ℕ))
    → All (IsNal h264) nals
    → length (aggregate nals) ≤ fuel
    → append_stap_a fuel (aggregate nals) ≡ append_nals h264 nals
unfolding append_stap_a
append_stap_a-aggregate fuel [] h enough = refl
append_stap_a-aggregate zero (nal ∷ rest) h enough = absurd (omega arith)
append_stap_a-aggregate (suc fuel) (nal ∷ rest) h enough =
    let n = length nal in
    let sized : ((n == 0) || ltb (length (nal ++ aggregate rest)) n) ≡ false =
      ground (arith, h.0.has_header, length-append nal (aggregate rest)) in
    rw
      (
        size_of n,
        sized,
        take-append nal (aggregate rest) n refl,
        drop-append nal (aggregate rest) n refl,
        first_of nal (aggregate rest) (omega (arith, h.0.has_header)),
        append_stap_a-aggregate fuel rest h.1 (omega (arith, length-append nal (aggregate rest))),
      )
      refl

append_ap-aggregate :
    (fuel : ℕ) (nals : List (List ℕ))
    → All (IsNal h265) nals
    → length (aggregate nals) ≤ fuel
    → append_ap fuel (aggregate nals) ≡ append_nals h265 nals
unfolding append_ap
append_ap-aggregate fuel [] h enough = refl
append_ap-aggregate zero (nal ∷ rest) h enough = absurd (omega arith)
append_ap-aggregate (suc fuel) (nal ∷ rest) h enough =
    let n = length nal in
    let sized : (ltb n 2 || ltb (length (nal ++ aggregate rest)) n) ≡ false =
      ground (arith, h.0.has_header, length-append nal (aggregate rest)) in
    rw
      (
        size_of n,
        sized,
        take-append nal (aggregate rest) n refl,
        drop-append nal (aggregate rest) n refl,
        first_of nal (aggregate rest) (omega (arith, h.0.has_header)),
        append_ap-aggregate fuel rest h.1 (omega (arith, length-append nal (aggregate rest))),
      )
      refl

assemble-single :
    (c : RtspCodec) (p : RtpPacket) (nal : List ℕ)
    → IsNal c nal
    → assemble c (record p { payload = nal }) ≡ append_nal nal (is_picture c nal)
unfolding assemble push_h264 push_h265
assemble-single h264 p nal h = rw h.single refl
assemble-single h265 p nal h =
    let paired : ltb (length nal) 2 ≡ false = ground (arith, h.has_header) in
    rw (paired, h.single) refl

append_nals-each :
    (c : RtspCodec) (p : RtpPacket) (nals : List (List ℕ))
    → All (IsNal c) nals
    → append_nals c nals ≡ assemble_each c p nals
append_nals-each c p [] h = refl
append_nals-each c p (nal ∷ rest) h =
    rw (assemble-single c p nal h.0, append_nals-each c p rest h.1) refl

-- A packet that aggregates NAL units, each of a type that may travel alone and shorter than 65536 bytes,
-- changes the assembler, for either codec, as the same packet would with each NAL unit in turn as its
-- whole payload, in the same order and up to the first that is refused.
pub assemble-aggregate :
    (c : RtspCodec) (p : RtpPacket) (first second : ℕ) (nals : List (List ℕ))
    → IsAggregate c first
    → All (IsNal c) nals
    → p.payload ≡ aggregate_payload c first second nals
    → assemble c p ≡ assemble_each c p nals
unfolding assemble push_h264 push_h265
assemble-aggregate h264 p first second nals kind h e =
    rw (e, kind)
      (append_stap_a-aggregate (suc (length (aggregate nals))) nals h (omega arith)
        ∙ append_nals-each h264 p nals h)
assemble-aggregate h265 p first second nals kind h e =
    let paired : ltb (suc (suc (length (aggregate nals)))) 2 ≡ false = ground arith in
    rw (e, kind, paired)
      (append_ap-aggregate (suc (suc (length (aggregate nals)))) nals h (omega arith)
        ∙ append_nals-each h265 p nals h)
