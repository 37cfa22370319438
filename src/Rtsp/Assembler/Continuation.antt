-- ===== src/Rtsp/Assembler/Continuation.antt =====
-- The fragments behind the first one, in the assembler of src/backend/rtsp.rs.
use mathlib.Core.List.{append_assoc}
use camera_adapter.Base.{
  ℕ, suc, ◌+◌, ◌*◌, ◌/◌, ◌%◌, ◌^◌, ◌≤◌, ◌<◌, ◌≡◌, refl, ap, sym, ◌∙◌, subst, Bool, true, false, not,
  ◌&&◌, none, some, List, [], ◌∷◌, ◌++◌, arith, length, ltb, leb, ◌==◌, if◌then◌else◌,
  length-append, All,
}
use camera_adapter.Base.Words.{u64_max}
use camera_adapter.Error.{ok}
use camera_adapter.Rtsp.Bytes.{drop, has_bit}
use camera_adapter.Rtsp.Packet.{RtpPacket}
use camera_adapter.Rtsp.Assembler.{
  RtspCodec, h264, h265, FragmentState, Assembler, Step, done, go_on, is_empty, append_bytes,
  observe_nal, is_parameter_set,
}
use camera_adapter.Rtsp.Assembler.Fragments.{
  Messages, start_fragment, continue_fragment, close_fragment, follows,
}
use camera_adapter.Rtsp.Assembler.H264.{is_vcl, push_fu_a, push_h264}
use camera_adapter.Rtsp.Assembler.H265.{push_fu, push_h265}
use camera_adapter.Rtsp.Assembler.Push.{
  EncodedAccessUnit, resynchronise, assemble, finish, complete, push,
}
use camera_adapter.Rtsp.Assembler.Units.{units, emitted}
use camera_adapter.Rtsp.Assembler.Loss.{
  IsContinuation, messages, body, ends, assemble_continuation, resynchronise_next, push_assembled,
}
use camera_adapter.Rtsp.Assembler.Fragmentation.{
  Header, header_bytes, fu_payload, fu_packet, rest_packets, joined, fu-IsContinuation, fu_body,
  fu_ends,
}

-- The state between two fragments.
abbrev pub building : Assembler → ℕ → ℕ → ℕ → List ℕ → Assembler
building a timestamp expected offset bytes = record a {
  timestamp = some timestamp;
  expected_sequence = some expected;
  fragment =
      some (record { timestamp = timestamp; expected_sequence = expected; nal_offset = offset });
  bytes = bytes;
}

pub appended :
    (a : Assembler) (more : List ℕ)
    → length a.bytes + length more ≤ a.maximum_bytes
    → a.maximum_bytes ≤ u64_max
    → append_bytes more a ≡ (record a { bytes = a.bytes ++ more }, ok tt)
unfolding append_bytes
appended a more fits word = ground arith

-- The fragment that a packet continues.
abbrev opened_at : RtpPacket → ℕ → FragmentState
opened_at p offset = record {
  timestamp = p.timestamp;
  expected_sequence = p.sequence;
  nal_offset = offset;
}

follows_next : (p : RtpPacket) (offset : ℕ) → not (follows p (opened_at p offset)) ≡ false
follows_next p offset = ground arith

abbrev when_ended : Messages → Bool → Step (Unit {0})
when_ended m end = if end then close_fragment m else done

-- One more fragment, in the state that `push` hands to the codec.
continued :
    (m : Messages) (a : Assembler) (offset : ℕ) (bytes piece : List ℕ) (p : RtpPacket) (end : Bool)
    → length bytes + length piece ≤ a.maximum_bytes
    → a.maximum_bytes ≤ u64_max
    → continue_fragment m p piece end (record (building a p.timestamp p.sequence offset bytes) {
      timestamp = some p.timestamp;
      expected_sequence = some ((p.sequence + 1) % 2 ^ 16);
    })
      ≡ when_ended m end
          (building a p.timestamp ((p.sequence + 1) % 2 ^ 16) offset (bytes ++ piece))
unfolding continue_fragment
continued m a offset bytes piece p end fits word =
    let room =
      appended (building a p.timestamp ((p.sequence + 1) % 2 ^ 16) offset bytes) piece fits word in
    rw (follows_next p offset) (ap (λ r. go_on r (when_ended m end)) room)

-- A packet of the run is handed to the codec as a continuation.
pushed :
    (c : RtspCodec) (a : Assembler) (offset : ℕ) (bytes piece : List ℕ) (p : RtpPacket)
    → a.codec ≡ c
    → p.payload_type ≡ a.payload_type
    → IsContinuation c p.payload
    → body c p.payload ≡ piece
    → length bytes + length piece ≤ a.maximum_bytes
    → a.maximum_bytes ≤ u64_max
    → push p (building a p.timestamp p.sequence offset bytes)
      ≡ finish p (
          when_ended
            (messages c)
            (ends c p.payload)
            (building a p.timestamp ((p.sequence + 1) % 2 ^ 16) offset (bytes ++ piece)))
pushed c a offset bytes piece p ec et continues eb fits word =
    let b = building a p.timestamp p.sequence offset bytes in
    push_assembled p b et
    ∙ ap (finish p) (
        ap (λ d. assemble d p (resynchronise p b)) ec
        ∙ ap (λ step. step (resynchronise p b)) (assemble_continuation c p continues)
        ∙ ap (continue_fragment (messages c) p (body c p.payload) (ends c p.payload)) (
            resynchronise_next (opened_at p offset) p b (record {
              same_type = et;
              opened = refl;
              next = refl;
              at = refl;
              fragment_next = refl;
              fragment_at = refl;
            }))
        ∙ ap
            (λ more. continue_fragment (messages c) p more (ends c p.payload) (record b {
              timestamp = some p.timestamp;
              expected_sequence = some ((p.sequence + 1) % 2 ^ 16);
            }))
            eb
        ∙ continued (messages c) a offset bytes piece p (ends c p.payload) fits word)

abbrev pub unit_of : Assembler → ℕ → List ℕ → EncodedAccessUnit
unit_of a timestamp bytes = record {
  bytes = bytes;
  rtp_timestamp = timestamp;
  compressed_bytes = length bytes;
  dimensions = a.dimensions;
  random_access = a.has_random_access;
}

pub finish_middle :
    (p : RtpPacket) (b : Assembler) → p.marker ≡ false → finish p (b, ok tt) ≡ (b, ok none)
unfolding finish complete
finish_middle p b e = rw e refl

filled : (xs : List ℕ) → 0 < length xs → is_empty xs ≡ false
filled [] h = absurd (omega arith)
filled (x ∷ xs) h = refl

observe_other :
    (nal : List ℕ) (b : Assembler)
    → is_parameter_set b.codec nal ≡ false
    → observe_nal nal b ≡ (b, ok tt)
unfolding observe_nal
observe_other nal b e = rw e refl

finish_last :
    (m : Messages) (p : RtpPacket) (a : Assembler) (timestamp expected offset : ℕ) (bytes : List ℕ)
    → p.marker ≡ true
    → a.has_vcl ≡ true
    → 0 < length bytes
    → is_parameter_set a.codec (drop offset bytes) ≡ false
    → (finish p (close_fragment m (building a timestamp expected offset bytes))).1
      ≡ ok (some (unit_of a timestamp bytes))
unfolding finish complete
finish_last m p a timestamp expected offset bytes marked vcl some_bytes other =
    let closed = record (building a timestamp expected offset bytes) { fragment = none } in
    ap (λ r. (finish p r).1) (observe_other (drop offset bytes) closed other)
    ∙ rw (marked, vcl, filled bytes some_bytes) refl

abbrev pub NonEmpty : List ℕ → Type 0
NonEmpty xs = 0 < length xs

pub rest_units :
    (c : RtspCodec) (type timestamp offset : ℕ) (h : Header) (a : Assembler)
    → a.codec ≡ c
    → type ≡ a.payload_type
    → a.has_vcl ≡ true
    → a.maximum_bytes ≤ u64_max
    → (sequence : ℕ) (bytes : List ℕ) (pieces : List (List ℕ)) (final : List ℕ)
    → All NonEmpty pieces
    → NonEmpty final
    → length bytes + length (joined pieces final) ≤ a.maximum_bytes
    → is_parameter_set a.codec (drop offset (bytes ++ joined pieces final)) ≡ false
    → units
        (rest_packets c type timestamp sequence h pieces final)
        (building a timestamp (sequence % 2 ^ 16) offset bytes)
      ≡ unit_of a timestamp (bytes ++ joined pieces final) ∷ []
unfolding units
rest_units c type timestamp offset h a ec et vcl word sequence bytes [] final all_full full fits
      other =
    let p = fu_packet c type timestamp sequence true h 64 final in
    let next : ℕ = (sequence % 2 ^ 16 + 1) % 2 ^ 16 in
    ap (λ r. emitted r.1 [])
      (pushed c a offset bytes final p ec et
          (fu-IsContinuation c h 64 final (omega arith) (omega arith) full) (fu_body c h 64 final)
          fits word
        ∙ ap
            (λ e.
              finish p
                (when_ended (messages c) e (building a timestamp next offset (bytes ++ final))))
            (fu_ends c h final).1)
    ∙ ap (λ r. emitted r [])
        (finish_last (messages c) p a timestamp next offset (bytes ++ final) refl vcl
          (omega (arith, full, length-append bytes final)) other)
rest_units c type timestamp offset h a ec et vcl word sequence bytes (piece ∷ pieces) final all_full
      full fits other =
    let p = fu_packet c type timestamp sequence false h 0 piece in
    let next : ℕ = (sequence % 2 ^ 16 + 1) % 2 ^ 16 in
    let one_more : next ≡ (sequence + 1) % 2 ^ 16 = omega arith in
    let later = rest_packets c type timestamp (sequence + 1) h pieces final in
    ap (λ r. emitted r.1 (units later r.0))
      (pushed c a offset bytes piece p ec et
          (fu-IsContinuation c h 0 piece (omega arith) (omega arith) all_full.0)
          (fu_body c h 0 piece) (omega (arith, length-append piece (joined pieces final))) word
        ∙ ap
            (λ e.
              finish p
                (when_ended (messages c) e (building a timestamp next offset (bytes ++ piece))))
            (fu_ends c h piece).0
        ∙ finish_middle p _ refl)
    ∙ ap (λ n. units later (building a timestamp n offset (bytes ++ piece))) one_more
    ∙ rest_units c type timestamp offset h a ec et vcl word (sequence + 1) (bytes ++ piece) pieces
        final all_full.1 full
        (omega (arith, length-append piece (joined pieces final), length-append bytes piece))
        (subst (λ bs. is_parameter_set a.codec (drop offset bs) ≡ false)
          (sym (append_assoc bytes piece (joined pieces final))) other)
    ∙ ap (λ bs. unit_of a timestamp bs ∷ []) (append_assoc bytes piece (joined pieces final))

-- The NAL units that carry a picture.
abbrev pub IsPicture : RtspCodec → Header → Type 0
IsPicture h264 h = (1 ≤ h.first % 32) × (h.first % 32 ≤ 5)
IsPicture h265 h = h.first / 2 % 64 ≤ 31

abbrev pub IsHeader : Header → Type 0
IsHeader h = (h.first < 256) × (h.second < 256)

-- The standards' random-access points: an IDR, and any IRAP.
abbrev pub random_access_of : RtspCodec → Header → Bool
random_access_of h264 h = (h.first % 32) == 5
random_access_of h265 h = leb 16 (h.first / 2 % 64) && leb (h.first / 2 % 64) 23

pub assemble_start :
    (c : RtspCodec) (h : Header) (piece : List ℕ) (p : RtpPacket)
    → IsHeader h
    → IsPicture c h
    → NonEmpty piece
    → p.payload ≡ fu_payload c h 128 piece
    → assemble c p
      ≡ start_fragment (messages c) p (header_bytes c h) piece true (random_access_of c h)
unfolding assemble push_h264 push_fu_a push_h265 push_fu
assemble_start h264 h piece p hh picture full e =
    let kind : (h.first / 32 * 32 + 28) % 32 ≡ 28 = omega arith in
    let sized : ltb (suc (suc (length piece))) 3 ≡ false = ground arith in
    let start : has_bit 7 (128 + h.first % 32) ≡ true = ground arith in
    let end : has_bit 6 (128 + h.first % 32) ≡ false = ground arith in
    let rebuilt : (h.first / 32 * 32 + 28) / 32 * 32 + (128 + h.first % 32) % 32 ≡ h.first =
      omega arith in
    let vcl : is_vcl (h.first % 32) ≡ true = ground (arith, picture.0, picture.1) in
    rw (e, kind, sized, start, end, rebuilt, vcl) refl
assemble_start h265 h piece p hh picture full e =
    let kind : (h.first / 128 * 128 + 98 + h.first % 2) / 2 % 64 ≡ 49 = omega (arith, hh.0) in
    let paired : ltb (suc (suc (suc (length piece)))) 2 ≡ false = ground arith in
    let sized : ltb (suc (suc (suc (length piece)))) 4 ≡ false = ground arith in
    let start : has_bit 7 (128 + h.first / 2 % 64) ≡ true = ground arith in
    let end : has_bit 6 (128 + h.first / 2 % 64) ≡ false = ground arith in
    let type : (128 + h.first / 2 % 64) % 64 ≡ h.first / 2 % 64 = omega arith in
    let rebuilt : (h.first / 128 * 128 + 98 + h.first % 2) / 128 * 128
          + h.first / 2 % 64 * 2
          + (h.first / 128 * 128 + 98 + h.first % 2) % 2
        ≡ h.first =
      omega arith in
    let vcl : leb (h.first / 2 % 64) 31 ≡ true = ground arith in
    rw (e, kind, paired, sized, start, end, type, rebuilt, vcl) refl
