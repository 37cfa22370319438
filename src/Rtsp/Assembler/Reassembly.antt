-- ===== src/Rtsp/Assembler/Reassembly.antt =====
-- A fragmented NAL unit as a whole, through the assembler of src/backend/rtsp.rs.
use mathlib.Core.List.{append_assoc}
use camera_adapter.Base.{
  ℕ, ◌+◌, ◌%◌, ◌^◌, ◌≤◌, ◌≡◌, refl, ap, sym, ◌∙◌, subst, Bool, true, false, Option, none, some,
  List, [], ◌∷◌, ◌++◌, arith, length, length-append, All,
}
use camera_adapter.Base.Words.{u64_max}
use camera_adapter.Error.{ok}
use camera_adapter.Rtsp.Packet.{RtpPacket}
use camera_adapter.Rtsp.Assembler.{
  RtspCodec, h264, h265, Assembler, change, go_on, note_vcl, start_code, append_start_code,
  append_bytes, begin_vcl, inject_bootstrap_before_vcl, is_parameter_set,
}
use camera_adapter.Rtsp.Assembler.Fragments.{Messages, open_fragment, begin_nal, start_fragment}
use camera_adapter.Rtsp.Assembler.Push.{resynchronise, finish, push}
use camera_adapter.Rtsp.Assembler.Units.{units, emitted}
use camera_adapter.Rtsp.Assembler.Loss.{messages, push_assembled}
use camera_adapter.Rtsp.Assembler.Fragmentation.{
  Header, header_bytes, fu_packet, rest_packets, joined,
}
use camera_adapter.Rtsp.Assembler.Continuation.{
  building, appended, unit_of, finish_middle, NonEmpty, rest_units, IsPicture, IsHeader,
  random_access_of, assemble_start,
}

-- Between two access units, for a track without parameter sets of its own.
abbrev pub idle : RtspCodec → ℕ → ℕ → Option (ℕ × ℕ) → ℕ → Assembler
idle c type top dimensions lost = record {
  codec = c;
  payload_type = type;
  maximum_bytes = top;
  timestamp = none;
  expected_sequence = none;
  fragment = none;
  bytes = [];
  has_vcl = false;
  has_random_access = false;
  bootstrap_nals = [];
  bootstrap_pending = false;
  bootstrap_injected_for_unit = false;
  dimensions = dimensions;
  incomplete_units = lost;
}

abbrev stamped : Assembler → ℕ → ℕ → Assembler
stamped a timestamp next = record a { timestamp = some timestamp; expected_sequence = some next }

abbrev marked : Bool → Assembler → Assembler
marked random a = record a { has_random_access = random }

module _ (c : RtspCodec) (type top : ℕ) (dimensions : Option (ℕ × ℕ)) (lost : ℕ) where
  begun :
      (timestamp next : ℕ) (random : Bool)
      → begin_vcl true random (stamped (idle c type top dimensions lost) timestamp next)
        ≡ (marked random (stamped (idle c type top dimensions lost) timestamp next), ok tt)
  unfolding begin_vcl inject_bootstrap_before_vcl
  begun timestamp next true = refl
  begun timestamp next false = refl

  started :
      (m : Messages) (p : RtpPacket) (header piece : List ℕ) (random : Bool)
      → 4 + (length header + length piece) ≤ top
      → top ≤ u64_max
      → start_fragment m p header piece true random
          (stamped (idle c type top dimensions lost) p.timestamp ((p.sequence + 1) % 2 ^ 16))
        ≡ (
          building
              (record (marked random (idle c type top dimensions lost)) { has_vcl = true })
              p.timestamp
              ((p.sequence + 1) % 2 ^ 16)
              4
              (start_code ++ (header ++ piece)),
          ok tt,
        )
  unfolding start_fragment append_start_code
  started m p header piece random fits word =
      let s =
        marked random
          (stamped (idle c type top dimensions lost) p.timestamp ((p.sequence + 1) % 2 ^ 16)) in
      let coded = record s { bytes = start_code } in
      let headed = record s { bytes = start_code ++ header } in
      let rest = begin_nal p header piece true in
      let body_step = append_bytes piece in
      let vcl_step = change (note_vcl true) in
      let open_step = change (open_fragment p 4) in
      ap (λ r. go_on (go_on r append_start_code) rest)
        (begun p.timestamp ((p.sequence + 1) % 2 ^ 16) random)
      ∙ ap (λ r. go_on r rest) (appended s start_code (omega arith) word)
      ∙ ap (λ r. go_on (go_on (go_on r body_step) vcl_step) open_step)
          (appended coded header (omega arith) word)
      ∙ ap (λ r. go_on (go_on r vcl_step) open_step)
          (appended headed piece (omega (arith, length-append start_code header)) word)

not_parameter_set :
    (c : RtspCodec) (h : Header) (rest : List ℕ)
    → IsPicture c h
    → is_parameter_set c (header_bytes c h ++ rest) ≡ false
not_parameter_set h264 h rest picture = ground (arith, picture.0, picture.1)
not_parameter_set h265 h rest picture = ground arith

abbrev pub nal_packets :
    RtspCodec → ℕ → ℕ → ℕ → Header → List ℕ → List (List ℕ) → List ℕ → List RtpPacket
nal_packets c type timestamp sequence h first pieces final =
    fu_packet c type timestamp sequence false h 128 first
    ∷ rest_packets c type timestamp (sequence + 1) h pieces final

first_pushed :
    (c : RtspCodec) (type top : ℕ) (dimensions : Option (ℕ × ℕ)) (lost : ℕ) (timestamp sequence : ℕ)
    (h : Header) (first : List ℕ)
    → IsHeader h
    → IsPicture c h
    → NonEmpty first
    → 4 + (length (header_bytes c h) + length first) ≤ top
    → top ≤ u64_max
    → push (fu_packet c type timestamp sequence false h 128 first) (idle c type top dimensions lost)
      ≡ (
        building
            (record (marked (random_access_of c h) (idle c type top dimensions lost)) {
              has_vcl = true;
            })
            timestamp
            ((sequence % 2 ^ 16 + 1) % 2 ^ 16)
            4
            (start_code ++ (header_bytes c h ++ first)),
        ok none,
      )
unfolding resynchronise
first_pushed c type top dimensions lost timestamp sequence h first hh picture full fits word =
    let p = fu_packet c type timestamp sequence false h 128 first in
    push_assembled p (idle c type top dimensions lost) refl
    ∙ ap (finish p) (
        ap (λ step. step (resynchronise p (idle c type top dimensions lost)))
          (assemble_start c h first p hh picture full refl)
        ∙ started c type top dimensions lost (messages c) p (header_bytes c h) first
            (random_access_of c h) fits word)
    ∙ finish_middle p _ refl

-- In a session that has no parameter sets to put in front, and on an assembler that is idle: a picture's
-- NAL unit that fits the bound of the session with its start code, cut into two fragments or more, none of
-- them empty, with whatever sequence number the first one has, wraps included, comes out as one access
-- unit: a start code and the NAL unit as it was, header bytes included, marked as a random-access point
-- exactly when it is one.
pub units-nal_packets :
    (c : RtspCodec) (type top : ℕ) (dimensions : Option (ℕ × ℕ)) (lost : ℕ) (timestamp sequence : ℕ)
    (h : Header) (first : List ℕ) (pieces : List (List ℕ)) (final : List ℕ)
    → IsHeader h
    → IsPicture c h
    → NonEmpty first
    → All NonEmpty pieces
    → NonEmpty final
    → 4 + (length (header_bytes c h) + (length first + length (joined pieces final))) ≤ top
    → top ≤ u64_max
    → units
        (nal_packets c type timestamp sequence h first pieces final)
        (idle c type top dimensions lost)
      ≡ record {
        bytes = start_code ++ (header_bytes c h ++ (first ++ joined pieces final));
        rtp_timestamp = timestamp;
        compressed_bytes =
            length (start_code ++ (header_bytes c h ++ (first ++ joined pieces final)));
        dimensions = dimensions;
        random_access = random_access_of c h;
      }
        ∷ []
unfolding units
units-nal_packets c type top dimensions lost timestamp sequence h first pieces final hh picture full
      fulls last_full fits word =
    let later = rest_packets c type timestamp (sequence + 1) h pieces final in
    let base = record (marked (random_access_of c h) (idle c type top dimensions lost)) {
      has_vcl = true;
    } in
    let whole =
      ap (λ bs. start_code ++ bs) (append_assoc (header_bytes c h) first (joined pieces final)) in
    let one_more : (sequence % 2 ^ 16 + 1) % 2 ^ 16 ≡ (sequence + 1) % 2 ^ 16 = omega arith in
    ap (λ r. emitted r.1 (units later r.0))
      (first_pushed c type top dimensions lost timestamp sequence h first hh picture full
        (omega arith) word)
    ∙ ap
        (λ n. units later (building base timestamp n 4 (start_code ++ (header_bytes c h ++ first))))
        one_more
    ∙ rest_units c type timestamp 4 h base refl refl refl word (sequence + 1)
        (start_code ++ (header_bytes c h ++ first)) pieces final fulls last_full
        (omega (arith, length-append (header_bytes c h) first))
        (subst (λ bs. is_parameter_set c bs ≡ false)
          (sym (append_assoc (header_bytes c h) first (joined pieces final)))
          (not_parameter_set c h (first ++ joined pieces final) picture))
    ∙ ap (λ bs. unit_of base timestamp bs ∷ []) whole
