-- ===== src/Rtsp/Assembler/Loss.antt =====
-- A fragmented NAL unit that the assembler of src/backend/rtsp.rs gives up in the middle.
use camera_adapter.Base.{
  ℕ, ◌+◌, ◌/◌, ◌%◌, ◌^◌, ◌≤◌, ◌<◌, ◌≡◌, refl, ap, sym, ◌∙◌, subst, Bool, true, false, not, Option,
  none, some, List, arith, length, get_or, ltb, ◌==◌,
}
use camera_adapter.Base.Words.{u64_max}
use camera_adapter.Error.{ok, err, error_code}
use camera_adapter.Rtsp.Bytes.{drop, has_bit}
use camera_adapter.Rtsp.Packet.{RtpPacket}
use camera_adapter.Rtsp.Assembler.{
  RtspCodec, h264, h265, FragmentState, Assembler, append_bytes, discard_incomplete, oversized,
}
use camera_adapter.Rtsp.Assembler.Fragments.{
  Messages, continue_fragment, continue_at, follows, move_fragment,
}
use camera_adapter.Rtsp.Assembler.H264.{fu_a_messages, push_fu_a, push_h264}
use camera_adapter.Rtsp.Assembler.H265.{fu_messages, push_fu, push_h265}
use camera_adapter.Rtsp.Assembler.Push.{
  differs, discard_if, get_or_insert, resynchronise, assemble, finish, push,
}

-- A fragmentation unit behind the first one of its NAL unit.
abbrev pub IsContinuation : RtspCodec → List ℕ → Type 0
IsContinuation h264 payload =
    (get_or payload 0 0 % 32 ≡ 28) × (3 ≤ length payload) × (has_bit 7 (get_or payload 1 0) ≡ false)
IsContinuation h265 payload =
    (get_or payload 0 0 / 2 % 64 ≡ 49)
    × (4 ≤ length payload)
    × (has_bit 7 (get_or payload 2 0) ≡ false)

abbrev pub messages : RtspCodec → Messages
messages h264 = fu_a_messages
messages h265 = fu_messages

abbrev pub body : RtspCodec → List ℕ → List ℕ
body h264 payload = drop 2 payload
body h265 payload = drop 3 payload

abbrev pub ends : RtspCodec → List ℕ → Bool
ends h264 payload = has_bit 6 (get_or payload 1 0)
ends h265 payload = has_bit 6 (get_or payload 2 0)

pub assemble_continuation :
    (c : RtspCodec) (p : RtpPacket)
    → IsContinuation c p.payload
    → assemble c p ≡ continue_fragment (messages c) p (body c p.payload) (ends c p.payload)
unfolding assemble push_h264 push_fu_a push_h265 push_fu
assemble_continuation h264 p (kind, long, middle) =
    let sized : ltb (length p.payload) 3 ≡ false = ground arith in rw (kind, sized, middle) refl
assemble_continuation h265 p (kind, long, middle) =
    let sized : ltb (length p.payload) 4 ≡ false = ground arith in
    let paired : ltb (length p.payload) 2 ≡ false = ground arith in
    rw (kind, paired, sized, middle) refl

discard_if-fragment :
    (c : Bool) (a : Assembler) → a.fragment ≡ none → (discard_if c a).fragment ≡ none
unfolding discard_incomplete
discard_if-fragment true a e = refl
discard_if-fragment false a e = e

discard_if-codec :
    (c : Bool) (a : Assembler)
    → ((discard_if c a).codec ≡ a.codec) × ((discard_if c a).payload_type ≡ a.payload_type)
unfolding discard_incomplete
discard_if-codec true a = (refl, refl)
discard_if-codec false a = (refl, refl)

resynchronise-fragment :
    (p : RtpPacket) (a : Assembler) → a.fragment ≡ none → (resynchronise p a).fragment ≡ none
unfolding resynchronise
resynchronise-fragment p a e = discard_if-fragment _ _ (discard_if-fragment _ a e)

pub continue_none :
    (m : Messages) (p : RtpPacket) (more : List ℕ) (end : Bool) (a : Assembler)
    → a.fragment ≡ none
    → continue_fragment m p more end a ≡ (a, err m.lacks_start)
unfolding continue_fragment
continue_none m p more end a e = ap (λ o. continue_at m p more end o a) e

finish_lacks_start :
    (c : RtspCodec) (p : RtpPacket) (a : Assembler)
    → finish p (a, err (messages c).lacks_start) ≡ (a, err (messages c).lacks_start)
unfolding finish error_code
finish_lacks_start h264 p a = refl
finish_lacks_start h265 p a = refl

-- A continuation with no fragment before it is an error that `push` returns: one of a unit that was
-- discarded, by a gap or for its size, as much as any other.
continuation_alone :
    (p : RtpPacket) (a : Assembler)
    → p.payload_type ≡ a.payload_type
    → IsContinuation a.codec p.payload
    → a.fragment ≡ none
    → (push p a).1 ≡ err (messages a.codec).lacks_start
unfolding push
continuation_alone p a type continues e =
    let same : not (p.payload_type == a.payload_type) ≡ false = ground arith in
    rw (same, assemble_continuation a.codec p continues)
      (ap (λ r. (finish p r).1)
          (continue_none (messages a.codec) p (body a.codec p.payload) (ends a.codec p.payload)
            (resynchronise p a) (resynchronise-fragment p a e))
        ∙ ap (λ r. r.1) (finish_lacks_start a.codec p (resynchronise p a)))

-- The state in the middle of a fragmented NAL unit, when the packet is the one that comes next.
pub record Awaits (f : FragmentState) (p : RtpPacket) (a : Assembler) : Type 0 where
  pub same_type : p.payload_type ≡ a.payload_type
  pub opened : a.fragment ≡ some f
  pub next : a.expected_sequence ≡ some p.sequence
  pub at : a.timestamp ≡ some p.timestamp
  pub fragment_next : f.expected_sequence ≡ p.sequence
  pub fragment_at : f.timestamp ≡ p.timestamp

stamp : RtpPacket → Option ℕ → Assembler → Assembler
stamp p at a = record a {
  timestamp = get_or_insert at p.timestamp;
  expected_sequence = some ((p.sequence + 1) % 2 ^ 16);
}

after_gap : RtpPacket → Assembler → Assembler
unfolding stamp
after_gap p b = let c = discard_if (differs b.timestamp p.timestamp) b in stamp p c.timestamp c

equal-differs : (o : Option ℕ) (n : ℕ) → o ≡ some n → differs o n ≡ false
equal-differs none n e = cc
equal-differs (some m) n e = ground arith

pub resynchronise_next :
    (f : FragmentState) (p : RtpPacket) (a : Assembler)
    → Awaits f p a
    → resynchronise p a ≡ record a {
      timestamp = some p.timestamp;
      expected_sequence = some ((p.sequence + 1) % 2 ^ 16);
    }
unfolding resynchronise after_gap stamp
resynchronise_next f p a w =
    ap (λ c. after_gap p (discard_if c a)) (equal-differs a.expected_sequence p.sequence w.next)
    ∙ ap (λ c. let b = discard_if c a in stamp p b.timestamp b)
        (equal-differs a.timestamp p.timestamp w.at)
    ∙ ap (λ o. stamp p o a) w.at

extend_too_far :
    (a : Assembler) (more : List ℕ)
    → length a.bytes + length more ≤ u64_max
    → a.maximum_bytes < length a.bytes + length more
    → append_bytes more a ≡ (a, err oversized)
unfolding append_bytes
extend_too_far a more fits over = ground arith

-- The body of the packet does not fit.
continue_too_far :
    (m : Messages) (f : FragmentState) (p : RtpPacket) (more : List ℕ) (end : Bool) (a : Assembler)
    → a.fragment ≡ some f
    → f.expected_sequence ≡ p.sequence
    → f.timestamp ≡ p.timestamp
    → length a.bytes + length more ≤ u64_max
    → a.maximum_bytes < length a.bytes + length more
    → (b : Assembler) × (continue_fragment m p more end a ≡ (b, err oversized))
      × (b.codec ≡ a.codec)
      × (b.payload_type ≡ a.payload_type)
unfolding continue_fragment
continue_too_far m f p more end a opened next at fits over =
    let follow : not (follows p f) ≡ false = ground arith in
    (
      move_fragment p f a,
      ap (λ o. continue_at m p more end o a) opened
          ∙ rw (follow, extend_too_far (move_fragment p f a) more fits over) refl,
      refl,
      refl,
    )

discarded : (b : Assembler) → (discard_incomplete b).fragment ≡ none
unfolding discard_incomplete
discarded b = refl

discarded-codec :
    (b : Assembler)
    → ((discard_incomplete b).codec ≡ b.codec)
      × ((discard_incomplete b).payload_type ≡ b.payload_type)
unfolding discard_incomplete
discarded-codec b = (refl, refl)

finish-oversized :
    (p : RtpPacket) (b : Assembler) → finish p (b, err oversized) ≡ (discard_incomplete b, ok none)
unfolding finish error_code
finish-oversized p b = refl

pub push_assembled :
    (p : RtpPacket) (a : Assembler)
    → p.payload_type ≡ a.payload_type
    → push p a ≡ finish p (assemble a.codec p (resynchronise p a))
unfolding push
push_assembled p a type =
    let same : not (p.payload_type == a.payload_type) ≡ false = ground arith in rw same refl

push_too_far :
    (f : FragmentState) (p : RtpPacket) (a : Assembler)
    → Awaits f p a
    → IsContinuation a.codec p.payload
    → length a.bytes + length (body a.codec p.payload) ≤ u64_max
    → a.maximum_bytes < length a.bytes + length (body a.codec p.payload)
    → (b : Assembler) × (push p a ≡ (discard_incomplete b, ok none))
      × (b.codec ≡ a.codec)
      × (b.payload_type ≡ a.payload_type)
push_too_far f p a w continues fits over =
    let c = resynchronise p a in
    let (b, far, codec, type) =
      continue_too_far (messages a.codec) f p (body a.codec p.payload) (ends a.codec p.payload)
        (record a {
          timestamp = some p.timestamp;
          expected_sequence = some ((p.sequence + 1) % 2 ^ 16);
        })
        w.opened w.fragment_next w.fragment_at fits over in
    (
      b,
      push_assembled p a w.same_type
          ∙ ap (finish p) (
              ap (λ step. step c) (assemble_continuation a.codec p continues)
              ∙ ap
                  (continue_fragment (messages a.codec) p (body a.codec p.payload)
                    (ends a.codec p.payload))
                  (resynchronise_next f p a w)
              ∙ far)
          ∙ finish-oversized p b,
      codec,
      type,
    )

-- In the middle of a fragmented NAL unit, a fragment that would exceed the bound is dropped with its
-- unit and no error is returned; but the next fragment of the same NAL unit, which finds none open, is
-- an error of the session, for both codecs.
pub oversized_fragment_ends :
    (f : FragmentState) (p q : RtpPacket) (a : Assembler)
    → Awaits f p a
    → IsContinuation a.codec p.payload
    → length a.bytes + length (body a.codec p.payload) ≤ u64_max
    → a.maximum_bytes < length a.bytes + length (body a.codec p.payload)
    → q.payload_type ≡ a.payload_type
    → IsContinuation a.codec q.payload
    → ((push p a).1 ≡ ok none) × ((push q (push p a).0).1 ≡ err (messages a.codec).lacks_start)
oversized_fragment_ends f p q a w continues fits over type again =
    let (b, dropped, codec, types) = push_too_far f p a w continues fits over in
    (
      ap (λ r. r.1) dropped,
      ap (λ r. (push q r.0).1) dropped
          ∙ continuation_alone q (discard_incomplete b)
              (type ∙ sym types ∙ sym (discarded-codec b).1)
              (subst (λ c. IsContinuation c q.payload) (sym ((discarded-codec b).0 ∙ codec)) again)
              (discarded b)
          ∙ ap (λ c. err (messages c).lacks_start) ((discarded-codec b).0 ∙ codec),
    )
