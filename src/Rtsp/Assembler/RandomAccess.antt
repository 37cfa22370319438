-- ===== src/Rtsp/Assembler/RandomAccess.antt =====
-- The parameter sets of a random-access point through the packets of both codecs, in the assembler of
-- src/backend/rtsp.rs.
use camera_adapter.Base.{
  ℕ, zero, suc, ◌/◌, ◌%◌, ◌≡◌, refl, ap, subst, Bool, true, false, not, ◌&&◌, ◌||◌, Option, none,
  some, List, [], ◌∷◌, length, get_or, leb, ltb, ◌==◌, if◌then◌else◌,
}
use camera_adapter.Error.{CameraError, ok, err}
use camera_adapter.Rtsp.Bytes.{drop, be16, has_bit}
use camera_adapter.Rtsp.Packet.{RtpPacket}
use camera_adapter.Rtsp.Assembler.{
  RtspCodec, h264, h265, FragmentState, Assembler, Step, done, stop, change, is_some, note_vcl,
  append_nal, nal_is_random_access, discard_incomplete,
}
use camera_adapter.Rtsp.Assembler.Fragments.{
  Messages, open_fragment, begin_nal, start_fragment, move_fragment, close_at, follows, continue_at,
  continue_fragment,
}
use camera_adapter.Rtsp.Assembler.H264.{append_stap_a, push_fu_a, push_h264}
use camera_adapter.Rtsp.Assembler.H265.{append_ap, push_fu, push_h265}
use camera_adapter.Rtsp.Assembler.Push.{differs, discard_if, resynchronise, assemble}
use camera_adapter.Rtsp.Assembler.Growth.{
  Grown, change-Grows, same-Grown, append_bytes-Grows, append_start_code-Grows, observe_nal-Grows,
}
use camera_adapter.Rtsp.Assembler.ParameterSets.{
  Carries, Preserves, Grown-Carries, Grows-Preserves, >>-Preserves, begin_vcl-Preserves,
}

done-Preserves : Preserves done
done-Preserves = record { holds = λ a b c e. subst Carries (ap (λ r. r.0) e) c }

stop-Preserves : (x : CameraError) → Preserves (stop x)
stop-Preserves x = record { holds = λ a b c e. let bad : err x ≡ ok tt = ap (λ r. r.1) e in cc }

if-Preserves :
    (c : Bool) {m k : Step (Unit {0})} → Preserves m → Preserves k → Preserves (if c then m else k)
if-Preserves true hm hk = hm
if-Preserves false hm hk = hk

-- A call that looks at its state first.
if_at-Carries :
    {a b : Assembler} (c : Bool) (m k : Step (Unit {0}))
    → Preserves m
    → Preserves k
    → Carries a
    → (if c then m a else k a) ≡ (b, ok tt)
    → Carries b
if_at-Carries {a} {b} true m k hm hk c e = hm.holds a b c e
if_at-Carries {a} {b} false m k hm hk c e = hk.holds a b c e

other-Preserves :
    (f : Assembler → Assembler) → ((a : Assembler) → Grown a [] (f a)) → Preserves (change f)
other-Preserves f h = Grows-Preserves (change-Grows f h)

append_nal-Preserves : (nal : List ℕ) (vcl : Bool) → Preserves (append_nal nal vcl)
unfolding append_nal
append_nal-Preserves nal vcl = record {
  holds = λ a b c e.
      (>>-Preserves
          (>>-Preserves
            (>>-Preserves
              (>>-Preserves (begin_vcl-Preserves vcl (nal_is_random_access a.codec nal))
                (Grows-Preserves (observe_nal-Grows nal)))
              (Grows-Preserves append_start_code-Grows))
            (Grows-Preserves (append_bytes-Grows nal)))
          (other-Preserves (note_vcl vcl) (λ a. same-Grown refl refl refl refl))).holds
        a b c e;
}

begin_nal-Preserves :
    (p : RtpPacket) (header body : List ℕ) (vcl : Bool) → Preserves (begin_nal p header body vcl)
begin_nal-Preserves p header body vcl = record {
  holds = λ a b c e.
      (>>-Preserves
          (>>-Preserves
            (>>-Preserves (Grows-Preserves (append_bytes-Grows header))
              (Grows-Preserves (append_bytes-Grows body)))
            (other-Preserves (note_vcl vcl) (λ a. same-Grown refl refl refl refl)))
          (other-Preserves (open_fragment p (length a.bytes))
            (λ a. same-Grown refl refl refl refl))).holds
        a b c e;
}

start_fragment-Preserves :
    (m : Messages) (p : RtpPacket) (header body : List ℕ) (vcl random : Bool)
    → Preserves (start_fragment m p header body vcl random)
unfolding start_fragment
start_fragment-Preserves m p header body vcl random = record {
  holds = λ a b c e.
      if_at-Carries (is_some a.fragment) (stop m.overlap) _ (stop-Preserves m.overlap)
        (>>-Preserves
          (>>-Preserves (begin_vcl-Preserves vcl random) (Grows-Preserves append_start_code-Grows))
          (begin_nal-Preserves p header body vcl))
        c e;
}

close_at-Carries :
    (m : Messages) (o : Option FragmentState) (a b : Assembler)
    → Carries a
    → close_at m o a ≡ (b, ok tt)
    → Carries b
close_at-Carries m none a b c e = (stop-Preserves m.lacks_state).holds a b c e
close_at-Carries m (some f) a b c e =
    (Grows-Preserves (observe_nal-Grows (drop f.nal_offset a.bytes))).holds
      (record a { fragment = none }) b (Grown-Carries (same-Grown refl refl refl refl) c) e

continue_at-Preserves :
    (m : Messages) (p : RtpPacket) (body : List ℕ) (end : Bool) (o : Option FragmentState)
    → Preserves (continue_at m p body end o)
continue_at-Preserves m p body end none = stop-Preserves m.lacks_start
continue_at-Preserves m p body end (some f) =
    if-Preserves (not (follows p f)) (stop-Preserves m.discontinuous) (
      >>-Preserves
        (>>-Preserves (other-Preserves (move_fragment p f) (λ a. same-Grown refl refl refl refl))
          (Grows-Preserves (append_bytes-Grows body)))
        (if-Preserves end (record { holds = λ a b c e. close_at-Carries m a.fragment a b c e })
          done-Preserves))

continue_fragment-Preserves :
    (m : Messages) (p : RtpPacket) (body : List ℕ) (end : Bool)
    → Preserves (continue_fragment m p body end)
unfolding continue_fragment
continue_fragment-Preserves m p body end = record {
  holds = λ a b c e. (continue_at-Preserves m p body end a.fragment).holds a b c e;
}

append_stap_a-Preserves : (fuel : ℕ) (rest : List ℕ) → Preserves (append_stap_a fuel rest)
unfolding append_stap_a
append_stap_a-Preserves fuel [] = done-Preserves
append_stap_a-Preserves zero (hi ∷ rest) = stop-Preserves _
append_stap_a-Preserves (suc fuel) (hi ∷ []) = stop-Preserves _
append_stap_a-Preserves (suc fuel) (hi ∷ lo ∷ rest) =
    if-Preserves ((be16 hi lo == 0) || ltb (length rest) (be16 hi lo)) (stop-Preserves _) (
      >>-Preserves (append_nal-Preserves _ _)
        (append_stap_a-Preserves fuel (drop (be16 hi lo) rest)))

append_ap-Preserves : (fuel : ℕ) (rest : List ℕ) → Preserves (append_ap fuel rest)
unfolding append_ap
append_ap-Preserves fuel [] = done-Preserves
append_ap-Preserves zero (hi ∷ rest) = stop-Preserves _
append_ap-Preserves (suc fuel) (hi ∷ []) = stop-Preserves _
append_ap-Preserves (suc fuel) (hi ∷ lo ∷ rest) =
    if-Preserves (ltb (be16 hi lo) 2 || ltb (length rest) (be16 hi lo)) (stop-Preserves _)
      (>>-Preserves (append_nal-Preserves _ _) (append_ap-Preserves fuel (drop (be16 hi lo) rest)))

push_fu_a-Preserves : (p : RtpPacket) (payload : List ℕ) → Preserves (push_fu_a p payload)
unfolding push_fu_a
push_fu_a-Preserves p payload = if-Preserves (ltb (length payload) 3) (stop-Preserves _) (
    if-Preserves (has_bit 7 (get_or payload 1 0) && has_bit 6 (get_or payload 1 0))
      (stop-Preserves _)
      (if-Preserves (has_bit 7 (get_or payload 1 0)) (start_fragment-Preserves _ p _ _ _ _)
        (continue_fragment-Preserves _ p _ _)))

push_fu-Preserves : (p : RtpPacket) (payload : List ℕ) → Preserves (push_fu p payload)
unfolding push_fu
push_fu-Preserves p payload = if-Preserves (ltb (length payload) 4) (stop-Preserves _) (
    if-Preserves (has_bit 7 (get_or payload 2 0) && has_bit 6 (get_or payload 2 0))
      (stop-Preserves _)
      (if-Preserves (has_bit 7 (get_or payload 2 0)) (start_fragment-Preserves _ p _ _ _ _)
        (continue_fragment-Preserves _ p _ _)))

pub assemble-Preserves : (c : RtspCodec) (p : RtpPacket) → Preserves (assemble c p)
unfolding assemble push_h264 push_h265
assemble-Preserves h264 p =
    let kind = get_or p.payload 0 0 % 32 in
    if-Preserves (leb 1 kind && leb kind 23) (append_nal-Preserves _ _) (
      if-Preserves (kind == 24) (append_stap_a-Preserves _ _)
        (if-Preserves (kind == 28) (push_fu_a-Preserves p _) (stop-Preserves _)))
assemble-Preserves h265 p =
    let kind = get_or p.payload 0 0 / 2 % 64 in
    if-Preserves (ltb (length p.payload) 2) (stop-Preserves _) (
      if-Preserves (leb kind 47) (append_nal-Preserves _ _) (
        if-Preserves (kind == 48) (append_ap-Preserves _ _)
          (if-Preserves (kind == 49) (push_fu-Preserves p _) (stop-Preserves _))))

-- What is discarded is marked no more.
pub discard-Carries : (a : Assembler) → Carries (discard_incomplete a)
unfolding discard_incomplete
discard-Carries a = record { when_injected = λ e. cc; when_random = λ e. cc }

discard_if-Carries : (c : Bool) (a : Assembler) → Carries a → Carries (discard_if c a)
discard_if-Carries true a h = discard-Carries a
discard_if-Carries false a h = h

pub resynchronise-Carries :
    (p : RtpPacket) (a : Assembler) → Carries a → Carries (resynchronise p a)
unfolding resynchronise
resynchronise-Carries p a h =
    let b = discard_if-Carries (differs a.expected_sequence p.sequence) a h in
    Grown-Carries (same-Grown refl refl refl refl) (discard_if-Carries _ _ b)
