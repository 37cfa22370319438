-- ===== src/Rtsp/Assembler/Codecs.antt =====
-- The same for the packets of both codecs of src/backend/rtsp.rs, and for the resynchronisation before
-- them.
use camera_adapter.Base.{
  ℕ, zero, suc, ◌/◌, ◌%◌, refl, Bool, true, false, not, ◌&&◌, ◌||◌, Option, none, some, List, [],
  ◌∷◌, length, get_or, ltb, leb, ◌==◌,
}
use camera_adapter.Rtsp.Bytes.{drop, be16, has_bit}
use camera_adapter.Rtsp.Packet.{RtpPacket}
use camera_adapter.Rtsp.Assembler.{RtspCodec, h264, h265, FragmentState, Assembler, is_some}
use camera_adapter.Rtsp.Assembler.Bounds.{
  Session, Sound, Keeps, >>-Keeps, if-Keeps, done-Keeps, stop-Keeps, change-Keeps, if-Sound,
  same-Sound, append_bytes-Keeps, append_start_code-Keeps, observe_nal-Keeps, begin_vcl-Keeps,
  note_vcl-Keeps, append_nal-Keeps, discard-Sound,
}
use camera_adapter.Rtsp.Assembler.Fragments.{
  Messages, open_fragment, begin_nal, start_fragment, move_fragment, close_at, follows, continue_at,
  continue_fragment,
}
use camera_adapter.Rtsp.Assembler.H264.{append_stap_a, push_fu_a, push_h264}
use camera_adapter.Rtsp.Assembler.H265.{append_ap, push_fu, push_h265}
use camera_adapter.Rtsp.Assembler.Push.{differs, discard_if, resynchronise, assemble}

start_fragment-Keeps :
    (m : Messages) (p : RtpPacket) (header body : List ℕ) (vcl random : Bool)
    → Keeps (start_fragment m p header body vcl random)
unfolding start_fragment
start_fragment-Keeps m p header body vcl random = record {
  keeps = λ top a s.
      if-Sound top (is_some a.fragment) _ _ (λ _. s)
        λ _.
          (>>-Keeps (>>-Keeps (begin_vcl-Keeps vcl random) append_start_code-Keeps) begun).keeps top
            a s;
}
  where
    begun : Keeps (begin_nal p header body vcl)
    begun = record {
      keeps = λ top a s.
          (>>-Keeps
              (>>-Keeps (>>-Keeps (append_bytes-Keeps header) (append_bytes-Keeps body))
                (note_vcl-Keeps vcl))
              (change-Keeps (open_fragment p (length a.bytes))
                (λ top a s. same-Sound refl refl refl refl s))).keeps
            top a s;
    }

close_at-Sound :
    (m : Messages) (o : Option FragmentState) (top : Session) (a : Assembler)
    → Sound top a
    → Sound top (close_at m o a).0
close_at-Sound m none top a s = s
close_at-Sound m (some f) top a s =
    (observe_nal-Keeps _).keeps top (record a { fragment = none })
      (same-Sound refl refl refl refl s)

continue_at-Keeps :
    (m : Messages) (p : RtpPacket) (body : List ℕ) (end : Bool) (o : Option FragmentState)
    → Keeps (continue_at m p body end o)
continue_at-Keeps m p body end none = stop-Keeps _
continue_at-Keeps m p body end (some f) = if-Keeps (not (follows p f)) (stop-Keeps _) (
    >>-Keeps
      (>>-Keeps (change-Keeps (move_fragment p f) (λ top a s. same-Sound refl refl refl refl s))
        (append_bytes-Keeps body))
      (if-Keeps end (record { keeps = λ top a s. close_at-Sound m a.fragment top a s }) done-Keeps))

continue_fragment-Keeps :
    (m : Messages) (p : RtpPacket) (body : List ℕ) (end : Bool)
    → Keeps (continue_fragment m p body end)
unfolding continue_fragment
continue_fragment-Keeps m p body end = record {
  keeps = λ top a s. (continue_at-Keeps m p body end a.fragment).keeps top a s;
}

append_stap_a-Keeps : (fuel : ℕ) (rest : List ℕ) → Keeps (append_stap_a fuel rest)
unfolding append_stap_a
append_stap_a-Keeps fuel [] = done-Keeps
append_stap_a-Keeps zero (hi ∷ rest) = stop-Keeps _
append_stap_a-Keeps (suc fuel) (hi ∷ []) = stop-Keeps _
append_stap_a-Keeps (suc fuel) (hi ∷ lo ∷ rest) =
    if-Keeps ((be16 hi lo == 0) || ltb (length rest) (be16 hi lo)) (stop-Keeps _)
      (>>-Keeps (append_nal-Keeps _ _) (append_stap_a-Keeps fuel (drop (be16 hi lo) rest)))

append_ap-Keeps : (fuel : ℕ) (rest : List ℕ) → Keeps (append_ap fuel rest)
unfolding append_ap
append_ap-Keeps fuel [] = done-Keeps
append_ap-Keeps zero (hi ∷ rest) = stop-Keeps _
append_ap-Keeps (suc fuel) (hi ∷ []) = stop-Keeps _
append_ap-Keeps (suc fuel) (hi ∷ lo ∷ rest) =
    if-Keeps (ltb (be16 hi lo) 2 || ltb (length rest) (be16 hi lo)) (stop-Keeps _)
      (>>-Keeps (append_nal-Keeps _ _) (append_ap-Keeps fuel (drop (be16 hi lo) rest)))

push_fu_a-Keeps : (p : RtpPacket) (payload : List ℕ) → Keeps (push_fu_a p payload)
unfolding push_fu_a
push_fu_a-Keeps p payload = if-Keeps (ltb (length payload) 3) (stop-Keeps _) (
    if-Keeps (has_bit 7 (get_or payload 1 0) && has_bit 6 (get_or payload 1 0)) (stop-Keeps _) (
      if-Keeps (has_bit 7 (get_or payload 1 0)) (start_fragment-Keeps _ p _ _ _ _)
        (continue_fragment-Keeps _ p _ _)))

push_fu-Keeps : (p : RtpPacket) (payload : List ℕ) → Keeps (push_fu p payload)
unfolding push_fu
push_fu-Keeps p payload = if-Keeps (ltb (length payload) 4) (stop-Keeps _) (
    if-Keeps (has_bit 7 (get_or payload 2 0) && has_bit 6 (get_or payload 2 0)) (stop-Keeps _) (
      if-Keeps (has_bit 7 (get_or payload 2 0)) (start_fragment-Keeps _ p _ _ _ _)
        (continue_fragment-Keeps _ p _ _)))

pub assemble-Keeps : (c : RtspCodec) (p : RtpPacket) → Keeps (assemble c p)
unfolding assemble push_h264 push_h265
assemble-Keeps h264 p =
    let kind = get_or p.payload 0 0 % 32 in
    if-Keeps (leb 1 kind && leb kind 23) (append_nal-Keeps _ _) (
      if-Keeps (kind == 24) (append_stap_a-Keeps _ _)
        (if-Keeps (kind == 28) (push_fu_a-Keeps p _) (stop-Keeps _)))
assemble-Keeps h265 p =
    let kind = get_or p.payload 0 0 / 2 % 64 in
    if-Keeps (ltb (length p.payload) 2) (stop-Keeps _) (
      if-Keeps (leb kind 47) (append_nal-Keeps _ _) (
        if-Keeps (kind == 48) (append_ap-Keeps _ _)
          (if-Keeps (kind == 49) (push_fu-Keeps p _) (stop-Keeps _))))

discard_if-Sound :
    (c : Bool) {top : Session} {a : Assembler} → Sound top a → Sound top (discard_if c a)
discard_if-Sound true s = discard-Sound s
discard_if-Sound false s = s

pub resynchronise-Sound :
    (p : RtpPacket) (top : Session) (a : Assembler) → Sound top a → Sound top (resynchronise p a)
unfolding resynchronise
resynchronise-Sound p top a s =
    let b = discard_if-Sound (differs a.expected_sequence p.sequence) s in
    same-Sound refl refl refl refl (discard_if-Sound _ b)
