-- ===== src/Rtsp/Assembler/Units.antt =====
-- Any run of packets through the assembler of src/backend/rtsp.rs, and the access units that come out.
use camera_adapter.Base.{
  is_some, ℕ, ◌≤◌, ◌<◌, ◌≡◌, refl, subst, inl, inr, Bool, true, false, not, ◌||◌, Option, none,
  some, List, [], ◌∷◌, arith, length, ◌==◌, if◌then◌else◌, All, Bool-cases,
}
use camera_adapter.Error.{Result, ok, err, error_code}
use camera_adapter.Rtsp.Packet.{RtpPacket}
use camera_adapter.Rtsp.Assembler.{discard_incomplete, RtspTrack, Assembler, new, is_empty}
use camera_adapter.Rtsp.Assembler.Bounds.{Sized, Session, Sound, discard-Sound}
use camera_adapter.Rtsp.Assembler.Growth.{annex}
use camera_adapter.Rtsp.Assembler.ParameterSets.{Contains, Carries}
use camera_adapter.Rtsp.Assembler.RandomAccess.{
  assemble-Preserves, discard-Carries, resynchronise-Carries,
}
use camera_adapter.Rtsp.Assembler.Codecs.{assemble-Keeps, resynchronise-Sound}
use camera_adapter.Rtsp.Assembler.Push.{
  EncodedAccessUnit, emit_at, complete, finish, is_resource_limit, push,
}

-- What a decoder needs of a unit, by whether it is marked as one to start at.
abbrev pub Decodable : Bool → List ℕ → List (List ℕ) → Type 0
Decodable false bytes nals = Unit
Decodable true bytes nals = Contains bytes (annex nals)

-- What an access unit promises to the decoder.
pub record IsUnit (top : Session) (u : EncodedAccessUnit) : Type 0 where
  pub not_empty : 0 < length u.bytes
  pub counted : u.compressed_bytes ≡ length u.bytes
  pub bounded : length u.bytes ≤ top.maximum
  pub sized : Sized u.dimensions
  pub decodable : Decodable u.random_access u.bytes top.parameter_sets

abbrev Outcome : Session → Result (Option EncodedAccessUnit) → Type 0
Outcome top (err e) = Unit
Outcome top (ok none) = Unit
Outcome top (ok (some u)) = IsUnit top u

abbrev Carried : Result (Option EncodedAccessUnit) → Assembler → Type 0
Carried (err e) a = Unit
Carried (ok u) a = Carries a

record Good (top : Session) (r : Assembler × Result (Option EncodedAccessUnit)) : Type 0 where
  state : Sound top r.0
  outcome : Outcome top r.1
  carried : Carried r.1 r.0

if-Good :
    {top : Session} (c : Bool) {x y : Assembler × Result (Option EncodedAccessUnit)}
    → (c ≡ true → Good top x)
    → (c ≡ false → Good top y)
    → Good top (if c then x else y)
if-Good true hx hy = hx refl
if-Good false hx hy = hy refl

filled : (xs : List ℕ) → is_empty xs ≡ false → 0 < length xs
filled [] e = cc
filled (x ∷ xs) e = omega arith

discarded-Good :
    (top : Session) (a : Assembler) → Sound top a → Good top (discard_incomplete a, ok none)
discarded-Good top a s = record {
  state = discard-Sound s;
  outcome = tt;
  carried = discard-Carries a;
}

if-Decodable :
    (random : Bool) (bytes : List ℕ) (nals : List (List ℕ))
    → (random ≡ true → Contains bytes (annex nals))
    → Decodable random bytes nals
if-Decodable true bytes nals h = h refl
if-Decodable false bytes nals h = tt

emit_at-Good :
    (o : Option ℕ) (top : Session) (a : Assembler)
    → is_empty a.bytes ≡ false
    → Sound top a
    → Carries a
    → Good top (emit_at o a)
emit_at-Good none top a e s c = record { state = s; outcome = tt; carried = tt }
emit_at-Good (some t) top a e s c = record {
  state = record { limit = s.limit; bound = omega arith; track = s.track; sized = s.sized };
  outcome = record {
    not_empty = filled a.bytes e;
    counted = refl;
    bounded = s.bound;
    sized = s.sized;
    decodable =
        if-Decodable a.has_random_access a.bytes top.parameter_sets
          λ random. subst (λ nals. Contains a.bytes (annex nals)) s.track (c.when_random random);
  };
  carried = record { when_injected = λ e. cc; when_random = λ e. cc };
}

complete-Good :
    (p : RtpPacket) (top : Session) (a : Assembler)
    → Sound top a
    → Carries a
    → Good top (complete p a)
unfolding complete
complete-Good p top a s c =
    if-Good (not p.marker) (λ _. record { state = s; outcome = tt; carried = c })
      λ _.
        if-Good (is_some a.fragment || (not a.has_vcl || is_empty a.bytes))
          (λ _. discarded-Good top a s) λ e. emit_at-Good a.timestamp top a (ground arith) s c

finish-Good :
    (p : RtpPacket) (top : Session) (r : Assembler × Result (Unit {0}))
    → Sound top r.0
    → ((b : Assembler) → r ≡ (b, ok tt) → Carries b)
    → Good top (finish p r)
unfolding finish
finish-Good p top (a, ok tt) s c = complete-Good p top a s (c a refl)
finish-Good p top (a, err e) s c =
    if-Good (is_resource_limit (error_code e)) (λ _. discarded-Good top a s)
      (λ _. record { state = s; outcome = tt; carried = tt })

push-Good :
    (p : RtpPacket) (top : Session) (a : Assembler) → Sound top a → Carries a → Good top (push p a)
unfolding push
push-Good p top a s c =
    if-Good (not (p.payload_type == a.payload_type))
      (λ _. record { state = s; outcome = tt; carried = c })
      λ _.
        finish-Good p top _ ((assemble-Keeps a.codec p).keeps top _ (resynchronise-Sound p top a s))
          λ b e. (assemble-Preserves a.codec p).holds _ b (resynchronise-Carries p a c) e

-- The units that a run of packets emits, up to the first error.
abbrev pub emitted :
    Result (Option EncodedAccessUnit) → List EncodedAccessUnit → List EncodedAccessUnit
emitted (err e) later = []
emitted (ok none) later = later
emitted (ok (some u)) later = u ∷ later

unfoldable pub units : List RtpPacket → Assembler → List EncodedAccessUnit
units [] a = []
units (p ∷ ps) a = emitted (push p a).1 (units ps (push p a).0)

emitted-All :
    (top : Session) (r : Assembler × Result (Option EncodedAccessUnit))
    (later : Assembler → List EncodedAccessUnit)
    → Good top r
    → ((b : Assembler) → Sound top b → Carries b → All (IsUnit top) (later b))
    → All (IsUnit top) (emitted r.1 (later r.0))
emitted-All top (a, err e) later g rest = tt
emitted-All top (a, ok none) later g rest = rest a g.state g.carried
emitted-All top (a, ok (some u)) later g rest = (g.outcome, rest a g.state g.carried)

units-All :
    (ps : List RtpPacket) (top : Session) (a : Assembler)
    → Sound top a
    → Carries a
    → All (IsUnit top) (units ps a)
unfolding units
units-All [] top a s c = tt
units-All (p ∷ ps) top a s c =
    emitted-All top (push p a) (units ps) (push-Good p top a s c) (units-All ps top)

abbrev pub session_of : RtspTrack → ℕ → Session
session_of track maximum = record { maximum = maximum; parameter_sets = track.bootstrap_nals }

new-Carries :
    (track : RtspTrack) (maximum : ℕ) (a : Assembler) → new track maximum ≡ ok a → Carries a
unfolding new
new-Carries track maximum a e = elim (Bool-cases (maximum == 0)) [
  | inl is_zero ↦ ground (arith, is_zero)
  | inr positive ↦
      let plain : a.bootstrap_injected_for_unit ≡ false = ground (arith, positive) in
      let still : a.has_random_access ≡ false = ground (arith, positive) in
      record { when_injected = λ e. cc; when_random = λ e. cc }
]

new-Sound :
    (track : RtspTrack) (maximum : ℕ) (a : Assembler)
    → new track maximum ≡ ok a
    → Sound (session_of track maximum) a
unfolding new
new-Sound track maximum a e = elim (Bool-cases (maximum == 0)) [
  | inl is_zero ↦ ground (arith, is_zero)
  | inr positive ↦ record {
    limit = ground (arith, positive);
    bound = ground (arith, positive);
    track = ground (arith, positive);
    sized = let unseen : none ≡ a.dimensions = ground (arith, positive) in subst Sized unseen tt;
  }
]

-- Whatever packets a camera sends, a unit that comes out has bytes, no more of them than the bound of
-- the session, which are counted exactly, and dimensions, if any, that are positive and at most 65535;
-- and if it is marked as a random-access point, the parameter sets of the track stand in it, each behind
-- a start code.
pub units-IsUnit :
    (track : RtspTrack) (maximum : ℕ) (a : Assembler) (ps : List RtpPacket)
    → new track maximum ≡ ok a
    → All (IsUnit (session_of track maximum)) (units ps a)
units-IsUnit track maximum a ps e =
    units-All ps (session_of track maximum) a (new-Sound track maximum a e)
      (new-Carries track maximum a e)
