-- ===== src/Rtsp/Assembler/Bounds.antt =====
-- What every call of the assembler of src/backend/rtsp.rs keeps: the bound on the bytes that it holds, and
-- the dimensions that it has seen.
use camera_adapter.Base.{
  ℕ, ◌+◌, ◌≤◌, ◌≡◌, refl, sym, ◌∙◌, subst, inl, inr, Bool, true, false, not, ◌&&◌, ◌||◌, Option,
  none, some, List, [], ◌∷◌, arith, length, ltb, if◌then◌else◌, length-append,
}
use camera_adapter.Base.Words.{u64_max, checked_add}
use camera_adapter.Error.{CameraError, Result, ok, err}
use camera_adapter.Rtsp.Sps.Bounds.{IsDimensions, sps-IsDimensions}
use camera_adapter.Rtsp.Assembler.{
  RtspCodec, h264, h265, Assembler, Step, done, stop, go_on, ◌>>◌, change, append_bytes, extend,
  start_code, append_start_code, parse_dimensions, note_dimensions, is_parameter_set, observe_nal,
  append_bootstrap, set_injected, inject_bootstrap_before_vcl, mark_random_access, begin_vcl,
  note_vcl, append_nal, nal_is_random_access, discard_incomplete,
}

abbrev pub Sized : Option (ℕ × ℕ) → Type 0
Sized none = Unit
Sized (some d) = IsDimensions d

-- What a session fixes: the bound, and the parameter sets of its track.
pub record Session : Type 0 where
  pub maximum : ℕ
  pub parameter_sets : List (List ℕ)

pub record Sound (top : Session) (a : Assembler) : Type 0 where
  pub limit : a.maximum_bytes ≡ top.maximum
  pub bound : length a.bytes ≤ top.maximum
  pub track : a.bootstrap_nals ≡ top.parameter_sets
  pub sized : Sized a.dimensions

pub record Keeps (m : Step (Unit {0})) : Type 0 where
  pub keeps : (top : Session) (a : Assembler) → Sound top a → Sound top (m a).0

go_on-Sound :
    (top : Session) (r : Assembler × Result (Unit {0})) (rest : Step (Unit {0}))
    → Sound top r.0
    → Keeps rest
    → Sound top (go_on r rest).0
go_on-Sound top (a, ok x) rest s k = k.keeps top a s
go_on-Sound top (a, err e) rest s k = s

pub >>-Keeps : {m k : Step (Unit {0})} → Keeps m → Keeps k → Keeps (m >> k)
>>-Keeps {m} {k} hm hk = record { keeps = λ top a s. go_on-Sound top (m a) k (hm.keeps top a s) hk }

pub if-Keeps : (c : Bool) {m k : Step (Unit {0})} → Keeps m → Keeps k → Keeps (if c then m else k)
if-Keeps true hm hk = hm
if-Keeps false hm hk = hk

pub done-Keeps : Keeps done
done-Keeps = record { keeps = λ top a s. s }

pub stop-Keeps : (e : CameraError) → Keeps (stop e)
stop-Keeps e = record { keeps = λ top a s. s }

-- A change of the other fields.
pub change-Keeps :
    (f : Assembler → Assembler)
    → ((top : Session) (a : Assembler) → Sound top a → Sound top (f a))
    → Keeps (change f)
change-Keeps f h = record { keeps = h }

pub if-Sound {ℓ} :
    {X : Type ℓ} (top : Session) (c : Bool) (x y : Assembler × X)
    → (c ≡ true → Sound top x.0)
    → (c ≡ false → Sound top y.0)
    → Sound top (if c then x else y).0
if-Sound top true x y hx hy = hx refl
if-Sound top false x y hx hy = hy refl

extend-Sound :
    (top : Session) (a : Assembler) (o : Option ℕ) (more : List ℕ)
    → ((n : ℕ) → o ≡ some n → n ≡ length a.bytes + length more)
    → Sound top a
    → Sound top (extend o more a).0
extend-Sound top a none more h s = s
extend-Sound top a (some n) more h s =
    if-Sound top (ltb a.maximum_bytes n) _ _ (λ _. s)
      λ fits. record {
        limit = s.limit;
        bound = ground (arith, h n refl, s.limit, fits, length-append a.bytes more);
        track = s.track;
        sized = s.sized;
      }

checked_add-sum : (x y n : ℕ) → checked_add u64_max x y ≡ some n → n ≡ x + y
checked_add-sum x y n h = ground arith

pub append_bytes-Keeps : (more : List ℕ) → Keeps (append_bytes more)
unfolding append_bytes
append_bytes-Keeps more = record {
  keeps = λ top a s. extend-Sound top a _ more (checked_add-sum (length a.bytes) (length more)) s;
}

pub append_start_code-Keeps : Keeps append_start_code
unfolding append_start_code
append_start_code-Keeps = append_bytes-Keeps start_code

noted-Sound :
    (top : Session) (a : Assembler) (r : Result (ℕ × ℕ))
    → ((d : ℕ × ℕ) → r ≡ ok d → IsDimensions d)
    → Sound top a
    → Sound top (note_dimensions r a).0
noted-Sound top a (ok d) h s = record {
  limit = s.limit;
  bound = s.bound;
  track = s.track;
  sized = h d refl;
}
noted-Sound top a (err e) h s = s

parsed-IsDimensions :
    (c : RtspCodec) (nal : List ℕ) (d : ℕ × ℕ) → parse_dimensions c nal ≡ ok d → IsDimensions d
parsed-IsDimensions h264 nal d e = sps-IsDimensions nal d (inl e)
parsed-IsDimensions h265 nal d e = sps-IsDimensions nal d (inr e)

pub observe_nal-Keeps : (nal : List ℕ) → Keeps (observe_nal nal)
unfolding observe_nal
observe_nal-Keeps nal = record {
  keeps = λ top a s.
      if-Sound top (is_parameter_set a.codec nal) _ _
        (λ _. noted-Sound top a (parse_dimensions a.codec nal) (parsed-IsDimensions a.codec nal) s)
        (λ _. s);
}

append_bootstrap-Keeps : (nals : List (List ℕ)) → Keeps (append_bootstrap nals)
unfolding append_bootstrap
append_bootstrap-Keeps [] = done-Keeps
append_bootstrap-Keeps (nal ∷ rest) =
    >>-Keeps
      (>>-Keeps (>>-Keeps (observe_nal-Keeps nal) append_start_code-Keeps) (append_bytes-Keeps nal))
      (append_bootstrap-Keeps rest)

-- The other fields play no part.
pub same-Sound :
    {top : Session} {a b : Assembler}
    → b.maximum_bytes ≡ a.maximum_bytes
    → b.bytes ≡ a.bytes
    → b.dimensions ≡ a.dimensions
    → b.bootstrap_nals ≡ a.bootstrap_nals
    → Sound top a
    → Sound top b
same-Sound {top} em eb ed en s = record {
  limit = em ∙ s.limit;
  bound = subst (λ xs. length xs ≤ top.maximum) (sym eb) s.bound;
  track = en ∙ s.track;
  sized = subst Sized (sym ed) s.sized;
}

inject-Keeps : (vcl : Bool) → Keeps (inject_bootstrap_before_vcl vcl)
unfolding inject_bootstrap_before_vcl
inject-Keeps vcl = record {
  keeps = λ top a s.
      if-Sound top (not vcl || (not a.bootstrap_pending || a.bootstrap_injected_for_unit)) _ _
        (λ _. s)
        λ _.
          (>>-Keeps (append_bootstrap-Keeps a.bootstrap_nals)
              (change-Keeps set_injected (λ top a s. same-Sound refl refl refl refl s))).keeps
            top a s;
}

marked-Sound :
    (random : Bool) (top : Session) (a : Assembler)
    → Sound top a
    → Sound top (mark_random_access random a)
marked-Sound true top a s = same-Sound refl refl refl refl s
marked-Sound false top a s = s

pub begin_vcl-Keeps : (vcl random : Bool) → Keeps (begin_vcl vcl random)
unfolding begin_vcl
begin_vcl-Keeps vcl random =
    >>-Keeps (change-Keeps _ (marked-Sound (vcl && random))) (inject-Keeps vcl)

pub note_vcl-Keeps : (vcl : Bool) → Keeps (change (note_vcl vcl))
note_vcl-Keeps vcl = change-Keeps _ (λ top a s. same-Sound refl refl refl refl s)

pub append_nal-Keeps : (nal : List ℕ) (vcl : Bool) → Keeps (append_nal nal vcl)
unfolding append_nal
append_nal-Keeps nal vcl = record {
  keeps = λ top a s.
      (>>-Keeps
          (>>-Keeps
            (>>-Keeps
              (>>-Keeps (begin_vcl-Keeps vcl (nal_is_random_access a.codec nal))
                (observe_nal-Keeps nal))
              append_start_code-Keeps)
            (append_bytes-Keeps nal))
          (note_vcl-Keeps vcl)).keeps
        top a s;
}

pub discard-Sound : {top : Session} {a : Assembler} → Sound top a → Sound top (discard_incomplete a)
unfolding discard_incomplete
discard-Sound s = record { limit = s.limit; bound = omega arith; track = s.track; sized = s.sized }
