-- ===== src/Rtsp/Assembler/Growth.antt =====
-- The calls of the assembler of src/backend/rtsp.rs that only put bytes behind those of the unit.
use mathlib.Core.List.{append_assoc, append-nil}
use camera_adapter.Base.{
  ℕ, ◌≡◌, refl, ap, sym, ◌∙◌, subst, inl, inr, Bool, true, false, ◌⊎◌, Option, none, some, List, [],
  ◌∷◌, ◌++◌, ltb, if◌then◌else◌, Bool-cases,
}
use camera_adapter.Error.{CameraError, Result, ok, err}
use camera_adapter.Rtsp.Assembler.{
  Assembler, Step, done, stop, go_on, ◌>>◌, change, append_bytes, extend, start_code,
  append_start_code, parse_dimensions, note_dimensions, is_parameter_set, observe_nal,
  append_bootstrap, size_overflow, oversized,
}

-- The second state is the first with `more` behind its bytes; what it says of the unit is the same.
pub record Grown (a : Assembler) (more : List ℕ) (b : Assembler) : Type 0 where
  pub bytes : b.bytes ≡ a.bytes ++ more
  pub injected : b.bootstrap_injected_for_unit ≡ a.bootstrap_injected_for_unit
  pub random : b.has_random_access ≡ a.has_random_access
  pub nals : b.bootstrap_nals ≡ a.bootstrap_nals

pub record Grows (m : Step (Unit {0})) (more : List ℕ) : Type 0 where
  pub grown : (a b : Assembler) → m a ≡ (b, ok tt) → Grown a more b

-- A call that succeeds, and the state that it leaves.
pub Step-cases :
    (r : Assembler × Result (Unit {0}))
    → ((b : Assembler) × (e : CameraError) × (r ≡ (b, err e)))
      ⊎ ((b : Assembler) × (r ≡ (b, ok tt)))
Step-cases (b, ok tt) = inr (b, refl)
Step-cases (b, err e) = inl (b, e, refl)

pub go_on-ok :
    (r : Assembler × Result (Unit {0})) (rest : Step (Unit {0})) (b : Assembler)
    → go_on r rest ≡ (b, ok tt)
    → (c : Assembler) × (r ≡ (c, ok tt)) × (rest c ≡ (b, ok tt))
go_on-ok (c, ok tt) rest b h = (c, refl, h)
go_on-ok (c, err e) rest b h = let bad : err e ≡ ok tt = ap (λ r. r.1) h in cc

Grown-trans :
    {a b c : Assembler} {xs ys : List ℕ} → Grown a xs b → Grown b ys c → Grown a (xs ++ ys) c
Grown-trans {a} {xs} {ys} p q = record {
  bytes = q.bytes ∙ ap (λ zs. zs ++ ys) p.bytes ∙ append_assoc a.bytes xs ys;
  injected = q.injected ∙ p.injected;
  random = q.random ∙ p.random;
  nals = q.nals ∙ p.nals;
}

pub >>-Grows :
    {m k : Step (Unit {0})} {xs ys : List ℕ} → Grows m xs → Grows k ys → Grows (m >> k) (xs ++ ys)
>>-Grows {m} {k} hm hk = record {
  grown = λ a b e.
      let (c, first, second) = go_on-ok (m a) k b e in
      Grown-trans (hm.grown a c first) (hk.grown c b second);
}

pub same-Grown :
    {a b : Assembler}
    → b.bytes ≡ a.bytes
    → b.bootstrap_injected_for_unit ≡ a.bootstrap_injected_for_unit
    → b.has_random_access ≡ a.has_random_access
    → b.bootstrap_nals ≡ a.bootstrap_nals
    → Grown a [] b
same-Grown {a} eb ei er en = record {
  bytes = eb ∙ sym (append-nil a.bytes);
  injected = ei;
  random = er;
  nals = en;
}

-- The state that a successful call leaves is the one that it returned.
pub left_by :
    {a b : Assembler} {more : List ℕ} (r : Assembler × Result (Unit {0}))
    → Grown a more r.0
    → r ≡ (b, ok tt)
    → Grown a more b
left_by {a} {more} r g e = subst (λ c. Grown a more c) (ap (λ s. s.0) e) g

pub done-Grows : Grows done []
done-Grows = record { grown = λ a b e. left_by (done a) (same-Grown refl refl refl refl) e }

pub stop-Grows : (x : CameraError) (more : List ℕ) → Grows (stop x) more
stop-Grows x more = record { grown = λ a b e. let bad : err x ≡ ok tt = ap (λ r. r.1) e in cc }

pub change-Grows :
    (f : Assembler → Assembler) → ((a : Assembler) → Grown a [] (f a)) → Grows (change f) []
change-Grows f h = record { grown = λ a b e. left_by (change f a) (h a) e }

pub if-Grows :
    (c : Bool) {m k : Step (Unit {0})} {more : List ℕ}
    → Grows m more
    → Grows k more
    → Grows (if c then m else k) more
if-Grows true hm hk = hm
if-Grows false hm hk = hk

extend-Grows : (o : Option ℕ) (more : List ℕ) → Grows (extend o more) more
extend-Grows none more = record { grown = λ a b e. (stop-Grows size_overflow more).grown a b e }
extend-Grows (some n) more = record {
  grown = λ a b e. elim (Bool-cases (ltb a.maximum_bytes n)) [
    | inl over ↦ (stop-Grows oversized more).grown a b (sym (chosen a over) ∙ e)
    | inr fits ↦
        left_by (record a { bytes = a.bytes ++ more }, ok tt)
          (record { bytes = refl; injected = refl; random = refl; nals = refl })
          (sym (chosen a fits) ∙ e)
  ];
}
  where
    chosen :
        (a : Assembler) {c : Bool}
        → ltb a.maximum_bytes n ≡ c
        → extend (some n) more a
          ≡ (if c then (a, err oversized) else (record a { bytes = a.bytes ++ more }, ok tt))
    chosen a e =
        ap (λ c. if c then (a, err oversized) else (record a { bytes = a.bytes ++ more }, ok tt)) e

pub append_bytes-Grows : (more : List ℕ) → Grows (append_bytes more) more
unfolding append_bytes
append_bytes-Grows more = record { grown = λ a b e. (extend-Grows _ more).grown a b e }

pub append_start_code-Grows : Grows append_start_code start_code
unfolding append_start_code
append_start_code-Grows = append_bytes-Grows start_code

noted-Grows : (r : Result (ℕ × ℕ)) → Grows (note_dimensions r) []
noted-Grows (ok d) = record { grown = λ a b e. left_by _ (same-Grown refl refl refl refl) e }
noted-Grows (err x) = record { grown = λ a b e. (stop-Grows x []).grown a b e }

-- A call that looks at its state first.
if_at-Grown :
    {a b : Assembler} {more : List ℕ} (c : Bool) (m k : Step (Unit {0}))
    → Grows m more
    → Grows k more
    → (if c then m a else k a) ≡ (b, ok tt)
    → Grown a more b
if_at-Grown {a} {b} true m k hm hk e = hm.grown a b e
if_at-Grown {a} {b} false m k hm hk e = hk.grown a b e

pub observe_nal-Grows : (nal : List ℕ) → Grows (observe_nal nal) []
unfolding observe_nal
observe_nal-Grows nal = record {
  grown = λ a b e.
      if_at-Grown (is_parameter_set a.codec nal) (note_dimensions (parse_dimensions a.codec nal))
        done (noted-Grows (parse_dimensions a.codec nal)) done-Grows e;
}

-- The parameter sets as they stand in a unit.
unfoldable pub annex : List (List ℕ) → List ℕ
annex [] = []
annex (nal ∷ rest) = (start_code ++ nal) ++ annex rest

pub append_bootstrap-Grows : (nals : List (List ℕ)) → Grows (append_bootstrap nals) (annex nals)
unfolding append_bootstrap annex
append_bootstrap-Grows [] = done-Grows
append_bootstrap-Grows (nal ∷ rest) =
    >>-Grows
      (>>-Grows (>>-Grows (observe_nal-Grows nal) append_start_code-Grows) (append_bytes-Grows nal))
      (append_bootstrap-Grows rest)
