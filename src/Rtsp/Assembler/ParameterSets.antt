-- ===== src/Rtsp/Assembler/ParameterSets.antt =====
-- The parameter sets of the track in front of a random-access point, in the assembler of
-- src/backend/rtsp.rs.
use mathlib.Core.List.{append_assoc, append-nil}
use camera_adapter.Base.{
  ℕ, ◌≡◌, refl, ap, sym, ◌∙◌, subst, inl, inr, Bool, true, false, not, ◌||◌, List, [], ◌∷◌, ◌++◌,
  arith, if◌then◌else◌, Bool-cases,
}
use camera_adapter.Error.{ok}
use camera_adapter.Rtsp.Assembler.{
  Assembler, Step, ◌>>◌, change, is_empty, append_bootstrap, set_injected,
  inject_bootstrap_before_vcl, mark_random_access, begin_vcl,
}
use camera_adapter.Rtsp.Assembler.Growth.{Grown, Grows, go_on-ok, annex, append_bootstrap-Grows}

-- The part stands somewhere in the whole.
pub record Contains (whole part : List ℕ) : Type 0 where
  pub before : List ℕ
  pub after : List ℕ
  pub split : whole ≡ before ++ (part ++ after)

-- A unit that is marked has the parameter sets in it.
pub record Carries (a : Assembler) : Type 0 where
  pub when_injected :
      a.bootstrap_injected_for_unit ≡ true → Contains a.bytes (annex a.bootstrap_nals)
  pub when_random : a.has_random_access ≡ true → Contains a.bytes (annex a.bootstrap_nals)

pub record Preserves (m : Step (Unit {0})) : Type 0 where
  pub holds : (a b : Assembler) → Carries a → m a ≡ (b, ok tt) → Carries b

longer : {whole part : List ℕ} (more : List ℕ) → Contains whole part → Contains (whole ++ more) part
longer {part} more c = record {
  before = c.before;
  after = c.after ++ more;
  split =
      ap (λ xs. xs ++ more) c.split
      ∙ append_assoc c.before (part ++ c.after) more
      ∙ ap (λ xs. c.before ++ xs) (append_assoc part c.after more);
}

Grown-Contains :
    {a b : Assembler} {more : List ℕ}
    → Grown a more b
    → Contains a.bytes (annex a.bootstrap_nals)
    → Contains b.bytes (annex b.bootstrap_nals)
Grown-Contains {a} {b} {more} g c =
    subst (λ nals. Contains b.bytes (annex nals)) (sym g.nals)
      (subst (λ xs. Contains xs (annex a.bootstrap_nals)) (sym g.bytes) (longer more c))

pub Grown-Carries : {a b : Assembler} {more : List ℕ} → Grown a more b → Carries a → Carries b
Grown-Carries g c = record {
  when_injected = λ e. Grown-Contains g (c.when_injected (sym g.injected ∙ e));
  when_random = λ e. Grown-Contains g (c.when_random (sym g.random ∙ e));
}

pub Grows-Preserves : {m : Step (Unit {0})} {more : List ℕ} → Grows m more → Preserves m
Grows-Preserves g = record { holds = λ a b c e. Grown-Carries (g.grown a b e) c }

pub >>-Preserves : {m k : Step (Unit {0})} → Preserves m → Preserves k → Preserves (m >> k)
>>-Preserves {m} {k} hm hk = record {
  holds = λ a b c e.
      let (d, first, second) = go_on-ok (m a) k b e in hk.holds d b (hm.holds a d c first) second;
}

at_end : (xs ys : List ℕ) {zs : List ℕ} → zs ≡ xs ++ ys → Contains zs ys
at_end xs ys e = record {
  before = xs;
  after = [];
  split = e ∙ ap (λ ws. xs ++ ws) (sym (append-nil ys));
}

emptied : (xs : List (List ℕ)) → is_empty xs ≡ true → xs ≡ []
emptied [] e = refl
emptied (x ∷ xs) e = cc

trivially : (xs : List ℕ) → Contains xs (annex [])
unfolding annex
trivially xs = record { before = []; after = xs; split = refl }

-- The whole of the parameter sets, put in just now.
injected-Carries :
    (a b : Assembler)
    → (append_bootstrap a.bootstrap_nals >> change set_injected) a ≡ (b, ok tt)
    → Carries b
injected-Carries a b e =
    let (c, first, second) =
      go_on-ok (append_bootstrap a.bootstrap_nals a) (change set_injected) b e in
    let g = (append_bootstrap-Grows a.bootstrap_nals).grown a c first in
    let there =
      subst (λ nals. Contains c.bytes (annex nals)) (sym g.nals) (at_end a.bytes _ g.bytes) in
    let carried : Carries (set_injected c) = record {
      when_injected = λ _. there;
      when_random = λ _. there;
    } in
    subst Carries (ap (λ r. r.0) second) carried

-- Without parameter sets there is nothing to carry.
none-Carries : (a : Assembler) → is_empty a.bootstrap_nals ≡ true → Carries a
none-Carries a e = record { when_injected = λ _. nothing; when_random = λ _. nothing }
  where
    nothing : Contains a.bytes (annex a.bootstrap_nals)
    nothing =
        subst (λ nals. Contains a.bytes (annex nals)) (sym (emptied a.bootstrap_nals e))
          (trivially a.bytes)

inject_at :
    (c : Bool) (a b : Assembler)
    → (c ≡ true → Carries a)
    → (if c then (a, ok tt) else (append_bootstrap a.bootstrap_nals >> change set_injected) a)
      ≡ (b, ok tt)
    → Carries b
inject_at true a b h e = subst Carries (ap (λ r. r.0) e) (h refl)
inject_at false a b h e = injected-Carries a b e

-- At a random-access point the parameter sets are armed again, so they are there already, or put in
-- now, or there are none.
armed-Carries :
    (a : Assembler)
    → Carries a
    → (not (not (is_empty a.bootstrap_nals)) || a.bootstrap_injected_for_unit) ≡ true
    → Carries (mark_random_access true a)
armed-Carries a c e = elim (Bool-cases (is_empty a.bootstrap_nals)) [
  | inl empty ↦ none-Carries (mark_random_access true a) empty
  | inr full ↦
      let injected : a.bootstrap_injected_for_unit ≡ true = ground (arith, full) in
      record {
        when_injected = λ _. c.when_injected injected;
        when_random = λ _. c.when_injected injected;
      }
]

pub begin_vcl-Preserves : (vcl random : Bool) → Preserves (begin_vcl vcl random)
unfolding begin_vcl inject_bootstrap_before_vcl
begin_vcl-Preserves false random = record { holds = λ a b c e. subst Carries (ap (λ r. r.0) e) c }
begin_vcl-Preserves true false = record {
  holds = λ a b c e.
      inject_at (not a.bootstrap_pending || a.bootstrap_injected_for_unit) a b (λ _. c) e;
}
begin_vcl-Preserves true true = record {
  holds = λ a b c e.
      inject_at (not (not (is_empty a.bootstrap_nals)) || a.bootstrap_injected_for_unit)
        (mark_random_access true a) b (armed-Carries a c) e;
}
