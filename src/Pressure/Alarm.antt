-- ===== src/Pressure/Alarm.antt =====
-- The alarm of src/runtime.rs over a sequence of assessments, as a listener of its notices sees it, and the
-- root that src/storage_pressure.rs selects for it.
use camera_adapter.Base.{
  ℕ, ◌≡◌, refl, ap, ◌∙◌, ◌≢◌, ◌⊎◌, inl, inr, Bool, true, false, not, ◌||◌, Option, none, some, List,
  [], ◌∷◌, ◌++◌, arith, if◌then◌else◌, eq_iff, Bool-cases,
}
use camera_adapter.Pressure.{
  RootPressure, unavailable, StoragePressureSnapshot, rejects_new_captures, pressure_rank, rank_leb,
  alarm_root, StorageAlarmContext, StorageAlarmTransition, raise, clear, context_eq, number_eq,
  alarm_after, alarm_context, transition_alarm,
}

number_eq-path : (a b : Option ℕ) → number_eq a b ≡ true → a ≡ b
number_eq-path none none h = refl
number_eq-path none (some b) h = cc
number_eq-path (some a) none h = cc
number_eq-path (some a) (some b) h = ground arith

number_eq_self : (a : Option ℕ) → number_eq a a ≡ true
number_eq_self none = refl
number_eq_self (some a) = ground arith

context_eq-path : (a b : StorageAlarmContext) → context_eq a b ≡ true → a ≡ b
context_eq-path a b h = ground (
  arith,
  eq_iff a.root b.root,
  number_eq-path a.free_bytes b.free_bytes,
  number_eq-path a.free_percent b.free_percent,
)

context_eq_self : (a : StorageAlarmContext) → context_eq a a ≡ true
context_eq_self a =
    ground (arith, eq_iff a.root a.root, number_eq_self a.free_bytes, number_eq_self a.free_percent)

-- What a listener shows after a notice, and after a sequence of them.
abbrev pub heard : StorageAlarmTransition → Option StorageAlarmContext
heard (raise context) = some context
heard (clear context) = none

unfoldable pub listened :
    Option StorageAlarmContext → List StorageAlarmTransition → Option StorageAlarmContext
listened shown [] = shown
listened shown (notice ∷ rest) = listened (heard notice) rest

abbrev noticed :
    Option StorageAlarmTransition → List StorageAlarmTransition → List StorageAlarmTransition
noticed none rest = rest
noticed (some notice) rest = notice ∷ rest

-- The notices of the alarm over a sequence of assessments.
unfoldable pub alarms :
    Option StorageAlarmContext → List StoragePressureSnapshot → List StorageAlarmTransition
unfolding transition_alarm
alarms active [] = []
alarms active (s ∷ rest) =
    let step = transition_alarm active s in noticed step.1 (alarms step.0 rest)

-- Each notice changes what the listener shows.
unfoldable pub Effective : Option StorageAlarmContext → List StorageAlarmTransition → Type 0
Effective shown [] = Unit
Effective shown (notice ∷ rest) = (heard notice ≢ shown) × Effective (heard notice) rest

listened-noticed :
    (active next : Option StorageAlarmContext) (rest : List StorageAlarmTransition)
    → listened active (noticed (alarm_after active next).1 rest)
      ≡ listened (alarm_after active next).0 rest
unfolding listened
listened-noticed none none rest = refl
listened-noticed none (some next) rest = refl
listened-noticed (some previous) none rest = refl
listened-noticed (some previous) (some next) rest = elim (Bool-cases (context_eq previous next)) [
  | inl same ↦ rw same refl
  | inr other ↦ rw other refl
]

alarm_after-active : (active next : Option StorageAlarmContext) → (alarm_after active next).0 ≡ next
alarm_after-active none none = refl
alarm_after-active none (some next) = refl
alarm_after-active (some previous) none = refl
alarm_after-active (some previous) (some next) = elim (Bool-cases (context_eq previous next)) [
  | inl same ↦ rw same (ap some (context_eq-path previous next same))
  | inr other ↦ rw other refl
]

other_contexts : (a b : StorageAlarmContext) → context_eq a b ≡ false → some b ≢ some a
other_contexts a b other e =
    let same : b ≡ a = cc in
    let equal : context_eq a b ≡ true = ap (context_eq a) same ∙ context_eq_self a in cc

abbrev chosen :
    Bool
    → StorageAlarmContext
    → StorageAlarmContext
    → Option StorageAlarmContext × Option StorageAlarmTransition
chosen c previous next = if c then (some previous, none) else (some next, some (raise next))

if-Effective :
    (c : Bool) (previous next : StorageAlarmContext) (rest : List StorageAlarmTransition)
    → (c ≡ false → some next ≢ some previous)
    → Effective (chosen c previous next).0 rest
    → Effective (some previous) (noticed (chosen c previous next).1 rest)
unfolding Effective
if-Effective true previous next rest differ h = h
if-Effective false previous next rest differ h = (differ refl, h)

noticed-Effective :
    (active next : Option StorageAlarmContext) (rest : List StorageAlarmTransition)
    → Effective (alarm_after active next).0 rest
    → Effective active (noticed (alarm_after active next).1 rest)
unfolding Effective
noticed-Effective none none rest h = h
noticed-Effective none (some next) rest h = (λ e. cc, h)
noticed-Effective (some previous) none rest h = (λ e. cc, h)
noticed-Effective (some previous) (some next) rest h =
    if-Effective (context_eq previous next) previous next rest (other_contexts previous next) h

-- Whatever the monitor reports in whatever order, a listener that applies the notices shows the alarm of the
-- last report, or none where that has none, and each notice changes what it shows.
pub alarms-alarm_context :
    (active : Option StorageAlarmContext) (earlier : List StoragePressureSnapshot)
    (last : StoragePressureSnapshot)
    → (listened active (alarms active (earlier ++ (last ∷ []))) ≡ alarm_context last)
      × Effective active (alarms active (earlier ++ (last ∷ [])))
unfolding alarms transition_alarm listened Effective
alarms-alarm_context active [] last = (
  listened-noticed active (alarm_context last) [] ∙ alarm_after-active active (alarm_context last),
  noticed-Effective active (alarm_context last) [] tt,
)
alarms-alarm_context active (s ∷ rest) last =
    let step = alarm_after active (alarm_context s) in
    let later = alarms-alarm_context step.0 rest last in
    (
      listened-noticed active (alarm_context s) _ ∙ later.0,
      noticed-Effective active (alarm_context s) _ later.1,
    )

-- What an alarm may name: an unavailable root of the assessment, of the worst rank among those.
unfoldable pub IsWorst : StoragePressureSnapshot → Option RootPressure → Type 0
IsWorst s none = rejects_new_captures s ≡ false
IsWorst s (some r) =
    ((r ≡ s.output) ⊎ (r ≡ s.state))
    × (unavailable r ≡ true)
    × ((not (unavailable s.output) || rank_leb (pressure_rank r) (pressure_rank s.output)) ≡ true)
    × ((not (unavailable s.state) || rank_leb (pressure_rank r) (pressure_rank s.state)) ≡ true)

rank_leb_self : (p : ℕ × ℕ × ℕ) → rank_leb p p ≡ true
rank_leb_self p = ground arith

rank_leb_total : (p q : ℕ × ℕ × ℕ) → rank_leb p q ≡ false → rank_leb q p ≡ true
rank_leb_total p q h = ground arith

covers : (u b : Bool) → b ≡ true → (not u || b) ≡ true
covers true b h = h
covers false b h = refl

spares : (u b : Bool) → u ≡ false → (not u || b) ≡ true
spares true b h = cc
spares false b h = refl

selected-IsWorst :
    (s : StoragePressureSnapshot) (output_off state_off state_first : Bool)
    → unavailable s.output ≡ output_off
    → unavailable s.state ≡ state_off
    → rank_leb (pressure_rank s.state) (pressure_rank s.output) ≡ state_first
    → IsWorst s (
        if output_off
        then (if state_off
            then (if state_first then some s.state else some s.output)
            else some s.output)
        else (if state_off then some s.state else none))
unfolding IsWorst
selected-IsWorst s true true true a b c =
    (inr refl, b, covers _ _ c, covers _ _ (rank_leb_self (pressure_rank s.state)))
selected-IsWorst s true true false a b c = (
  inl refl,
  a,
  covers _ _ (rank_leb_self (pressure_rank s.output)),
  covers (unavailable s.state) _
      (rank_leb_total (pressure_rank s.state) (pressure_rank s.output) c),
)
selected-IsWorst s true false first a b c =
    (inl refl, a, covers _ _ (rank_leb_self (pressure_rank s.output)), spares _ _ b)
selected-IsWorst s false true first a b c =
    (inr refl, b, spares _ _ a, covers _ _ (rank_leb_self (pressure_rank s.state)))
selected-IsWorst s false false first a b c = ground arith

-- The alarm names an unavailable root, and of two unavailable ones one with the worst rank: an unreadable
-- root first, then the lowest free percentage, then the fewest free bytes. Without an unavailable root
-- there is no alarm.
pub alarm_root-IsWorst : (s : StoragePressureSnapshot) → IsWorst s (alarm_root s)
unfolding alarm_root
alarm_root-IsWorst s =
    selected-IsWorst s (unavailable s.output) (unavailable s.state) _ refl refl refl
