-- ===== src/Schedule/Decisions.antt =====
-- Repeated evaluations of src/scheduler.rs, the search of an occurrence, and its jitter.
use camera_adapter.Base.{
  ℕ, zero, suc, ◌+◌, ◌*◌, ◌%◌, ◌≤◌, ◌≡◌, refl, subst, sym, ap, ◌∙◌, inl, inr, Bool, true, false,
  ◌&&◌, Option, none, some, arith, ltb, Bool-cases,
}
use native.Mathlib.Nat.{mod-lt}
use camera_adapter.Error.{CameraError, Result, ok, err, Result-cases}
use camera_adapter.Schedule.{
  Cron, SchedulePlan, ScheduleOccurrence, ScheduleDecision, not_due, consumed_through,
  max_occurrences_per_evaluation, stable_jitter_seconds, occurrence, scan, decide, skips_misfire,
  skips_on_overlap, largest_duration, evaluate,
}

rem_bound : (x n : ℕ) → x % (n + 1) ≤ n
rem_bound x n = let below = mod-lt x {m = n + 1} (omega arith) in omega arith

-- The cursor is the last consumed occurrence.
abbrev Tracks : Option ScheduleOccurrence → ℕ → Type 0
Tracks none cursor = Unit
Tracks (some l) cursor = l.intended_fire_time ≡ cursor

-- The next occurrence after an instant is not due.
pub record Waiting (next : ℕ → Result ScheduleOccurrence) (now at : ℕ) : Type 0 where
  pub following : ScheduleOccurrence
  pub found : next at ≡ ok following
  pub later : ltb now following.admit_at ≡ true

ok-injective : (a b : Option ScheduleOccurrence × ℕ) → ok a ≡ ok b → a ≡ b
ok-injective a b h = ap (λ r. elim r [ ok x ↦ x | err e ↦ a ]) h

module _ (next : ℕ → Result ScheduleOccurrence) (now : ℕ) where
  scan_failed :
      (remaining cursor consumed : ℕ) (latest : Option ScheduleOccurrence) (e : CameraError)
      → next cursor ≡ err e
      → scan next now (suc remaining) cursor latest consumed ≡ err e
  unfolding scan
  scan_failed remaining cursor consumed latest e failed = rw (scan, failed) refl

  scan_later :
      (remaining cursor consumed : ℕ) (latest : Option ScheduleOccurrence) (o : ScheduleOccurrence)
      → next cursor ≡ ok o
      → ltb now o.admit_at ≡ true
      → scan next now (suc remaining) cursor latest consumed ≡ ok (latest, consumed)
  unfolding scan
  scan_later remaining cursor consumed latest o found later = rw (scan, found, later) refl

  scan_due :
      (remaining cursor consumed : ℕ) (latest : Option ScheduleOccurrence) (o : ScheduleOccurrence)
      → next cursor ≡ ok o
      → ltb now o.admit_at ≡ false
      → scan next now (suc remaining) cursor latest consumed
        ≡ scan next now remaining o.intended_fire_time (some o) (consumed + 1)
  unfolding scan
  scan_due remaining cursor consumed latest o found due = rw (scan, found, due) refl

  pub scan_waits :
      (remaining cursor consumed n : ℕ) (latest : Option ScheduleOccurrence)
      (l : ScheduleOccurrence)
      → Tracks latest cursor
      → scan next now remaining cursor latest consumed ≡ ok (some l, n)
      → Waiting next now l.intended_fire_time × (n ≤ consumed + remaining)
  unfolding scan
  scan_waits zero cursor consumed n latest l tracks h = cc
  scan_waits (suc remaining) cursor consumed n latest l tracks h =
      elim (Result-cases (next cursor)) [
        | inl (e, failed) ↦
            let stuck = sym (scan_failed remaining cursor consumed latest e failed) ∙ h in cc
        | inr (o, found) ↦ elim (Bool-cases (ltb now o.admit_at)) [
          | inl later ↦
              let pair =
                ok-injective (latest, consumed) (some l, n)
                  (sym (scan_later remaining cursor consumed latest o found later) ∙ h) in
              let same : latest ≡ some l = ap (λ q. q.0) pair in
              let at : l.intended_fire_time ≡ cursor = subst (λ q. Tracks q cursor) same tracks in
              (
                record { following = o; found = rw at found; later = later },
                omega (arith, ap (λ q. q.1) pair),
              )
          | inr due ↦
              let (waiting, bound) =
                scan_waits remaining o.intended_fire_time (consumed + 1) n (some o) l refl
                  (sym (scan_due remaining cursor consumed latest o found due) ∙ h) in
              (waiting, omega (arith, bound))
        ]
      ]

decide_consumed :
    (p : SchedulePlan) (now grace : ℕ) (overlap : Bool) (l : ScheduleOccurrence) (n : ℕ)
    → consumed_through (decide p now grace overlap (some l) n) ≡ some l.intended_fire_time
unfolding decide consumed_through
decide_consumed p now grace overlap l n =
    elim (Bool-cases (ltb (l.admit_at + grace) now && skips_misfire p.misfire_policy)) [
      | inl late ↦ rw (decide, late) refl
      | inr timely ↦ elim (Bool-cases (overlap && skips_on_overlap p.overlap_policy)) [
        | inl busy ↦ rw (decide, timely, busy) refl
        | inr free ↦ rw (decide, timely, free) refl
      ]
    ]

decide-none :
    (p : SchedulePlan) (now grace : ℕ) (overlap : Bool) (n : ℕ)
    → consumed_through (decide p now grace overlap none n) ≡ none
unfolding decide consumed_through
decide-none p now grace overlap n = refl

-- The occurrence that a decision consumes is the last one that the scan found.
decide_latest :
    (p : SchedulePlan) (now grace : ℕ) (overlap : Bool) (latest : Option ScheduleOccurrence)
    (n t : ℕ)
    → consumed_through (decide p now grace overlap latest n) ≡ some t
    → (l : ScheduleOccurrence) × (latest ≡ some l) × (l.intended_fire_time ≡ t)
decide_latest p now grace overlap none n t h =
    let nothing = sym (decide-none p now grace overlap n) ∙ h in cc
decide_latest p now grace overlap (some l) n t h =
    let same : some l.intended_fire_time ≡ some t =
      sym (decide_consumed p now grace overlap l n) ∙ h in
    (l, refl, ground (arith, same))

decide_nothing :
    (p : SchedulePlan) (now grace : ℕ) (overlap : Bool)
    → decide p now grace overlap none 0 ≡ not_due
unfolding decide
decide_nothing p now grace overlap = refl

evaluate_found :
    (next : ℕ → Result ScheduleOccurrence) (p : SchedulePlan) (last now grace : ℕ) (overlap : Bool)
    (found : Option ScheduleOccurrence × ℕ)
    → grace ≤ largest_duration
    → scan next now max_occurrences_per_evaluation last none 0 ≡ ok found
    → evaluate next p last now grace overlap ≡ ok (decide p now grace overlap found.0 found.1)
unfolding evaluate
evaluate_found next p last now grace overlap found fits scanned =
    let allowed : ltb largest_duration grace ≡ false = ground arith in
    rw (evaluate, allowed, scanned) refl

evaluate_failed :
    (next : ℕ → Result ScheduleOccurrence) (p : SchedulePlan) (last now grace : ℕ) (overlap : Bool)
    (e : CameraError)
    → grace ≤ largest_duration
    → scan next now max_occurrences_per_evaluation last none 0 ≡ err e
    → evaluate next p last now grace overlap ≡ err e
unfolding evaluate
evaluate_failed next p last now grace overlap e fits scanned =
    let allowed : ltb largest_duration grace ≡ false = ground arith in
    rw (evaluate, allowed, scanned) refl

decision-injective : (a b : ScheduleDecision) → ok a ≡ ok b → a ≡ b
decision-injective a b h = ap (λ r. elim r [ ok x ↦ x | err e ↦ a ]) h

-- Whatever a decision consumed, an evaluation at the same time that starts where the decision says that
-- it consumed to finds nothing due: no occurrence is admitted or skipped twice.
pub evaluate_again :
    (next : ℕ → Result ScheduleOccurrence) (p : SchedulePlan) (last now grace t : ℕ)
    (overlap later : Bool) (d : ScheduleDecision)
    → grace ≤ largest_duration
    → evaluate next p last now grace overlap ≡ ok d
    → consumed_through d ≡ some t
    → evaluate next p t now grace later ≡ ok not_due
evaluate_again next p last now grace t overlap later d fits first through =
    elim (Result-cases (scan next now max_occurrences_per_evaluation last none 0)) [
      | inl (e, failed) ↦
          let wrong = sym (evaluate_failed next p last now grace overlap e fits failed) ∙ first in
          cc
      | inr (found, scanned) ↦
          let same =
            decision-injective _ _
              (sym (evaluate_found next p last now grace overlap found fits scanned) ∙ first) in
          let (l, is_last, at) =
            decide_latest p now grace overlap found.0 found.1 t
              (ap consumed_through same ∙ through) in
          let found_last : scan next now max_occurrences_per_evaluation last none 0
              ≡ ok (some l, found.1) =
            subst (λ q. scan next now max_occurrences_per_evaluation last none 0 ≡ ok (q, found.1))
              is_last scanned in
          let (waiting, bound) =
            scan_waits next now max_occurrences_per_evaluation last 0 found.1 none l tt
              found_last in
          let again =
            scan_later next now 9999 t 0 none waiting.following
              (subst (λ q. next q ≡ ok waiting.following) at waiting.found) waiting.later in
          evaluate_found next p t now grace later (none, 0) fits again
          ∙ ap ok (decide_nothing p now grace later)
    ]

jitter_bound :
    (c : Cron) (p : SchedulePlan) (intended : ℕ)
    → stable_jitter_seconds c p intended ≤ p.jitter_seconds
unfolding stable_jitter_seconds
jitter_bound c p intended = rem_bound _ p.jitter_seconds

-- A plan admits an occurrence no earlier than its cron time and at most its configured jitter later,
-- whatever the digest.
pub occurrence_window :
    (c : Cron) (p : SchedulePlan) (intended : ℕ)
    → let o = occurrence c p intended in
      (intended ≤ o.admit_at) × (o.admit_at ≤ intended + p.jitter_seconds * 1000000000)
unfolding occurrence
occurrence_window c p intended =
    let short : stable_jitter_seconds c p intended ≤ p.jitter_seconds = jitter_bound c p intended in
    ground arith
