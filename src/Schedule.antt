-- ===== src/Schedule.antt =====
-- The evaluation of one compiled schedule in src/scheduler.rs. Instants and durations are nanoseconds
-- since the epoch. The cron and timezone libraries answer through the interface `Cron`, SHA-256 and the
-- text of an instant through functions, and texts are their bytes.
pub mod Decisions
pub mod Search
mod Tests
use camera_adapter.Base.{
  ℕ, zero, suc, ◌+◌, ◌*◌, ◌%◌, List, [], ◌∷◌, ◌++◌, Bool, true, false, ◌&&◌, Option, none, some,
  ltb, if◌then◌else◌, take,
}
use camera_adapter.Error.{CameraError, catalog, Result, ok, err, ◌>>=◌, ◌>>◌, reject_if}

pub data MisfirePolicy : Type 0 where
  misfire_skip misfire_coalesce : MisfirePolicy

pub data OverlapPolicy : Type 0 where
  overlap_skip overlap_queue : OverlapPolicy

-- The library calls of one plan: the next candidate strictly after an instant, whether the expression
-- matches it, and whether it is the earlier or only local reading of its wall-clock time.
pub record Cron : Type 0 where
  pub find_next_occurrence : ℕ → Result ℕ
  pub is_time_matching : ℕ → Result Bool
  pub is_earlier_or_unambiguous : ℕ → Bool
  pub sha256 : List ℕ → List ℕ
  pub rfc3339 : ℕ → List ℕ

pub record SchedulePlan : Type 0 where
  pub scope_token : List ℕ
  pub schedule_id : List ℕ
  pub jitter_seconds : ℕ
  pub misfire_policy : MisfirePolicy
  pub overlap_policy : OverlapPolicy

pub record ScheduleOccurrence : Type 0 where
  pub intended_fire_time : ℕ
  pub admit_at : ℕ
  pub jitter : ℕ

pub data ScheduleDecision : Type 0 where
  not_due : ScheduleDecision
  admit skipped_misfire skipped_overlap : ScheduleOccurrence → ℕ → ScheduleDecision

pub consumed_through : ScheduleDecision → Option ℕ
consumed_through not_due = none
consumed_through (admit occurrence consumed) = some occurrence.intended_fire_time
consumed_through (skipped_misfire latest consumed) = some latest.intended_fire_time
consumed_through (skipped_overlap occurrence consumed) = some occurrence.intended_fire_time

abbrev pub max_occurrences_per_evaluation : ℕ
max_occurrences_per_evaluation = 10000

-- `u64::from_be_bytes`.
pub from_be_bytes : ℕ → List ℕ → ℕ
from_be_bytes value [] = value
from_be_bytes value (b ∷ bs) = from_be_bytes (value * 256 + b) bs

pub stable_jitter_seconds : Cron → SchedulePlan → ℕ → ℕ
unfolding from_be_bytes
stable_jitter_seconds c p intended =
    let key = p.scope_token ++ (0 ∷ p.schedule_id) ++ (0 ∷ c.rfc3339 intended) in
    from_be_bytes 0 (take 8 (c.sha256 key)) % (p.jitter_seconds + 1)

pub occurrence : Cron → SchedulePlan → ℕ → ScheduleOccurrence
unfolding stable_jitter_seconds
occurrence c p intended =
    let jitter = stable_jitter_seconds c p intended * 1000000000 in
    record { intended_fire_time = intended; admit_at = intended + jitter; jitter = jitter }

-- The loop of `next_after`, with a number of candidates to try; `none` is the loop still running.
pub next_after : Cron → SchedulePlan → ℕ → ℕ → Option (Result ScheduleOccurrence)
unfolding occurrence
next_after c p zero cursor = none
next_after c p (suc tries) cursor = elim (c.find_next_occurrence cursor) [
  | err e ↦ some (err e)
  | ok candidate ↦
      let rest = next_after c p tries candidate in
      elim (c.is_time_matching candidate) [
        | err e ↦ some (err e)
        | ok matches ↦
            if matches && c.is_earlier_or_unambiguous candidate
            then some (ok (occurrence c p candidate))
            else rest
      ]
]

-- The loop of `evaluate` over the occurrences that are due, with how many more it may consume.
pub scan :
    (ℕ → Result ScheduleOccurrence)
    → ℕ
    → ℕ
    → ℕ
    → Option ScheduleOccurrence
    → ℕ
    → Result (Option ScheduleOccurrence × ℕ)
scan next now zero cursor latest consumed =
    err (catalog "scheduler evaluation exceeded its bounded occurrence scan")
scan next now (suc remaining) cursor latest consumed = elim (next cursor) [
  | err e ↦ err e
  | ok o ↦
      let rest = scan next now remaining o.intended_fire_time (some o) (consumed + 1) in
      if ltb now o.admit_at then ok (latest, consumed) else rest
]

abbrev pub skips_misfire : MisfirePolicy → Bool
skips_misfire misfire_skip = true
skips_misfire misfire_coalesce = false

abbrev pub skips_on_overlap : OverlapPolicy → Bool
skips_on_overlap overlap_skip = true
skips_on_overlap overlap_queue = false

pub decide : SchedulePlan → ℕ → ℕ → Bool → Option ScheduleOccurrence → ℕ → ScheduleDecision
decide p now grace has_nonterminal_overlap none consumed = not_due
decide p now grace has_nonterminal_overlap (some latest) consumed =
    if ltb (latest.admit_at + grace) now && skips_misfire p.misfire_policy
    then skipped_misfire latest consumed
    else if has_nonterminal_overlap && skips_on_overlap p.overlap_policy
    then skipped_overlap latest consumed
    else admit latest consumed

-- The largest duration of chrono, `i64::MAX` milliseconds.
abbrev pub largest_duration : ℕ
largest_duration = 9223372036854775807000000

-- `evaluate`, with the plan's `next_after`.
pub evaluate :
    (ℕ → Result ScheduleOccurrence) → SchedulePlan → ℕ → ℕ → ℕ → Bool → Result ScheduleDecision
unfolding scan decide
evaluate next p last_consumed now misfire_grace has_nonterminal_overlap = do
  reject_if (ltb largest_duration misfire_grace) (catalog "misfire grace is too large")
  found ← scan next now max_occurrences_per_evaluation last_consumed none 0
  ok (decide p now misfire_grace has_nonterminal_overlap found.0 found.1)
