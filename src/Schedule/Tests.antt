-- ===== src/Schedule/Tests.antt =====
-- Evaluations of src/scheduler.rs at concrete inputs: a schedule that fires every ten seconds.
use camera_adapter.Base.{
  ℕ, ◌+◌, ◌*◌, ◌/◌, ◌≡◌, refl, true, false, [], ◌∷◌, arith, if◌then◌else◌, ◌==◌,
}
use camera_adapter.Error.{Result, ok}
use camera_adapter.Schedule.{
  Cron, SchedulePlan, misfire_skip, overlap_skip, ScheduleOccurrence, not_due, admit, scan, decide,
  evaluate, consumed_through,
}
use camera_adapter.Schedule.Decisions.{evaluate_again}
use camera_adapter.Schedule.Search.{Searches, IsCron}

abbrev at_ten : ℕ → ScheduleOccurrence
at_ten after =
    let time = (after / 10 + 1) * 10 in
    record { intended_fire_time = time; admit_at = time + 1; jitter = 1 }

abbrev next : ℕ → Result ScheduleOccurrence
next after = ok (at_ten after)

abbrev plan : SchedulePlan
plan = record {
  scope_token = 99 ∷ [];
  schedule_id = 115 ∷ [];
  jitter_seconds = 5;
  misfire_policy = misfire_skip;
  overlap_policy = overlap_skip;
}

first : evaluate next plan 0 25 100 false ≡ ok (admit (at_ten 10) 2)
unfolding evaluate scan decide
first = refl

evaluate_again_example : evaluate next plan 20 25 100 true ≡ ok not_due
evaluate_again_example =
    evaluate_again next plan 0 25 100 20 false true (admit (at_ten 10) 2) (omega arith) first
      (unfold consumed_through in refl)

-- The second candidate is the later reading of an ambiguous local time.
abbrev cron : Cron
cron = record {
  find_next_occurrence = λ t. ok (t + 10);
  is_time_matching = λ t. ok true;
  is_earlier_or_unambiguous = λ t. if t == 10 then false else true;
  sha256 = λ bytes. 1 ∷ 2 ∷ 3 ∷ 4 ∷ 5 ∷ 6 ∷ 7 ∷ 8 ∷ [];
  rfc3339 = λ t. 48 ∷ [];
}

-- It promises nothing that does not hold: every instant matches, and the search is one step.
abbrev every_instant : Cron
every_instant = record cron { find_next_occurrence = λ t. ok (t + 1) }

abbrev searches : (cursor : ℕ) → Searches every_instant cursor
searches cursor = record {
  candidate = cursor + 1;
  found = refl;
  forward = omega arith;
  skips = λ t ahead before. absurd (omega arith);
}

abbrev laws : IsCron every_instant
laws = record { searches = searches; answers = λ t. (true, refl) }
