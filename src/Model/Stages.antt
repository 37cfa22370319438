-- ===== src/Model/Stages.antt =====
-- Histories along the stage graph of src/model.rs.
use camera_adapter.Base.{ℕ, suc, ◌+◌, ◌≤◌, ◌<◌, ◌≡◌, true, arith}
use camera_adapter.Model.{
  JobState, accepted, queued, acquiring, encoding, persisting, can_transition_to,
}

-- Histories of permitted transitions, with their length.
pub data History (s : JobState) : JobState → ℕ → Type 0 where
  start : History s s 0
  step_to :
      {t u : JobState} {n : ℕ} → History s t n → can_transition_to t u ≡ true → History s u (suc n)

-- How far a state stands along the pipeline.
abbrev stage : JobState → ℕ
stage accepted = 0
stage queued = 1
stage acquiring = 2
stage encoding = 3
stage persisting = 4
stage _ = 5

stage-lt : (s t : JobState) → can_transition_to s t ≡ true → stage s < stage t
unfolding can_transition_to
stage-lt s t h = ground arith

stage-le-five : (s : JobState) → stage s ≤ 5
stage-le-five s = ground arith

History-stage : {s t : JobState} {n : ℕ} → History s t n → stage s + n ≤ stage t
History-stage start = omega arith
History-stage (step_to {t} {u} h e) = omega (arith, History-stage h, stage-lt t u e)

-- A job makes at most five transitions in its life.
pub History-bounded : (s t : JobState) (n : ℕ) → History s t n → n ≤ 5
History-bounded s t n h = omega (arith, History-stage h, stage-le-five t)
