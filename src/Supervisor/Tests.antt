-- ===== src/Supervisor/Tests.antt =====
-- Concrete runs of src/supervisor.rs.
use camera_adapter.Base.{ℕ, ◌≤◌, ◌≡◌, refl, true, List, [], ◌∷◌, arith}
use camera_adapter.Supervisor.{
  CameraLifecycleState, connecting, online, degraded, backoff, stopped, new_policy, BackoffPolicy,
  transient, new, transition, delay,
}
use camera_adapter.Supervisor.Lifecycle.{run, run-new-HasSession, HasSession}
use camera_adapter.Supervisor.Backoff.{delay_bounds}

-- A camera that connects, degrades, recovers, drops and connects again, with one illegal request.
abbrev flapping : List CameraLifecycleState
flapping = online ∷ degraded ∷ online ∷ stopped ∷ backoff ∷ connecting ∷ online ∷ []

flapping_generation : (run (new true) flapping).session_generation ≡ 2
unfolding run transition new
flapping_generation = refl

run-new-HasSession_example : HasSession (run (new true) flapping)
run-new-HasSession_example = run-new-HasSession true flapping

abbrev policy : BackoffPolicy
policy = record { minimum = 1000000000; maximum = 60000000000 }

abbrev flat_digest : List ℕ → List ℕ
flat_digest key = 255 ∷ 255 ∷ []

delay_bounds_example : 1000000000 ≤ delay flat_digest policy (97 ∷ []) 7 transient 3
delay_bounds_example =
    (delay_bounds flat_digest 1000000000 60000000000 policy (97 ∷ []) 7 3
      (unfold new_policy in refl) (omega arith)).0
