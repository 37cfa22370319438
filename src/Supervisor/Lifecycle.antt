-- ===== src/Supervisor/Lifecycle.antt =====
-- What holds of the lifecycle machine of src/supervisor.rs over any history of requests.
use camera_adapter.Base.{
  ℕ, ◌+◌, ◌≤◌, ◌<◌, ◌≡◌, ap, Bool, ◌&&◌, List, [], ◌∷◌, arith, length, if◌then◌else◌,
}
use camera_adapter.Base.Words.{u64_max}
use camera_adapter.Supervisor.{
  CameraLifecycleState, online, degraded, LifecycleMachine, can_transition_to, is_new_session,
  transition, new,
}

-- A history of requested states; a refused request leaves the machine as it was.
unfoldable pub run : LifecycleMachine → List CameraLifecycleState → LifecycleMachine
run m [] = m
run m (next ∷ rest) = run (transition m next).0 rest

-- The new sessions of a history, read off the graph alone.
unfoldable pub sessions : CameraLifecycleState → List CameraLifecycleState → ℕ
sessions s [] = 0
sessions s (next ∷ rest) =
    (if can_transition_to s next && is_new_session s next then 1 else 0)
    + sessions (if can_transition_to s next then next else s) rest

transition_step :
    (m : LifecycleMachine) (next : CameraLifecycleState)
    → m.session_generation < u64_max
    → ((transition m next).0.state ≡ (if can_transition_to m.state next then next else m.state))
      × ((transition m next).0.session_generation
          ≡ (if can_transition_to m.state next && is_new_session m.state next then 1 else 0)
            + m.session_generation)
unfolding transition
transition_step m next h = ground arith

one_at_most : (b : Bool) → (if b then 1 else 0) ≤ 1
one_at_most b = ground arith

-- While the counter has room, the generation counts exactly the accepted steps from `Connecting` to
-- `Online`: a refused request, a degradation and a recovery leave it alone.
pub run-sessions :
    (m : LifecycleMachine) (ns : List CameraLifecycleState)
    → m.session_generation + length ns ≤ u64_max
    → (run m ns).session_generation ≡ m.session_generation + sessions m.state ns
unfolding run sessions
run-sessions m [] h = omega arith
run-sessions m (next ∷ rest) h =
    let (state, generation) = transition_step m next (omega arith) in
    omega (
      arith,
      ap (λ s. sessions s rest) state,
      generation,
      run-sessions (transition m next).0 rest (
          grind
            (arith, one_at_most (can_transition_to m.state next && is_new_session m.state next))),
    )

-- A usable session has a generation of its own.
pub record HasSession (m : LifecycleMachine) : Type 0 where
  pub when_online : m.state ≡ online → 0 < m.session_generation
  pub when_degraded : m.state ≡ degraded → 0 < m.session_generation

transition-HasSession :
    (m : LifecycleMachine) (next : CameraLifecycleState)
    → HasSession m
    → HasSession (transition m next).0
unfolding transition
transition-HasSession m next h = ground arith

run-HasSession :
    (m : LifecycleMachine) (ns : List CameraLifecycleState) → HasSession m → HasSession (run m ns)
unfolding run
run-HasSession m [] h = h
run-HasSession m (next ∷ rest) h =
    run-HasSession (transition m next).0 rest (transition-HasSession m next h)

new-HasSession : (enabled : Bool) → HasSession (new enabled)
unfolding new
new-HasSession enabled = ground arith

-- After any history of a camera, enabled or not, a machine that is `Online` or `Degraded` has
-- established at least one session.
pub run-new-HasSession :
    (enabled : Bool) (ns : List CameraLifecycleState) → HasSession (run (new enabled) ns)
run-new-HasSession enabled ns = run-HasSession (new enabled) ns (new-HasSession enabled)
