-- ===== src/Catalog/Job/Arbitration.antt =====
-- Sequences of transactions of src/catalog.rs on one row, and who announces the end.
use camera_adapter.Base.{
  ℕ, suc, ◌+◌, ◌≤◌, String, ◌≡◌, ◌≢◌, refl, true, false, ◌||◌, List, [], ◌∷◌, arith, if◌then◌else◌,
}
use camera_adapter.Model.{
  JobState, queued, acquiring, encoding, persisting, is_terminal, can_transition_to,
}
use camera_adapter.Model.Stages.{History, start, step_to, History-bounded}
use camera_adapter.Catalog.Types.{Json, TerminalWrite, PendingInstall, JobDeadlines, JobRecord}
use camera_adapter.Catalog.Writes.{same_state}
use camera_adapter.Catalog.Job.{
  reschedule_deadlines, queue_member, set_deadlines, set_state, set_started, set_installed,
  set_persisting, compare_and_set_state, begin_install, record_installed_artifact, begin_persisting,
  write_terminal, commit_terminal, cancel_job, interrupt_recovered,
}
use camera_adapter.Catalog.Job.Effects.{
  Effect, idle, stepped, rebased, reschedule_deadlines-Effect, queue_member-Effect, staged, began,
  installed, ended, wins, compare_and_set_state-Effect, begin_install-Effect,
  record_installed_artifact-Effect, begin_persisting-Effect, commit_terminal-Effect,
  cancel_job-Effect, interrupt_recovered-Effect,
}

-- A transaction on the row.
pub data Transaction (V : Type 0) : Type 0 where
  compares : JobState → JobState → ℕ → Transaction V
  reschedules : JobDeadlines → ℕ → Transaction V
  queues : JobState → List JobState → ℕ → Transaction V
  persists : PendingInstall V → Transaction V
  installs : ℕ → Transaction V
  records : String → ℕ → ℕ → Transaction V
  commits : TerminalWrite V → Transaction V
  cancels : TerminalWrite V → Transaction V
  interrupts : List JobState → TerminalWrite V → Transaction V

terminal-not-ready :
    (s : JobState) → (same_state s acquiring || same_state s encoding) ≡ true → is_terminal s ≢ true
unfolding is_terminal
terminal-not-ready s ready over = ground arith

terminal-not-queued : (s : JobState) → same_state s queued ≡ true → is_terminal s ≢ true
unfolding is_terminal
terminal-not-queued s here over = ground arith

terminal-not-persisting : (s : JobState) → same_state s persisting ≡ true → is_terminal s ≢ true
unfolding is_terminal
terminal-not-persisting s here over = ground arith

ready-persisting :
    (s : JobState)
    → (same_state s acquiring || same_state s encoding) ≡ true
    → can_transition_to s persisting ≡ true
unfolding can_transition_to
ready-persisting s ready = ground arith

module _ {V : Type 0} (J : Json V) where
  -- The row after one transaction, and whether it announces the end.
  unfoldable pub step : Transaction V → JobRecord V → JobRecord V × ℕ
  step (compares expected next at) job = ((compare_and_set_state expected next at job).0, 0)
  step (reschedules deadlines at) job = ((reschedule_deadlines deadlines at job).0, 0)
  step (queues group_state others at) job = ((queue_member group_state others at job).0, 0)
  step (persists p) job = ((begin_persisting J p job).0, 0)
  step (installs at) job = ((begin_install at job).0, 0)
  step (records sha256 bytes at) job = ((record_installed_artifact sha256 bytes at job).0, 0)
  step (commits w) job = let out = commit_terminal J w job in (out.0, wins J out.1)
  step (cancels w) job = let out = cancel_job J w job in (out.0, wins J out.1)
  step (interrupts states w) job =
      let out = interrupt_recovered J states w job in (out.0, wins J out.1)

  pub step-Effect :
      (t : Transaction V) (job : JobRecord V) → Effect J job (step t job).0 (step t job).1
  unfolding step
  step-Effect (compares expected next at) job = compare_and_set_state-Effect J expected next at job
  step-Effect (reschedules deadlines at) job = reschedule_deadlines-Effect J deadlines at job
  step-Effect (queues group_state others at) job = queue_member-Effect J group_state others at job
  step-Effect (persists p) job = begin_persisting-Effect J p job
  step-Effect (installs at) job = begin_install-Effect J at job
  step-Effect (records sha256 bytes at) job = record_installed_artifact-Effect J sha256 bytes at job
  step-Effect (commits w) job = commit_terminal-Effect J w job
  step-Effect (cancels w) job = cancel_job-Effect J w job
  step-Effect (interrupts states w) job = interrupt_recovered-Effect J states w job

  unfoldable pub run : JobRecord V → List (Transaction V) → JobRecord V
  run job [] = job
  run job (t ∷ ts) = run (step t job).0 ts

  pub winners : JobRecord V → List (Transaction V) → ℕ
  winners job [] = 0
  winners job (t ∷ ts) = (step t job).1 + winners (step t job).0 ts

  -- One for a terminal row.
  unfoldable pub ended_once : JobRecord V → ℕ
  ended_once job = if is_terminal job.state then 1 else 0

  Effect-ended :
      (job job' : JobRecord V) (n : ℕ) → Effect J job job' n → ended_once job' ≡ ended_once job + n
  unfolding ended_once is_terminal set_state set_deadlines set_started set_installed set_persisting
      write_terminal
  Effect-ended job job' n idle = omega arith
  Effect-ended job job' n (stepped next at can live more other) = ground arith
  Effect-ended job job' n (rebased deadlines at waits) = ground arith
  Effect-ended job job' n (staged p ready) = ground arith
  Effect-ended job job' n (began at here free) = ground arith
  Effect-ended job job' n (installed sha256 bytes at here ready sha size) = ground arith
  Effect-ended job job' n (ended w live can final free verified) = ground arith

  Effect-frozen :
      (job job' : JobRecord V) (n : ℕ)
      → Effect J job job' n
      → is_terminal job.state ≡ true
      → job' ≡ job
  Effect-frozen job job' n idle over = refl
  Effect-frozen job job' n (stepped next at can live more other) over =
      absurd (ground (arith, live, over))
  Effect-frozen job job' n (rebased deadlines at waits) over =
      absurd (terminal-not-queued job.state waits over)
  Effect-frozen job job' n (staged p ready) over = absurd (terminal-not-ready job.state ready over)
  Effect-frozen job job' n (began at here free) over =
      absurd (terminal-not-persisting job.state here over)
  Effect-frozen job job' n (installed sha256 bytes at here ready sha size) over =
      absurd (terminal-not-persisting job.state here over)
  Effect-frozen job job' n (ended w live can final free verified) over =
      absurd (ground (arith, live, over))

  -- A terminal row is never written again, whatever transactions that update rows follow: the changes of
  -- state, the rebasing of deadlines and the queueing of groups with them.
  pub run-frozen :
      (job : JobRecord V) (ts : List (Transaction V))
      → is_terminal job.state ≡ true
      → run job ts ≡ job
  unfolding run
  run-frozen job [] over = refl
  run-frozen job (t ∷ ts) over =
      rw (Effect-frozen job _ _ (step-Effect t job) over) (run-frozen job ts over)

  run-count :
      (job : JobRecord V) (ts : List (Transaction V))
      → ended_once (run job ts) ≡ ended_once job + winners job ts
  unfolding run winners
  run-count job [] = omega arith
  run-count job (t ∷ ts) =
      omega (arith, Effect-ended job _ _ (step-Effect t job), run-count (step t job).0 ts)

  -- Of all transactions on the row of a live capture, in any order, exactly one announces its end if
  -- the capture has ended by then, and none if it has not.
  pub run-winners :
      (job : JobRecord V) (ts : List (Transaction V))
      → is_terminal job.state ≡ false
      → winners job ts ≡ ended_once (run job ts)
  unfolding ended_once
  run-winners job ts live = ground (arith, run-count job ts)

  Effect-extends :
      (s : JobState) (k : ℕ) (job job' : JobRecord V) (n : ℕ)
      → Effect J job job' n
      → History s job.state k
      → (m : ℕ) × History s job'.state m
  unfolding set_state set_deadlines set_started set_installed set_persisting write_terminal
  Effect-extends s k job job' n idle h = (k, h)
  Effect-extends s k job job' n (stepped next at can live more other) h = (suc k, step_to h can)
  Effect-extends s k job job' n (rebased deadlines at waits) h = (k, h)
  Effect-extends s k job job' n (staged p ready) h =
      (suc k, step_to h (ready-persisting job.state ready))
  Effect-extends s k job job' n (began at here free) h = (k, h)
  Effect-extends s k job job' n (installed sha256 bytes at here ready sha size) h = (k, h)
  Effect-extends s k job job' n (ended w live can final free verified) h = (suc k, step_to h can)

  run-extends :
      (s : JobState) (k : ℕ) (job : JobRecord V) (ts : List (Transaction V))
      → History s job.state k
      → (m : ℕ) × History s (run job ts).state m
  unfolding run
  run-extends s k job [] h = (k, h)
  run-extends s k job (t ∷ ts) h =
      let (m, h') = Effect-extends s k job _ _ (step-Effect t job) h in
      run-extends s m (step t job).0 ts h'

  -- The catalog moves a capture only along the stage graph: between its states before and after any
  -- transactions there is a history of permitted transitions, of at most five.
  pub run-History :
      (job : JobRecord V) (ts : List (Transaction V))
      → (m : ℕ) × History job.state (run job ts).state m × (m ≤ 5)
  run-History job ts =
      let (m, h) = run-extends job.state 0 job ts start in (m, h, History-bounded _ _ m h)
