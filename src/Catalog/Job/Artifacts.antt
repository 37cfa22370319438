-- ===== src/Catalog/Job/Artifacts.antt =====
-- What a capture's row in src/catalog.rs says of its file, in each state.
use camera_adapter.Base.{
  ℕ, ◌≡◌, ◌≢◌, refl, ◌⊎◌, inl, inr, true, false, ◌&&◌, ◌||◌, not, List, [], ◌∷◌, none, arith, subst,
  sym,
}
use camera_adapter.Model.{
  JobState, accepted, queued, acquiring, encoding, persisting, succeeded, failed, cancelled,
  interrupted, is_terminal, can_transition_to,
}
use camera_adapter.Catalog.Types.{Json, TerminalWrite, JobRecord}
use camera_adapter.Catalog.Writes.{same_state, same_state-eq, is_some}
use camera_adapter.Catalog.Job.{
  set_deadlines, set_state, set_started, set_installed, set_persisting, artifact_verified,
  write_terminal,
}
use camera_adapter.Catalog.Job.Effects.{
  Effect, idle, stepped, rebased, staged, began, installed, ended,
}
use camera_adapter.Catalog.Job.Arbitration.{Transaction, step, step-Effect, run}

stepped-other :
    (s t : JobState)
    → can_transition_to s t ≡ true
    → is_terminal t ≡ false
    → same_state t persisting ≡ false
    → same_state s persisting ≡ false
unfolding can_transition_to is_terminal
stepped-other s t can more other = ground arith

ready-early :
    (s : JobState)
    → (same_state s acquiring || same_state s encoding) ≡ true
    → (is_terminal s ≡ false) × (same_state s persisting ≡ false)
unfolding is_terminal
ready-early s ready = ground arith

queued-early :
    (s : JobState)
    → same_state s queued ≡ true
    → (is_terminal s ≡ false) × (same_state s persisting ≡ false)
unfolding is_terminal
queued-early s waits = ground arith

module _ {V : Type 0} where
  -- No artifact yet.
  pub record Fresh (job : JobRecord V) : Type 0 where
    pub not_started : job.install_started ≡ false
    pub no_hash : job.installed_sha256 ≡ none
    pub no_size : job.installed_bytes ≡ none

  -- Nothing is recorded as installed, or what was staged is.
  abbrev pub Matching : JobRecord V → Type 0
  Matching job =
      ((job.installed_sha256 ≡ none) × (job.installed_bytes ≡ none))
      ⊎ ((job.installed_sha256 ≡ job.expected_sha256) × (job.installed_bytes ≡ job.expected_bytes))

  -- The installation has started, the file has a path, and the recorded hash and size are the staged
  -- ones.
  pub record Verified (job : JobRecord V) : Type 0 where
    pub was_started : job.install_started ≡ true
    pub path : is_some job.final_path ≡ true
    pub hash : is_some job.installed_sha256 ≡ true
    pub size : is_some job.installed_bytes ≡ true
    pub hash_matches : job.installed_sha256 ≡ job.expected_sha256
    pub size_matches : job.installed_bytes ≡ job.expected_bytes

  abbrev pub Known : JobState → JobRecord V → Type 0
  Known accepted job = Fresh job
  Known queued job = Fresh job
  Known acquiring job = Fresh job
  Known encoding job = Fresh job
  Known persisting job = Matching job
  Known succeeded job = Verified job
  Known failed job = Unit
  Known cancelled job = job.install_started ≡ false
  Known interrupted job = Unit

  -- What is known of a row in its state.
  abbrev pub Sound : JobRecord V → Type 0
  Sound job = Known job.state job

  -- A live row that does not persist is fresh.
  early-Fresh :
      (s : JobState) (job : JobRecord V)
      → is_terminal s ≡ false
      → same_state s persisting ≡ false
      → Known s job
      → Fresh job
  unfolding is_terminal
  early-Fresh accepted job live other k = k
  early-Fresh queued job live other k = k
  early-Fresh acquiring job live other k = k
  early-Fresh encoding job live other k = k
  early-Fresh persisting job live other k = absurd (ground arith)
  early-Fresh succeeded job live other k = cc
  early-Fresh failed job live other k = cc
  early-Fresh cancelled job live other k = cc
  early-Fresh interrupted job live other k = cc

  Fresh-early :
      (s : JobState) (job : JobRecord V)
      → is_terminal s ≡ false
      → same_state s persisting ≡ false
      → Fresh job
      → Known s job
  unfolding is_terminal
  Fresh-early accepted job live other k = k
  Fresh-early queued job live other k = k
  Fresh-early acquiring job live other k = k
  Fresh-early encoding job live other k = k
  Fresh-early persisting job live other k = absurd (ground arith)
  Fresh-early succeeded job live other k = cc
  Fresh-early failed job live other k = cc
  Fresh-early cancelled job live other k = cc
  Fresh-early interrupted job live other k = cc

  persisting-Matching :
      (job : JobRecord V) → same_state job.state persisting ≡ true → Sound job → Matching job
  persisting-Matching job here k =
      subst (λ s. Known s job) (same_state-eq job.state persisting here) k

  persisting-Sound :
      (job : JobRecord V) → same_state job.state persisting ≡ true → Matching job → Sound job
  persisting-Sound job here m =
      subst (λ s. Known s job) (sym (same_state-eq job.state persisting here)) m

  -- A row that was just ended.
  ended-Known :
      (s : JobState) (job : JobRecord V)
      → is_terminal s ≡ true
      → (same_state s cancelled && job.install_started) ≡ false
      → (same_state s succeeded ≡ true → Verified job)
      → Known s job
  unfolding is_terminal
  ended-Known accepted job final free good = cc
  ended-Known queued job final free good = cc
  ended-Known acquiring job final free good = cc
  ended-Known encoding job final free good = cc
  ended-Known persisting job final free good = cc
  ended-Known succeeded job final free good = good refl
  ended-Known failed job final free good = tt
  ended-Known cancelled job final free good = free
  ended-Known interrupted job final free good = tt

  success-Verified :
      (J : Json V) (w : TerminalWrite V) (job : JobRecord V)
      → (same_state w.state succeeded && not (artifact_verified J job)) ≡ false
      → Sound job
      → same_state w.state succeeded ≡ true
      → Verified (write_terminal J w job)
  unfolding write_terminal artifact_verified
  success-Verified J w job verified k good =
      elim (persisting-Matching job (ground (arith, verified, good)) k) [
        | inl (no_hash, no_size) ↦ absurd (ground (arith, verified, good, no_hash))
        | inr (hash, size) ↦ record {
          was_started = ground (arith, verified, good);
          path = ground (arith, verified, good);
          hash = ground (arith, verified, good);
          size = ground (arith, verified, good);
          hash_matches = rw good hash;
          size_matches = rw good size;
        }
      ]

  Effect-Sound :
      (J : Json V) (job job' : JobRecord V) (n : ℕ) → Effect J job job' n → Sound job → Sound job'
  unfolding set_state set_deadlines set_started set_installed set_persisting write_terminal
  Effect-Sound J job job' n idle k = k
  Effect-Sound J job job' n (stepped next at can live more other) k =
      let f = early-Fresh job.state job live (stepped-other job.state next can more other) k in
      Fresh-early next (set_state next at job) more other
        (record { not_started = f.not_started; no_hash = f.no_hash; no_size = f.no_size })
  Effect-Sound J job job' n (rebased deadlines at waits) k =
      let (live, other) = queued-early job.state waits in
      let f = early-Fresh job.state job live other k in
      Fresh-early job.state (set_deadlines deadlines at job) live other
        (record { not_started = f.not_started; no_hash = f.no_hash; no_size = f.no_size })
  Effect-Sound J job job' n (staged p ready) k =
      let (live, other) = ready-early job.state ready in
      let f = early-Fresh job.state job live other k in inl (f.no_hash, f.no_size)
  Effect-Sound J job job' n (began at here free) k =
      persisting-Sound (set_started at job) here (persisting-Matching job here k)
  Effect-Sound J job job' n (installed sha256 bytes at here ready sha size) k =
      persisting-Sound (set_installed sha256 bytes at job) here (inr (sym sha, sym size))
  Effect-Sound J job job' n (ended w live can final free verified) k =
      ended-Known w.state (write_terminal J w job) final free (success-Verified J w job verified k)

  run-Sound :
      (J : Json V) (job : JobRecord V) (ts : List (Transaction V))
      → Sound job
      → Sound (run J job ts)
  unfolding run
  run-Sound J job [] k = k
  run-Sound J job (t ∷ ts) k =
      run-Sound J (step J t job).0 ts (Effect-Sound J job _ _ (step-Effect J t job) k)

  -- After any transactions on the row of a capture that was just accepted: if it succeeded, then its
  -- installation had started, its file has a path, and a hash and a size of the installed file were
  -- recorded that are exactly the staged ones.
  pub succeeded-Verified :
      (J : Json V) (job : JobRecord V) (ts : List (Transaction V))
      → job.state ≡ accepted
      → Fresh job
      → (run J job ts).state ≡ succeeded
      → Verified (run J job ts)
  succeeded-Verified J job ts new fresh done =
      subst (λ s. Known s (run J job ts)) done
        (run-Sound J job ts (subst (λ s. Known s job) (sym new) fresh))

  -- After any transactions on the row of a capture that was just accepted: if its installation has
  -- started, then it was not cancelled.
  pub installing-not-cancelled :
      (J : Json V) (job : JobRecord V) (ts : List (Transaction V))
      → job.state ≡ accepted
      → Fresh job
      → (run J job ts).install_started ≡ true
      → (run J job ts).state ≢ cancelled
  installing-not-cancelled J job ts new fresh started done =
      let free =
        subst (λ s. Known s (run J job ts)) done
          (run-Sound J job ts (subst (λ s. Known s job) (sym new) fresh)) in
      cc
