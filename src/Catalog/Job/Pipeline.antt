-- ===== src/Catalog/Job/Pipeline.antt =====
-- The transactions by which a capture of src/catalog.rs succeeds, with cancellations that come too late.
use camera_adapter.Base.{
  ℕ, ◌≡◌, refl, ◌∙◌, ap, true, false, ◌||◌, List, [], ◌∷◌, ◌++◌, map, none, some, arith, inl, inr,
  Bool-cases, ltb, eq_refl, ◌==◌,
}
use camera_adapter.Base.Words.{i64_max}
use camera_adapter.Error.{ok, Result-cases}
use camera_adapter.Model.{
  JobState, acquiring, encoding, persisting, succeeded, cancelled, is_terminal,
}
use camera_adapter.Catalog.Types.{Json, TerminalWrite, PendingInstall, JobRecord}
use camera_adapter.Catalog.Writes.{
  same_state, same_state-eq, same_option, is_some, validate_sha256, validate_terminal_write,
  validate_terminal_for_job,
}
use camera_adapter.Catalog.Job.{
  set_started, set_installed, set_persisting, begin_install, record_installed_artifact,
  check_pending, begin_persisting, artifact_verified, terminal, commit_terminal, cancel_job,
}
use camera_adapter.Catalog.Job.Arbitration.{
  Transaction, persists, installs, records, commits, cancels, step, run, winners, ended_once,
  run-winners,
}
use camera_adapter.Catalog.Job.Commit.{commit_terminal-succeeds}

one_end :
    {V : Type 0} (J : Json V) (job : JobRecord V) → job.state ≡ succeeded → ended_once J job ≡ 1
unfolding ended_once is_terminal
one_end J job ended = rw ended refl

module _ {V : Type 0} (J : Json V) where
  -- What the checks of a staged success say.
  record Checked (p : PendingInstall V) : Type 0 where
    hex : validate_sha256 p.expected_sha256 ≡ ok tt
    fits : ltb i64_max p.expected_bytes ≡ false
    kind : p.success.state ≡ succeeded
    good : validate_terminal_write J p.success ≡ ok tt

  check_pending-Checked : (p : PendingInstall V) → check_pending J p ≡ ok tt → Checked p
  unfolding check_pending
  check_pending-Checked p h = elim (Result-cases (validate_sha256 p.expected_sha256)) [
    | inl (e, bad) ↦ absurd (ground (arith, bad))
    | inr (u, hex) ↦ record {
      hex = hex;
      fits = ground (arith, hex);
      kind = same_state-eq p.success.state succeeded (ground (arith, hex));
      good = ground (arith, hex);
    }
  ]

  -- A cancellation, whatever it says, leaves a row that installs as it is.
  cancel_job-keeps :
      (w : TerminalWrite V) (job : JobRecord V)
      → job.state ≡ persisting
      → job.install_started ≡ true
      → (cancel_job J w job).0 ≡ job
  unfolding cancel_job terminal is_terminal
  cancel_job-keeps w job at started = elim (Bool-cases (same_state w.state cancelled)) [
    | inr wrong ↦ rw (cancel_job, wrong) refl
    | inl right ↦ elim (Result-cases (validate_terminal_write J w)) [
      | inl (e, bad) ↦ rw (cancel_job, right, bad) refl
      | inr (u, good) ↦
          let live : is_terminal job.state ≡ false = rw at refl in
          elim (Result-cases (validate_terminal_for_job J w job)) [
            | inl (e, bad) ↦ rw (cancel_job, right, good, terminal, live, bad) refl
            | inr (u, own) ↦ rw (cancel_job, right, good, terminal, live, own, started) refl
          ]
    ]
  ]

  abbrev attempts : List (TerminalWrite V) → List (Transaction V)
  attempts ws = map cancels ws

  run-attempts :
      (ws : List (TerminalWrite V)) (job : JobRecord V) (ts : List (Transaction V))
      → job.state ≡ persisting
      → job.install_started ≡ true
      → run J job (attempts ws ++ ts) ≡ run J job ts
  unfolding run step
  run-attempts [] job ts at started = refl
  run-attempts (w ∷ ws) job ts at started =
      ap (λ row. run J row (attempts ws ++ ts)) (cancel_job-keeps w job at started)
      ∙ run-attempts ws job ts at started

  persisted :
      (p : PendingInstall V) (job : JobRecord V)
      → (same_state job.state acquiring || same_state job.state encoding) ≡ true
      → job.pending_success ≡ none
      → check_pending J p ≡ ok tt
      → validate_terminal_for_job J p.success job ≡ ok tt
      → (begin_persisting J p job).0 ≡ set_persisting p job
  unfolding begin_persisting
  persisted p job ready once good own =
      let first : is_some job.pending_success ≡ false = rw once refl in
      rw (begin_persisting, good, own, ready, first) refl

  began :
      (at : ℕ) (job : JobRecord V) (p : PendingInstall V)
      → job.install_started ≡ false
      → (begin_install at (set_persisting p job)).0 ≡ set_started at (set_persisting p job)
  unfolding begin_install set_persisting
  began at job p waiting = rw waiting refl

  recorded :
      (p : PendingInstall V) (begun_at at : ℕ) (job : JobRecord V)
      → Checked p
      → let row = set_started begun_at (set_persisting p job) in
        (record_installed_artifact p.expected_sha256 p.expected_bytes at row).0
        ≡ set_installed p.expected_sha256 p.expected_bytes at row
  unfolding record_installed_artifact set_started set_persisting
  recorded p begun_at at job c =
      let same : same_option (λ a b. a == b) (some p.expected_bytes) (some p.expected_bytes)
          ≡ true =
        ground arith in
      rw (record_installed_artifact, c.hex, c.fits, eq_refl p.expected_sha256, same) refl

  ready-live :
      (s : JobState)
      → (same_state s acquiring || same_state s encoding) ≡ true
      → is_terminal s ≡ false
  unfolding is_terminal
  ready-live s ready = ground arith

  -- The row of a capture whose staged artifact is installed and recorded.
  abbrev row_installed : PendingInstall V → ℕ → ℕ → JobRecord V → JobRecord V
  row_installed p begun_at at job =
      set_installed p.expected_sha256 p.expected_bytes at
        (set_started begun_at (set_persisting p job))

  row_installed-verified :
      (p : PendingInstall V) (begun_at at : ℕ) (job : JobRecord V)
      → artifact_verified J (row_installed p begun_at at job) ≡ true
  unfolding artifact_verified set_installed set_started set_persisting
  row_installed-verified p begun_at at job = refl

  abbrev pub pipeline :
      PendingInstall V
      → ℕ
      → ℕ
      → List (TerminalWrite V)
      → List (TerminalWrite V)
      → List (Transaction V)
  pipeline p begun_at at early late =
      persists p
      ∷ installs begun_at
      ∷ (attempts early
          ++ (records p.expected_sha256 p.expected_bytes at
              ∷ (attempts late ++ (commits p.success ∷ []))))

  -- The row after the pipeline is the row that the commit leaves.
  run-pipeline-row :
      (p : PendingInstall V) (begun_at at : ℕ) (early late : List (TerminalWrite V))
      (job : JobRecord V)
      → (same_state job.state acquiring || same_state job.state encoding) ≡ true
      → job.install_started ≡ false
      → job.pending_success ≡ none
      → check_pending J p ≡ ok tt
      → validate_terminal_for_job J p.success job ≡ ok tt
      → run J job (pipeline p begun_at at early late)
        ≡ (commit_terminal J p.success (row_installed p begun_at at job)).0
  unfolding run step set_started set_persisting set_installed
  run-pipeline-row p begun_at at early late job ready waiting once good own =
      let second =
        installs begun_at
        ∷ (attempts early
            ++ (records p.expected_sha256 p.expected_bytes at
                ∷ (attempts late ++ (commits p.success ∷ [])))) in
      let third =
        attempts early
        ++ (records p.expected_sha256 p.expected_bytes at
            ∷ (attempts late ++ (commits p.success ∷ []))) in
      let fourth = attempts late ++ (commits p.success ∷ []) in
      ap (λ row. run J row second) (persisted p job ready once good own)
      ∙ ap (λ row. run J row third) (began begun_at job p waiting)
      ∙ run-attempts early (set_started begun_at (set_persisting p job)) _ refl refl
      ∙ ap (λ row. run J row fourth) (recorded p begun_at at job (check_pending-Checked p good))
      ∙ run-attempts late (row_installed p begun_at at job) _ refl refl

  -- From a row that captures or encodes, with no staged success yet: staging one that passes its checks,
  -- starting the installation, recording the staged artifact and committing the staged write make the
  -- capture succeed with the result of that write, and exactly one end is announced, whatever
  -- cancellations come once the installation has started, and however many.
  pub run-pipeline :
      (p : PendingInstall V) (begun_at at : ℕ) (early late : List (TerminalWrite V))
      (job : JobRecord V)
      → (same_state job.state acquiring || same_state job.state encoding) ≡ true
      → job.install_started ≡ false
      → job.pending_success ≡ none
      → check_pending J p ≡ ok tt
      → validate_terminal_for_job J p.success job ≡ ok tt
      → ((run J job (pipeline p begun_at at early late)).state ≡ succeeded)
        × ((run J job (pipeline p begun_at at early late)).terminal_result ≡ some p.success.result)
        × (winners J job (pipeline p begun_at at early late) ≡ 1)
  unfolding set_started set_persisting set_installed is_terminal validate_terminal_for_job
  run-pipeline p begun_at at early late job ready waiting once good own =
      let c = check_pending-Checked p good in
      let row = run-pipeline-row p begun_at at early late job ready waiting once good own in
      let won_row =
        commit_terminal-succeeds J p.success (row_installed p begun_at at job) c.good own c.kind
          refl refl (row_installed-verified p begun_at at job) in
      let ended = ap (λ r. r.state) row ∙ won_row.1 in
      (
        ended,
        ap (λ r. r.terminal_result) row ∙ won_row.2,
        run-winners J job (pipeline p begun_at at early late) (ready-live job.state ready)
            ∙ one_end J _ ended,
      )
