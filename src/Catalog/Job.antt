-- ===== src/Catalog/Job.antt =====
-- The transactions of src/catalog.rs on the row of one capture. SQLite runs a transaction alone and
-- rolls an error back, so each is a function from the row to the row and its result. That the row
-- exists is the caller's: a transaction on a missing row is an error that changes nothing.
pub mod Effects
pub mod Arbitration
pub mod Artifacts
pub mod Commit
pub mod Pipeline
pub mod Tests
use camera_adapter.Base.{
  ℕ, String, Bool, true, false, ◌&&◌, ◌||◌, not, List, [], ◌∷◌, Option, none, some, leb, ◌==◌,
  if◌then◌else◌, str_eq, ltb,
}
use camera_adapter.Base.Words.{i64_max, u64_max, checked}
use camera_adapter.Error.{
  CameraError, catalog, sqlite, Result, ok, err, ◌>>=◌, ◌>>◌, reject_if, ok_or,
}
use camera_adapter.Model.{
  JobState, accepted, queued, acquiring, encoding, persisting, succeeded, failed, cancelled,
  interrupted, is_terminal, can_transition_to,
}
use camera_adapter.Catalog.Types.{
  Json, TerminalWrite, PendingInstall, JobDeadlines, JobRecord, StateCasOutcome, changed,
  not_changed, TerminalOutcome, won, already_terminal, installation_won, InstallOutcome, started,
  already_started, wrong_state,
}
use camera_adapter.Catalog.Writes.{
  is_some, same_option, same_state, validate_sha256, validate_terminal_write,
  validate_terminal_for_job,
}

-- A transaction's check that fails rolls back; one that holds goes on.
abbrev checking {ℓ κ} :
    {R : Type ℓ} {A : Type κ} → R → Result (Unit {0}) → R × Result A → R × Result A
checking r (err e) next = (r, err e)
checking r (ok _) next = next

-- `list.contains(&state)`.
abbrev pub contains : List JobState → JobState → Bool
contains [] s = false
contains (t ∷ ts) s = same_state t s || contains ts s

abbrev pub any_terminal : List JobState → Bool
any_terminal [] = false
any_terminal (s ∷ ss) = is_terminal s || any_terminal ss

abbrev pub is_empty : List JobState → Bool
is_empty [] = true
is_empty (s ∷ ss) = false

abbrev pub all_accepted : List JobState → Bool
all_accepted [] = true
all_accepted (s ∷ ss) = same_state s accepted && all_accepted ss

abbrev pub exceeds_terminal : JobDeadlines → Bool
exceeds_terminal d =
    ltb d.terminal_at_ms d.capture_at_ms
    || (ltb d.terminal_at_ms d.encode_at_ms
        || (ltb d.terminal_at_ms d.persist_at_ms
            || elim d.queue_at_ms [ none ↦ false | some deadline ↦ ltb d.terminal_at_ms deadline ]))

module _ {V : Type 0} where
  -- The rows that the updates write.
  pub set_state : JobState → ℕ → JobRecord V → JobRecord V
  set_state next changed_at job = record job {
    state = next;
    updated_at_ms = changed_at;
    queued_at_ms = if same_state next queued then some changed_at else job.queued_at_ms;
  }

  pub set_started : ℕ → JobRecord V → JobRecord V
  set_started changed_at job = record job { install_started = true; updated_at_ms = changed_at }

  pub set_installed : String → ℕ → ℕ → JobRecord V → JobRecord V
  set_installed sha256 bytes changed_at job = record job {
    installed_sha256 = some sha256;
    installed_bytes = some bytes;
    updated_at_ms = changed_at;
  }

  pub set_persisting : PendingInstall V → JobRecord V → JobRecord V
  set_persisting p job = record job {
    state = persisting;
    updated_at_ms = p.changed_at_ms;
    partial_path = some p.partial_path;
    final_path = some p.final_path;
    expected_sha256 = some p.expected_sha256;
    expected_bytes = some p.expected_bytes;
    pending_success = some p.success;
  }

  pub set_deadlines : JobDeadlines → ℕ → JobRecord V → JobRecord V
  set_deadlines deadlines rebased_at job = record job {
    deadlines = deadlines;
    updated_at_ms = rebased_at;
  }

  -- Only a queued capture is rebased onto its admission.
  pub reschedule_deadlines : JobDeadlines → ℕ → JobRecord V → JobRecord V × Result (JobRecord V)
  unfolding set_deadlines
  reschedule_deadlines deadlines rebased_at job =
      if exceeds_terminal deadlines
      then (job, err (catalog "stage deadlines must not exceed the terminal deadline"))
      else if not (same_state job.state queued)
      then (job, err (catalog "only a QUEUED capture may be rebased onto its admission"))
      else (set_deadlines deadlines rebased_at job, ok (set_deadlines deadlines rebased_at job))

  -- What `queue_group_blocking` does to the row of a member, by the state of the group and of its
  -- `others`.
  pub queue_member : JobState → List JobState → ℕ → JobRecord V → JobRecord V × Result JobState
  unfolding set_state
  queue_member group_state others queued_at job =
      if same_state group_state queued
      then (job, ok group_state)
      else if not (same_state group_state accepted)
      then (job, err (catalog "group cannot queue from its state"))
      else if not (same_state job.state accepted && all_accepted others)
      then (job, err (catalog "group members are not uniformly ACCEPTED"))
      else (set_state queued queued_at job, ok queued)

  pub compare_and_set_state :
      JobState → JobState → ℕ → JobRecord V → JobRecord V × Result (StateCasOutcome V)
  unfolding set_state
  compare_and_set_state expected next changed_at job =
      if is_terminal expected
        || (is_terminal next
            || (not (can_transition_to expected next) || same_state next persisting))
      then (job, err (catalog "invalid ordinary transition"))
      else if same_state job.state expected
      then (set_state next changed_at job, ok (changed (set_state next changed_at job)))
      else (job, ok (not_changed job))

  -- `try_begin_install`.
  pub begin_install : ℕ → JobRecord V → JobRecord V × Result (InstallOutcome V)
  unfolding set_started
  begin_install changed_at job =
      if same_state job.state persisting && not job.install_started
      then (set_started changed_at job, ok (started (set_started changed_at job)))
      else if same_state job.state persisting
      then (job, ok (already_started job))
      else (job, ok (wrong_state job))

  pub record_installed_artifact : String → ℕ → ℕ → JobRecord V → JobRecord V × Result (JobRecord V)
  unfolding set_installed
  record_installed_artifact sha256 bytes changed_at job = checking job (validate_sha256 sha256) (
      checking job
        (reject_if (ltb i64_max bytes) (catalog "installed byte count exceeds SQLite INTEGER"))
        (if not (same_option str_eq job.expected_sha256 (some sha256))
            || (not (same_option (λ a b. a == b) job.expected_bytes (some bytes))
                || not (is_some job.pending_success))
          then (
            job,
            err (catalog "installed artifact does not match the durably prepared recovery facts"),
          )
          else if same_state job.state persisting && job.install_started
          then (
            set_installed sha256 bytes changed_at job,
            ok (set_installed sha256 bytes changed_at job),
          )
          else (
            job,
            err (
                catalog
                  "installed artifact can be recorded only after installation wins in PERSISTING"),
          )))

module _ {V : Type 0} (J : Json V) where
  -- `TerminalWrite: PartialEq`.
  unfoldable pub same_write : TerminalWrite V → TerminalWrite V → Bool
  same_write a b =
      same_state a.state b.state
      && (J.equal a.result b.result
          && (same_option str_eq a.error_code b.error_code
              && (same_option str_eq a.error_message b.error_message
                  && a.terminal_at_ms == b.terminal_at_ms)))

  pub check_pending : PendingInstall V → Result (Unit {0})
  check_pending p = do
    reject_if (str_eq p.partial_path "") (catalog "partial_path must not be empty")
    reject_if (str_eq p.final_path "") (catalog "final_path must not be empty")
    reject_if (str_eq p.partial_path p.final_path)
        (catalog "partial and final persistence paths must differ")
    validate_sha256 p.expected_sha256
    reject_if (ltb i64_max p.expected_bytes) (catalog "expected byte count exceeds SQLite INTEGER")
    reject_if (not (same_state p.success.state succeeded))
        (catalog "pending persistence terminal write must be SUCCEEDED")
    validate_terminal_write J p.success

  -- The staged success is inserted under the capture's key, so a second one is a key error.
  pub begin_persisting : PendingInstall V → JobRecord V → JobRecord V × Result (StateCasOutcome V)
  unfolding check_pending set_persisting
  begin_persisting p job = checking job (check_pending p) (
      checking job (validate_terminal_for_job J p.success job) (
        if same_state job.state acquiring || same_state job.state encoding
        then if is_some job.pending_success
          then (job, err (sqlite "UNIQUE constraint failed: pending_success.capture_id"))
          else (set_persisting p job, ok (changed (set_persisting p job)))
        else (job, ok (not_changed job))))

  -- The facts without which a success is refused.
  unfoldable pub artifact_verified : JobRecord V → Bool
  artifact_verified job =
      same_state job.state persisting
      && (job.install_started
          && (is_some job.partial_path
              && (is_some job.final_path
                  && (is_some job.expected_sha256
                      && (is_some job.expected_bytes
                          && (is_some job.installed_sha256 && is_some job.installed_bytes))))))

  -- The row that the updates of the winner leave.
  pub write_terminal : TerminalWrite V → JobRecord V → JobRecord V
  write_terminal w job =
      let keeps = same_state w.state succeeded in
      record job {
        state = w.state;
        updated_at_ms = w.terminal_at_ms;
        terminal_at_ms = some w.terminal_at_ms;
        terminal_result = some w.result;
        error_code = w.error_code;
        pending_success = none;
        expected_sha256 = if keeps then job.expected_sha256 else none;
        expected_bytes = if keeps then job.expected_bytes else none;
      }

  -- `terminal_blocking`. The row was read in the same transaction, so its update finds it as it was
  -- read: not terminal, and for a cancellation not installing.
  unfoldable pub terminal :
      TerminalWrite V
      → Bool
      → Option (List JobState)
      → JobRecord V
      → JobRecord V × Result (TerminalOutcome V)
  unfolding same_write artifact_verified write_terminal
  terminal w cancellation expected_states job =
      if is_terminal job.state
      then (job, ok (already_terminal job))
      else if elim expected_states [ none ↦ false | some states ↦ not (contains states job.state) ]
      then (job, err (catalog "recovery CAS found an unexpected state"))
      else checking job (validate_terminal_for_job J w job) (
          if cancellation && job.install_started
          then (job, ok (installation_won job))
          else if not (can_transition_to job.state w.state)
          then (job, err (catalog "invalid terminal transition"))
          else if same_state w.state succeeded
              && not (same_option same_write job.pending_success (some w))
          then (
            job,
            err (catalog "success terminal write does not exactly match the durably staged write"),
          )
          else if same_state w.state succeeded && not (artifact_verified job)
          then (
            job,
            err (
                catalog
                  "SUCCEEDED requires verified installed-artifact facts after the installation CAS"),
          )
          else (write_terminal w job, ok (won (write_terminal w job))))

  pub commit_terminal : TerminalWrite V → JobRecord V → JobRecord V × Result (TerminalOutcome V)
  unfolding terminal
  commit_terminal w job =
      if same_state w.state cancelled
      then (job, err (catalog "use cancel_job for cancellation arbitration"))
      else checking job (validate_terminal_write J w) (terminal w false none job)

  pub cancel_job : TerminalWrite V → JobRecord V → JobRecord V × Result (TerminalOutcome V)
  unfolding terminal
  cancel_job w job =
      if not (same_state w.state cancelled)
      then (job, err (catalog "cancel_job requires the CANCELLED terminal state"))
      else checking job (validate_terminal_write J w) (terminal w true none job)

  pub interrupt_recovered :
      List JobState → TerminalWrite V → JobRecord V → JobRecord V × Result (TerminalOutcome V)
  unfolding terminal
  interrupt_recovered states w job =
      if not (same_state w.state interrupted) || (is_empty states || any_terminal states)
      then (
        job,
        err (catalog "recovery interruption requires INTERRUPTED and non-terminal expected states"),
      )
      else checking job (validate_terminal_write J w) (terminal w false (some states) job)
