-- ===== src/Catalog/Job/Effects.antt =====
-- What one transaction of src/catalog.rs does to a capture's row: nothing, or one of six writes, each
-- with what the code has checked.
use camera_adapter.Base.{
  ℕ, String, ◌≡◌, refl, Bool, true, false, ◌&&◌, ◌||◌, not, List, Option, none, some, arith,
  Bool-cases, inl, inr, ltb, ◌==◌, str_eq, eq_iff,
}
use camera_adapter.Base.Words.{i64_max}
use camera_adapter.Error.{Result, ok, Result-cases}
use camera_adapter.Model.{
  JobState, accepted, queued, persisting, succeeded, acquiring, encoding, cancelled, interrupted,
  is_terminal, can_transition_to,
}
use camera_adapter.Catalog.Types.{
  Json, TerminalWrite, PendingInstall, JobDeadlines, JobRecord, TerminalOutcome, won,
}
use camera_adapter.Catalog.Writes.{
  is_some, same_option, same_state, same_state-eq, validate_terminal_write-terminal,
  validate_sha256, validate_terminal_write, validate_terminal_for_job,
}
use camera_adapter.Catalog.Job.{
  set_deadlines, reschedule_deadlines, queue_member, all_accepted, exceeds_terminal, set_state,
  set_started, set_installed, set_persisting, compare_and_set_state, begin_install,
  record_installed_artifact, same_write, check_pending, begin_persisting, artifact_verified,
  write_terminal, terminal, commit_terminal, cancel_job, interrupt_recovered, contains, is_empty,
  any_terminal,
}

same_text : (o : Option String) (s : String) → same_option str_eq o (some s) ≡ true → o ≡ some s
same_text none s h = cc
same_text (some t) s h = ground (arith, eq_iff t s, h)

same_number : (o : Option ℕ) (n : ℕ) → same_option (λ a b. a == b) o (some n) ≡ true → o ≡ some n
same_number none n h = cc
same_number (some m) n h = ground arith

accepted-queues : can_transition_to accepted queued ≡ true
unfolding can_transition_to
accepted-queues = refl

accepted-live : is_terminal accepted ≡ false
unfolding is_terminal
accepted-live = refl

queued-live : is_terminal queued ≡ false
unfolding is_terminal
queued-live = refl

module _ {V : Type 0} (J : Json V) where
  -- The number counts the terminal writes.
  pub data Effect (job : JobRecord V) : JobRecord V → ℕ → Type 0 where
    idle : Effect job job 0
    stepped :
        (next : JobState) (at : ℕ)
        → can_transition_to job.state next ≡ true
        → is_terminal job.state ≡ false
        → is_terminal next ≡ false
        → same_state next persisting ≡ false
        → Effect job (set_state next at job) 0
    rebased :
        (deadlines : JobDeadlines) (at : ℕ)
        → same_state job.state queued ≡ true
        → Effect job (set_deadlines deadlines at job) 0
    staged :
        (p : PendingInstall V)
        → (same_state job.state acquiring || same_state job.state encoding) ≡ true
        → Effect job (set_persisting p job) 0
    began :
        (at : ℕ)
        → same_state job.state persisting ≡ true
        → job.install_started ≡ false
        → Effect job (set_started at job) 0
    installed :
        (sha256 : String) (bytes at : ℕ)
        → same_state job.state persisting ≡ true
        → job.install_started ≡ true
        → job.expected_sha256 ≡ some sha256
        → job.expected_bytes ≡ some bytes
        → Effect job (set_installed sha256 bytes at job) 0
    ended :
        (w : TerminalWrite V)
        → is_terminal job.state ≡ false
        → can_transition_to job.state w.state ≡ true
        → is_terminal w.state ≡ true
        → (same_state w.state cancelled && job.install_started) ≡ false
        → (same_state w.state succeeded && not (artifact_verified J job)) ≡ false
        → Effect job (write_terminal J w job) 1

  -- Whether a result announces the terminal state.
  abbrev pub wins : Result (TerminalOutcome V) → ℕ
  wins (ok (won job)) = 1
  wins _ = 0

  pub compare_and_set_state-Effect :
      (expected next : JobState) (at : ℕ) (job : JobRecord V)
      → Effect job (compare_and_set_state expected next at job).0 0
  unfolding compare_and_set_state
  compare_and_set_state-Effect expected next at job =
      elim (Bool-cases (
        is_terminal expected
        || (is_terminal next
            || (not (can_transition_to expected next) || same_state next persisting)))) [
              | inl bad ↦ rw (compare_and_set_state, bad) idle
              | inr fine ↦ elim (Bool-cases (same_state job.state expected)) [
                | inr other ↦ rw (compare_and_set_state, fine, other) idle
                | inl here ↦
                    rw (compare_and_set_state, fine, here)
                      (stepped next at
                        (rw (same_state-eq job.state expected here) (ground (arith, fine)))
                        (rw (same_state-eq job.state expected here) (ground (arith, fine)))
                        (ground (arith, fine)) (ground (arith, fine)))
              ]
            ]

  pub reschedule_deadlines-Effect :
      (deadlines : JobDeadlines) (at : ℕ) (job : JobRecord V)
      → Effect job (reschedule_deadlines deadlines at job).0 0
  unfolding reschedule_deadlines
  reschedule_deadlines-Effect deadlines at job = elim (Bool-cases (exceeds_terminal deadlines)) [
    | inl late ↦ rw (reschedule_deadlines, late) idle
    | inr fine ↦ elim (Bool-cases (same_state job.state queued)) [
      | inl waits ↦ rw (reschedule_deadlines, fine, waits) (rebased deadlines at waits)
      | inr other ↦ rw (reschedule_deadlines, fine, other) idle
    ]
  ]

  pub queue_member-Effect :
      (group_state : JobState) (others : List JobState) (at : ℕ) (job : JobRecord V)
      → Effect job (queue_member group_state others at job).0 0
  unfolding queue_member
  queue_member-Effect group_state others at job =
      elim (Bool-cases (same_state group_state queued)) [
        | inl already ↦ rw (queue_member, already) idle
        | inr waiting ↦ elim (Bool-cases (same_state group_state accepted)) [
          | inr other ↦ rw (queue_member, waiting, other) idle
          | inl ready ↦ elim (Bool-cases (same_state job.state accepted && all_accepted others)) [
            | inr mixed ↦ rw (queue_member, waiting, ready, mixed) idle
            | inl uniform ↦
                let here = same_state-eq job.state accepted (ground (arith, uniform)) in
                rw (queue_member, waiting, ready, uniform)
                  (stepped queued at (rw here accepted-queues) (rw here accepted-live) queued-live
                    refl)
          ]
        ]
      ]

  pub begin_install-Effect : (at : ℕ) (job : JobRecord V) → Effect job (begin_install at job).0 0
  unfolding begin_install
  begin_install-Effect at job =
      elim (Bool-cases (same_state job.state persisting && not job.install_started)) [
        | inl free ↦
            rw (begin_install, free) (began at (ground (arith, free)) (ground (arith, free)))
        | inr taken ↦ elim (Bool-cases (same_state job.state persisting)) [
          | inl here ↦ rw (begin_install, taken, here) idle
          | inr other ↦ rw (begin_install, taken, other) idle
        ]
      ]

  pub record_installed_artifact-Effect :
      (sha256 : String) (bytes at : ℕ) (job : JobRecord V)
      → Effect job (record_installed_artifact sha256 bytes at job).0 0
  unfolding record_installed_artifact
  record_installed_artifact-Effect sha256 bytes at job =
      elim (Result-cases (validate_sha256 sha256)) [
        | inl (e, bad) ↦ rw (record_installed_artifact, bad) idle
        | inr (u, hex) ↦ elim (Bool-cases (ltb i64_max bytes)) [
          | inl large ↦ rw (record_installed_artifact, hex, large) idle
          | inr fits ↦
              elim (Bool-cases (
                not (same_option str_eq job.expected_sha256 (some sha256))
                || (not (same_option (λ a b. a == b) job.expected_bytes (some bytes))
                    || not (is_some job.pending_success)))) [
                      | inl other ↦ rw (record_installed_artifact, hex, fits, other) idle
                      | inr same ↦
                          elim (Bool-cases
                            (same_state job.state persisting && job.install_started)) [
                              | inr late ↦
                                  rw (record_installed_artifact, hex, fits, same, late) idle
                              | inl ready ↦
                                  rw (record_installed_artifact, hex, fits, same, ready)
                                    (installed sha256 bytes at (ground (arith, ready))
                                      (ground (arith, ready))
                                      (same_text job.expected_sha256 sha256 (ground (arith, same)))
                                      (same_number job.expected_bytes bytes (ground (arith, same))))
                            ]
                    ]
        ]
      ]

  pub begin_persisting-Effect :
      (p : PendingInstall V) (job : JobRecord V) → Effect job (begin_persisting J p job).0 0
  unfolding begin_persisting
  begin_persisting-Effect p job = elim (Result-cases (check_pending J p)) [
    | inl (e, bad) ↦ rw (begin_persisting, bad) idle
    | inr (u, good) ↦ elim (Result-cases (validate_terminal_for_job J p.success job)) [
      | inl (e, bad) ↦ rw (begin_persisting, good, bad) idle
      | inr (u, own) ↦
          elim (Bool-cases (same_state job.state acquiring || same_state job.state encoding)) [
            | inr other ↦ rw (begin_persisting, good, own, other) idle
            | inl ready ↦ elim (Bool-cases (is_some job.pending_success)) [
              | inl twice ↦ rw (begin_persisting, good, own, ready, twice) idle
              | inr once ↦ rw (begin_persisting, good, own, ready, once) (staged p ready)
            ]
          ]
    ]
  ]

  terminal-Effect :
      (w : TerminalWrite V) (cancellation : Bool) (expected_states : Option (List JobState))
      (job : JobRecord V)
      → is_terminal w.state ≡ true
      → same_state w.state cancelled ≡ cancellation
      → let out = terminal J w cancellation expected_states job in Effect job out.0 (wins out.1)
  unfolding terminal
  terminal-Effect w cancellation expected_states job final kind =
      elim (Bool-cases (is_terminal job.state)) [
        | inl over ↦ rw (terminal, over) idle
        | inr live ↦
            elim (Bool-cases (elim expected_states [
              | none ↦ false
              | some states ↦ not (contains states job.state)
            ])) [
              | inl moved ↦ rw (terminal, live, moved) idle
              | inr there ↦ elim (Result-cases (validate_terminal_for_job J w job)) [
                | inl (e, bad) ↦ rw (terminal, live, there, bad) idle
                | inr (u, own) ↦ elim (Bool-cases (cancellation && job.install_started)) [
                  | inl installing ↦ rw (terminal, live, there, own, installing) idle
                  | inr free ↦ elim (Bool-cases (can_transition_to job.state w.state)) [
                    | inr invalid ↦ rw (terminal, live, there, own, free, invalid) idle
                    | inl valid ↦
                        elim (Bool-cases (
                          same_state w.state succeeded
                          && not (same_option (same_write J) job.pending_success (some w)))) [
                            | inl other ↦ rw (terminal, live, there, own, free, valid, other) idle
                            | inr same ↦
                                elim (Bool-cases
                                  (same_state w.state succeeded && not (artifact_verified J job))) [
                                    | inl unverified ↦
                                        rw
                                          (
                                            terminal, live, there, own, free, valid, same,
                                            unverified,
                                          )
                                          idle
                                    | inr verified ↦
                                        rw (terminal, live, there, own, free, valid, same, verified)
                                          (ended w live valid final (rw kind free) verified)
                                  ]
                          ]
                  ]
                ]
              ]
            ]
      ]

  pub commit_terminal-Effect :
      (w : TerminalWrite V) (job : JobRecord V)
      → let out = commit_terminal J w job in Effect job out.0 (wins out.1)
  unfolding commit_terminal
  commit_terminal-Effect w job = elim (Bool-cases (same_state w.state cancelled)) [
    | inl wrong ↦ rw (commit_terminal, wrong) idle
    | inr right ↦ elim (Result-cases (validate_terminal_write J w)) [
      | inl (e, bad) ↦ rw (commit_terminal, right, bad) idle
      | inr (u, good) ↦
          rw (commit_terminal, right, good)
            (terminal-Effect w false none job (validate_terminal_write-terminal J w u good) right)
    ]
  ]

  pub cancel_job-Effect :
      (w : TerminalWrite V) (job : JobRecord V)
      → let out = cancel_job J w job in Effect job out.0 (wins out.1)
  unfolding cancel_job
  cancel_job-Effect w job = elim (Bool-cases (same_state w.state cancelled)) [
    | inr wrong ↦ rw (cancel_job, wrong) idle
    | inl right ↦ elim (Result-cases (validate_terminal_write J w)) [
      | inl (e, bad) ↦ rw (cancel_job, right, bad) idle
      | inr (u, good) ↦
          rw (cancel_job, right, good)
            (terminal-Effect w true none job (validate_terminal_write-terminal J w u good) right)
    ]
  ]

  pub interrupt_recovered-Effect :
      (states : List JobState) (w : TerminalWrite V) (job : JobRecord V)
      → let out = interrupt_recovered J states w job in Effect job out.0 (wins out.1)
  unfolding interrupt_recovered
  interrupt_recovered-Effect states w job =
      elim (Bool-cases
        (not (same_state w.state interrupted) || (is_empty states || any_terminal states))) [
          | inl wrong ↦ rw (interrupt_recovered, wrong) idle
          | inr right ↦ elim (Result-cases (validate_terminal_write J w)) [
            | inl (e, bad) ↦ rw (interrupt_recovered, right, bad) idle
            | inr (u, good) ↦
                rw (interrupt_recovered, right, good)
                  (terminal-Effect w false (some states) job
                    (validate_terminal_write-terminal J w u good)
                    (rw (same_state-eq w.state interrupted (ground (arith, right))) refl))
          ]
        ]
