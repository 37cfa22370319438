-- ===== src/Catalog/Settlement.antt =====
-- The whole terminal transaction of src/catalog.rs: the row of the capture, and the commands of the
-- ledger that wait for it.
mod Tests
use camera_adapter.Base.{
  ℕ, zero, ◌+◌, String, ◌≡◌, refl, Bool, true, false, ◌&&◌, List, [], ◌∷◌, Option, none, some,
  arith, if◌then◌else◌, str_eq, count, Bool-cases, Option-cases, inl, inr,
}
use camera_adapter.Base.Map.{Map, lookup, insert, lookup-insert_self}
use camera_adapter.Error.{Result, ok, err, ◌>>=◌, Result-cases}
use camera_adapter.Model.{JobState}
use camera_adapter.Model
use camera_adapter.Catalog.Types.{
  Json, TerminalWrite, JobRecord, CommandLedgerRecord, LedgerState, in_progress, succeeded, failed,
  Tables, TerminalOutcome, won, already_terminal, installation_won,
}
use camera_adapter.Catalog.Writes.{same_option, same_state}
use camera_adapter.Catalog.Job.{terminal}
use camera_adapter.Catalog.Ledger.{is_in_progress, load_job_required}

module _ {V : Type 0} where
  -- Whether a command runs for the capture.
  abbrev pub runs_for : String → CommandLedgerRecord V → Bool
  runs_for capture row =
      same_option str_eq row.capture_id (some capture) && is_in_progress row.state

  pub settled_row : TerminalWrite V → CommandLedgerRecord V → CommandLedgerRecord V
  settled_row w row = record row {
    state = if same_state w.state Model.succeeded then succeeded else failed;
    updated_at_ms = w.terminal_at_ms;
    reply = some w.result;
    error_code = w.error_code;
  }

  -- `UPDATE command_ledger ... WHERE capture_id=?1 AND operation_state='IN_PROGRESS'`.
  pub settle_ledger :
      String → TerminalWrite V → List (CommandLedgerRecord V) → List (CommandLedgerRecord V)
  unfolding settled_row
  settle_ledger capture w [] = []
  settle_ledger capture w (row ∷ rows) =
      (if runs_for capture row then settled_row w row else row) ∷ settle_ledger capture w rows

  pub commit_outcome :
      String → TerminalWrite V → JobRecord V → TerminalOutcome V → Tables V → Tables V
  unfolding settle_ledger
  commit_outcome capture w job (won row) t = record t {
    jobs = insert capture job t.jobs;
    ledger = settle_ledger capture w t.ledger;
  }
  commit_outcome capture w job _ t = t

  pub terminal_blocking :
      Json V
      → String
      → TerminalWrite V
      → Bool
      → Option (List JobState)
      → Tables V
      → Result (Tables V × TerminalOutcome V)
  unfolding load_job_required commit_outcome
  terminal_blocking J capture w cancellation expected_states t =
      load_job_required capture t >>= λ before.
      let out = terminal J w cancellation expected_states before in
      out.1 >>= λ outcome. ok (commit_outcome capture w out.0 outcome t, outcome)

  settled_row-quiet :
      (capture : String) (w : TerminalWrite V) (row : CommandLedgerRecord V)
      → runs_for capture (settled_row w row) ≡ false
  unfolding settled_row
  settled_row-quiet capture w row = elim (Bool-cases (same_state w.state Model.succeeded)) [
    | inl good ↦ rw good (ground arith)
    | inr bad ↦ rw bad (ground arith)
  ]

  settle_ledger-count :
      (capture : String) (w : TerminalWrite V) (rows : List (CommandLedgerRecord V))
      → count (runs_for capture) (settle_ledger capture w rows) ≡ 0
  unfolding settle_ledger
  settle_ledger-count capture w [] = refl
  settle_ledger-count capture w (row ∷ rows) = elim (Bool-cases (runs_for capture row)) [
    | inl runs ↦
        rw (settle_ledger, runs, settled_row-quiet capture w row)
          (omega (arith, settle_ledger-count capture w rows))
    | inr other ↦
        rw (settle_ledger, other, other) (omega (arith, settle_ledger-count capture w rows))
  ]

  -- When a terminal write wins its row, the transaction stores the row and leaves no command that runs
  -- for the capture: every one is settled in the same transaction.
  pub terminal_blocking-settles :
      (J : Json V) (capture : String) (w : TerminalWrite V) (cancellation : Bool)
      (expected_states : Option (List JobState)) (t : Tables V) (before row : JobRecord V)
      → lookup capture t.jobs ≡ some before
      → (terminal J w cancellation expected_states before).1 ≡ ok (won row)
      → let after = (terminal J w cancellation expected_states before).0 in
        (t' : Tables V) × (terminal_blocking J capture w cancellation expected_states t
          ≡ ok (t', won row))
        × (lookup capture t'.jobs ≡ some after)
        × (count (runs_for capture) t'.ledger ≡ 0)
  unfolding terminal_blocking load_job_required commit_outcome
  terminal_blocking-settles J capture w cancellation expected_states t before row here wins =
      let after = (terminal J w cancellation expected_states before).0 in
      let t' : Tables V = record t {
        jobs = insert capture after t.jobs;
        ledger = settle_ledger capture w t.ledger;
      } in
      (
        t',
        rw (terminal_blocking, load_job_required, here, wins) refl,
        lookup-insert_self capture after t.jobs,
        settle_ledger-count capture w t.ledger,
      )
