-- ===== src/Catalog/Ledger.antt =====
-- The transactions of src/catalog.rs that accept captures and commands. A transaction
-- returns the tables that it commits; an error rolls back.
pub mod Insertion
pub mod Acceptance
pub mod Commands
pub mod Occurrences
mod Tests
use camera_adapter.Base.{
  ℕ, String, Bool, true, false, ◌&&◌, List, [], ◌∷◌, Option, none, some, if◌then◌else◌, str_eq,
  ◌==◌,
}
use camera_adapter.Base.Map.{Map, lookup, insert}
use camera_adapter.Error.{catalog, sqlite, Result, ok, err, ◌>>=◌, ◌>>◌, reject_if, ok_or}
use camera_adapter.Model.{accepted}
use camera_adapter.Catalog.Types.{
  JobRecord, LedgerKey, NewJob, LedgerState, in_progress, succeeded, failed, CommandLedgerRecord,
  Occurrence, Tables, AcceptJobOutcome, inserted, existing, conflict, BeginCommandOutcome,
  command_started, command_existing, command_conflict,
}
use camera_adapter.Catalog.Writes.{is_some, same_option}

abbrev pub same_key : LedgerKey → LedgerKey → Bool
same_key a b =
    str_eq a.instance_id b.instance_id && (str_eq a.verb b.verb && str_eq a.request_id b.request_id)

abbrev pub is_in_progress : LedgerState → Bool
is_in_progress in_progress = true
is_in_progress _ = false

-- The row of a new job, in the stage `ACCEPTED`.
pub job_row : {V : Type 0} → NewJob → JobRecord V
job_row job = record {
  capture_id = job.capture_id;
  instance_id = job.instance_id;
  request_id = elim job.ledger_key [ none ↦ none | some key ↦ some key.request_id ];
  request_hash = job.request_hash;
  state = accepted;
  deadlines = job.deadlines;
  origin_correlation_id = job.origin_correlation_id;
  group_id = job.group_id;
  partial_path = none;
  final_path = none;
  expected_sha256 = none;
  expected_bytes = none;
  installed_sha256 = none;
  installed_bytes = none;
  updated_at_ms = job.accepted_at_ms;
  queued_at_ms = none;
  terminal_at_ms = none;
  install_started = false;
  terminal_result = none;
  error_code = none;
  pending_success = none;
}

pub find_occurrence : String → String → ℕ → List Occurrence → Option String
find_occurrence instance_name schedule intended [] = none
find_occurrence instance_name schedule intended (o ∷ os) =
    if str_eq o.instance_id instance_name
      && (str_eq o.schedule_id schedule && o.intended_fire_time_ms == intended)
    then some o.capture_id
    else find_occurrence instance_name schedule intended os

module _ {V : Type 0} where
  unfoldable pub load_ledger :
      LedgerKey → List (CommandLedgerRecord V) → Option (CommandLedgerRecord V)
  load_ledger key [] = none
  load_ledger key (row ∷ rows) = if same_key row.key key then some row else load_ledger key rows

  unfoldable pub load_job_required : String → Tables V → Result (JobRecord V)
  load_job_required capture t = ok_or (lookup capture t.jobs) (catalog "capture does not exist")

  -- `SELECT capture_id FROM jobs WHERE instance=?1 AND request_id=?2`.
  pub find_request : String → String → Map (JobRecord V) → Option String
  find_request instance_name request [] = none
  find_request instance_name request ((capture, job) ∷ rest) =
      if str_eq job.instance_id instance_name && same_option str_eq job.request_id (some request)
      then some capture
      else find_request instance_name request rest

  -- `insert_ledger` under the primary key of the ledger.
  pub insert_ledger : LedgerKey → String → ℕ → Option String → Tables V → Result (Tables V)
  unfolding load_ledger
  insert_ledger key hash at capture t = do
    reject_if (is_some (load_ledger key t.ledger))
        (sqlite "UNIQUE constraint failed: command_ledger")
    ok (record t {
      ledger =
          record {
            key = key;
            request_hash = hash;
            state = in_progress;
            updated_at_ms = at;
            capture_id = capture;
            reply = none;
            error_code = none;
          }
          ∷ t.ledger;
    })

  -- `UNIQUE(instance,request_id)`, in which an absent request never collides.
  abbrev pub request_taken : NewJob → Tables V → Bool
  request_taken job t = elim job.ledger_key [
    | none ↦ false
    | some key ↦ is_some (find_request job.instance_id key.request_id t.jobs)
  ]

  pub insert_job : NewJob → Tables V → Result (Tables V)
  unfolding job_row find_request
  insert_job job t = do
    reject_if (is_some (lookup job.capture_id t.jobs))
        (sqlite "UNIQUE constraint failed: jobs.capture_id")
    reject_if (request_taken job t) (sqlite "UNIQUE constraint failed: jobs.request_id")
    ok (record t { jobs = insert job.capture_id (job_row job) t.jobs })

  -- The insertion that ends both acceptances.
  pub insert_and_load : NewJob → Tables V → Result (Tables V × AcceptJobOutcome V)
  unfolding insert_job load_job_required
  insert_and_load job t = do
    t' ← insert_job job t
    row ← load_job_required job.capture_id t'
    ok (t', inserted row)

  -- The answer to a request that has a row with `hash`.
  abbrev pub arbitrate : String → NewJob → JobRecord V → AcceptJobOutcome V
  arbitrate hash job row = if str_eq hash job.request_hash then existing row else conflict

  -- A ledger row answers the request: the job that it names, or a conflict.
  pub from_ledger :
      CommandLedgerRecord V → NewJob → Tables V → Result (Tables V × AcceptJobOutcome V)
  unfolding load_job_required
  from_ledger row job t =
      if str_eq row.request_hash job.request_hash
      then (ok_or row.capture_id (catalog "capture ledger exists without its capture_id")
          >>= λ capture. load_job_required capture t >>= λ old. ok (t, existing old))
      else ok (t, conflict)

  -- The same request under another verb: its job answers, and the ledger learns the new key.
  pub from_capture : LedgerKey → String → NewJob → Tables V → Result (Tables V × AcceptJobOutcome V)
  unfolding load_job_required insert_ledger
  from_capture key capture job t = load_job_required capture t >>= λ old.
      if str_eq old.request_hash job.request_hash
      then (insert_ledger key job.request_hash job.accepted_at_ms (some capture) t >>= λ t'.
          ok (t', existing old))
      else ok (t, conflict)

  pub insert_keyed : LedgerKey → NewJob → Tables V → Result (Tables V × AcceptJobOutcome V)
  unfolding insert_ledger insert_and_load
  insert_keyed key job t = do
    t' ← insert_ledger key job.request_hash job.accepted_at_ms (some job.capture_id) t
    insert_and_load job t'

  pub accept_job_blocking : NewJob → Tables V → Result (Tables V × AcceptJobOutcome V)
  unfolding load_ledger find_request from_ledger from_capture insert_keyed insert_and_load
  accept_job_blocking job t = elim job.ledger_key [
    | none ↦ elim (lookup job.capture_id t.jobs) [
      | some row ↦ ok (t, arbitrate row.request_hash job row)
      | none ↦ insert_and_load job t
    ]
    | some key ↦ elim (load_ledger key t.ledger) [
      | some row ↦ from_ledger row job t
      | none ↦ elim (find_request job.instance_id key.request_id t.jobs) [
        | some capture ↦ from_capture key capture job t
        | none ↦ insert_keyed key job t
      ]
    ]
  ]

  pub insert_occurrence : NewJob → String → ℕ → Tables V → Result (Tables V × AcceptJobOutcome V)
  unfolding insert_job load_job_required
  insert_occurrence job schedule intended t = do
    t' ← insert_job job t
    row ← load_job_required job.capture_id t'
    ok (
      record t' {
        occurrences =
            record {
              instance_id = job.instance_id;
              schedule_id = schedule;
              intended_fire_time_ms = intended;
              capture_id = job.capture_id;
            }
            ∷ t'.occurrences;
      },
      inserted row,
    )

  pub accept_scheduled_job_blocking :
      NewJob → String → ℕ → Tables V → Result (Tables V × AcceptJobOutcome V)
  unfolding find_occurrence insert_occurrence load_job_required
  accept_scheduled_job_blocking job schedule intended t =
      elim (find_occurrence job.instance_id schedule intended t.occurrences) [
        | some capture ↦ load_job_required capture t >>= λ old. ok (t, existing old)
        | none ↦
            if is_some (lookup job.capture_id t.jobs)
            then ok (t, conflict)
            else insert_occurrence job schedule intended t
      ]

  pub insert_command : LedgerKey → String → ℕ → Tables V → Result (Tables V × BeginCommandOutcome V)
  unfolding load_ledger insert_ledger
  insert_command key hash at t = do
    t' ← insert_ledger key hash at none t
    row ← ok_or (load_ledger key t'.ledger) (catalog "inserted ledger disappeared")
    ok (t', command_started row)

  pub begin_command_blocking :
      LedgerKey → String → ℕ → Tables V → Result (Tables V × BeginCommandOutcome V)
  unfolding load_ledger insert_command
  begin_command_blocking key hash at t = elim (load_ledger key t.ledger) [
    | some row ↦
        ok (t, if str_eq row.request_hash hash then command_existing row else command_conflict)
    | none ↦ insert_command key hash at t
  ]

  -- The update of the one row that the primary key and the state select.
  pub update_ledger :
      LedgerKey
      → (CommandLedgerRecord V → CommandLedgerRecord V)
      → List (CommandLedgerRecord V)
      → List (CommandLedgerRecord V)
  update_ledger key f [] = []
  update_ledger key f (row ∷ rows) =
      (if same_key row.key key && is_in_progress row.state then f row else row)
      ∷ update_ledger key f rows

  pub complete_row :
      LedgerState → V → Option String → ℕ → CommandLedgerRecord V → CommandLedgerRecord V
  complete_row state reply error at row = record row {
    state = state;
    reply = some reply;
    error_code = error;
    updated_at_ms = at;
  }

  -- The row is selected by its primary key, so the check after the update cannot fail.
  pub complete_command_blocking :
      LedgerKey
      → LedgerState
      → V
      → Option String
      → ℕ
      → Tables V
      → Result (Tables V × CommandLedgerRecord V)
  unfolding update_ledger load_ledger complete_row
  complete_command_blocking key state reply error at t = do
    let rows = update_ledger key (complete_row state reply error at) t.ledger
    row ← ok_or (load_ledger key rows) (catalog "command ledger does not exist")
    ok (record t { ledger = rows }, row)
