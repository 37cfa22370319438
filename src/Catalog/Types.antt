-- ===== src/Catalog/Types.antt =====
-- The records of src/catalog.rs. JSON values belong to a library, which is an interface here. A row
-- keeps the columns that the transactions read or write, less the bounded error message, which none
-- of them reads. Times are milliseconds since the epoch.
use camera_adapter.Base.{ℕ, String, ◌≡◌, Bool, true, Option, List}
use camera_adapter.Base.Map.{Map}
use camera_adapter.Model.{JobState}

-- What the code uses of `serde_json::Value`: `is_object`, `get(..).and_then(as_str)`,
-- `get(..).and_then(as_u64)` and equality.
pub record Json (V : Type 0) : Type 0 where
  pub is_object : V → Bool
  pub get_str : V → String → Option String
  pub get_u64 : V → String → Option ℕ
  pub equal : V → V → Bool
  pub equal-sound : (a b : V) → equal a b ≡ true → a ≡ b
  pub equal-refl : (a : V) → equal a a ≡ true

pub record TerminalWrite (V : Type 0) : Type 0 where
  pub state : JobState
  pub result : V
  pub error_code : Option String
  pub error_message : Option String
  pub terminal_at_ms : ℕ

pub record PendingInstall (V : Type 0) : Type 0 where
  pub partial_path : String
  pub final_path : String
  pub expected_sha256 : String
  pub expected_bytes : ℕ
  pub success : TerminalWrite V
  pub changed_at_ms : ℕ

pub record JobDeadlines : Type 0 where
  pub terminal_at_ms : ℕ
  pub queue_at_ms : Option ℕ
  pub capture_at_ms : ℕ
  pub encode_at_ms : ℕ
  pub persist_at_ms : ℕ

pub record JobRecord (V : Type 0) : Type 0 where
  pub capture_id : String
  pub instance_id : String
  pub request_id : Option String
  pub request_hash : String
  pub state : JobState
  pub deadlines : JobDeadlines
  pub origin_correlation_id : Option String
  pub group_id : Option String
  pub partial_path : Option String
  pub final_path : Option String
  pub expected_sha256 : Option String
  pub expected_bytes : Option ℕ
  pub installed_sha256 : Option String
  pub installed_bytes : Option ℕ
  pub updated_at_ms : ℕ
  pub queued_at_ms : Option ℕ
  pub terminal_at_ms : Option ℕ
  pub install_started : Bool
  pub terminal_result : Option V
  pub error_code : Option String
  pub pending_success : Option (TerminalWrite V)

pub data StateCasOutcome (V : Type 0) : Type 0 where
  changed not_changed : JobRecord V → StateCasOutcome V

pub data TerminalOutcome (V : Type 0) : Type 0 where
  won already_terminal installation_won : JobRecord V → TerminalOutcome V

pub data InstallOutcome (V : Type 0) : Type 0 where
  started already_started wrong_state : JobRecord V → InstallOutcome V

pub record LedgerKey : Type 0 where
  pub instance_id : String
  pub verb : String
  pub request_id : String

pub record NewJob : Type 0 where
  pub capture_id : String
  pub instance_id : String
  pub ledger_key : Option LedgerKey
  pub request_hash : String
  pub deadlines : JobDeadlines
  pub origin_correlation_id : Option String
  pub accepted_at_ms : ℕ
  pub group_id : Option String

pub data LedgerState : Type 0 where
  in_progress succeeded failed outcome_unknown : LedgerState

pub record CommandLedgerRecord (V : Type 0) : Type 0 where
  pub key : LedgerKey
  pub request_hash : String
  pub state : LedgerState
  pub updated_at_ms : ℕ
  pub capture_id : Option String
  pub reply : Option V
  pub error_code : Option String

-- A row of `schedule_occurrences`.
pub record Occurrence : Type 0 where
  pub instance_id : String
  pub schedule_id : String
  pub intended_fire_time_ms : ℕ
  pub capture_id : String

-- The tables, with the jobs by their primary key.
pub record Tables (V : Type 0) : Type 0 where
  pub jobs : Map (JobRecord V)
  pub ledger : List (CommandLedgerRecord V)
  pub occurrences : List Occurrence

pub data AcceptJobOutcome (V : Type 0) : Type 0 where
  inserted existing : JobRecord V → AcceptJobOutcome V
  conflict : AcceptJobOutcome V

pub data BeginCommandOutcome (V : Type 0) : Type 0 where
  command_started command_existing : CommandLedgerRecord V → BeginCommandOutcome V
  command_conflict : BeginCommandOutcome V
