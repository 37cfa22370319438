-- ===== src/Catalog/Ledger/Tests.antt =====
-- The theorems on acceptance in src/catalog.rs at concrete inputs.
use camera_adapter.Base.{ℕ, String, ◌≡◌, refl, [], ◌∷◌, Option, none, some}
use camera_adapter.Base.Map.{lookup}
use camera_adapter.Error.{ok}
use camera_adapter.Catalog.Types.{
  JobRecord, LedgerKey, NewJob, CommandLedgerRecord, Tables, inserted, existing, succeeded, failed,
}
use camera_adapter.Catalog.Ledger.{
  job_row, load_ledger, find_request, find_occurrence, accept_job_blocking,
  accept_scheduled_job_blocking, complete_row, update_ledger, complete_command_blocking,
}
use camera_adapter.Catalog.Ledger.Insertion.{ledger_row, accepted_tables}
use camera_adapter.Catalog.Ledger.Acceptance.{accept_job_blocking-retry}
use camera_adapter.Catalog.Ledger.Commands.{complete_command_blocking-once}
use camera_adapter.Catalog.Ledger.Occurrences.{scheduled_tables, accept_scheduled_job_blocking-once}

abbrev empty : Tables ℕ
empty = record { jobs = []; ledger = []; occurrences = [] }

abbrev capture_key : LedgerKey
capture_key = record { instance_id = "cam"; verb = "capture"; request_id = "r1" }

abbrev submit_key : LedgerKey
submit_key = record { instance_id = "cam"; verb = "submit"; request_id = "r1" }

abbrev job_of : String → Option LedgerKey → String → NewJob
job_of capture key hash = record {
  capture_id = capture;
  instance_id = "cam";
  ledger_key = key;
  request_hash = hash;
  origin_correlation_id = none;
  deadlines = record {
    terminal_at_ms = 90;
    queue_at_ms = none;
    capture_at_ms = 50;
    encode_at_ms = 60;
    persist_at_ms = 70;
  };
  accepted_at_ms = 1;
  group_id = none;
}

abbrev job : NewJob
job = job_of "c1" (some capture_key) "h1"

no_ledger : (key : LedgerKey) → load_ledger {V = ℕ} key [] ≡ none
unfolding load_ledger
no_ledger key = refl

no_request : find_request {V = ℕ} "cam" "r1" [] ≡ none
unfolding find_request
no_request = refl

no_job : lookup {V = JobRecord ℕ} "c1" [] ≡ none
unfolding lookup
no_job = refl

accept_job_blocking-retry_example :
    let t' = accepted_tables capture_key job empty in
    (accept_job_blocking job empty ≡ ok (t', inserted (job_row job)))
    × (accept_job_blocking job t' ≡ ok (t', existing (job_row job)))
accept_job_blocking-retry_example =
    accept_job_blocking-retry capture_key job empty refl (no_ledger capture_key) no_request no_job

abbrev running : Tables ℕ
running = record empty { ledger = ledger_row capture_key "h1" 3 none ∷ [] }

running_row : load_ledger capture_key running.ledger ≡ some (ledger_row capture_key "h1" 3 none)
unfolding load_ledger
running_row = refl

complete_command_blocking-once_example :
    let done : CommandLedgerRecord ℕ =
      complete_row succeeded 7 none 5 (ledger_row capture_key "h1" 3 none) in
    let t' : Tables ℕ = record running {
      ledger = update_ledger capture_key (complete_row succeeded 7 none 5) running.ledger;
    } in
    (complete_command_blocking capture_key succeeded 7 none 5 running ≡ ok (t', done))
    × ((t'' : Tables ℕ) × (complete_command_blocking capture_key failed 8 (some "E") 6 t'
          ≡ ok (t'', done)))
complete_command_blocking-once_example =
    complete_command_blocking-once capture_key succeeded failed 7 8 none (some "E") 5 6 running
      (ledger_row capture_key "h1" 3 none) running_row refl refl

no_occurrence : find_occurrence "cam" "s" 60 [] ≡ none
unfolding find_occurrence
no_occurrence = refl

accept_scheduled_job_blocking-once_example :
    let first = job_of "c1" none "h1" in
    let t' = scheduled_tables first "s" 60 empty in
    (accept_scheduled_job_blocking first "s" 60 empty ≡ ok (t', inserted (job_row first)))
    × (accept_scheduled_job_blocking (job_of "c2" none "h2") "s" 60 t'
        ≡ ok (t', existing (job_row first)))
accept_scheduled_job_blocking-once_example =
    accept_scheduled_job_blocking-once (job_of "c1" none "h1") (job_of "c2" none "h2") "s" 60 empty
      refl no_occurrence no_job refl
