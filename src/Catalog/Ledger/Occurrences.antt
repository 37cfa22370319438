-- ===== src/Catalog/Ledger/Occurrences.antt =====
-- Scheduled occurrences in src/catalog.rs, offered more than once.
use camera_adapter.Base.{ℕ, String, ◌≡◌, refl, false, ◌∷◌, none, some, arith, eq_refl}
use camera_adapter.Base.Map.{lookup, insert, lookup-insert_self}
use camera_adapter.Error.{ok}
use camera_adapter.Catalog.Types.{NewJob, Tables, inserted, existing}
use camera_adapter.Catalog.Ledger.{
  job_row, load_job_required, find_occurrence, insert_job, insert_occurrence, request_taken,
  accept_scheduled_job_blocking,
}

module _ {V : Type 0} where
  -- The tables with a scheduled job and its occurrence.
  pub scheduled_tables : NewJob → String → ℕ → Tables V → Tables V
  unfolding job_row
  scheduled_tables job schedule intended t = record t {
    jobs = insert job.capture_id (job_row job) t.jobs;
    occurrences =
        record {
          instance_id = job.instance_id;
          schedule_id = schedule;
          intended_fire_time_ms = intended;
          capture_id = job.capture_id;
        }
        ∷ t.occurrences;
  }

  scheduled-new :
      (job : NewJob) (schedule : String) (intended : ℕ) (t : Tables V)
      → job.ledger_key ≡ none
      → find_occurrence job.instance_id schedule intended t.occurrences ≡ none
      → lookup job.capture_id t.jobs ≡ none
      → accept_scheduled_job_blocking job schedule intended t
        ≡ ok (scheduled_tables job schedule intended t, inserted (job_row job))
  unfolding accept_scheduled_job_blocking insert_occurrence insert_job load_job_required
      scheduled_tables
  scheduled-new job schedule intended t keyless free new =
      let no_request : request_taken job t ≡ false = rw keyless refl in
      rw
        (
          accept_scheduled_job_blocking,
          free,
          new,
          insert_occurrence,
          insert_job,
          no_request,
          load_job_required,
          lookup-insert_self job.capture_id (job_row job) t.jobs,
        )
        refl

  scheduled-again :
      (job other : NewJob) (schedule : String) (intended : ℕ) (t : Tables V)
      → other.instance_id ≡ job.instance_id
      → accept_scheduled_job_blocking other schedule intended
          (scheduled_tables job schedule intended t)
        ≡ ok (scheduled_tables job schedule intended t, existing (job_row job))
  unfolding accept_scheduled_job_blocking load_job_required scheduled_tables find_occurrence
  scheduled-again job other schedule intended t camera =
      let t' = scheduled_tables job schedule intended t in
      let found : find_occurrence other.instance_id schedule intended t'.occurrences
          ≡ some job.capture_id =
        rw (scheduled_tables, camera, find_occurrence, eq_refl job.instance_id, eq_refl schedule)
          (ground arith) in
      rw
        (
          accept_scheduled_job_blocking,
          found,
          load_job_required,
          scheduled_tables,
          lookup-insert_self job.capture_id (job_row job) t.jobs,
        )
        refl

  -- A scheduled occurrence of a camera that is new is accepted with its job, and any other job for the
  -- same occurrence, with whatever capture identifier and configuration, finds the first one.
  pub accept_scheduled_job_blocking-once :
      (job other : NewJob) (schedule : String) (intended : ℕ) (t : Tables V)
      → job.ledger_key ≡ none
      → find_occurrence job.instance_id schedule intended t.occurrences ≡ none
      → lookup job.capture_id t.jobs ≡ none
      → other.instance_id ≡ job.instance_id
      → let t' = scheduled_tables job schedule intended t in
        (accept_scheduled_job_blocking job schedule intended t ≡ ok (t', inserted (job_row job)))
        × (accept_scheduled_job_blocking other schedule intended t'
            ≡ ok (t', existing (job_row job)))
  accept_scheduled_job_blocking-once job other schedule intended t keyless free new camera = (
    scheduled-new job schedule intended t keyless free new,
    scheduled-again job other schedule intended t camera,
  )
